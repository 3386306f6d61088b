-- ===== src/Webhooks/Retries.antt =====
-- A delivery ends, and how.
use ubuntu_auto_update.Base.{
  arith, ℕ, zero, suc, ◌+◌, ◌*◌, ◌-◌, ◌≤◌, ◌≡◌, refl, sym, ap, ◌∙◌, ◌⊎◌, inl, inr, Bool, true,
  false, not, [], ◌∷◌, Option, if◌then◌else◌, Error, is_some,
}
use ubuntu_auto_update.Webhooks.Defs.{Delivery, base_backoff, deliver_from, deliver}

-- How many of the `n` attempts from `k` on go through.
unfoldable pub successes : (ℕ → Option Error) → ℕ → ℕ → ℕ
successes send k zero = 0
successes send k (suc n) = (if is_some (send k) then 0 else 1) + successes send (suc k) n

-- The delivery `r` that began with the attempt `k`, with `left` to follow.
pub record Ended (send : ℕ → Option Error) (cancelled : ℕ → Bool) (left k : ℕ) (r : Delivery)
    : Type 0 where
  pub from_first : k ≤ r.last
  pub to_last : r.last ≤ k + left
  pub outcome : r.delivered ≡ not (is_some (send r.last))
  pub failed_before : successes send k (r.last - k) ≡ 0
  pub why : (r.delivered ≡ true) ⊎ ((cancelled r.last ≡ true) ⊎ (r.last ≡ k + left))

none_between : (send : ℕ → Option Error) (k n : ℕ) → n ≡ 0 → successes send k n ≡ 0
unfolding successes
none_between send k n e = ap (successes send k) e

-- One attempt in front of the rest of the delivery.
attempt-Ended :
    (send : ℕ → Option Error) (cancelled : ℕ → Bool) (left k backoff : ℕ) (rest : Delivery)
    → Ended send cancelled left (suc k) rest
    → Ended send cancelled (suc left) k (
        if not (is_some (send k))
        then record { last = k; delivered = true; pauses = [] }
        else if cancelled k
        then record { last = k; delivered = false; pauses = [] }
        else record rest { pauses = backoff ∷ rest.pauses })
unfolding successes
attempt-Ended send cancelled left k backoff rest later =
    by_answer (is_some (send k)) (cancelled k) refl refl
  where
    step : rest.last - k ≡ suc (rest.last - suc k)
    step = omega (arith, later.from_first)

    by_answer :
        (failed stop : Bool)
        → is_some (send k) ≡ failed
        → cancelled k ≡ stop
        → Ended send cancelled (suc left) k (
            if not failed
            then record { last = k; delivered = true; pauses = [] }
            else if stop
            then record { last = k; delivered = false; pauses = [] }
            else record rest { pauses = backoff ∷ rest.pauses })
    by_answer false stop e c = record {
      from_first = omega arith;
      to_last = omega arith;
      outcome = ap not (sym e);
      failed_before = none_between send k (k - k) (omega arith);
      why = inl refl;
    }
    by_answer true true e c = record {
      from_first = omega arith;
      to_last = omega arith;
      outcome = ap not (sym e);
      failed_before = none_between send k (k - k) (omega arith);
      why = inr (inl c);
    }
    by_answer true false e c = record {
      from_first = omega (arith, later.from_first);
      to_last = omega (arith, later.to_last);
      outcome = later.outcome;
      failed_before = ap (successes send k) step ∙ first_failed;
      why = elim later.why [
        | inl done ↦ inl done
        | inr (inl ctx) ↦ inr (inl ctx)
        | inr (inr all) ↦ inr (inr (omega (arith, all)))
      ];
    }
      where
        first_failed : successes send k (suc (rest.last - suc k)) ≡ 0
        first_failed = ground (arith, e, later.failed_before)

deliver_from-Ended :
    (send : ℕ → Option Error) (cancelled : ℕ → Bool) (left k backoff : ℕ)
    → Ended send cancelled left k (deliver_from send cancelled left k backoff)
unfolding deliver_from
deliver_from-Ended send cancelled zero k backoff = record {
  from_first = omega arith;
  to_last = omega arith;
  outcome = refl;
  failed_before = none_between send k (k - k) (omega arith);
  why = inr (inr (omega arith));
}
deliver_from-Ended send cancelled (suc left) k backoff =
    attempt-Ended send cancelled left k backoff _
      (deliver_from-Ended send cancelled left (suc k) (backoff * 2))

-- A delivery ends: it makes at least one and at most three attempts, it counts as delivered exactly
-- when the last one went through, none before it did, and where it is not delivered the context
-- ended in the pause after the last attempt or all three were made.
pub deliver-Ended :
    (send : ℕ → Option Error) (cancelled : ℕ → Bool)
    → Ended send cancelled 2 1 (deliver send cancelled)
unfolding deliver
deliver-Ended send cancelled = deliver_from-Ended send cancelled 2 1 base_backoff
