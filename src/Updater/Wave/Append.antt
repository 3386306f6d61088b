-- ===== src/Updater/Wave/Append.antt =====
-- Two groups of runs that are closed one after the other.
use ubuntu_auto_update.Base.{
  ℕ, ◌+◌, ◌≡◌, refl, sym, ap, ◌∙◌, subst, ◌≢◌, ◌⊎◌, inl, inr, List, [], ◌∷◌, ◌++◌, some, arith, All,
}
use ubuntu_auto_update.Runs.{running, succeeded, failed, Runs}
use ubuntu_auto_update.Updater.Command.Rows.{status_of, Closes, found_of_status}
use ubuntu_auto_update.Updater.Wave.Defs.{Job}
use ubuntu_auto_update.Updater.Wave.Settle.{Elem, Apart, IsRunning, Statuses, count_failed}
use ubuntu_auto_update.Updater.Wave.Invariant.{IsSettled, status_of_rows}

All-of_Elem {κ} : (P : Job → Type κ) (xs : List Job) → ((j : Job) → Elem j xs → P j) → All P xs
All-of_Elem P [] f = tt
All-of_Elem P (x ∷ xs) f = (f x (inl refl), All-of_Elem P xs (λ j m. f j (inr m)))

Elem_of_All {κ} : (P : Job → Type κ) (xs : List Job) (j : Job) → All P xs → Elem j xs → P j
Elem_of_All P [] j h m = elim m [ ]
Elem_of_All P (x ∷ xs) j (p, h) (inl e) = subst P (sym e) p
Elem_of_All P (x ∷ xs) j (p, h) (inr m) = Elem_of_All P xs j h m

Elem-append : (xs ys : List Job) (j : Job) → Elem j (xs ++ ys) → Elem j xs ⊎ Elem j ys
Elem-append [] ys j m = inr m
Elem-append (x ∷ xs) ys j (inl e) = inl (inl e)
Elem-append (x ∷ xs) ys j (inr m) = elim (Elem-append xs ys j m) [
  | inl a ↦ inl (inr a)
  | inr b ↦ inr b
]

Elem-append_right : (xs ys : List Job) (j : Job) → Elem j ys → Elem j (xs ++ ys)
Elem-append_right [] ys j m = m
Elem-append_right (x ∷ xs) ys j m = inr (Elem-append_right xs ys j m)

pub All-append_right {κ} : (P : Job → Type κ) (xs ys : List Job) → All P (xs ++ ys) → All P ys
All-append_right P [] ys h = h
All-append_right P (x ∷ xs) ys (_, h) = All-append_right P xs ys h

pub All-append_left {κ} : (P : Job → Type κ) (xs ys : List Job) → All P (xs ++ ys) → All P xs
All-append_left P [] ys h = tt
All-append_left P (x ∷ xs) ys (p, h) = (p, All-append_left P xs ys h)

pub Apart-append_left : (xs ys : List Job) → Apart (xs ++ ys) → Apart xs
Apart-append_left [] ys a = tt
Apart-append_left (x ∷ xs) ys (h, a) = (All-append_left _ xs ys h, Apart-append_left xs ys a)

pub Apart-append_right : (xs ys : List Job) → Apart (xs ++ ys) → Apart ys
Apart-append_right [] ys a = a
Apart-append_right (x ∷ xs) ys (h, a) = Apart-append_right xs ys a

Apart-append_cross :
    (xs ys : List Job) (x y : Job) → Apart (xs ++ ys) → Elem x xs → Elem y ys → y.run_id ≢ x.run_id
Apart-append_cross [] ys x y a m n = elim m [ ]
Apart-append_cross (z ∷ xs) ys x y (h, a) (inl e) n =
    let apart =
      Elem_of_All (λ j. j.run_id ≢ z.run_id) (xs ++ ys) y h (Elem-append_right xs ys y n) in
    λ q. apart (q ∙ ap (λ j. j.run_id) e)
Apart-append_cross (z ∷ xs) ys x y (h, a) (inr m) n = Apart-append_cross xs ys x y a m n

count_failed-append :
    (σ : Statuses) (xs ys : List Job)
    → count_failed σ (xs ++ ys) ≡ count_failed σ xs + count_failed σ ys
count_failed-append σ [] ys = omega arith
count_failed-append σ (x ∷ xs) ys = rw (count_failed-append σ xs ys) (omega arith)

count_failed_same :
    (σ σ' : Statuses) (xs : List Job)
    → ((j : Job) → Elem j xs → σ' j.run_id ≡ σ j.run_id)
    → count_failed σ' xs ≡ count_failed σ xs
count_failed_same σ σ' [] f = refl
count_failed_same σ σ' (x ∷ xs) f =
    rw (f x (inl refl), count_failed_same σ σ' xs (λ j m. f j (inr m))) refl

module _ (xs ys : List Job) {t u : Runs} {f : ℕ} (distinct : Apart (xs ++ ys))
    (a : IsSettled xs t u f) where
  -- While the first group was closed, the second group stayed as it was.
  pub second_kept : (j : Job) → Elem j ys → status_of u j.run_id ≡ status_of t j.run_id
  second_kept j m = status_of_rows t u j.run_id (
      a.untouched j.run_id
        (All-of_Elem _ xs (λ x n q. Apart-append_cross xs ys x j distinct n m (sym q))))

  pub second-IsRunning : All (IsRunning (status_of t)) ys → All (IsRunning (status_of u)) ys
  second-IsRunning h =
      All-of_Elem _ ys (λ j m. second_kept j m ∙ Elem_of_All (IsRunning (status_of t)) ys j h m)

  pub IsSettled-append : {v : Runs} {g : ℕ} → IsSettled ys u v g → IsSettled (xs ++ ys) t v (f + g)
  IsSettled-append {v} {g} b = record {
    closed = λ j m. elim (Elem-append xs ys j m) [
      | inl left ↦
          subst (λ s. (s ≡ some succeeded) ⊎ (s ≡ some failed)) (sym (first_kept j left))
            (a.closed j left)
      | inr right ↦ b.closed j right
    ];
    counted =
        rw
          (
            count_failed-append (status_of v) xs ys,
            count_failed_same (status_of u) (status_of v) xs first_kept,
            ← a.counted,
            ← b.counted,
          )
          refl;
    untouched = λ k h.
        b.untouched k (All-append_right _ xs ys h) ∙ a.untouched k (All-append_left _ xs ys h);
  }
    where
      first_kept : (j : Job) → Elem j xs → status_of v j.run_id ≡ status_of u j.run_id
      first_kept j m = status_of_rows u v j.run_id (
          b.untouched j.run_id
            (All-of_Elem _ ys (λ y n. Apart-append_cross xs ys j y distinct m n)))

pub Closes-IsSettled :
    {j : Job} {t u : Runs}
    → status_of t j.run_id ≡ some running
    → Closes j.run_id failed t u
    → IsSettled (j ∷ []) t u 1
Closes-IsSettled {j} {t} {u} was c = record {
  closed = λ i m. inr (only i m);
  counted = rw now refl;
  untouched = λ k (ne, _). c.others k (λ e. ne (sym e));
}
  where
    now : status_of u j.run_id ≡ some failed
    now = let (r, found, _) = found_of_status t.rows j.run_id running was in c.closed r found

    only : (i : Job) → Elem i (j ∷ []) → status_of u i.run_id ≡ some failed
    only i (inl e) = rw e now
    only i (inr m) = absurd m
