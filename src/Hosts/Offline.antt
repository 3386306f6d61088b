-- ===== src/Hosts/Offline.antt =====
-- The offline sweep announces a host once for each time that it goes offline.
use ubuntu_auto_update.Base.{
  arith, ℕ, suc, ◌+◌, ◌≤◌, ◌≡◌, Bool, not, ◌&&◌, List, [], ◌∷◌, none, Text, text_eq, if◌then◌else◌,
  Error, Result, ok, err, is_some, All,
}
use ubuntu_auto_update.Hosts.Defs.{
  Host, HostTable, is_recent, clear_row, goes_offline, flag_row, clear_rows, flag_rows,
  flagged_rows, sweep_offline_hosts,
}

-- The hosts announced under a name by one sweep.
unfoldable pub count_named : Text → List Host → ℕ
count_named name [] = 0
count_named name (h ∷ hs) =
    let rest = count_named name hs in if text_eq h.hostname name then suc rest else rest

abbrev pub announced : Text → Result Error (List Host) × HostTable → ℕ
announced name (ok hs, t) = count_named name hs
announced name (err e, t) = 0

-- Healthy sweeps one after the other, and how often they announced a name.
unfoldable pub announcements : Text → ℕ → List ℕ → HostTable → ℕ
announcements name minutes [] t = 0
announcements name minutes (now ∷ later) t =
    let swept = sweep_offline_hosts none none now minutes t in
    announced name swept + announcements name minutes later swept.1

-- Each sweep at the time of the one before it, or later.
abbrev pub Ordered : ℕ → List ℕ → Type 0
Ordered from [] = Unit {0}
Ordered from (now ∷ later) = (from ≤ now) × Ordered now later

-- A host marked and silent since: no later sweep announces it.
unfoldable pub is_spent : ℕ → ℕ → Host → Bool
is_spent now minutes h = is_some h.offline_since && not (is_recent now minutes h)

-- The hosts under a name that a sweep can still announce.
unfoldable pub pending : Text → ℕ → ℕ → List Host → ℕ
pending name minutes now [] = 0
pending name minutes now (h ∷ hs) =
    let rest = pending name minutes now hs in
    if text_eq h.hostname name && not (is_spent now minutes h) then suc rest else rest

pending-le :
    (name : Text) (minutes now : ℕ) (hs : List Host)
    → pending name minutes now hs ≤ count_named name hs
unfolding pending count_named
pending-le name minutes now [] = omega arith
pending-le name minutes now (h ∷ hs) = ground (arith, pending-le name minutes now hs)

-- What a sweep does to a row.
unfoldable sweep_row : ℕ → ℕ → Host → Host
sweep_row now minutes h =
    let c = clear_row now minutes h in if goes_offline now minutes c then flag_row now c else c

sweep_row-Settled :
    (now minutes : ℕ) (h : Host)
    → is_some (sweep_row now minutes h).offline_since
      ≡ not (is_recent now minutes (sweep_row now minutes h))
unfolding sweep_row clear_row goes_offline
sweep_row-Settled now minutes h = ground arith

-- After a sweep with no fault, exactly the hosts that were not seen within the threshold are
-- marked offline.
sweep-Settled :
    (now minutes : ℕ) (hs : List Host)
    → All
        (λ h. is_some h.offline_since ≡ not (is_recent now minutes h))
        (flag_rows now minutes (clear_rows now minutes hs))
unfolding flag_rows clear_rows sweep_row
sweep-Settled now minutes [] = tt
sweep-Settled now minutes (h ∷ hs) = (sweep_row-Settled now minutes h, sweep-Settled now minutes hs)

sweep_spends :
    (name : Text) (minutes from now : ℕ) (hs : List Host)
    → from ≤ now
    → count_named name (flagged_rows now minutes (clear_rows now minutes hs))
        + pending name minutes now (flag_rows now minutes (clear_rows now minutes hs))
      ≤ pending name minutes from hs
unfolding count_named flagged_rows clear_rows flag_rows pending clear_row goes_offline is_spent
sweep_spends name minutes from now [] le = omega arith
sweep_spends name minutes from now (h ∷ hs) le =
    ground (arith, sweep_spends name minutes from now hs le)

announcements-pending :
    (name : Text) (minutes from : ℕ) (times : List ℕ) (t : HostTable)
    → Ordered from times
    → announcements name minutes times t ≤ pending name minutes from t.rows
unfolding announcements sweep_offline_hosts
announcements-pending name minutes from [] t order = omega arith
announcements-pending name minutes from (now ∷ later) t (le, order) =
    let t' : HostTable = record t {
      rows = flag_rows now minutes (clear_rows now minutes t.rows);
    } in
    omega (
      arith,
      sweep_spends name minutes from now t.rows le,
      announcements-pending name minutes now later t' order,
    )

-- However often the sweep runs without a fault, at times that do not go back, while no host
-- reports, it announces each row under a hostname at most once.
pub announcements-once :
    (name : Text) (minutes : ℕ) (times : List ℕ) (t : HostTable)
    → Ordered 0 times
    → announcements name minutes times t ≤ count_named name t.rows
announcements-once name minutes times t order =
    omega
      (arith, announcements-pending name minutes 0 times t order, pending-le name minutes 0 t.rows)
