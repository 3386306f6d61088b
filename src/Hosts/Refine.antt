-- ===== src/Hosts/Refine.antt =====
-- The statements on the table hosts refine their specification.
use ubuntu_auto_update.Base.{
  arith, ℕ, ◌≡◌, refl, sym, ap, ◌∙◌, inl, inr, false, List, [], ◌∷◌, ◌++◌, Option, none, some, Text,
  text_eq, text_eq_iff, if◌then◌else◌, Bool-cases, Option-cases,
}
use ubuntu_auto_update.Hosts.Defs.{
  Host, HostTable, find_host, change_named, new_host, report_row, insert_row, upserted, upsert_host,
  inserted_host, create_host, clear_row, goes_offline, flag_row, clear_rows, flag_rows,
  sweep_offline_hosts,
}
use ubuntu_auto_update.Hosts.Spec.{
  Status, HostOp, apply_op, run_ops, status, status_of, view, seen, made, cleared_status,
  flagged_status, on_status, spec_op, spec_ops, reported, created, swept,
}

abbrev or_else : Option Host → Option Host → Option Host
or_else none o = o
or_else (some h) o = some h

find_insert :
    (n : Text) (h : Host) (hs : List Host)
    → find_host n (hs ++ h ∷ [])
      ≡ or_else (find_host n hs) (if text_eq h.hostname n then some h else none)
unfolding find_host
find_insert n h [] = refl
find_insert n h (g ∷ hs) = elim (Bool-cases (text_eq g.hostname n)) [
  | inl e ↦ rw e refl
  | inr e ↦ rw e (find_insert n h hs)
]

abbrev on_host : (Host → Host) → Option Host → Option Host
on_host f none = none
on_host f (some h) = some (f h)

find-change_named :
    (n : Text) (f : Host → Host) (hs : List Host)
    → ((h : Host) → (f h).hostname ≡ h.hostname)
    → find_host n (change_named n f hs) ≡ on_host f (find_host n hs)
unfolding find_host change_named
find-change_named n f [] keeps = refl
find-change_named n f (h ∷ hs) keeps = elim (Bool-cases (text_eq h.hostname n)) [
  | inl e ↦ rw (e, keeps h, e) refl
  | inr e ↦ rw (e, e) (find-change_named n f hs keeps)
]

-- A change under another name is not seen.
find-change_other :
    (n name : Text) (f : Host → Host) (hs : List Host)
    → ((h : Host) → (f h).hostname ≡ h.hostname)
    → text_eq name n ≡ false
    → find_host n (change_named name f hs) ≡ find_host n hs
unfolding find_host change_named
find-change_other n name f [] keeps other = refl
find-change_other n name f (h ∷ hs) keeps other = elim (Bool-cases (text_eq h.hostname name)) [
  | inl e ↦
      let away : text_eq h.hostname n ≡ false =
        ap (λ x. text_eq x n) ((text_eq_iff h.hostname name).0 e) ∙ other in
      rw (e, keeps h, away) (find-change_other n name f hs keeps other)
  | inr e ↦ rw e (
      ap (λ o. if text_eq h.hostname n then some h else o)
        (find-change_other n name f hs keeps other))
]

find-clear_rows :
    (n : Text) (now minutes : ℕ) (hs : List Host)
    → find_host n (clear_rows now minutes hs) ≡ on_host (clear_row now minutes) (find_host n hs)
unfolding find_host clear_rows clear_row
find-clear_rows n now minutes [] = refl
find-clear_rows n now minutes (h ∷ hs) = ground (arith, find-clear_rows n now minutes hs)

find-flag_rows :
    (n : Text) (now minutes : ℕ) (hs : List Host)
    → find_host n (flag_rows now minutes hs)
      ≡ on_host (λ h. if goes_offline now minutes h then flag_row now h else h) (find_host n hs)
unfolding find_host flag_rows
find-flag_rows n now minutes [] = refl
find-flag_rows n now minutes (h ∷ hs) = ground (arith, find-flag_rows n now minutes hs)

status-clear_row :
    (now minutes : ℕ) (o : Option Host)
    → status_of (on_host (clear_row now minutes) o)
      ≡ on_status (cleared_status now minutes) (status_of o)
unfolding clear_row cleared_status
status-clear_row now minutes none = refl
status-clear_row now minutes (some h) = ground arith

status-flag_row :
    (now minutes : ℕ) (o : Option Host)
    → status_of (on_host (λ h. if goes_offline now minutes h then flag_row now h else h) o)
      ≡ on_status (flagged_status now minutes) (status_of o)
unfolding goes_offline flagged_status
status-flag_row now minutes none = refl
status-flag_row now minutes (some h) = ground arith

view-insert_row :
    (n : Text) (h : Host) (t : HostTable)
    → find_host h.hostname t.rows ≡ none
    → view (insert_row h t) n ≡ (if text_eq h.hostname n then some (status h) else view t n)
unfolding view insert_row
view-insert_row n h t absent = elim (Bool-cases (text_eq h.hostname n)) [
  | inl e ↦
      let gone : find_host n t.rows ≡ none =
        ap (λ x. find_host x t.rows) (sym ((text_eq_iff h.hostname n).0 e)) ∙ absent in
      rw (find_insert n h t.rows, gone, e) refl
  | inr e ↦ rw (find_insert n h t.rows, e) (by_old (find_host n t.rows))
]
  where
    by_old : (o : Option Host) → status_of (or_else o none) ≡ status_of o
    by_old none = refl
    by_old (some g) = refl

-- An insert that the specification `f` describes.
insert_meets :
    (f : Option Status → Option Status) (n : Text) (h : Host) (t : HostTable)
    → find_host h.hostname t.rows ≡ none
    → f none ≡ some (status h)
    → view (insert_row h t) n ≡ (if text_eq h.hostname n then f (view t n) else view t n)
unfolding view
insert_meets f n h t absent meets =
    view-insert_row n h t absent ∙ elim (Bool-cases (text_eq h.hostname n)) [
      | inl e ↦
          let gone : find_host n t.rows ≡ none =
            ap (λ x. find_host x t.rows) (sym ((text_eq_iff h.hostname n).0 e)) ∙ absent in
          rw (e, gone) (sym meets)
      | inr e ↦ rw e refl
    ]

-- A change of the row under a name that the specification `f` describes.
change_meets :
    (f : Option Status → Option Status) (c : Host → Host) (n name : Text) (g : Host) (t : HostTable)
    → ((h : Host) → (c h).hostname ≡ h.hostname)
    → ((h : Host) → f (some (status h)) ≡ some (status (c h)))
    → find_host name t.rows ≡ some g
    → status_of (find_host n (change_named name c t.rows))
      ≡ (if text_eq name n then f (view t n) else view t n)
unfolding view
change_meets f c n name g t keeps meets found = elim (Bool-cases (text_eq name n)) [
  | inl e ↦
      let same : name ≡ n = (text_eq_iff name n).0 e in
      let here : find_host n t.rows ≡ some g = ap (λ x. find_host x t.rows) (sym same) ∙ found in
      rw (e, same, find-change_named n c t.rows keeps, here) (sym (meets g))
  | inr e ↦ rw (e, find-change_other n name c t.rows keeps e) refl
]

-- What is there already stays.
keep_meets :
    (n name : Text) (now : ℕ) (user : Text) (g : Host) (t : HostTable)
    → find_host name t.rows ≡ some g
    → view t n ≡ (if text_eq name n then made now user (view t n) else view t n)
unfolding view
keep_meets n name now user g t found = elim (Bool-cases (text_eq name n)) [
  | inl e ↦
      let here : find_host n t.rows ≡ some g =
        ap (λ x. find_host x t.rows) (sym ((text_eq_iff name n).0 e)) ∙ found in
      rw (e, here) refl
  | inr e ↦ rw e refl
]

apply_op_lem :
    (op : HostOp) (t : HostTable) (n : Text) → view (apply_op op t) n ≡ spec_op op n (view t n)
unfolding apply_op spec_op view upsert_host create_host sweep_offline_hosts report_row
apply_op_lem (reported (some e) now name user r) t n = refl
apply_op_lem (reported none now name user r) t n =
    let step : Option Host → Option Status = λ o. view (upserted now name user r o t).1 n in
    let seeded = report_row now r (new_host t.next_id now name user) in
    elim (Option-cases (find_host name t.rows)) [
      | inl e ↦ ap step e ∙ insert_meets (seen now user r) n seeded t e refl
      | inr (g, e) ↦
          ap step e
          ∙ change_meets (seen now user r) (report_row now r) n name g t (λ h. refl) (λ h. refl) e
    ]
apply_op_lem (created (some e) now name user) t n = refl
apply_op_lem (created none now name user) t n =
    let step : Option Host → Option Status = λ o. view (inserted_host now name user o t).1 n in
    elim (Option-cases (find_host name t.rows)) [
      | inl e ↦
          ap step e ∙ insert_meets (made now user) n (new_host t.next_id now name user) t e refl
      | inr (g, e) ↦ ap step e ∙ keep_meets n name now user g t e
    ]
apply_op_lem (swept (some e) flag_fault now minutes) t n = refl
apply_op_lem (swept none (some e) now minutes) t n =
    ap status_of (find-clear_rows n now minutes t.rows)
    ∙ status-clear_row now minutes (find_host n t.rows)
apply_op_lem (swept none none now minutes) t n =
    ap status_of (find-flag_rows n now minutes (clear_rows now minutes t.rows))
    ∙ (status-flag_row now minutes (find_host n (clear_rows now minutes t.rows))
        ∙ ap (on_status (flagged_status now minutes)) (
            ap status_of (find-clear_rows n now minutes t.rows)
            ∙ status-clear_row now minutes (find_host n t.rows)))

-- Statements on the table hosts refine their specification on each hostname alone: after any
-- reports, creations and sweeps, failed ones included, what the table holds under a hostname is
-- what the specification makes of what it held. A report inserts a host that is not there with the
-- SSH user given and keeps the SSH user of one that is; a creation changes no host that is there;
-- a sweep clears the offline mark of a host seen within the threshold and marks any other host
-- that has no mark.
pub run_ops_lem :
    (ops : List HostOp) (t : HostTable) (n : Text)
    → view (run_ops ops t) n ≡ spec_ops ops n (view t n)
unfolding run_ops spec_ops
run_ops_lem [] t n = refl
run_ops_lem (op ∷ ops) t n =
    run_ops_lem ops (apply_op op t) n ∙ ap (spec_ops ops n) (apply_op_lem op t n)
