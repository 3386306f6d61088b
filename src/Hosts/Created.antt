-- ===== src/Hosts/Created.antt =====
-- When a host comes into being: what the handlers that create hosts announce and leave behind.
use ubuntu_auto_update.Base.{
  arith, ℕ, ◌<◌, ◌≡◌, refl, sym, ap, subst, ◌∙◌, inl, inr, ◌⊎◌, false, List, [], ◌∷◌, ◌++◌, Option,
  none, some, Text, codes, text_eq, is_empty, trim_space, ◌==◌, if◌then◌else◌, ==_refl, Bool-cases,
  Result, ok, err, Error, All, is_none, some_inj,
}
use ubuntu_auto_update.Hosts.Defs.{
  Host, SshKey, HostTable, HostError, duplicate_hostname, host_other, new_host, insert_row,
  report_row, find_host, upserted, upsert_host, drop_host, drop_key, inserted_host, create_host,
  delete_host,
}
use ubuntu_auto_update.Hosts.Keys.{put_with, put_encrypted, add_ssh_key}
use ubuntu_auto_update.Hosts.Requests.{
  HostReport, created, Registered, Outcome, registered, refuse, report_data, after_report,
  handle_report, CreateRequest, BootstrapResult, CreateWorld, root_or, key_added, bootstrapped,
  inserted_row, handle_create_host,
}

find-All :
    (P : Host → Type 0) (name : Text) (h : Host) (hs : List Host)
    → All P hs
    → find_host name hs ≡ some h
    → P h
unfolding find_host
find-All P name h [] all found = ground arith
find-All P name h (g ∷ hs) (here, all) found = elim (Bool-cases (text_eq g.hostname name)) [
  | inl e ↦ subst P (some_inj (sym (rw e refl) ∙ found)) here
  | inr e ↦ find-All P name h hs all (sym (rw e refl) ∙ found)
]

-- A report with a hostname, recorded without a fault in a table whose hosts were all created
-- before, announces the host as registered exactly when no host had that hostname.
pub handle_report-dispatched :
    (now : ℕ) (r : HostReport) (t : HostTable)
    → is_empty (trim_space r.hostname) ≡ false
    → All (λ h. h.created_at < now) t.rows
    → (handle_report none now (some r) t).dispatched ≡ (
        if is_none (find_host (trim_space r.hostname) t.rows)
        then record { host_id = t.next_id; hostname = trim_space r.hostname } ∷ []
        else [])
unfolding handle_report upsert_host report_row
handle_report-dispatched now r t named before =
    ap (λ b. (if b then refuse 400 (codes "Hostname cannot be empty") t else done).dispatched) named
    ∙ by_row (find_host hostname t.rows) refl
  where
    hostname : Text
    hostname = trim_space r.hostname

    done : Outcome
    done = after_report (upsert_host none now hostname (codes "root") (report_data r) t)

    by_row :
        (o : Option Host)
        → find_host hostname t.rows ≡ o
        → (after_report (upserted now hostname (codes "root") (report_data r) o t)).dispatched
          ≡ (if is_none o then record { host_id = t.next_id; hostname = hostname } ∷ [] else [])
    by_row none e =
        let it : Registered = record { host_id = t.next_id; hostname = hostname } in
        ap (λ b. if b then it ∷ [] else []) (==_refl now)
    by_row (some g) e =
        let earlier : g.created_at < now =
          find-All (λ h. h.created_at < now) hostname g t.rows before e in
        let differs : (now == g.created_at) ≡ false = ground (arith, earlier) in
        ap (λ b. if b then registered (report_row now (report_data r) g) else []) differs

-- Ids under `n`, as a SERIAL column gives them out.
abbrev pub AreBelow : ℕ → HostTable → Type 0
AreBelow n t = All (λ h. h.id < n) t.rows × All (λ k. k.host_id < n) t.keys

drop_host-new :
    (h : Host) (hs : List Host) → All (λ g. g.id < h.id) hs → drop_host h.id (hs ++ h ∷ []) ≡ hs
unfolding drop_host
drop_host-new h [] all = rw (==_refl h.id) refl
drop_host-new h (g ∷ hs) (below, all) =
    let differs : (g.id == h.id) ≡ false = ground (arith, below) in
    rw differs (ap (λ r. g ∷ r) (drop_host-new h hs all))

drop_key-absent : (i : ℕ) (ks : List SshKey) → All (λ k. k.host_id < i) ks → drop_key i ks ≡ ks
unfolding drop_key
drop_key-absent i [] all = refl
drop_key-absent i (k ∷ ks) (below, all) =
    let differs : (k.host_id == i) ≡ false = ground (arith, below) in
    rw differs (ap (λ r. k ∷ r) (drop_key-absent i ks all))

-- Where the ids of the hosts and of the key rows are below the sequence, a request of
-- handleCreateHost whose rollback meets no fault leaves the hosts and the keys as they were and
-- dispatches nothing, or it answers with the new host, which is then in the table under its
-- hostname, and dispatches its registration once.
pub handle_create_host-IsAtomic :
    (w : CreateWorld) (r : CreateRequest) (t : HostTable)
    → w.rollback_fault ≡ none
    → AreBelow t.next_id t
    → (((handle_create_host w (some r) t).table.rows ≡ t.rows)
        × ((handle_create_host w (some r) t).table.keys ≡ t.keys)
        × ((handle_create_host w (some r) t).dispatched ≡ []))
      ⊎ ((h : Host) × ((handle_create_host w (some r) t).response ≡ created h)
          × ((handle_create_host w (some r) t).dispatched ≡ registered h)
          × ((handle_create_host w (some r) t).table.rows ≡ t.rows ++ h ∷ [])
          × (h.hostname ≡ trim_space r.hostname))
unfolding handle_create_host create_host insert_row delete_host add_ssh_key
handle_create_host-IsAtomic w r t rolls below = elim (Bool-cases (is_empty hostname)) [
  | inl e ↦ rw e (inl (refl, refl, refl))
  | inr e ↦ rw e (by_insert w.insert_fault)
]
  where
    hostname : Text
    hostname = trim_space r.hostname

    user : Text
    user = root_or (trim_space r.ssh_user)

    h : Host
    h = new_host t.next_id w.now hostname user

    Good : Outcome → Type 0
    Good o =
        ((o.table.rows ≡ t.rows) × (o.table.keys ≡ t.keys) × (o.dispatched ≡ []))
        ⊎ ((g : Host) × (o.response ≡ created g)
            × (o.dispatched ≡ registered g)
            × (o.table.rows ≡ t.rows ++ g ∷ [])
            × (g.hostname ≡ hostname))

    rolled :
        (status : ℕ) (text : Text)
        → Good (refuse status text (delete_host w.rollback_fault h.id (insert_row h t)).1)
    rolled status text =
        subst (λ f. Good (refuse status text (delete_host f h.id (insert_row h t)).1)) (sym rolls)
          (inl (drop_host-new h t.rows below.0, drop_key-absent h.id t.keys below.1, refl))

    by_key :
        (f : Option Error) (key : Text)
        → Good (key_added w h (put_with f h.id key (insert_row h t)))
    by_key (some e) key = rolled 500 _
    by_key none key = inr (h, refl, refl, refl, refl)

    by_cipher :
        (f : Result Error Text)
        → Good (key_added w h (put_encrypted w.key_fault h.id f (insert_row h t)))
    by_cipher (err e) = rolled 500 _
    by_cipher (ok key) = by_key _ key

    by_boot : (b : Result Error BootstrapResult) → Good (bootstrapped w h b (insert_row h t))
    by_boot (err e) = rolled 502 _
    by_boot (ok result) = by_cipher (w.encrypt result.private_key_pem)

    by_password : (p : Text) → Good (inserted_row w hostname user p (ok h, insert_row h t))
    by_password [] = inr (h, refl, refl, refl, refl)
    by_password (c ∷ p) = by_boot (w.bootstrap hostname user (c ∷ p))

    refused_insert : (e : HostError) → Good (inserted_row w hostname user r.password (err e, t))
    refused_insert duplicate_hostname = inl (refl, refl, refl)
    refused_insert (host_other e) = inl (refl, refl, refl)

    by_row :
        (o : Option Host)
        → Good (inserted_row w hostname user r.password (inserted_host w.now hostname user o t))
    by_row none = by_password r.password
    by_row (some g) = refused_insert _

    by_insert :
        (f : Option Error)
        → Good (inserted_row w hostname user r.password (create_host f w.now hostname user t))
    by_insert (some e) = refused_insert _
    by_insert none = by_row (find_host hostname t.rows)
