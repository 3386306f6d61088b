-- ===== src/Hosts/Atomic.antt =====
-- A key and its SSH user change together or not at all.
use ubuntu_auto_update.Base.{
  arith, ℕ, ◌≡◌, refl, sym, ap, subst, ◌∙◌, inl, inr, ◌⊎◌, List, [], ◌∷◌, Option, none, some, Text,
  ◌==◌, if◌then◌else◌, ==_iff, ==_refl, Bool-cases, Result, ok, err, Error, some_inj,
}
use ubuntu_auto_update.Hosts.Defs.{Host, SshKey, HostTable, host_by_id, change_host}
use ubuntu_auto_update.Hosts.Keys.{
  find_key, put_key, key_row, decrypted, get_ssh_key, KeyWorld, insert_fault, committed, user_set,
  key_put, begun, encrypted, set_ssh_key_and_user,
}

pub find-put_key :
    (i : ℕ) (key : Text) (ks : List SshKey)
    → find_key i (put_key i key ks) ≡ some (record { host_id = i; private_key = key })
unfolding find_key put_key
find-put_key i key [] = rw (==_refl i) refl
find-put_key i key (k ∷ ks) = elim (Bool-cases (k.host_id == i)) [
  | inl e ↦
      rw (e, e)
        (ap (λ x. some (record { host_id = x; private_key = key })) ((==_iff k.host_id i).0 e))
  | inr e ↦ rw (e, e) (find-put_key i key ks)
]

find-change_host :
    (i : ℕ) (f : Host → Host) (h : Host) (hs : List Host)
    → ((g : Host) → (f g).id ≡ g.id)
    → host_by_id i hs ≡ some h
    → host_by_id i (change_host i f hs) ≡ some (f h)
unfolding host_by_id change_host
find-change_host i f h [] keeps found = ground arith
find-change_host i f h (g ∷ hs) keeps found = elim (Bool-cases (g.id == i)) [
  | inl e ↦
      let rest = host_by_id i (change_host i f hs) in
      let same : g ≡ h = some_inj (sym (rw e refl) ∙ found) in
      rw e (
        ap (λ b. if b then some (f g) else rest) (ap (λ x. x == i) (keeps g) ∙ e)
        ∙ ap (λ x. some (f x)) same)
  | inr e ↦ rw (e, e) (find-change_host i f h hs keeps (sym (rw e refl) ∙ found))
]

-- SetSSHKeyAndUser fails and leaves both tables as they were, or it succeeds; then GetSSHKey gives
-- the key back, where decryption inverts encryption, and the host has the SSH user.
pub set_ssh_key_and_user-get :
    (encrypt decrypt : Text → Result Error Text) (w : KeyWorld) (i : ℕ) (ssh_user key : Text)
    (t : HostTable)
    → ((c : Text) → encrypt key ≡ ok c → decrypt c ≡ ok key)
    → ((e : Error) × (set_ssh_key_and_user encrypt w i ssh_user key t ≡ (some e, t)))
      ⊎ (((set_ssh_key_and_user encrypt w i ssh_user key t).0 ≡ none)
          × (get_ssh_key decrypt none i (set_ssh_key_and_user encrypt w i ssh_user key t).1
              ≡ ok (record { host_id = i; private_key = key }))
          × (h : Host) × (host_by_id i (set_ssh_key_and_user encrypt w i ssh_user key t).1.rows
              ≡ some h)
          × (h.ssh_user ≡ ssh_user))
unfolding set_ssh_key_and_user get_ssh_key
set_ssh_key_and_user-get encrypt decrypt w i ssh_user key t inverse = by_cipher (encrypt key) refl
  where
    Done : Option Error × HostTable → Type 0
    Done r =
        ((e : Error) × (r ≡ (some e, t)))
        ⊎ ((r.0 ≡ none)
            × (get_ssh_key decrypt none i r.1 ≡ ok (record { host_id = i; private_key = key }))
            × (h : Host) × (host_by_id i r.1.rows ≡ some h)
            × (h.ssh_user ≡ ssh_user))

    by_commit :
        (fault : Option Error) (cipher : Text) (h : Host)
        → encrypt key ≡ ok cipher
        → host_by_id i t.rows ≡ some h
        → Done (
            committed fault t (record t {
              rows =
                  change_host i (λ r. record r { ssh_user = ssh_user; updated_at = w.now }) t.rows;
              keys = put_key i cipher t.keys;
            }))
    by_commit (some e) cipher h made found = inl (e, refl)
    by_commit none cipher h made found = inr (
      refl,
      ap (key_row decrypt) (find-put_key i cipher t.keys)
          ∙ ap (λ r. decrypted r (record { host_id = i; private_key = cipher }))
              (inverse cipher made),
      record h { ssh_user = ssh_user; updated_at = w.now },
      find-change_host i (λ r. record r { ssh_user = ssh_user; updated_at = w.now }) h t.rows
          (λ g. refl) found,
      refl,
    )

    by_user :
        (fault : Option Error) (cipher : Text) (h : Host)
        → encrypt key ≡ ok cipher
        → host_by_id i t.rows ≡ some h
        → Done
            (user_set w fault i ssh_user (some h) t (record t { keys = put_key i cipher t.keys }))
    by_user (some e) cipher h made found = inl (_, refl)
    by_user none cipher h made found = by_commit w.commit_fault cipher h made found

    by_put :
        (fault : Option Error) (row : Option Host) (cipher : Text)
        → encrypt key ≡ ok cipher
        → host_by_id i t.rows ≡ row
        → Done (key_put w (insert_fault fault row) i ssh_user cipher t)
    by_put (some e) row cipher made found = inl (_, refl)
    by_put none none cipher made found = inl (_, refl)
    by_put none (some h) cipher made found =
        subst
          (λ o.
            Done (
              user_set w w.user_fault i ssh_user o t (record t { keys = put_key i cipher t.keys })))
          (sym found) (by_user w.user_fault cipher h made found)

    by_begin :
        (fault : Option Error) (cipher : Text)
        → encrypt key ≡ ok cipher
        → Done (begun w fault i ssh_user cipher t)
    by_begin (some e) cipher made = inl (_, refl)
    by_begin none cipher made = by_put w.put_fault (host_by_id i t.rows) cipher made refl

    by_cipher : (r : Result Error Text) → encrypt key ≡ r → Done (encrypted w i ssh_user r t)
    by_cipher (err e) made = inl (_, refl)
    by_cipher (ok cipher) made = by_begin w.begin_fault cipher made
