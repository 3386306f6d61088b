-- ===== src/Ssh/Keep.antt =====
-- What a rotation leaves: a key that works, and the operators' lines.
use ubuntu_auto_update.Base.{
  ℕ, ◌≡◌, refl, ap, ◌∙◌, ◌⊎◌, inl, inr, true, false, Option, none, some, Text, codes, text_eq,
  Bool-cases, Result, ok, err, Error, is_no_rows,
}
use ubuntu_auto_update.Hosts.Defs.{Host, SshKey, HostTable, host_by_id, get_host}
use ubuntu_auto_update.Hosts.Keys.{
  key_row, decrypted, get_ssh_key, insert_fault, put_with, put_encrypted, add_ssh_key,
}
use ubuntu_auto_update.Hosts.Atomic.{find-put_key}
use ubuntu_auto_update.Ssh.Defs.{
  authorized_key_marker, format_authorized_key, KeyFile, has_line, install_line, last_field,
  revoke_others, ScriptFault, before_write, after_write, run_script,
}
use ubuntu_auto_update.Ssh.Rotate.{
  KeyPair, RotateWorld, any_accepts, dial_with, Rotated, failed, rotated, revoked, verified,
  host_key_checked, parsed_key, installed, with_pair, connected_with, with_key, rotate_key,
  RotateReply, rotate_refused, RotateStore, key_kept, after_rotation, host_read, handle_rotate_key,
}
use ubuntu_auto_update.Ssh.Lines.{
  install-accepts, install-keeps, install-has_line, revoke-accepts, revoke-keeps,
}

-- What RotateKey returns: nothing new and the old key still works, or a new key that works. The
-- operator's line `k` stays either way.
abbrev Sound : RotateWorld → Text → Text → Rotated × KeyFile → Type 0
Sound w old k (failed e, f) =
    (any_accepts (w.accepts old) f.lines ≡ true) × (has_line k f.lines ≡ true)
Sound w old k (rotated new warning, f) =
    (any_accepts (w.accepts new) f.lines ≡ true) × (has_line k f.lines ≡ true)

module _ (w : RotateWorld) (old k : Text)
    (other : text_eq (last_field k) authorized_key_marker ≡ false) where
  revoked-Sound :
      (p : KeyPair) (f : KeyFile) (fault : Option ScriptFault)
      → w.accepts p.private_key_pem (format_authorized_key p.public_key) ≡ true
      → has_line (format_authorized_key p.public_key) f.lines ≡ true
      → any_accepts (w.accepts p.private_key_pem) f.lines ≡ true
      → has_line k f.lines ≡ true
      → Sound w old k (
          revoked p.private_key_pem
            (run_script fault (revoke_others (format_authorized_key p.public_key)) f))
  unfolding run_script revoke_others
  revoked-Sound p f (some (before_write e)) good there works line = (works, line)
  revoked-Sound p f (some (after_write e)) good there works line = (
    revoke-accepts (w.accepts p.private_key_pem) _ f.lines good there,
    revoke-keeps k _ f.lines other line,
  )
  revoked-Sound p f none good there works line = (
    revoke-accepts (w.accepts p.private_key_pem) _ f.lines good there,
    revoke-keeps k _ f.lines other line,
  )

  verified-Sound :
      (p : KeyPair) (f : KeyFile) (fault : Option Error)
      → w.accepts p.private_key_pem (format_authorized_key p.public_key) ≡ true
      → has_line (format_authorized_key p.public_key) f.lines ≡ true
      → any_accepts (w.accepts old) f.lines ≡ true
      → has_line k f.lines ≡ true
      → Sound w old k (verified w p (dial_with w fault p.private_key_pem f) f)
  unfolding dial_with
  verified-Sound p f (some e) good there works line = (works, line)
  verified-Sound p f none good there works line =
      elim (Bool-cases (any_accepts (w.accepts p.private_key_pem) f.lines)) [
        | inl e ↦ rw e (revoked-Sound p f w.revoke_fault good there e line)
        | inr e ↦ rw e (works, line)
      ]

  installed-Sound :
      (p : KeyPair) (f : KeyFile)
      → w.accepts p.private_key_pem (format_authorized_key p.public_key) ≡ true
      → has_line (format_authorized_key p.public_key) f.lines ≡ true
      → any_accepts (w.accepts old) f.lines ≡ true
      → has_line k f.lines ≡ true
      → Sound w old k (installed w p (none, f))
  installed-Sound p f good there works line = by_parse w.parse_fault
    where
      by_host_key : (x : Option Error) → Sound w old k (host_key_checked w p x f)
      by_host_key (some e) = (works, line)
      by_host_key none = verified-Sound p f w.verify_fault good there works line

      by_parse : (x : Option Error) → Sound w old k (parsed_key w p x f)
      by_parse (some e) = (works, line)
      by_parse none = by_host_key w.host_key_fault

  rotate_key-Sound :
      (key : Result Error SshKey) (f : KeyFile)
      → ((p : KeyPair)
          → w.generated ≡ ok p
          → w.accepts p.private_key_pem (format_authorized_key p.public_key) ≡ true)
      → f.ended ≡ true
      → any_accepts (w.accepts old) f.lines ≡ true
      → has_line k f.lines ≡ true
      → Sound w old k (rotate_key w key f)
  unfolding rotate_key run_script
  rotate_key-Sound key f good ended works line = by_key key
    where
      by_install :
          (p : KeyPair) (fault : Option ScriptFault)
          → w.generated ≡ ok p
          → Sound w old k (
              installed w p
                (run_script fault (install_line (format_authorized_key p.public_key)) f))
      by_install p (some (before_write e)) made = (works, line)
      by_install p (some (after_write e)) made =
          (install-accepts (w.accepts old) _ f ended works, install-keeps k _ f ended line)
      by_install p none made =
          installed-Sound p (install_line (format_authorized_key p.public_key) f) (good p made)
            (install-has_line _ f ended) (install-accepts (w.accepts old) _ f ended works)
            (install-keeps k _ f ended line)

      by_pair : (g : Result Error KeyPair) → w.generated ≡ g → Sound w old k (with_pair w g f)
      by_pair (err e) made = (works, line)
      by_pair (ok p) made = by_install p w.install_fault made

      by_connect : (x : Option Error) → Sound w old k (connected_with w x f)
      by_connect (some e) = (works, line)
      by_connect none = by_pair w.generated refl

      by_key : (r : Result Error SshKey) → Sound w old k (with_key w r f)
      by_key (err e) = (works, line)
      by_key (ok s) = by_connect _

-- handleRotateKey on a host whose stored key works, where each line of authorized_keys ends with a
-- newline, whatever fails on the way: an operator's line, one that does not end with the marker,
-- stays; and the key that GetSSHKey then gives works on the host, or the answer is the 500 of a
-- store that failed, with the store unchanged. sshd lets a generated key in by the line installed
-- for it, and decryption inverts encryption.
pub handle_rotate_key-Keeps :
    (s : RotateStore) (w : RotateWorld) (i : ℕ) (t : HostTable) (f : KeyFile) (old k : Text)
    → ((key c : Text) → s.encrypt key ≡ ok c → s.decrypt c ≡ ok key)
    → ((p : KeyPair)
        → w.generated ≡ ok p
        → w.accepts p.private_key_pem (format_authorized_key p.public_key) ≡ true)
    → f.ended ≡ true
    → get_ssh_key s.decrypt none i t ≡ ok (record { host_id = i; private_key = old })
    → any_accepts (w.accepts old) f.lines ≡ true
    → text_eq (last_field k) authorized_key_marker ≡ false
    → has_line k f.lines ≡ true
    → (has_line k (handle_rotate_key s w i t f).2.lines ≡ true)
      × (((new : SshKey) × (get_ssh_key s.decrypt none i (handle_rotate_key s w i t f).1 ≡ ok new)
            × (any_accepts (w.accepts new.private_key) (handle_rotate_key s w i t f).2.lines
                ≡ true))
          ⊎ (((handle_rotate_key s w i t f).0
                ≡ rotate_refused 500
                    (codes "Rotation succeeded but persisting key failed; please retry"))
              × ((handle_rotate_key s w i t f).1 ≡ t)))
unfolding handle_rotate_key add_ssh_key get_ssh_key
handle_rotate_key-Keeps s w i t f old k inverse lets_in ended stored works other line =
    by_host (get_host s.get_fault i t)
  where
    Good : RotateReply × HostTable × KeyFile → Type 0
    Good o =
        (has_line k o.2.lines ≡ true)
        × (((new : SshKey) × (get_ssh_key s.decrypt none i o.1 ≡ ok new)
              × (any_accepts (w.accepts new.private_key) o.2.lines ≡ true))
            ⊎ ((o.0
                  ≡ rotate_refused 500
                      (codes "Rotation succeeded but persisting key failed; please retry"))
                × (o.1 ≡ t)))

    as_before :
        (reply : RotateReply) (g : KeyFile)
        → any_accepts (w.accepts old) g.lines ≡ true
        → has_line k g.lines ≡ true
        → Good (reply, t, g)
    as_before reply g still there =
        (there, inl (record { host_id = i; private_key = old }, stored, still))

    by_put :
        (new c : Text) (warning : Option Error) (g : KeyFile) (fault : Option Error)
        → s.decrypt c ≡ ok new
        → any_accepts (w.accepts new) g.lines ≡ true
        → has_line k g.lines ≡ true
        → Good (key_kept warning (put_with fault i c t) g)
    by_put new c warning g (some e) back still there = (there, inr (refl, refl))
    by_put new c warning g none back still there = (
      there,
      inl (
        record { host_id = i; private_key = new },
        ap (key_row s.decrypt) (find-put_key i c t.keys)
            ∙ ap (λ r. decrypted r (record { host_id = i; private_key = c })) back,
        still,
      ),
    )

    by_cipher :
        (new : Text) (warning : Option Error) (g : KeyFile) (c : Result Error Text)
        → s.encrypt new ≡ c
        → any_accepts (w.accepts new) g.lines ≡ true
        → has_line k g.lines ≡ true
        → Good (key_kept warning (put_encrypted s.put_fault i c t) g)
    by_cipher new warning g (err e) made still there = (there, inr (refl, refl))
    by_cipher new warning g (ok c) made still there =
        by_put new c warning g (insert_fault s.put_fault (host_by_id i t.rows)) (inverse new c made)
          still there

    by_rotation : (r : Rotated × KeyFile) → Sound w old k r → Good (after_rotation s i t r)
    by_rotation (failed e, g) (still, there) = as_before _ g still there
    by_rotation (rotated new warning, g) (still, there) =
        by_cipher new warning g (s.encrypt new) refl still there

    by_host : (h : Result Error Host) → Good (host_read s w i h t f)
    by_host (err e) = elim (Bool-cases (is_no_rows e)) [
      | inl x ↦ rw x (as_before _ f works line)
      | inr x ↦ rw x (as_before _ f works line)
    ]
    by_host (ok h) = by_rotation _ (
        rotate_key-Sound w old k other (get_ssh_key s.decrypt s.key_fault i t) f lets_in ended works
          line)
