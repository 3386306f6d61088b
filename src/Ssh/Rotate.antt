-- ===== src/Ssh/Rotate.antt =====
-- RotateKey (backend/pkg/ssh/bootstrap.go) and handleRotateKey (backend/cmd/api/hosts_extra.go).
use ubuntu_auto_update.Base.{
  ℕ, Bool, false, ◌||◌, List, [], ◌∷◌, ◌++◌, Option, none, some, Text, codes, if◌then◌else◌, Result,
  ok, err, Error, message, wrapped, error_text, is_no_rows,
}
use ubuntu_auto_update.Hosts.Defs.{Host, SshKey, HostTable, get_host}
use ubuntu_auto_update.Hosts.Keys.{get_ssh_key, add_ssh_key}
use ubuntu_auto_update.Ssh.Defs.{
  KeyFile, ScriptFault, format_authorized_key, install_line, revoke_others, run_script,
}

-- A generated key pair: the private key in PEM, and MarshalAuthorizedKey of the public one.
pub record KeyPair : Type 0 where
  pub private_key_pem : Text
  pub public_key : Text

-- `accepts` is sshd's: does a line of the file let this private key in? `connect_fault`,
-- `verify_fault` and `host_key_fault` are the network's and the host key callback's.
pub record RotateWorld : Type 0 where
  pub accepts : Text → Text → Bool
  pub connect_fault : Option Error
  pub generated : Result Error KeyPair
  pub install_fault : Option ScriptFault
  pub parse_fault : Option Error
  pub host_key_fault : Option Error
  pub verify_fault : Option Error
  pub revoke_fault : Option ScriptFault

unfoldable pub any_accepts : (Text → Bool) → List Text → Bool
any_accepts accepts [] = false
any_accepts accepts (l ∷ ls) = accepts l || any_accepts accepts ls

-- A dial with the key.
unfoldable pub dial_with : RotateWorld → Option Error → Text → KeyFile → Option Error
dial_with w (some e) key f = some e
dial_with w none key f =
    if any_accepts (w.accepts key) f.lines
    then none
    else some (message (codes "ssh: unable to authenticate"))

-- The result and the error that RotateKey returns.
pub data Rotated : Type 0 where
  failed : Error → Rotated
  rotated : Text → Option Error → Rotated

abbrev pub revoked : Text → Option Error × KeyFile → Rotated × KeyFile
revoked key (none, f) = (rotated key none, f)
revoked key (some e, f) =
    (rotated key (some (wrapped (codes "rotate succeeded but failed to revoke old keys: ") e)), f)

abbrev pub verified : RotateWorld → KeyPair → Option Error → KeyFile → Rotated × KeyFile
verified w k (some e) f = (failed (wrapped (codes "verify new key: ") e), f)
verified w k none f =
    revoked k.private_key_pem
      (run_script w.revoke_fault (revoke_others (format_authorized_key k.public_key)) f)

abbrev pub host_key_checked : RotateWorld → KeyPair → Option Error → KeyFile → Rotated × KeyFile
host_key_checked w k (some e) f = (failed (wrapped (codes "known_hosts: ") e), f)
host_key_checked w k none f = verified w k (dial_with w w.verify_fault k.private_key_pem f) f

abbrev pub parsed_key : RotateWorld → KeyPair → Option Error → KeyFile → Rotated × KeyFile
parsed_key w k (some e) f = (failed (wrapped (codes "parse new key: ") e), f)
parsed_key w k none f = host_key_checked w k w.host_key_fault f

abbrev pub installed : RotateWorld → KeyPair → Option Error × KeyFile → Rotated × KeyFile
installed w k (some e, f) = (failed (wrapped (codes "install new key: ") e), f)
installed w k (none, f) = parsed_key w k w.parse_fault f

abbrev pub with_pair : RotateWorld → Result Error KeyPair → KeyFile → Rotated × KeyFile
with_pair w (err e) f = (failed e, f)
with_pair w (ok k) f =
    installed w k (run_script w.install_fault (install_line (format_authorized_key k.public_key)) f)

abbrev pub connected_with : RotateWorld → Option Error → KeyFile → Rotated × KeyFile
connected_with w (some e) f = (failed (wrapped (codes "dial existing key: ") e), f)
connected_with w none f = with_pair w w.generated f

-- The key that ConnectToHost dials with, or the error that it met before.
abbrev pub with_key : RotateWorld → Result Error SshKey → KeyFile → Rotated × KeyFile
with_key w (err e) f = (failed (wrapped (codes "dial existing key: ") e), f)
with_key w (ok k) f = connected_with w (dial_with w w.connect_fault k.private_key f) f

unfoldable pub rotate_key : RotateWorld → Result Error SshKey → KeyFile → Rotated × KeyFile
rotate_key w key f = with_key w key f

pub data RotateReply : Type 0 where
  -- 200, with the warning
  replaced : Option Text → RotateReply
  rotate_refused : ℕ → Text → RotateReply

-- The faults of the store, and its cipher.
pub record RotateStore : Type 0 where
  pub encrypt : Text → Result Error Text
  pub decrypt : Text → Result Error Text
  pub get_fault : Option Error
  pub key_fault : Option Error
  pub put_fault : Option Error

abbrev pub warning_of : Option Error → Option Text
warning_of none = none
warning_of (some e) = some (error_text e)

abbrev pub key_kept :
    Option Error → Option Error × HostTable → KeyFile → RotateReply × HostTable × KeyFile
key_kept warning (none, t) f = (replaced (warning_of warning), t, f)
key_kept warning (some e, t) f =
    (rotate_refused 500 (codes "Rotation succeeded but persisting key failed; please retry"), t, f)

abbrev pub after_rotation :
    RotateStore → ℕ → HostTable → Rotated × KeyFile → RotateReply × HostTable × KeyFile
after_rotation s i t (failed e, f) =
    (rotate_refused 502 (codes "Key rotation failed: " ++ error_text e), t, f)
after_rotation s i t (rotated key warning, f) =
    key_kept warning (add_ssh_key s.encrypt s.put_fault i key t) f

abbrev pub host_read :
    RotateStore
    → RotateWorld
    → ℕ
    → Result Error Host
    → HostTable
    → KeyFile
    → RotateReply × HostTable × KeyFile
host_read s w i (err e) t f =
    if is_no_rows e
    then (rotate_refused 404 (codes "Host not found"), t, f)
    else (rotate_refused 500 (codes "Failed to read host"), t, f)
host_read s w i (ok h) t f =
    after_rotation s i t (rotate_key w (get_ssh_key s.decrypt s.key_fault i t) f)

unfoldable pub handle_rotate_key :
    RotateStore → RotateWorld → ℕ → HostTable → KeyFile → RotateReply × HostTable × KeyFile
handle_rotate_key s w i t f = host_read s w i (get_host s.get_fault i t) t f
