-- ===== src/Hosts/Keys.antt =====
-- Private keys at rest (backend/pkg/db/db.go). AES-GCM is outside: `encrypt` and `decrypt` stand
-- for the functions of backend/pkg/crypto, which call it.
use ubuntu_auto_update.Base.{
  ℕ, List, [], ◌∷◌, Option, none, some, Text, codes, ◌==◌, if◌then◌else◌, Result, ok, err, Error,
  wrapped, no_rows, pg,
}
use ubuntu_auto_update.Hosts.Defs.{Host, SshKey, HostTable, host_by_id, change_host}

unfoldable pub find_key : ℕ → List SshKey → Option SshKey
find_key i [] = none
find_key i (k ∷ ks) = let rest = find_key i ks in if k.host_id == i then some k else rest

-- INSERT … ON CONFLICT (host_id) DO UPDATE
unfoldable pub put_key : ℕ → Text → List SshKey → List SshKey
put_key i key [] = record { host_id = i; private_key = key } ∷ []
put_key i key (k ∷ ks) =
    let rest = put_key i key ks in
    if k.host_id == i then record k { private_key = key } ∷ ks else k ∷ rest

abbrev pub decrypted : Result Error Text → SshKey → Result Error SshKey
decrypted (err e) k = err (wrapped (codes "failed to decrypt SSH key for host: ") e)
decrypted (ok key) k = ok (record k { private_key = key })

abbrev pub key_row : (Text → Result Error Text) → Option SshKey → Result Error SshKey
key_row decrypt none = err no_rows
key_row decrypt (some k) = decrypted (decrypt k.private_key) k

unfoldable pub get_ssh_key :
    (Text → Result Error Text) → Option Error → ℕ → HostTable → Result Error SshKey
get_ssh_key decrypt (some e) i t = err e
get_ssh_key decrypt none i t = key_row decrypt (find_key i t.keys)

-- host_id REFERENCES hosts(id): no key for a host that is not there.
abbrev pub no_such_host : Error
no_such_host = pg (codes "23503") (codes "violates foreign key constraint")

abbrev pub insert_fault : Option Error → Option Host → Option Error
insert_fault (some e) row = some e
insert_fault none none = some no_such_host
insert_fault none (some h) = none

abbrev pub put_with : Option Error → ℕ → Text → HostTable → Option Error × HostTable
put_with (some e) i key t = (some e, t)
put_with none i key t = (none, record t { keys = put_key i key t.keys })

abbrev pub put_encrypted :
    Option Error → ℕ → Result Error Text → HostTable → Option Error × HostTable
put_encrypted fault i (err e) t = (some (wrapped (codes "failed to encrypt SSH key: ") e), t)
put_encrypted fault i (ok key) t = put_with (insert_fault fault (host_by_id i t.rows)) i key t

unfoldable pub add_ssh_key :
    (Text → Result Error Text) → Option Error → ℕ → Text → HostTable → Option Error × HostTable
add_ssh_key encrypt fault i key t = put_encrypted fault i (encrypt key) t

-- The faults and the clock of one transaction.
pub record KeyWorld : Type 0 where
  pub begin_fault : Option Error
  pub put_fault : Option Error
  pub user_fault : Option Error
  pub commit_fault : Option Error
  pub now : ℕ

-- After the upsert, in the transaction that sees `t`; a failure leaves what was there before, `old`.
abbrev pub committed : Option Error → HostTable → HostTable → Option Error × HostTable
committed (some e) old t = (some e, old)
committed none old t = (none, t)

abbrev pub user_set :
    KeyWorld
    → Option Error
    → ℕ
    → Text
    → Option Host
    → HostTable
    → HostTable
    → Option Error × HostTable
user_set w (some e) i ssh_user row old t = (some (wrapped (codes "update ssh_user: ") e), old)
user_set w none i ssh_user none old t = (some no_rows, old)
user_set w none i ssh_user (some h) old t = committed w.commit_fault old (record t {
  rows = change_host i (λ r. record r { ssh_user = ssh_user; updated_at = w.now }) t.rows;
})

abbrev pub key_put :
    KeyWorld → Option Error → ℕ → Text → Text → HostTable → Option Error × HostTable
key_put w (some e) i ssh_user key t = (some (wrapped (codes "upsert ssh_key: ") e), t)
key_put w none i ssh_user key t =
    user_set w w.user_fault i ssh_user (host_by_id i t.rows) t
      (record t { keys = put_key i key t.keys })

abbrev pub begun : KeyWorld → Option Error → ℕ → Text → Text → HostTable → Option Error × HostTable
begun w (some e) i ssh_user key t = (some (wrapped (codes "begin tx: ") e), t)
begun w none i ssh_user key t =
    key_put w (insert_fault w.put_fault (host_by_id i t.rows)) i ssh_user key t

abbrev pub encrypted :
    KeyWorld → ℕ → Text → Result Error Text → HostTable → Option Error × HostTable
encrypted w i ssh_user (err e) t = (some (wrapped (codes "failed to encrypt SSH key: ") e), t)
encrypted w i ssh_user (ok key) t = begun w w.begin_fault i ssh_user key t

unfoldable pub set_ssh_key_and_user :
    (Text → Result Error Text) → KeyWorld → ℕ → Text → Text → HostTable → Option Error × HostTable
set_ssh_key_and_user encrypt w i ssh_user key t = encrypted w i ssh_user (encrypt key) t
