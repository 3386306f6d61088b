-- ===== src/Ssh/HostKeys.antt =====
-- The table host_keys (backend/pkg/ssh/host_keys.go), and the choice of the store in
-- AppendKnownHost (backend/pkg/ssh/bootstrap.go) and ConnectToHost's address
-- (backend/pkg/ssh/client.go). The fingerprint and net.SplitHostPort are outside.
use ubuntu_auto_update.Base.{
  arith, ◌≡◌, refl, sym, ap, ◌∙◌, inl, inr, Bool, true, false, ◌&&◌, ◌||◌, List, [], ◌∷◌, ◌++◌,
  Option, none, some, Text, codes, text_eq, text_eq_iff, is_empty, if◌then◌else◌, Bool-cases, Error,
  message, wrapped, is_none,
}

pub record HostKeyRow : Type 0 where
  pub hostname : Text
  pub fingerprint : Text

unfoldable pub is_known : Text → Text → List HostKeyRow → Bool
is_known hostname fp [] = false
is_known hostname fp (r ∷ rs) =
    (text_eq r.hostname hostname && text_eq r.fingerprint fp) || is_known hostname fp rs

-- INSERT … ON CONFLICT DO NOTHING
abbrev pub known_row : Text → Text → Bool → List HostKeyRow → List HostKeyRow
known_row hostname fp true rs = rs
known_row hostname fp false rs = rs ++ record { hostname = hostname; fingerprint = fp } ∷ []

-- `fingerprint` is FingerprintSHA256.
unfoldable pub save_host_key :
    (Text → Text) → Option Error → Text → Text → List HostKeyRow → Option Error × List HostKeyRow
save_host_key fingerprint (some e) hostname key rs =
    (some (wrapped (codes "save host key: ") e), rs)
save_host_key fingerprint none hostname key rs =
    (none, known_row hostname (fingerprint key) (is_known hostname (fingerprint key) rs) rs)

abbrev pub host_or_all : Text → Option Text → Text
host_or_all addr none = addr
host_or_all addr (some h) = h

-- `split_host` is the host of net.SplitHostPort, where there is one.
unfoldable pub strip_port : (Text → Option Text) → Text → Text
strip_port split_host host = host_or_all host (split_host host)

abbrev pub counted_key : Text → Text → Bool → Option Error
counted_key hostname fp true = none
counted_key hostname fp false = some (
    message (
      codes "host key for "
      ++ (hostname ++ (codes " (" ++ (fp ++ codes ") is not in host_keys; refusing connection")))))

unfoldable pub host_key_callback :
    (Text → Text)
    → (Text → Option Text)
    → Option Error
    → Text
    → Text
    → List HostKeyRow
    → Option Error
host_key_callback fingerprint split_host (some e) hostname key rs =
    some (wrapped (codes "host_keys lookup: ") e)
host_key_callback fingerprint split_host none hostname key rs =
    counted_key hostname (fingerprint key)
      (is_known (strip_port split_host hostname) (fingerprint key) rs)

-- The environment's HOST_KEY_STORE, or the default.
unfoldable pub store_mode : Text → Bool → Text
store_mode mode has_pool =
    if is_empty mode then (if has_pool then codes "db" else codes "file") else mode

-- `file` is the error of the known_hosts file, where that is the store.
unfoldable pub append_known_host :
    (Text → Text)
    → Text
    → Bool
    → Option Error
    → Option Error
    → Text
    → Text
    → List HostKeyRow
    → Option Error × List HostKeyRow
append_known_host fingerprint mode has_pool file fault hostname key rs =
    let saved = save_host_key fingerprint fault hostname key rs in
    let m = store_mode mode has_pool in
    if text_eq m (codes "db")
    then saved
    else if text_eq m (codes "file")
    then (file, rs)
    else (some (message (codes "unknown HOST_KEY_STORE \"" ++ (m ++ codes "\""))), rs)

-- ConnectToHost's address.
unfoldable pub connect_addr : Text → Text
connect_addr hostname = hostname ++ codes ":22"

is_known-new :
    (host fp hostname key : Text) (rs : List HostKeyRow)
    → is_known host fp (rs ++ record { hostname = hostname; fingerprint = key } ∷ [])
      ≡ (is_known host fp rs || (text_eq hostname host && text_eq key fp))
unfolding is_known
is_known-new host fp hostname key [] = ground arith
is_known-new host fp hostname key (r ∷ rs) = ground (arith, is_known-new host fp hostname key rs)

known_row-lem :
    (host fp hostname key : Text) (b : Bool) (rs : List HostKeyRow)
    → is_known hostname key rs ≡ b
    → is_known host fp (known_row hostname key b rs)
      ≡ (is_known host fp rs || (text_eq hostname host && text_eq key fp))
known_row-lem host fp hostname key false rs e = is_known-new host fp hostname key rs
known_row-lem host fp hostname key true rs e = elim (Bool-cases (text_eq hostname host)) [
  | inl h ↦ elim (Bool-cases (text_eq key fp)) [
    | inl k ↦
        let there : is_known host fp rs ≡ true =
          ap (λ x. is_known x fp rs) (sym ((text_eq_iff hostname host).0 h))
          ∙ (ap (λ x. is_known hostname x rs) (sym ((text_eq_iff key fp).0 k)) ∙ e) in
        rw there refl
    | inr k ↦ ground (arith, h, k)
  ]
  | inr h ↦ ground (arith, h)
]

counted_key-is_none : (host fp : Text) (b : Bool) → is_none (counted_key host fp b) ≡ b
counted_key-is_none host fp true = refl
counted_key-is_none host fp false = refl

-- After AppendKnownHost stores a host key in the database without a fault, a dial by ConnectToHost
-- to a host accepts exactly the keys that it accepted before and, for the hostname stored, the keys
-- with the fingerprint of the key stored. SplitHostPort takes the port off the address dialed.
pub host_key_callback-append :
    (fingerprint : Text → Text) (split_host : Text → Option Text) (hostname key host k : Text)
    (rs : List HostKeyRow)
    → split_host (connect_addr host) ≡ some host
    → is_none (
        host_key_callback fingerprint split_host none
          (connect_addr host)
          k
          (append_known_host fingerprint [] true none none hostname key rs).1)
      ≡ (is_none (host_key_callback fingerprint split_host none (connect_addr host) k rs)
          || (text_eq hostname host && text_eq (fingerprint key) (fingerprint k)))
unfolding host_key_callback append_known_host save_host_key strip_port store_mode text_eq
host_key_callback-append fingerprint split_host hostname key host k rs strips =
    let fp = fingerprint key in
    let known = is_known hostname fp rs in
    let addr = connect_addr host in
    counted_key-is_none addr (fingerprint k)
      (is_known (strip_port split_host addr) (fingerprint k) (known_row hostname fp known rs))
    ∙ (ap (λ o. is_known (host_or_all addr o) (fingerprint k) (known_row hostname fp known rs))
          strips
        ∙ (known_row-lem host (fingerprint k) hostname fp known rs refl
            ∙ ap (λ b. b || (text_eq hostname host && text_eq fp (fingerprint k)))
                (sym (
                  counted_key-is_none addr (fingerprint k)
                    (is_known (strip_port split_host addr) (fingerprint k) rs)
                  ∙ ap (λ o. is_known (host_or_all addr o) (fingerprint k) rs) strips))))
