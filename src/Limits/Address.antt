-- ===== src/Limits/Address.antt =====
-- The address of a client and the address list (backend/pkg/middleware/ratelimit.go). Package net
-- is outside: `Net` holds the functions of it that the source calls.
use ubuntu_auto_update.Base.{
  ℕ, ◌+◌, ◌≡◌, refl, sym, ap, ◌∙◌, inl, inr, Bool, true, false, not, ◌||◌, List, [], ◌∷◌, ◌++◌,
  Option, none, some, Text, codes, is_empty, trim_space, text_eq, ◌==◌, if◌then◌else◌, ltb, ◌&&◌,
  Bool-cases, arith, Result, ok, err, Error, message,
}

pub record Net (Ip Cidr : Type 0) : Type 0 where
  -- net.ParseIP, and To4() != nil
  pub parse_ip : Text → Option Ip
  pub is_v4 : Ip → Bool
  pub parse_cidr : Text → Result Error Cidr
  pub contains : Cidr → Ip → Bool
  -- the host of net.SplitHostPort
  pub split_host : Text → Option Text

-- strings.Split(s, ","): at least one part
unfoldable pub split_commas : Text → List Text
split_commas [] = [] ∷ []
split_commas (c ∷ s) = elim (split_commas s) [
  | [] ↦ []
  | part ∷ parts ↦ if c == 0x2c then [] ∷ part ∷ parts else (c ∷ part) ∷ parts
]

unfoldable pub first_part : Text → Text
first_part [] = []
first_part (c ∷ s) = let rest = first_part s in if c == 0x2c then [] else c ∷ rest

-- strings.ToLower
abbrev pub lower : ℕ → ℕ
lower c = if ltb c 0x41 then c else if ltb 0x5a c then c else c + 0x20

abbrev pub lower_text : Text → Text
lower_text [] = []
lower_text (c ∷ s) = lower c ∷ lower_text s

-- The value of the environment variable.
unfoldable pub env_is_true : Text → Bool
env_is_true value =
    let v = lower_text value in
    text_eq v (codes "1") || (text_eq v (codes "true") || text_eq v (codes "yes"))

-- The header X-Forwarded-For, RemoteAddr, and the environment's TRUST_FORWARDED_FOR.
pub record Source : Type 0 where
  pub trust : Text
  pub forwarded_for : Text
  pub remote_addr : Text

abbrev pub host_or : Text → Option Text → Text
host_or addr none = addr
host_or addr (some host) = host

unfoldable pub client_ip : (Text → Option Text) → Source → Text
client_ip split_host s =
    if env_is_true s.trust && not (is_empty s.forwarded_for)
    then trim_space (first_part s.forwarded_for)
    else host_or s.remote_addr (split_host s.remote_addr)

unfoldable pub has_slash : Text → Bool
has_slash [] = false
has_slash (c ∷ s) = c == 0x2f || has_slash s

module _ {Ip Cidr : Type 0} (net : Net Ip Cidr) where
  -- A bare address gets its full prefix length.
  abbrev pub promoted : Text → Option Ip → Result Error Text
  promoted raw none = err (message (codes "invalid IP address: " ++ raw))
  promoted raw (some ip) = ok (raw ++ (if net.is_v4 ip then codes "/32" else codes "/128"))

  abbrev pub with_prefix : Text → Result Error Text
  with_prefix raw = if has_slash raw then ok raw else promoted raw (net.parse_ip raw)

  abbrev pub parsed : Result Error Text → Result Error Cidr
  parsed (err e) = err e
  parsed (ok raw) = net.parse_cidr raw

  abbrev pub and_rest : Result Error Cidr → Result Error (List Cidr) → Result Error (List Cidr)
  and_rest (err e) rest = err e
  and_rest (ok n) (err e) = err e
  and_rest (ok n) (ok ns) = ok (n ∷ ns)

  unfoldable pub parse_nets : List Text → Result Error (List Cidr)
  parse_nets [] = ok []
  parse_nets (part ∷ parts) =
      let raw = trim_space part in
      let rest = parse_nets parts in
      let both = and_rest (parsed (with_prefix raw)) rest in if is_empty raw then rest else both

  -- `none` is a list that is not enabled.
  abbrev pub enabled_with : Result Error (List Cidr) → Result Error (Option (List Cidr))
  enabled_with (err e) = err e
  enabled_with (ok ns) = ok (some ns)

  unfoldable pub new_ip_allowlist : Text → Result Error (Option (List Cidr))
  new_ip_allowlist text =
      let s = trim_space text in
      let made = enabled_with (parse_nets (split_commas s)) in if is_empty s then ok none else made

  unfoldable pub any_contains : List Cidr → Ip → Bool
  any_contains [] ip = false
  any_contains (n ∷ ns) ip = net.contains n ip || any_contains ns ip

  abbrev pub allow_ip : List Cidr → Option Ip → Bool
  allow_ip ns none = false
  allow_ip ns (some ip) = any_contains ns ip

  -- IPAllowlist.Allow, with `host_or` for the port that may be there.
  unfoldable pub allow_addr : Option (List Cidr) → Text → Bool
  allow_addr none addr = true
  allow_addr (some ns) addr = allow_ip ns (net.parse_ip (host_or addr (net.split_host addr)))

-- Has the text a comma?
unfoldable pub has_comma : Text → Bool
has_comma [] = false
has_comma (c ∷ s) = c == 0x2c || has_comma s

first_part-append : (s rest : Text) → has_comma s ≡ false → first_part (s ++ 0x2c ∷ rest) ≡ s
unfolding has_comma first_part
first_part-append [] rest h = refl
first_part-append (c ∷ s) rest h = elim (Bool-cases (c == 0x2c)) [
  | inl e ↦ absurd (ground (arith, e))
  | inr e ↦ rw e (ap (λ r. c ∷ r) (first_part-append s rest (sym (rw e refl) ∙ h)))
]

-- Where the forwarded address is trusted and the proxy appends the peer's address to the header
-- that came, as infrastructure/nginx/nginx.conf does, the client chooses its own address: a
-- request that came with a header `claimed` of its own, without a comma and not empty, counts as
-- coming from `claimed`, both for the address list and for the limiter's key, whatever the peer is.
pub client_ip-Forged :
    {Ip Cidr : Type 0} (net : Net Ip Cidr) (nets : Option (List Cidr))
    (trust claimed peer addr : Text)
    → env_is_true trust ≡ true
    → is_empty claimed ≡ false
    → has_comma claimed ≡ false
    → (client_ip net.split_host (record {
      trust = trust;
      forwarded_for = claimed ++ (codes ", " ++ peer);
      remote_addr = addr;
    })
        ≡ trim_space claimed)
      × (allow_addr net nets (
            client_ip net.split_host (record {
              trust = trust;
              forwarded_for = claimed ++ (codes ", " ++ peer);
              remote_addr = addr;
            }))
          ≡ allow_addr net nets (trim_space claimed))
unfolding client_ip
client_ip-Forged net nets trust claimed peer addr trusted some_text no_comma = (
  forged claimed some_text no_comma,
  ap (allow_addr net nets) (forged claimed some_text no_comma),
)
  where
    forged :
        (c : Text)
        → is_empty c ≡ false
        → has_comma c ≡ false
        → client_ip net.split_host (record {
          trust = trust;
          forwarded_for = c ++ (codes ", " ++ peer);
          remote_addr = addr;
        })
          ≡ trim_space c
    forged [] h plain = cc
    forged (x ∷ c) h plain =
        ap
          (λ b.
            if b && true
            then trim_space (first_part (x ∷ (c ++ (codes ", " ++ peer))))
            else host_or addr (net.split_host addr))
          trusted
        ∙ ap trim_space (first_part-append (x ∷ c) (0x20 ∷ peer) plain)
