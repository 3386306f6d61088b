-- ===== src/Webhooks/Safety.antt =====
-- Which addresses a delivery may have been sent to.
use ubuntu_auto_update.Base.{
  arith, ◌≡◌, refl, Bool, true, false, not, ◌&&◌, ◌||◌, List, [], ◌∷◌, Text, codes, text_eq, Result,
  ok, err, Error, is_none,
}
use ubuntu_auto_update.Webhooks.Defs.{Url, Resolver, check_ips, resolved, parsed_url, is_safe_url}

-- An address outside the ranges that the source lists.
abbrev pub is_outside : {Ip : Type 0} → Resolver Ip → Ip → Bool
is_outside net ip = not (
    net.is_loopback ip
    || (net.is_private ip || (net.is_link_local_unicast ip || net.is_unspecified ip)))

abbrev pub all_outside : {Ip : Type 0} → Resolver Ip → List Ip → Bool
all_outside net [] = true
all_outside net (ip ∷ ips) = is_outside net ip && all_outside net ips

abbrev pub resolves_outside : {Ip : Type 0} → Resolver Ip → Result Error (List Ip) → Bool
resolves_outside net (err e) = false
resolves_outside net (ok ips) = all_outside net ips

abbrev pub is_web_url : {Ip : Type 0} → Resolver Ip → Result Error Url → Bool
is_web_url net (err e) = false
is_web_url net (ok u) =
    (text_eq u.scheme (codes "http") || text_eq u.scheme (codes "https"))
    && resolves_outside net (net.lookup_ip u.hostname)

module _ {Ip : Type 0} (net : Resolver Ip) where
  check_ips_lem : (ips : List Ip) → is_none (check_ips net ips) ≡ all_outside net ips
  unfolding check_ips
  check_ips_lem [] = refl
  check_ips_lem (ip ∷ ips) = ground (arith, check_ips_lem ips)

  resolved_lem : (r : Result Error (List Ip)) → is_none (resolved net r) ≡ resolves_outside net r
  resolved_lem (err e) = refl
  resolved_lem (ok ips) = check_ips_lem ips

  parsed_url_lem : (u : Result Error Url) → is_none (parsed_url net u) ≡ is_web_url net u
  parsed_url_lem (err e) = refl
  parsed_url_lem (ok u) = ground (arith, resolved_lem (net.lookup_ip u.hostname))

  -- IsSafeURL accepts a URL exactly when it parses, its scheme is http or https, its name resolves,
  -- and every address of the name is outside the loopback, private, link-local and unspecified
  -- ranges.
  pub is_safe_url_lem :
      (target : Text) → is_none (is_safe_url net target) ≡ is_web_url net (net.parse_url target)
  unfolding is_safe_url
  is_safe_url_lem target = parsed_url_lem (net.parse_url target)
