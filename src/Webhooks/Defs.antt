-- ===== src/Webhooks/Defs.antt =====
-- Parsing a URL, resolving a name, the predicates on addresses and the HTTP client are outside:
-- `Resolver` and `WebWorld` hold what the source calls.
use ubuntu_auto_update.Base.{
  ℕ, zero, suc, ◌*◌, Bool, true, false, not, ◌&&◌, ◌||◌, List, [], ◌∷◌, ◌++◌, Option, none, some,
  Text, codes, text_eq, ltb, leb, ◌==◌, if◌then◌else◌, Result, ok, err, Error, message, wrapped,
  itoa, is_some,
}

pub record Url : Type 0 where
  pub scheme : Text
  pub hostname : Text

pub record Resolver (Ip : Type 0) : Type 0 where
  pub parse_url : Text → Result Error Url
  pub lookup_ip : Text → Result Error (List Ip)
  pub is_loopback : Ip → Bool
  pub is_private : Ip → Bool
  pub is_link_local_unicast : Ip → Bool
  pub is_unspecified : Ip → Bool

module _ {Ip : Type 0} (net : Resolver Ip) where
  -- The first objection to an address.
  unfoldable pub check_ips : List Ip → Option Error
  check_ips [] = none
  check_ips (ip ∷ ips) =
      let rest = check_ips ips in
      if net.is_loopback ip
      then some (message (codes "loopback addresses are not allowed"))
      else if net.is_private ip
      then some (message (codes "private IP addresses are not allowed"))
      else if net.is_link_local_unicast ip
      then some (message (codes "link-local addresses are not allowed"))
      else if net.is_unspecified ip
      then some (message (codes "unspecified addresses are not allowed"))
      else rest

  abbrev pub resolved : Result Error (List Ip) → Option Error
  resolved (err e) = some (wrapped (codes "could not resolve hostname: ") e)
  resolved (ok ips) = check_ips ips

  abbrev pub parsed_url : Result Error Url → Option Error
  parsed_url (err e) = some (wrapped (codes "invalid URL: ") e)
  parsed_url (ok u) =
      let rest = resolved (net.lookup_ip u.hostname) in
      if not (text_eq u.scheme (codes "http")) && not (text_eq u.scheme (codes "https"))
      then some (message (codes "unsupported scheme (must be http or https)"))
      else rest

  unfoldable pub is_safe_url : Text → Option Error
  is_safe_url target = parsed_url (net.parse_url target)

-- The faults of one attempt, and the status of the answer.
pub record WebWorld : Type 0 where
  pub marshal_fault : Option Error
  pub request_fault : Option Error
  pub answer : Result Error ℕ

abbrev pub answered : Result Error ℕ → Option Error
answered (err e) = some (wrapped (codes "failed to send webhook: ") e)
answered (ok status) =
    if ltb status 200 || leb 300 status
    then some (message (codes "webhook returned status " ++ itoa status))
    else none

abbrev pub requested : WebWorld → Option Error → Option Error
requested w (some e) = some (wrapped (codes "failed to create webhook request: ") e)
requested w none = answered w.answer

abbrev pub marshaled : WebWorld → Option Error → Option Error
marshaled w (some e) = some (wrapped (codes "failed to marshal webhook payload: ") e)
marshaled w none = requested w w.request_fault

abbrev pub if_safe : WebWorld → Option Error → Option Error
if_safe w (some e) = some (wrapped (codes "unsafe webhook URL: ") e)
if_safe w none = marshaled w w.marshal_fault

unfoldable pub send_with_context : {Ip : Type 0} → Resolver Ip → WebWorld → Text → Option Error
send_with_context net w url = if_safe w (is_safe_url net url)

abbrev pub max_attempts : ℕ
max_attempts = 3

-- Milliseconds.
abbrev pub base_backoff : ℕ
base_backoff = 500

-- The last attempt made, whether it went through, and the pauses before attempts.
pub record Delivery : Type 0 where
  pub last : ℕ
  pub delivered : Bool
  pub pauses : List ℕ

-- The attempt `k`, of which `left` may follow. `send` is the error of each attempt, and `cancelled`
-- whether the context ends in the pause after it.
unfoldable pub deliver_from : (ℕ → Option Error) → (ℕ → Bool) → ℕ → ℕ → ℕ → Delivery
deliver_from send cancelled zero k backoff = record {
  last = k;
  delivered = not (is_some (send k));
  pauses = [];
}
deliver_from send cancelled (suc left) k backoff =
    let rest = deliver_from send cancelled left (suc k) (backoff * 2) in
    if not (is_some (send k))
    then record { last = k; delivered = true; pauses = [] }
    else if cancelled k
    then record { last = k; delivered = false; pauses = [] }
    else record rest { pauses = backoff ∷ rest.pauses }

unfoldable pub deliver : (ℕ → Option Error) → (ℕ → Bool) → Delivery
deliver send cancelled = deliver_from send cancelled 2 1 base_backoff

pub record Webhook : Type 0 where
  pub id : ℕ
  pub url : Text
  pub event : Text

unfoldable pub for_event : Text → List Webhook → List Webhook
for_event event [] = []
for_event event (h ∷ hs) =
    let rest = for_event event hs in if text_eq h.event event then h ∷ rest else rest

unfoldable pub get_webhooks : Option Error → Text → List Webhook → Result Error (List Webhook)
get_webhooks (some e) event hs = err e
get_webhooks none event hs = ok (for_event event hs)

unfoldable pub drop_webhook : ℕ → List Webhook → List Webhook
drop_webhook i [] = []
drop_webhook i (h ∷ hs) = let rest = drop_webhook i hs in if h.id == i then rest else h ∷ rest

unfoldable pub count_webhook : ℕ → List Webhook → ℕ
count_webhook i [] = 0
count_webhook i (h ∷ hs) = let rest = count_webhook i hs in if h.id == i then suc rest else rest

unfoldable pub delete_webhook : Option Error → ℕ → List Webhook → Result Error ℕ × List Webhook
delete_webhook (some e) i hs = (err e, hs)
delete_webhook none i hs = (ok (count_webhook i hs), drop_webhook i hs)

abbrev pub urls_of : Result Error (List Webhook) → List Text
urls_of (err e) = []
urls_of (ok []) = []
urls_of (ok (h ∷ hs)) = h.url ∷ urls_of (ok hs)

-- The URLs to which dispatchWebhooks starts a delivery.
unfoldable pub dispatch_webhooks : Option Error → Text → List Webhook → List Text
dispatch_webhooks fault event hs = urls_of (get_webhooks fault event hs)
