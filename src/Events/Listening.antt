-- ===== src/Events/Listening.antt =====
-- Listener.Run and runOnce (backend/pkg/events/listener.go), as what one connection after the other
-- brings. Decoding a payload is `decode`; times are in seconds.
use ubuntu_auto_update.Base.{
  arith, ℕ, ◌*◌, ◌≤◌, List, [], ◌∷◌, Text, codes, ltb, if◌then◌else◌, Result, ok, err, Error, All,
}
use ubuntu_auto_update.Events.Defs.{Event, Broker, publish}

-- One runOnce: it fails before it listens, it listens and the connection breaks after these
-- payloads, or the context ends after them.
pub data Connection : Type 0 where
  refused : Connection
  broke ended : List Text → Connection

abbrev pub snapshot : Event
snapshot = record { table = []; op = codes "snapshot"; id = 0 }

abbrev pub published_or : Result Error Event → Broker → Broker
published_or (ok e) b = publish e b
published_or (err x) b = b

-- The payloads of one connection; a bad one is skipped.
unfoldable pub pump : (Text → Result Error Event) → List Text → Broker → Broker
pump decode [] b = b
pump decode (p ∷ ps) b = pump decode ps (published_or (decode p) b)

abbrev pub max_backoff : ℕ
max_backoff = 30

unfoldable pub next_backoff : ℕ → ℕ
next_backoff backoff =
    let doubled = backoff * 2 in if ltb max_backoff doubled then max_backoff else doubled

-- The broker at the end and the pauses before the reconnections. The list of connections ends
-- where the context is cancelled in a pause.
unfoldable pub listen : (Text → Result Error Event) → ℕ → List Connection → Broker → Broker × List ℕ
listen decode backoff [] b = (b, [])
listen decode backoff (refused ∷ cs) b =
    let (after, pauses) = listen decode (next_backoff backoff) cs (publish snapshot b) in
    (after, backoff ∷ pauses)
listen decode backoff (broke ps ∷ cs) b =
    let (after, pauses) =
      listen decode (next_backoff backoff) cs (publish snapshot (pump decode ps b)) in
    (after, backoff ∷ pauses)
listen decode backoff (ended ps ∷ cs) b = (pump decode ps b, [])

unfoldable pub run_listener :
    (Text → Result Error Event) → List Connection → Broker → Broker × List ℕ
run_listener decode cs b = listen decode 1 cs b

next_backoff-bounds :
    (backoff : ℕ) → 1 ≤ backoff → (1 ≤ next_backoff backoff) × (next_backoff backoff ≤ 30)
unfolding next_backoff
next_backoff-bounds backoff h = ground (arith, h)

-- Every pause is between one and thirty seconds.
pub listen-All :
    (decode : Text → Result Error Event) (backoff : ℕ) (cs : List Connection) (b : Broker)
    → 1 ≤ backoff
    → backoff ≤ 30
    → All (λ p. (1 ≤ p) × (p ≤ 30)) (listen decode backoff cs b).1
unfolding listen
listen-All decode backoff [] b low high = tt
listen-All decode backoff (refused ∷ cs) b low high =
    let (low', high') = next_backoff-bounds backoff low in
    ((low, high), listen-All decode (next_backoff backoff) cs (publish snapshot b) low' high')
listen-All decode backoff (broke ps ∷ cs) b low high =
    let (low', high') = next_backoff-bounds backoff low in
    (
      (low, high),
      listen-All decode (next_backoff backoff) cs (publish snapshot (pump decode ps b)) low' high',
    )
listen-All decode backoff (ended ps ∷ cs) b low high = tt
