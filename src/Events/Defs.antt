-- ===== src/Events/Defs.antt =====
-- Broker (backend/pkg/events/broker.go). A channel is its key and its buffer; the map of
-- subscribers is a list, whose order nothing depends on.
use ubuntu_auto_update.Base.{
  ℕ, suc, ◌+◌, ◌%◌, ◌^◌, List, [], ◌∷◌, ◌++◌, Option, none, some, Text, length, ltb, ◌==◌,
  if◌then◌else◌,
}

pub record Event : Type 0 where
  pub table : Text
  pub op : Text
  pub id : ℕ

abbrev pub subscriber_buffer_size : ℕ
subscriber_buffer_size = 64

pub record Channel : Type 0 where
  pub key : ℕ
  pub buffer : List Event

-- `next_key` names the channel that the next Subscribe makes.
pub record Broker : Type 0 where
  pub subscribers : List Channel
  pub dropped : ℕ
  pub next_key : ℕ

unfoldable pub subscribe : Broker → ℕ × Broker
subscribe b = (
  b.next_key,
  record b {
    subscribers = b.subscribers ++ record { key = b.next_key; buffer = [] } ∷ [];
    next_key = suc b.next_key;
  },
)

unfoldable pub drop_channel : ℕ → List Channel → List Channel
drop_channel k [] = []
drop_channel k (c ∷ cs) = let rest = drop_channel k cs in if c.key == k then rest else c ∷ rest

unfoldable pub release : ℕ → Broker → Broker
release k b = record b { subscribers = drop_channel k b.subscribers }

-- The select with a default: a full buffer takes nothing.
unfoldable pub offer : Event → Channel → Channel
offer e c =
    if ltb (length c.buffer) subscriber_buffer_size
    then record c { buffer = c.buffer ++ e ∷ [] }
    else c

unfoldable pub offer_all : Event → List Channel → List Channel
offer_all e [] = []
offer_all e (c ∷ cs) = offer e c ∷ offer_all e cs

unfoldable pub count_full : List Channel → ℕ
count_full [] = 0
count_full (c ∷ cs) =
    let rest = count_full cs in
    if ltb (length c.buffer) subscriber_buffer_size then rest else suc rest

-- The counter is a uint64.
unfoldable pub publish : Event → Broker → Broker
publish e b = record b {
  subscribers = offer_all e b.subscribers;
  dropped = (b.dropped + count_full b.subscribers) % 2 ^ 64;
}

unfoldable pub find_channel : ℕ → List Channel → Option Channel
find_channel k [] = none
find_channel k (c ∷ cs) = let rest = find_channel k cs in if c.key == k then some c else rest

abbrev pub tail_of : List Event → List Event
tail_of [] = []
tail_of (e ∷ es) = es

abbrev pub head_of : List Event → Option Event
head_of [] = none
head_of (e ∷ es) = some e

unfoldable pub take_first : ℕ → List Channel → List Channel
take_first k [] = []
take_first k (c ∷ cs) =
    let rest = take_first k cs in
    (if c.key == k then record c { buffer = tail_of c.buffer } else c) ∷ rest

abbrev pub head_or_none : Option Channel → Option Event
head_or_none none = none
head_or_none (some c) = head_of c.buffer

-- The subscriber reads its channel, when there is something in it.
unfoldable pub receive : ℕ → Broker → Option Event × Broker
receive k b = (
  head_or_none (find_channel k b.subscribers),
  record b { subscribers = take_first k b.subscribers },
)
