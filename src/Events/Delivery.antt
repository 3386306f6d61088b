-- ===== src/Events/Delivery.antt =====
-- What a subscriber receives.
use ubuntu_auto_update.Base.{
  arith, ℕ, ◌≤◌, ◌≡◌, refl, sym, ap, subst, ◌∙◌, inl, inr, Bool, true, false, List, [], ◌∷◌, ◌++◌,
  Option, none, some, append_assoc, ==_iff, append-nil, length, length-append, ltb, ltb→lt, ◌==◌,
  if◌then◌else◌, Bool-cases, some_inj,
}
use ubuntu_auto_update.Events.Defs.{
  Event, Channel, Broker, subscriber_buffer_size, subscribe, drop_channel, release, offer,
  offer_all, publish, find_channel, tail_of, head_of, take_first, head_or_none, receive,
}

-- What happens to the broker; the keys are those of the channels.
pub data BrokerOp : Type 0 where
  published : Event → BrokerOp
  received : ℕ → BrokerOp
  subscribed : BrokerOp
  released : ℕ → BrokerOp

unfoldable pub broker_step : BrokerOp → Broker → Broker
broker_step (published e) b = publish e b
broker_step (received j) b = (receive j b).1
broker_step subscribed b = (subscribe b).1
broker_step (released j) b = release j b

abbrev pub cons_some : Option Event → List Event → List Event
cons_some none es = es
cons_some (some e) es = e ∷ es

-- What the operation hands to `k`.
abbrev pub handed : ℕ → BrokerOp → Broker → Option Event
handed k (received j) b = if j == k then (receive j b).0 else none
handed k (published e) b = none
handed k subscribed b = none
handed k (released j) b = none

unfoldable pub follow : ℕ → List BrokerOp → Broker → List Event × Broker
follow k [] b = ([], b)
follow k (op ∷ ops) b =
    let (got, after) = follow k ops (broker_step op b) in (cons_some (handed k op b) got, after)

unfoldable pub published_in : List BrokerOp → List Event
published_in [] = []
published_in (published e ∷ ops) = e ∷ published_in ops
published_in (received j ∷ ops) = published_in ops
published_in (subscribed ∷ ops) = published_in ops
published_in (released j ∷ ops) = published_in ops

unfoldable pub releases : ℕ → List BrokerOp → Bool
releases k [] = false
releases k (released j ∷ ops) = let rest = releases k ops in if j == k then true else rest
releases k (published e ∷ ops) = releases k ops
releases k (received j ∷ ops) = releases k ops
releases k (subscribed ∷ ops) = releases k ops

-- The first list is the second with some of its elements left out.
pub data IsPart : List Event → List Event → Type 0 where
  nothing : IsPart [] []
  kept : {xs ys : List Event} → (e : Event) → IsPart xs ys → IsPart (e ∷ xs) (e ∷ ys)
  missed : {xs ys : List Event} → (e : Event) → IsPart xs ys → IsPart xs (e ∷ ys)

IsPart-self : (xs : List Event) → IsPart xs xs
IsPart-self [] = nothing
IsPart-self (x ∷ xs) = kept x (IsPart-self xs)

IsPart-insert :
    (e : Event) (xs ys zs : List Event) → IsPart xs (ys ++ zs) → IsPart xs (ys ++ e ∷ zs)
IsPart-insert e xs [] zs h = missed e h
IsPart-insert e xs (y ∷ ys) zs (kept _ h) = kept y (IsPart-insert e _ ys zs h)
IsPart-insert e xs (y ∷ ys) zs (missed _ h) = missed y (IsPart-insert e xs ys zs h)

offer-key : (e : Event) (c : Channel) → (offer e c).key ≡ c.key
unfolding offer
offer-key e c = ground arith

find-offer_all :
    (k : ℕ) (e : Event) (c : Channel) (cs : List Channel)
    → find_channel k cs ≡ some c
    → find_channel k (offer_all e cs) ≡ some (offer e c)
unfolding find_channel offer_all
find-offer_all k e c [] h = ground arith
find-offer_all k e c (d ∷ cs) h =
    let pick : Bool → Option Channel =
      λ b. if b then some (offer e d) else find_channel k (offer_all e cs) in
    let same_key : ((offer e d).key == k) ≡ (d.key == k) = ap (λ x. x == k) (offer-key e d) in
    elim (Bool-cases (d.key == k)) [
      | inl at ↦
          ap pick (same_key ∙ at) ∙ ap (λ x. some (offer e x)) (some_inj (sym (rw at refl) ∙ h))
      | inr off ↦ ap pick (same_key ∙ off) ∙ find-offer_all k e c cs (sym (rw off refl) ∙ h)
    ]

abbrev read_one : Channel → Channel
read_one c = record c { buffer = tail_of c.buffer }

find-take_first :
    (k : ℕ) (c : Channel) (cs : List Channel)
    → find_channel k cs ≡ some c
    → find_channel k (take_first k cs) ≡ some (read_one c)
unfolding find_channel take_first
find-take_first k c [] h = ground arith
find-take_first k c (d ∷ cs) h = elim (Bool-cases (d.key == k)) [
  | inl at ↦
      let same : d ≡ c = some_inj (sym (rw at refl) ∙ h) in
      rw (at, at) (ap (λ x. some (read_one x)) same)
  | inr off ↦ rw (off, off) (find-take_first k c cs (sym (rw off refl) ∙ h))
]

find-take_other :
    (j k : ℕ) (cs : List Channel)
    → (j == k) ≡ false
    → find_channel k (take_first j cs) ≡ find_channel k cs
unfolding find_channel take_first
find-take_other j k [] differ = refl
find-take_other j k (d ∷ cs) differ = elim (Bool-cases (d.key == j)) [
  | inl at ↦
      let off : (d.key == k) ≡ false = ground (arith, at, differ) in
      rw (at, off) (find-take_other j k cs differ)
  | inr off ↦ rw off (ap (λ o. if d.key == k then some d else o) (find-take_other j k cs differ))
]

find-drop_channel :
    (j k : ℕ) (cs : List Channel)
    → (j == k) ≡ false
    → find_channel k (drop_channel j cs) ≡ find_channel k cs
unfolding find_channel drop_channel
find-drop_channel j k [] differ = refl
find-drop_channel j k (d ∷ cs) differ = ground (arith, differ, find-drop_channel j k cs differ)

find-subscribe :
    (k : ℕ) (c d : Channel) (cs : List Channel)
    → find_channel k cs ≡ some c
    → find_channel k (cs ++ d ∷ []) ≡ some c
unfolding find_channel
find-subscribe k c d [] h = ground arith
find-subscribe k c d (x ∷ cs) h = elim (Bool-cases (x.key == k)) [
  | inl at ↦ rw at (sym (rw at refl) ∙ h)
  | inr off ↦ rw off (find-subscribe k c d cs (sym (rw off refl) ∙ h))
]

offer-bounded : (e : Event) (c : Channel) → length c.buffer ≤ 64 → length (offer e c).buffer ≤ 64
unfolding offer
offer-bounded e c h = elim (Bool-cases (ltb (length c.buffer) subscriber_buffer_size)) [
  | inl room ↦
      rw room (omega (arith, length-append c.buffer (e ∷ []), ltb→lt (length c.buffer) 64 room))
  | inr full ↦ rw full h
]

length-tail_of : (es : List Event) → length es ≤ 64 → length (tail_of es) ≤ 64
length-tail_of [] h = omega arith
length-tail_of (e ∷ es) h = omega (arith, h)

offer-IsPart :
    (e : Event) (c : Channel) (xs zs : List Event)
    → IsPart xs ((offer e c).buffer ++ zs)
    → IsPart xs (c.buffer ++ e ∷ zs)
unfolding offer
offer-IsPart e c xs zs = elim (Bool-cases (ltb (length c.buffer) subscriber_buffer_size)) [
  | inl room ↦ rw room (λ h. subst (IsPart xs) (append_assoc c.buffer (e ∷ []) zs) h)
  | inr full ↦ rw full (λ h. IsPart-insert e xs c.buffer zs h)
]

taken-IsPart :
    (es got rest zs : List Event)
    → IsPart (got ++ rest) (tail_of es ++ zs)
    → IsPart (cons_some (head_of es) got ++ rest) (es ++ zs)
taken-IsPart [] got rest zs h = h
taken-IsPart (e ∷ es) got rest zs h = kept e h

-- What the subscriber `k`, whose channel holds `start`, has at the end of the operations.
abbrev pub IsServed : ℕ → List Event → List BrokerOp → List Event × Broker → Type 0
IsServed k start ops (got, after) =
    (c : Channel) × (find_channel k after.subscribers ≡ some c)
    × (length c.buffer ≤ 64)
    × IsPart (got ++ c.buffer) (start ++ published_in ops)

-- A subscriber that is registered, with at most 64 events in its buffer, and is not released: after
-- any publishing, receiving, subscribing and releasing by others, it is still registered, its
-- buffer has at most 64 events, and what it received, followed by what its buffer holds, is its
-- first buffer and the events published since, in order, with some left out.
pub follow-IsServed :
    (k : ℕ) (ops : List BrokerOp) (b : Broker) (c : Channel)
    → find_channel k b.subscribers ≡ some c
    → length c.buffer ≤ 64
    → releases k ops ≡ false
    → IsServed k c.buffer ops (follow k ops b)
unfolding follow published_in releases broker_step publish receive subscribe release
follow-IsServed k [] b c found small stays = (
  c,
  found,
  small,
  subst (λ x. IsPart c.buffer x) (sym (append-nil c.buffer)) (IsPart-self c.buffer),
)
follow-IsServed k (published e ∷ ops) b c found small stays =
    let after = publish e b in
    let (d, there, bounded, part) =
      follow-IsServed k ops after (offer e c) (find-offer_all k e c b.subscribers found)
        (offer-bounded e c small) stays in
    (d, there, bounded, offer-IsPart e c _ (published_in ops) part)
follow-IsServed k (received j ∷ ops) b c found small stays = elim (Bool-cases (j == k)) [
  | inl at ↦
      let same : j ≡ k = (==_iff j k).0 at in
      let mine : find_channel k (take_first j b.subscribers) ≡ some (read_one c) =
        ap (λ x. find_channel k (take_first x b.subscribers)) same
        ∙ find-take_first k c b.subscribers found in
      let (d, there, bounded, part) =
        follow-IsServed k ops (receive j b).1 (read_one c) mine (length-tail_of c.buffer small)
          stays in
      let got : handed k (received j) b ≡ head_of c.buffer =
        ap (λ x. if x then (receive j b).0 else none) at
        ∙ ap head_or_none (ap (λ x. find_channel x b.subscribers) same ∙ found) in
      (
        d,
        there,
        bounded,
        subst
            (λ o.
              IsPart (cons_some o (follow k ops (receive j b).1).0 ++ d.buffer)
                (c.buffer ++ published_in ops))
            (sym got) (taken-IsPart c.buffer _ d.buffer (published_in ops) part),
      )
  | inr off ↦
      let (d, there, bounded, part) =
        follow-IsServed k ops (receive j b).1 c (find-take_other j k b.subscribers off ∙ found)
          small stays in
      let got : handed k (received j) b ≡ none =
        ap (λ x. if x then (receive j b).0 else none) off in
      (
        d,
        there,
        bounded,
        subst
            (λ o.
              IsPart (cons_some o (follow k ops (receive j b).1).0 ++ d.buffer)
                (c.buffer ++ published_in ops))
            (sym got) part,
      )
]
follow-IsServed k (subscribed ∷ ops) b c found small stays =
    follow-IsServed k ops (subscribe b).1 c (find-subscribe k c _ b.subscribers found) small stays
follow-IsServed k (released j ∷ ops) b c found small stays = elim (Bool-cases (j == k)) [
  | inl at ↦ absurd (ground (arith, at, stays))
  | inr off ↦
      follow-IsServed k ops (release j b) c (find-drop_channel j k b.subscribers off ∙ found) small
        (sym (rw off refl) ∙ stays)
]
