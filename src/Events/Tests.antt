-- ===== src/Events/Tests.antt =====
-- Two subscribers, one of them slow, and a listener whose connection breaks.
use ubuntu_auto_update.Base.{arith, ℕ, ◌≡◌, refl, List, [], ◌∷◌, codes, ok}
use ubuntu_auto_update.Events.Defs.{
  Event, Broker, find_channel, release, publish, offer, drop_channel, count_full, offer_all,
  take_first, receive, subscribe,
}
use ubuntu_auto_update.Events.Delivery.{
  BrokerOp, published, received, subscribed, released, follow, releases, IsServed, follow-IsServed,
  broker_step,
}
use ubuntu_auto_update.Events.Listening.{refused, broke, run_listener, listen, next_backoff}

abbrev changed : ℕ → Event
changed i = record { table = codes "hosts"; op = codes "UPDATE"; id = i }

abbrev one_subscriber : Broker
one_subscriber = record {
  subscribers = record { key = 1; buffer = [] } ∷ [];
  dropped = 0;
  next_key = 2;
}

abbrev traffic : List BrokerOp
traffic =
    published (changed 7)
    ∷ subscribed
    ∷ published (changed 8)
    ∷ received 1
    ∷ received 2
    ∷ released 2
    ∷ published (changed 9)
    ∷ []

followed_test : follow 1 traffic one_subscriber ≡ (
  changed 7 ∷ [],
  record {
    subscribers = record { key = 1; buffer = changed 8 ∷ changed 9 ∷ [] } ∷ [];
    dropped = 0;
    next_key = 3;
  },
)
unfolding follow receive broker_step find_channel publish offer_all release subscribe drop_channel
    offer take_first count_full
followed_test = refl

follow-IsServed_example : IsServed 1 [] traffic (follow 1 traffic one_subscriber)
unfolding find_channel releases
follow-IsServed_example =
    follow-IsServed 1 traffic one_subscriber (record { key = 1; buffer = [] }) refl (omega arith)
      refl

-- The wait goes on growing after a connection that worked.
pauses_test :
    (run_listener
      (λ p. ok (changed 1))
      (refused ∷ refused ∷ refused ∷ refused ∷ refused ∷ refused ∷ broke (codes "{}" ∷ []) ∷ [])
      one_subscriber).1
    ≡ 1 ∷ 2 ∷ 4 ∷ 8 ∷ 16 ∷ 30 ∷ 30 ∷ []
unfolding run_listener listen next_backoff
pauses_test = refl
