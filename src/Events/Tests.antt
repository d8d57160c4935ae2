-- ===== src/Events/Tests.antt =====
-- A broker with two subscribers, on which the theorems of Events are tried.
use my_palace.Common.{◌≡◌, ◌≢◌, ◌++◌, false, refl, inl, true, String, [], ◌∷◌, In, arith}
use my_palace.Events.{Subscriber, Broker, publish, forward_redis}
use my_palace.Events.Queues.{publish-forward_redis-twice}

abbrev subscriber : String → Subscriber
subscriber tenant = record {
  name = tenant;
  tenant_id = tenant;
  queue = "first" ∷ [];
  forwarding = true;
}

abbrev broker : Broker
broker = record {
  redis = true;
  subscribers = subscriber "acme" ∷ subscriber "globex" ∷ [];
  sent = [];
}

publish-forward_redis-twice_example :
    let after = publish true "acme" "second" broker in
    let q = subscriber "acme" in
    (m : String × String) × (after.sent ≡ [] ++ m ∷ [])
    × (q.tenant_id ≡ "acme"
        → q.forwarding ≡ true
        → In
            (record q { queue = "first" ∷ "second" ∷ "second" ∷ [] })
            (forward_redis m.0 m.1 after).subscribers)
    × (q.tenant_id ≡ "acme"
        → q.forwarding ≡ false
        → In
            (record q { queue = "first" ∷ "second" ∷ [] })
            (forward_redis m.0 m.1 after).subscribers)
    × (q.tenant_id ≢ "acme" → In q (forward_redis m.0 m.1 after).subscribers)
publish-forward_redis-twice_example =
    publish-forward_redis-twice "acme" "second" broker (subscriber "acme") refl (inl refl)
      (omega arith)
