-- ===== src/Events.antt =====
-- mypalace/events/broker.py: the broker, with the queues of the subscribers in this process. Redis is
-- there or not; what is published to it stands in a list of channel messages, and what it delivers
-- to a subscriber is a step of its own. An envelope is its JSON text.
pub mod Queues
pub mod Tests
use my_palace.Common.{
  ℕ, suc, ◌+◌, Bool, true, false, ◌&&◌, String, Option, none, some, List, [], ◌∷◌, ◌++◌, map,
  filter, not, ltb, length, str_eq, if◌then◌else◌,
}

-- A subscriber's queue; `forwarding` says that a task forwards the Redis channel into it.
pub record Subscriber : Type 0 where
  pub name : String
  pub tenant_id : String
  pub queue : List String
  pub forwarding : Bool

abbrev pub max_size : ℕ
max_size = 256

-- `put_nowait`, where a full queue drops the event
pub put_nowait : String → Subscriber → Subscriber
put_nowait body q =
    if ltb (length q.queue) max_size then record q { queue = q.queue ++ body ∷ [] } else q

pub record Broker : Type 0 where
  pub redis : Bool
  pub subscribers : List Subscriber
  pub sent : List (String × String)  -- tenant of the channel, envelope

pub deliver : (Subscriber → Bool) → String → List Subscriber → List Subscriber
unfolding put_nowait
deliver wanted body = map λ q. if wanted q then put_nowait body q else q

-- EventBroker.publish; `reachable` says that Redis takes the message.
unfoldable pub publish : Bool → String → String → Broker → Broker
unfolding deliver
publish reachable tenant_id body b = record b {
  subscribers = deliver (λ q. str_eq q.tenant_id tenant_id) body b.subscribers;
  sent = if b.redis && reachable then b.sent ++ (tenant_id, body) ∷ [] else b.sent;
}

-- EventBroker.subscribe, up to the yield, and its end
pub subscribe : String → String → Broker → Broker
subscribe name tenant_id b = record b {
  subscribers =
      b.subscribers
      ++ record { name = name; tenant_id = tenant_id; queue = []; forwarding = b.redis } ∷ [];
}

pub unsubscribe : String → Broker → Broker
unsubscribe name b = record b { subscribers = filter (λ q. not (str_eq q.name name)) b.subscribers }

-- _forward_redis, for one message of the tenant's channel
pub forward_redis : String → String → Broker → Broker
unfolding deliver
forward_redis tenant_id body b = record b {
  subscribers = deliver (λ q. q.forwarding && str_eq q.tenant_id tenant_id) body b.subscribers;
}

-- The consumer takes the oldest envelope of its queue.
pub taken : List String → List String
taken [] = []
taken (body ∷ queue) = queue

pub take_one : String → Broker → Broker
unfolding taken
take_one name b = record b {
  subscribers =
      map (λ q. if str_eq q.name name then record q { queue = taken q.queue } else q) b.subscribers;
}
