-- ===== src/Events/Queues.antt =====
-- What the queues hold.
use my_palace.Common.{
  ◌+◌, ◌≤◌, ◌<◌, ◌≡◌, ◌≢◌, false, refl, sym, Bool, true, ◌&&◌, String, List, [], ◌∷◌, ◌++◌, map,
  ltb, length, str_eq, str_eq_iff, if◌then◌else◌, arith, All, All-filter, In, In-map, Bool-cases,
  inl, inr, ◌⊎◌, ltb→lt, lt→ltb, map-In, length-append, subst,
}
use my_palace.Events.{
  Subscriber, max_size, put_nowait, Broker, deliver, publish, subscribe, unsubscribe, forward_redis,
  taken, take_one,
}

-- What the process may do with its broker.
pub data Step (b : Broker) : Broker → Type 0 where
  published :
      (reachable : Bool) (tenant_id body : String) → Step b (publish reachable tenant_id body b)
  subscribed : (name tenant_id : String) → Step b (subscribe name tenant_id b)
  unsubscribed : (name : String) → Step b (unsubscribe name b)
  forwarded : (tenant_id body : String) → Step b (forward_redis tenant_id body b)
  consumed : (name : String) → Step b (take_one name b)

-- No queue holds more than its bound.
abbrev pub IsBounded : Broker → Type 0
IsBounded b = All (λ (q : Subscriber). length q.queue ≤ max_size) b.subscribers

put_nowait-bounded :
    (body : String) (q : Subscriber)
    → length q.queue ≤ max_size
    → length (put_nowait body q).queue ≤ max_size
unfolding put_nowait
put_nowait-bounded body q h = ground (arith, length-append q.queue (body ∷ []))

All-map_mono :
    {A : Type 0} (P : A → Type 0) (f : A → A) (xs : List A)
    → ((x : A) → P x → P (f x))
    → All P xs
    → All P (map f xs)
All-map_mono P f [] h a = tt
All-map_mono P f (x ∷ xs) h a = (h x a.0, All-map_mono P f xs h a.1)

All-append_last :
    {A : Type 0} (P : A → Type 0) (xs : List A) (x : A) → All P xs → P x → All P (xs ++ x ∷ [])
All-append_last P [] x a h = (h, tt)
All-append_last P (y ∷ xs) x a h = (a.0, All-append_last P xs x a.1 h)

deliver-bounded :
    (wanted : Subscriber → Bool) (body : String) (qs : List Subscriber)
    → All (λ (q : Subscriber). length q.queue ≤ max_size) qs
    → All (λ (q : Subscriber). length q.queue ≤ max_size) (deliver wanted body qs)
unfolding deliver
deliver-bounded wanted body qs a =
    All-map_mono _ _ qs (λ q h. ground (arith, put_nowait-bounded body q h)) a

taken-le : (queue : List String) → length (taken queue) ≤ length queue
unfolding taken
taken-le [] = omega arith
taken-le (b ∷ queue) = omega arith

-- No step makes a queue longer than 256.
Step-IsBounded : {b c : Broker} → Step b c → IsBounded b → IsBounded c
unfolding publish subscribe unsubscribe forward_redis take_one
Step-IsBounded {b} (published reachable tenant body) a =
    deliver-bounded (λ q. str_eq q.tenant_id tenant) body b.subscribers a
Step-IsBounded {b} (subscribed name tenant) a = All-append_last _ b.subscribers _ a (omega arith)
Step-IsBounded {b} (unsubscribed name) a = All-filter _ _ b.subscribers a
Step-IsBounded {b} (forwarded tenant body) a =
    deliver-bounded (λ q. q.forwarding && str_eq q.tenant_id tenant) body b.subscribers a
Step-IsBounded {b} (consumed name) a =
    All-map_mono _ _ b.subscribers (λ q h. ground (arith, taken-le q.queue)) a

-- A subscriber after a delivery of `body` to a tenant: as before, or of that tenant, with room, and
-- with the envelope at the end of its queue.
abbrev pub Delivered : String → String → Subscriber → Subscriber → Type 0
Delivered tenant body old q =
    (q ≡ old)
    ⊎ ((old.tenant_id ≡ tenant)
        × (length old.queue < max_size)
        × (q ≡ record old { queue = old.queue ++ body ∷ [] }))

put-Delivered :
    (tenant body : String) (old : Subscriber)
    → Delivered tenant body old (if str_eq old.tenant_id tenant then put_nowait body old else old)
unfolding put_nowait
put-Delivered tenant body old = elim (Bool-cases (str_eq old.tenant_id tenant)) [
  | inl e ↦ elim (Bool-cases (ltb (length old.queue) max_size)) [
    | inl f ↦ inr ((str_eq_iff old.tenant_id tenant).0 e, ltb→lt _ _ f, rw (e, f) refl)
    | inr f ↦ inl (rw (e, f) refl)
  ]
  | inr e ↦ inl (rw e refl)
]

-- After a publish every subscriber is one from before, which is as it was, or is of the event's
-- tenant, had room, and has the envelope behind all that it held.
publish-Delivered :
    (reachable : Bool) (tenant body : String) (b : Broker) (q : Subscriber)
    → In q (publish reachable tenant body b).subscribers
    → (old : Subscriber) × In old b.subscribers × Delivered tenant body old q
unfolding publish deliver
publish-Delivered reachable tenant body b q i =
    let (old, j, e) = In-map _ q b.subscribers i in
    (old, j, subst (Delivered tenant body old) (sym e) (put-Delivered tenant body old))

deliver-In :
    (wanted : Subscriber → Bool) (body : String) (qs : List Subscriber) (q : Subscriber)
    → In q qs
    → wanted q ≡ true
    → length q.queue < max_size
    → In (record q { queue = q.queue ++ body ∷ [] }) (deliver wanted body qs)
unfolding deliver put_nowait
deliver-In wanted body qs q i w room =
    subst (λ z. In z (deliver wanted body qs)) (rw (w, lt→ltb _ _ room) refl)
      (map-In (λ (k : Subscriber). if wanted k then put_nowait body k else k) q qs i)

deliver_passes :
    (wanted : Subscriber → Bool) (body : String) (qs : List Subscriber) (q : Subscriber)
    → In q qs
    → wanted q ≡ false
    → In q (deliver wanted body qs)
unfolding deliver
deliver_passes wanted body qs q i w =
    subst (λ z. In z (deliver wanted body qs)) (rw w refl)
      (map-In (λ (k : Subscriber). if wanted k then put_nowait body k else k) q qs i)

forwarded_twice :
    (tenant body : String) (b : Broker) (q : Subscriber)
    → In q b.subscribers
    → q.tenant_id ≡ tenant
    → q.forwarding ≡ true
    → length q.queue + 2 ≤ max_size
    → In
        (record q { queue = (q.queue ++ body ∷ []) ++ body ∷ [] })
        (forward_redis tenant body (publish true tenant body b)).subscribers
unfolding publish forward_redis
forwarded_twice tenant body b q i same on room =
    let own : str_eq q.tenant_id tenant ≡ true = (str_eq_iff q.tenant_id tenant).1 same in
    let once =
      deliver-In (λ k. str_eq k.tenant_id tenant) body b.subscribers q i own (omega arith) in
    deliver-In (λ k. k.forwarding && str_eq k.tenant_id tenant) body _
      (record q { queue = q.queue ++ body ∷ [] }) once (rw (on, own) refl)
      (omega (arith, length-append q.queue (body ∷ [])))

forwarded_once :
    (tenant body : String) (b : Broker) (q : Subscriber)
    → In q b.subscribers
    → q.tenant_id ≡ tenant
    → q.forwarding ≡ false
    → length q.queue < max_size
    → In
        (record q { queue = q.queue ++ body ∷ [] })
        (forward_redis tenant body (publish true tenant body b)).subscribers
unfolding publish forward_redis
forwarded_once tenant body b q i same off room =
    let own : str_eq q.tenant_id tenant ≡ true = (str_eq_iff q.tenant_id tenant).1 same in
    deliver_passes (λ k. k.forwarding && str_eq k.tenant_id tenant) body _
      (record q { queue = q.queue ++ body ∷ [] })
      (deliver-In (λ k. str_eq k.tenant_id tenant) body b.subscribers q i own room) (rw off refl)

forwarded_never :
    (tenant body : String) (b : Broker) (q : Subscriber)
    → In q b.subscribers
    → q.tenant_id ≢ tenant
    → In q (forward_redis tenant body (publish true tenant body b)).subscribers
unfolding publish forward_redis
forwarded_never tenant body b q i other =
    let foreign : str_eq q.tenant_id tenant ≡ false =
      elim (Bool-cases (str_eq q.tenant_id tenant)) [
        | inl e ↦ absurd (other ((str_eq_iff q.tenant_id tenant).0 e))
        | inr e ↦ e
      ] in
    deliver_passes (λ k. k.forwarding && str_eq k.tenant_id tenant) body _ q
      (deliver_passes (λ k. str_eq k.tenant_id tenant) body b.subscribers q i foreign)
      (ground arith)

-- With Redis, a publish that Redis takes sends it one message, of the event's tenant. When Redis then
-- delivers that very message back, a subscriber of the publishing process has the envelope in its
-- queue twice if it is of the tenant and a task forwards the channel to it, once if it is of the
-- tenant and none does, and not at all if it is of another tenant, room for two provided.
pub publish-forward_redis-twice :
    (tenant body : String) (b : Broker) (q : Subscriber)
    → b.redis ≡ true
    → In q b.subscribers
    → length q.queue + 2 ≤ max_size
    → (let after = publish true tenant body b in
        (m : String × String) × (after.sent ≡ b.sent ++ m ∷ [])
        × (q.tenant_id ≡ tenant
            → q.forwarding ≡ true
            → In
                (record q { queue = (q.queue ++ body ∷ []) ++ body ∷ [] })
                (forward_redis m.0 m.1 after).subscribers)
        × (q.tenant_id ≡ tenant
            → q.forwarding ≡ false
            → In
                (record q { queue = q.queue ++ body ∷ [] })
                (forward_redis m.0 m.1 after).subscribers)
        × (q.tenant_id ≢ tenant → In q (forward_redis m.0 m.1 after).subscribers))
unfolding publish
publish-forward_redis-twice tenant body b q up i room = (
  (tenant, body),
  rw up refl,
  λ same on. forwarded_twice tenant body b q i same on room,
  λ same off. forwarded_once tenant body b q i same off (omega arith),
  λ other. forwarded_never tenant body b q i other,
)
