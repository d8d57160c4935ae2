-- ===== src/Cache/Calls.antt =====
-- mypalace/cache/decorator.py: the read-through call, and a sequence of such calls.
use Prim.Native.String.{◌++◌}
use Prim.Native.String.append
use Prim.Native.Char.{code}
use mathlib.Core.List.{◌++◌ as ◌+++◌, append_assoc}
use mathlib.Core.Path.{ap₂}
use my_palace.Common.{
  ℕ, Bool-cases, ◌≡◌, refl, sym, ap, ◌∙◌, Bool, true, false, ◌==◌, String, Option, none, some, List,
  [], ◌∷◌, if◌then◌else◌, ◌⊎◌, inl, inr, arith, In, any, codes, Codes, All, All-In, drop,
}
use my_palace.Common.Dict.{Dict}
use my_palace.Cache.{
  Backend, Laws, Cache, get, set, tenant_of, derive_key, invalidate_tenant_namespace,
}
use my_palace.Cache.Entries.{Held, Reread, get-Held, get-keeps, set-Held, invalidate_pattern-Held}

-- What a loader gives: a model with its `model_dump(mode="json")`, a list, a tuple or a dict of such,
-- or any other value.
mutual
  pub data Fresh (V : Type 0) : Type 0 where
    model : (dump : V) → Fresh V
    listed tupled : Items V → Fresh V
    keyed : Fields V → Fresh V
    other : V → Fresh V

  pub data Items (V : Type 0) : Type 0 where
    nil : Items V
    cons : Fresh V → Items V → Items V

  pub data Fields (V : Type 0) : Type 0 where
    end : Fields V
    field : String → Fresh V → Fields V → Fields V

module _ (b : Backend) where
  -- _to_jsonable
  unfoldable mutual
    pub to_jsonable : Fresh b.Value → b.Value
    to_jsonable (model dump) = dump
    to_jsonable (listed vs) = b.list_of (jsonable_items vs)
    to_jsonable (tupled vs) = b.list_of (jsonable_items vs)
    to_jsonable (keyed fs) = b.dict_of (jsonable_fields fs)
    to_jsonable (other v) = v

    pub jsonable_items : Items b.Value → List b.Value
    jsonable_items nil = []
    jsonable_items (cons v vs) = to_jsonable v ∷ jsonable_items vs

    pub jsonable_fields : Fields b.Value → List (String × b.Value)
    jsonable_fields end = []
    jsonable_fields (field k v fs) = (k, to_jsonable v) ∷ jsonable_fields fs

module _ (b : Backend) (digest : Dict String → String) where
  -- A call: its key, its time to live, and what its loader gives, `none` where that raises.
  pub record Request : Type 0 where
    pub namespace : String
    pub parts : Dict String
    pub ttl : ℕ
    pub loader : Option (Fresh b.Value)

  abbrev pub key_of : Request → String
  key_of r = derive_key digest r.namespace r.parts

  pub load : Request → Option (Fresh b.Value) → Cache b → Option (Fresh b.Value) × Cache b
  unfolding to_jsonable
  load r none c = (none, c)
  load r (some fresh) c = (some fresh, set b (key_of r) (to_jsonable b fresh) r.ttl c)

  -- A value that was found and is no None is the answer as it was read; a JSON null is a miss.
  pub or_load : Request → Option b.Value → Cache b → Option (Fresh b.Value) × Cache b
  unfolding load
  or_load r (some v) c = if b.is_none v then load r r.loader c else (some (other v), c)
  or_load r none c = load r r.loader c

  unfoldable pub cached_call : Request → Cache b → Option (Fresh b.Value) × Cache b
  unfolding or_load
  cached_call r c = let (v, c') = get b (key_of r) c in or_load r v c'

  -- What happens to the cache: a call, or the invalidation of a namespace of a tenant.
  pub data Event : Type 0 where
    calling : Request → Event
    invalidating : (tenant_id namespace : String) → Event

  -- What the loader of a call gave, as JSON reads it in the text written for its JSON form.
  abbrev pub Cached : Request → b.Value → Type 0
  Cached q v = (fresh : Fresh b.Value) × (q.loader ≡ some fresh) × Reread b (to_jsonable b fresh) v

  -- The value is what the loader of the call gave, or is no None and what was cached for an earlier
  -- call of the same tenant under the same key.
  abbrev pub Comes : List Request → Request → Fresh b.Value → Type 0
  Comes past r f =
      (r.loader ≡ some f)
      ⊎ ((q : Request) × (v : b.Value) × In q past
          × (codes (tenant_of q.parts) ≡ codes (tenant_of r.parts))
          × (key_of q ≡ key_of r)
          × (f ≡ other v)
          × (b.is_none v ≡ false)
          × Cached q v)

  -- Each answer of a sequence of events comes from a loader; `past` are the calls before.
  abbrev pub Explained : List Request → List Event → Cache b → Type 0
  Explained past [] c = Unit {0}
  Explained past (calling r ∷ es) c =
      ((f : Fresh b.Value) → (cached_call r c).0 ≡ some f → Comes past r f)
      × Explained (r ∷ past) es (cached_call r c).1
  Explained past (invalidating t n ∷ es) c =
      Explained past es (invalidate_tenant_namespace b t n c).1

-- Tenants hold no colon, as their ids may not.
abbrev no_colon : Codes → Bool
no_colon s = if any (λ c. c == b':') s then false else true

abbrev pub Plain : Dict String → Type 0
Plain parts = no_colon (codes (tenant_of parts)) ≡ true

codes-append : (s t : String) → codes (s ++ t) ≡ codes s +++ codes t
codes-append String.[] t = ap codes (append.nil t)
codes-append (String.◌∷◌ c s) t =
    ap codes (append.cons c s t) ∙ ap (◌∷◌ (code c)) (codes-append s t)

colon_cancel :
    (s t u w : Codes)
    → no_colon s ≡ true
    → no_colon t ≡ true
    → s +++ b':' ∷ u ≡ t +++ b':' ∷ w
    → s ≡ t
colon_cancel [] [] u w hs ht e = refl
colon_cancel [] (d ∷ t) u w hs ht e = absurd (ground arith)
colon_cancel (c ∷ s) [] u w hs ht e = absurd (ground arith)
colon_cancel (c ∷ s) (d ∷ t) u w hs ht e =
    ap₂ ◌∷◌ (ground arith) (colon_cancel s t u w (ground arith) (ground arith) (ground arith))

tail_of : (Dict String → String) → String → Dict String → Codes
tail_of digest namespace parts = codes namespace +++ codes ":" +++ codes (digest parts)

derive_key-codes :
    (digest : Dict String → String) (namespace : String) (parts : Dict String)
    → codes (derive_key digest namespace parts)
      ≡ codes "palace:cache:"
        +++ (codes (tenant_of parts) +++ b':' ∷ tail_of digest namespace parts)
unfolding derive_key tail_of
derive_key-codes digest namespace parts = simp (codes-append, append_assoc)

some-inj : {A : Type 0} {x y : A} → ◌≡◌ {A = Option A} (some x) (some y) → x ≡ y
some-inj {A} {x} {y} h = ap (λ (o : Option A). elim o [ none ↦ x | some z ↦ z ]) h

-- Keys of two tenants differ.
derive_key-tenant :
    (digest : Dict String → String) (n m : String) (p q : Dict String)
    → Plain p
    → Plain q
    → derive_key digest n p ≡ derive_key digest m q
    → codes (tenant_of p) ≡ codes (tenant_of q)
derive_key-tenant digest n m p q hp hq e =
    colon_cancel (codes (tenant_of p)) (codes (tenant_of q)) (tail_of digest n p)
      (tail_of digest m q) hp hq
      (ap (drop 13) (sym (derive_key-codes digest n p) ∙ ap codes e ∙ derive_key-codes digest m q))

module _ (b : Backend) (laws : Laws b) (digest : Dict String → String) where
  -- What the cache holds was cached for a call.
  abbrev pub Known : List (Request b digest) → Cache b → Type 0
  Known past c =
      (k : String) (v : b.Value)
      → Held b c k v
      → (q : Request b digest) × In q past × (key_of b digest q ≡ k) × Cached b digest q v

  abbrev pub AllPlain : List (Event b digest) → Type 0
  AllPlain [] = Unit {0}
  AllPlain (calling r ∷ es) = Plain r.parts × AllPlain es
  AllPlain (invalidating t n ∷ es) = AllPlain es

  Known-more :
      (r : Request b digest) (past : List (Request b digest)) (c : Cache b)
      → Known past c
      → Known (r ∷ past) c
  Known-more r past c h k v held = let (q, i, key, from) = h k v held in (q, inr i, key, from)

  get-Known :
      (k : String) (past : List (Request b digest)) (c : Cache b)
      → Known past c
      → Known past (get b k c).1
  get-Known k past c h j v (raw, g, l) = h j v (raw, rw (get-keeps b k c).0 at g, l)

  load-Known :
      (o : Option (Fresh b.Value)) (r : Request b digest) (past : List (Request b digest))
      (c : Cache b)
      → r.loader ≡ o
      → Known past c
      → Known (r ∷ past) (load b digest r o c).1
  unfolding load
  load-Known none r past c e h j v held = Known-more r past c h j v held
  load-Known (some fresh) r past c e h j v held =
      elim (set-Held b laws (key_of b digest r) (to_jsonable b fresh) r.ttl c j v held) [
        | inl (same, reread) ↦ (r, inl refl, same, (fresh, e, reread))
        | inr old ↦ Known-more r past c h j v old
      ]

  load-from :
      (o : Option (Fresh b.Value)) (r : Request b digest) (c : Cache b)
      → (load b digest r o c).0 ≡ o
  unfolding load
  load-from none r c = refl
  load-from (some fresh) r c = refl

  or_load-Known :
      (o : Option b.Value) (r : Request b digest) (past : List (Request b digest)) (c : Cache b)
      → Known past c
      → Known (r ∷ past) (or_load b digest r o c).1
  unfolding or_load
  or_load-Known none r past c h = load-Known r.loader r past c refl h
  or_load-Known (some v) r past c h = elim (Bool-cases (b.is_none v)) [
    | inl e ↦ rw e (load-Known r.loader r past c refl h)
    | inr e ↦ rw e (Known-more r past c h)
  ]

  module _ (past : List (Request b digest)) (plain : All (λ q. Plain q.parts) past) where
    or_load-Comes :
        (o : Option b.Value) (r : Request b digest) (c c' : Cache b)
        → Plain r.parts
        → Known past c
        → ((v : b.Value) → o ≡ some v → Held b c (key_of b digest r) v)
        → (f : Fresh b.Value) → (or_load b digest r o c').0 ≡ some f
        → Comes b digest past r f
    unfolding or_load
    or_load-Comes none r c c' pr h held f e = inl (sym (load-from r.loader r c') ∙ e)
    or_load-Comes (some v) r c c' pr h held f e = elim (Bool-cases (b.is_none v)) [
      | inl null ↦ inl (sym (load-from r.loader r c') ∙ (rw null at e))
      | inr real ↦
          let (q, i, key, from) = h (key_of b digest r) v (held v refl) in
          inr (
            q,
            v,
            i,
            derive_key-tenant digest q.namespace r.namespace q.parts r.parts
                (All-In (λ q'. Plain q'.parts) q past plain i) pr key,
            key,
            some-inj (sym (rw real at e)),
            real,
            from,
          )
    ]

  -- Where the cache holds only what was cached for earlier calls: in every sequence of calls and
  -- invalidations over tenants with no colon in their ids, an answer of a call is the very value of
  -- its own loader, or else no None and what json reads in the text that it wrote for the JSON form
  -- of the value of an earlier call's loader, one of the same tenant and under the same key,
  -- whichever calls of Redis and json fail.
  pub cached_call-Explained :
      (es : List (Event b digest)) (past : List (Request b digest)) (c : Cache b)
      → AllPlain es
      → All (λ q. Plain q.parts) past
      → Known past c
      → Explained b digest past es c
  unfolding cached_call invalidate_tenant_namespace
  cached_call-Explained [] past c ps plain h = tt
  cached_call-Explained (calling r ∷ es) past c (pr, ps) plain h =
      let (o, c') = get b (key_of b digest r) c in
      (
        or_load-Comes past plain o r c c' pr h (λ v e. get-Held b (key_of b digest r) c v e),
        cached_call-Explained es (r ∷ past) (or_load b digest r o c').1 ps (pr, plain)
            (or_load-Known o r past c' (get-Known (key_of b digest r) past c h)),
      )
  cached_call-Explained (invalidating t n ∷ es) past c ps plain h =
      cached_call-Explained es past (invalidate_tenant_namespace b t n c).1 ps plain (λ k v held.
        h k v
          (invalidate_pattern-Held b laws ("palace:cache:" ++ t ++ ":" ++ n ++ ":*") c k v held))
