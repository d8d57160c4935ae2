-- ===== src/Entities/Cache.antt =====
-- The entity service against a map from tenants and identifiers to names: what the cache is for.
use my_palace.Common.{
  ◌≡◌, refl, ◌&&◌, String, Option, none, some, List, [], ◌∷◌, str_eq, str_eq_iff, if◌then◌else◌,
  arith, Option-cases, inl, inr, ◌≢◌, is_some, ap, ◌∙◌, true, false, str_eq_refl,
}
use mathlib.Core.Path.{ap₂}
use my_palace.Common.Dict
use my_palace.Common.Dict.{Dict}
use my_palace.Entities.Prefixes.{strip_platform_prefix}
use my_palace.Entities.{
  EntityAlias, EntityService, Env, mapping_onto, load_tenant, ensured, ensure_loaded, or_bare,
  resolved, resolve, upsert, slot, register, registered, invalidate_cache,
}
use my_palace.Entities.Table.{alias_of, alias_of-upsert, get-without, put-cases, mapping-alias_of}

-- Every mapping of the cache says what the table says.
abbrev pub Coherent : EntityService → Type 0
Coherent s =
    (t : String) (m : Dict String)
    → Dict.get t s.cache ≡ some m
    → (i : String) → Dict.get i m ≡ alias_of t i s.rows

-- The abstract service: a map from tenants and identifiers to names.
abbrev pub Names : Type 0
Names = String → String → Option String

abbrev pub meaning : String → (String → Option String) → String
meaning i f = elim (f i) [
  | some name ↦ name
  | none ↦ elim (strip_platform_prefix i) [
    | none ↦ i
    | some bare ↦ elim (f bare) [ some name ↦ name | none ↦ i ]
  ]
]

pub data Op : Type 0 where
  resolving : (identifier tenant_id : String) → Op
  registering : (env : Env) (identifier canonical_name tenant_id source : String) → Op
  invalidating : (tenant_id : Option String) → Op

unfoldable pub run_op : Op → EntityService → Option String × EntityService
run_op (resolving i t) s = let (name, s') = resolve i t s in (some name, s')
run_op (registering env i n t source) s = (none, (register env i n t source s).1)
run_op (invalidating t) s = (none, invalidate_cache t s)

unfoldable pub spec_op : Op → Names → Option String × Names
spec_op (resolving i t) v = (some (meaning i (v t)), v)
spec_op (registering env i n t source) v =
    (none, λ t' i'. if str_eq t t' && str_eq i i' then some n else v t' i')
spec_op (invalidating t) v = (none, v)

unfoldable pub run_ops : List Op → EntityService → List (Option String) × EntityService
run_ops [] s = ([], s)
run_ops (o ∷ os) s = let (a, s') = run_op o s in let (as', s'') = run_ops os s' in (a ∷ as', s'')

unfoldable pub spec_ops : List Op → Names → List (Option String) × Names
spec_ops [] v = ([], v)
spec_ops (o ∷ os) v = let (a, v') = spec_op o v in let (as', v'') = spec_ops os v' in (a ∷ as', v'')

-- A registration is made only for a tenant that is in the cache.
abbrev pub LoadedFor : Op → EntityService → Type 0
LoadedFor (resolving i t) s = Unit {0}
LoadedFor (registering env i n t source) s = is_some (Dict.get t s.cache) ≡ true
LoadedFor (invalidating t) s = Unit {0}

abbrev pub Careful : List Op → EntityService → Type 0
Careful [] s = Unit {0}
Careful (o ∷ os) s = LoadedFor o s × Careful os (run_op o s).1

-- The map that the table holds.
abbrev pub Holds : EntityService → Names → Type 0
Holds s v = (t i : String) → alias_of t i s.rows ≡ v t i

resolved-meaning :
    (i : String) (m : Dict String) (f : String → Option String)
    → ((j : String) → Dict.get j m ≡ f j)
    → resolved i m ≡ meaning i f
unfolding resolved or_bare
resolved-meaning i m f h = elim (Option-cases (strip_platform_prefix i)) [
  | inl e ↦ rw e (ground (arith, h i))
  | inr (bare, e) ↦ rw e (ground (arith, h i, h bare))
]

load_tenant-Coherent : (t : String) (s : EntityService) → Coherent s → Coherent (load_tenant t s).1
unfolding load_tenant
load_tenant-Coherent t s h t' m e i = elim (put-cases t t' (mapping_onto t s.rows []) m s.cache e) [
  | inl (same, is_m) ↦ rw (is_m, ← same) (mapping-alias_of t i s.rows)
  | inr (other, e') ↦ h t' m e' i
]

put-alias_of :
    (env : Env) (i n t source j : String) (m : Dict String) (rows : List EntityAlias)
    → Dict.get j m ≡ alias_of t j rows
    → Dict.get j (Dict.put i n m) ≡ alias_of t j (upsert env i n t source rows)
put-alias_of env i n t source j m rows h =
    rw (Dict.get-put i j n m, alias_of-upsert env i n t source t j rows, str_eq_refl t, h)

slot-some :
    (t : String) (m : Dict String) (cache : Dict (Dict String))
    → Dict.get t cache ≡ some m
    → slot t cache ≡ m
unfolding slot
slot-some t m cache e = rw (e, slot)

slot-none : (t : String) (cache : Dict (Dict String)) → Dict.get t cache ≡ none → slot t cache ≡ []
unfolding slot
slot-none t cache e = rw (e, slot)

registered-Coherent :
    (env : Env) (i n t source : String) (s : EntityService)
    → is_some (Dict.get t s.cache) ≡ true
    → Coherent s
    → Coherent (registered env i n t source s)
unfolding registered
registered-Coherent env i n t source s loaded h t' m e j =
    elim (Option-cases (Dict.get t s.cache)) [
      | inl missing ↦ absurd (ground arith)
      | inr (m0, found) ↦ elim (put-cases t t' (Dict.put i n (slot t s.cache)) m s.cache e) [
        | inl (same, is_m) ↦
            rw (is_m, ← same, slot-some t m0 s.cache found)
              (put-alias_of env i n t source j m0 s.rows (h t m0 found j))
        | inr (other, e') ↦ rw (alias_of-upsert env i n t source t' j s.rows, other) (h t' m e' j)
      ]
    ]

invalidate_cache-Coherent :
    (t : Option String) (s : EntityService) → Coherent s → Coherent (invalidate_cache t s)
unfolding invalidate_cache Dict.get
invalidate_cache-Coherent none s h t' m e = absurd (cc)
invalidate_cache-Coherent (some t) s h t' m e = h t' m (ground (arith, get-without t t' s.cache))

-- Loading a tenant that is not in the cache leaves the table, and gives what the table says.
ensure_loaded_lem :
    (t : String) (s : EntityService)
    → Coherent s
    → Coherent (ensure_loaded t s).1
      × ((ensure_loaded t s).1.rows ≡ s.rows)
      × ((i : String) → Dict.get i (ensure_loaded t s).0 ≡ alias_of t i s.rows)
unfolding ensure_loaded ensured
ensure_loaded_lem t s h = elim (Option-cases (Dict.get t s.cache)) [
  | inl missing ↦ rw missing (
    load_tenant-Coherent t s h,
    unfold load_tenant in refl,
    λ i. unfold load_tenant in mapping-alias_of t i s.rows,
  )
  | inr (m, found) ↦ rw found (h, refl, h t m found)
]

abbrev Simulates : EntityService → Names → Type 0
Simulates s v = Coherent s × Holds s v

run_op-Simulates :
    (o : Op) (s : EntityService) (v : Names)
    → LoadedFor o s
    → Simulates s v
    → ((run_op o s).0 ≡ (spec_op o v).0) × Simulates (run_op o s).1 (spec_op o v).1
unfolding run_op spec_op resolve register registered
run_op-Simulates (resolving i t) s v l (h, holds) =
    let (c, rows, says) = ensure_loaded_lem t s h in
    (
      ap some (resolved-meaning i (ensure_loaded t s).0 (v t) (λ j. says j ∙ holds t j)),
      (c, λ t' i'. rw rows (holds t' i')),
    )
run_op-Simulates (registering env i n t source) s v l (h, holds) = (
  refl,
  (
    registered-Coherent env i n t source s l h,
    λ t' i'. unfold registered in rw (alias_of-upsert env i n t source t' i' s.rows, holds t' i'),
  ),
)
run_op-Simulates (invalidating (some t)) s v l (h, holds) =
    (refl, (invalidate_cache-Coherent (some t) s h, unfold invalidate_cache in holds))
run_op-Simulates (invalidating none) s v l (h, holds) =
    (refl, (invalidate_cache-Coherent none s h, unfold invalidate_cache in holds))

-- Where the cache says what the table says, and a registration is made only for a tenant that is in
-- the cache: a run of resolutions, registrations and invalidations answers what the map that the
-- table holds answers, in which a registration sets one entry, and it ends with the cache and the
-- table saying the same, which is what the map has become.
pub run_ops-refines :
    (os : List Op) (s : EntityService) (v : Names)
    → Careful os s
    → Coherent s
    → Holds s v
    → ((run_ops os s).0 ≡ (spec_ops os v).0)
      × Coherent (run_ops os s).1
      × Holds (run_ops os s).1 (spec_ops os v).1
unfolding run_ops spec_ops
run_ops-refines [] s v c h holds = (refl, h, holds)
run_ops-refines (o ∷ os) s v c h holds =
    let (same, sim) = run_op-Simulates o s v c.0 (h, holds) in
    let (rest, coherent, held) =
      run_ops-refines os (run_op o s).1 (spec_op o v).1 c.1 sim.0 sim.1 in
    (ap₂ (◌∷◌) same rest, coherent, held)

-- What a registration leaves in the cache of a tenant that was not there.
ensure_loaded-registered :
    (env : Env) (i n t source : String) (s : EntityService)
    → Dict.get t s.cache ≡ none
    → (ensure_loaded t (registered env i n t source s)).0 ≡ Dict.put i n []
unfolding ensure_loaded registered ensured
ensure_loaded-registered env i n t source s missing =
    rw (slot-none t s.cache missing, Dict.get-put t t (Dict.put i n []) s.cache, str_eq_refl t)

resolved-single :
    (i n j : String)
    → str_eq i j ≡ false
    → strip_platform_prefix j ≢ some i
    → resolved j (Dict.put i n []) ≡ j
unfolding resolved or_bare Dict.get
resolved-single i n j other bare = elim (Option-cases (strip_platform_prefix j)) [
  | inl e ↦ rw e (ground (arith, Dict.get-put i j n []))
  | inr (b, e) ↦
      rw e (ground (arith, Dict.get-put i j n [], Dict.get-put i b n [], str_eq_iff i b, bare))
]

-- A registration for a tenant that is not in the cache puts a mapping there that knows this one
-- identifier, whatever the table holds: every other identifier, if its bare form is not this one
-- either, resolves to itself.
pub register-hides :
    (env : Env) (i n t source j : String) (s : EntityService)
    → Dict.get t s.cache ≡ none
    → str_eq i j ≡ false
    → strip_platform_prefix j ≢ some i
    → (resolve j t (register env i n t source s).1).0 ≡ j
unfolding resolve register
register-hides env i n t source j s missing other bare =
    rw (ensure_loaded-registered env i n t source s missing) (resolved-single i n j other bare)
