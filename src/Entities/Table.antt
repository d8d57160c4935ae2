-- ===== src/Entities/Table.antt =====
-- What the table of names says, before and after an upsert, and how a mapping of the cache is filled.
use my_palace.Common.{
  ◌≡◌, refl, ◌&&◌, String, Option, none, some, List, [], ◌∷◌, ◌++◌, map, any, str_eq, str_eq_iff,
  if◌then◌else◌, arith, Bool-cases, inl, inr, ◌⊎◌, false, str_eq_refl,
}
use my_palace.Common.Dict
use my_palace.Common.Dict.{Dict}
use my_palace.Entities.{EntityAlias, Env, mapping_onto, names_alias, upsert, without}

-- What the table says of an identifier: its last row counts.
abbrev last_of : Option String → Option String → Option String
last_of (some n) o = some n
last_of none o = o

unfoldable pub alias_of : String → String → List EntityAlias → Option String
alias_of tenant_id identifier [] = none
alias_of tenant_id identifier (r ∷ rows) =
    last_of (alias_of tenant_id identifier rows)
      (if names_alias tenant_id identifier r then some r.canonical_name else none)

get-mapping_onto :
    (t i : String) (rows : List EntityAlias) (m : Dict String)
    → Dict.get i (mapping_onto t rows m) ≡ last_of (alias_of t i rows) (Dict.get i m)
unfolding mapping_onto alias_of
get-mapping_onto t i [] m = refl
get-mapping_onto t i (r ∷ rows) m = ground (
  arith,
  get-mapping_onto t i rows
      (if str_eq r.tenant_id t then Dict.put r.identifier r.canonical_name m else m),
  Dict.get-put r.identifier i r.canonical_name m,
)

alias_of-append :
    (t i : String) (xs ys : List EntityAlias)
    → alias_of t i (xs ++ ys) ≡ last_of (alias_of t i ys) (alias_of t i xs)
unfolding alias_of
alias_of-append t i [] ys = ground arith
alias_of-append t i (x ∷ xs) ys = ground (arith, alias_of-append t i xs ys)

module _ (env : Env) (i n t source : String) where
  abbrev renamed : EntityAlias → EntityAlias
  renamed r =
      if names_alias t i r
      then record r { canonical_name = n; source = source; updated_at = env.now }
      else r

  alias_of-renamed_self :
      (rows : List EntityAlias)
      → alias_of t i (map renamed rows) ≡ (if any (names_alias t i) rows then some n else none)
  unfolding alias_of
  alias_of-renamed_self [] = refl
  alias_of-renamed_self (r ∷ rows) = elim (Bool-cases (names_alias t i r)) [
    | inl e ↦ rw e (ground (arith, alias_of-renamed_self rows))
    | inr e ↦ rw e (ground (arith, alias_of-renamed_self rows))
  ]

  alias_of-renamed_other :
      (t' i' : String) (rows : List EntityAlias)
      → (str_eq t t' && str_eq i i') ≡ false
      → alias_of t' i' (map renamed rows) ≡ alias_of t' i' rows
  unfolding alias_of
  alias_of-renamed_other t' i' [] e = refl
  alias_of-renamed_other t' i' (r ∷ rows) e = elim (Bool-cases (names_alias t i r)) [
    | inl h ↦
        rw (h, alias_of-renamed_other t' i' rows e)
          (ground (
            arith,
            str_eq_iff t t',
            str_eq_iff i i',
            str_eq_iff r.tenant_id t,
            str_eq_iff r.identifier i,
            str_eq_iff r.tenant_id t',
            str_eq_iff r.identifier i',
          ))
    | inr h ↦ rw (h, alias_of-renamed_other t' i' rows e)
  ]

  abbrev fresh : EntityAlias
  fresh = record {
    id = env.fresh_id;
    tenant_id = t;
    identifier = i;
    canonical_name = n;
    source = source;
    created_at = env.now;
    updated_at = env.now;
  }

  alias_of-upsert_self :
      (rows : List EntityAlias) → alias_of t i (upsert env i n t source rows) ≡ some n
  unfolding upsert alias_of
  alias_of-upsert_self rows = ground (
    arith,
    alias_of-renamed_self rows,
    alias_of-append t i rows (fresh ∷ []),
    str_eq_refl t,
    str_eq_refl i,
  )

  alias_of-upsert_other :
      (t' i' : String) (rows : List EntityAlias)
      → (str_eq t t' && str_eq i i') ≡ false
      → alias_of t' i' (upsert env i n t source rows) ≡ alias_of t' i' rows
  unfolding upsert alias_of
  alias_of-upsert_other t' i' rows e =
      ground (arith, alias_of-renamed_other t' i' rows e, alias_of-append t' i' rows (fresh ∷ []))

  pub alias_of-upsert :
      (t' i' : String) (rows : List EntityAlias)
      → alias_of t' i' (upsert env i n t source rows)
        ≡ (if str_eq t t' && str_eq i i' then some n else alias_of t' i' rows)
  alias_of-upsert t' i' rows = elim (Bool-cases (str_eq t t' && str_eq i i')) [
    | inl e ↦ ground (arith, str_eq_iff t t', str_eq_iff i i', alias_of-upsert_self rows)
    | inr e ↦ rw e (alias_of-upsert_other t' i' rows e)
  ]

pub get-without :
    (j k : String) (d : Dict (Dict String))
    → Dict.get k (without j d) ≡ (if str_eq j k then none else Dict.get k d)
unfolding without Dict.get
get-without j k [] = ground arith
get-without j k ((l, m) ∷ d) =
    ground (arith, get-without j k d, str_eq_iff j k, str_eq_iff l j, str_eq_iff l k)

pub put-cases :
    {V : Type 0} (k j : String) (v m : V) (d : Dict V)
    → Dict.get j (Dict.put k v d) ≡ some m
    → ((k ≡ j) × (m ≡ v)) ⊎ ((str_eq k j ≡ false) × (Dict.get j d ≡ some m))
put-cases k j v m d e = elim (Bool-cases (str_eq k j)) [
  | inl same ↦ inl ((str_eq_iff k j).0 same, ground (arith, Dict.get-put k j v d))
  | inr other ↦ inr (other, ground (arith, Dict.get-put k j v d))
]

pub mapping-alias_of :
    (t i : String) (rows : List EntityAlias)
    → Dict.get i (mapping_onto t rows []) ≡ alias_of t i rows
unfolding Dict.get
mapping-alias_of t i rows = ground (arith, get-mapping_onto t i rows [])
