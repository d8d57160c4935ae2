-- ===== src/Jobs/World/Keyed.antt =====
-- `id` is the primary key of the job table: no two rows share it, and no statement changes that.
use my_palace.Common.{
  ◌≡◌, refl, sym, ap, ◌∙◌, Bool, false, String, [], ◌∷◌, ◌++◌, any, str_eq, str_eq_iff, arith, In,
  inl, inr, Bool-cases,
}
use my_palace.Jobs.{ReflectionJob, Table, update}

abbrev pub has_id : String → Table → Bool
has_id id = any λ j. str_eq j.id id

abbrev pub IsKeyed : Table → Type 0
IsKeyed [] = Unit {0}
IsKeyed (j ∷ rows) = (has_id j.id rows ≡ false) × IsKeyed rows

pub not_In :
    (k : ReflectionJob) (id : String) (rows : Table)
    → has_id id rows ≡ false
    → In k rows
    → str_eq k.id id ≡ false
not_In k id [] h i = absurd i
not_In k id (j ∷ rows) h (inl e) = rw e (ground arith)
not_In k id (j ∷ rows) h (inr i) = not_In k id rows (ground arith) i

pub IsKeyed-unique :
    (rows : Table) (a b : ReflectionJob)
    → IsKeyed rows
    → In a rows
    → In b rows
    → a.id ≡ b.id
    → a ≡ b
IsKeyed-unique [] a b h i k e = absurd i
IsKeyed-unique (j ∷ rows) a b h (inl p) (inl q) e = p ∙ sym q
IsKeyed-unique (j ∷ rows) a b h (inl p) (inr k) e =
    let n = not_In b j.id rows h.0 k in
    let s = str_eq_iff b.id j.id in cc (n, s.1 (sym e ∙ ap (λ (x : ReflectionJob). x.id) p))
IsKeyed-unique (j ∷ rows) a b h (inr i) (inl q) e =
    let n = not_In a j.id rows h.0 i in
    let s = str_eq_iff a.id j.id in cc (n, s.1 (e ∙ ap (λ (x : ReflectionJob). x.id) q))
IsKeyed-unique (j ∷ rows) a b h (inr i) (inr k) e = IsKeyed-unique rows a b h.1 i k e

module _ (p : ReflectionJob → Bool) (f : ReflectionJob → ReflectionJob)
    (same : (j : ReflectionJob) → (f j).id ≡ j.id) where
  has_id-update : (id : String) (rows : Table) → has_id id (update p f rows) ≡ has_id id rows
  has_id-update id [] = refl
  has_id-update id (j ∷ rows) = elim (Bool-cases (p j)) [
    | inl e ↦ rw (e, same j, has_id-update id rows)
    | inr e ↦ rw (e, has_id-update id rows)
  ]

  pub update-IsKeyed : (rows : Table) → IsKeyed rows → IsKeyed (update p f rows)
  update-IsKeyed [] h = h
  update-IsKeyed (j ∷ rows) h = elim (Bool-cases (p j)) [
    | inl e ↦ rw (e, same j, has_id-update j.id rows) (h.0, update-IsKeyed rows h.1)
    | inr e ↦ rw (e, has_id-update j.id rows) (h.0, update-IsKeyed rows h.1)
  ]

has_id-append :
    (id : String) (rows : Table) (j : ReflectionJob)
    → has_id id rows ≡ false
    → str_eq j.id id ≡ false
    → has_id id (rows ++ j ∷ []) ≡ false
has_id-append id [] j h n = rw n
has_id-append id (r ∷ rows) j h n = ground (arith, has_id-append id rows j)

pub append-IsKeyed :
    (rows : Table) (j : ReflectionJob)
    → has_id j.id rows ≡ false
    → IsKeyed rows
    → IsKeyed (rows ++ j ∷ [])
append-IsKeyed [] j h k = (refl, tt)
append-IsKeyed (r ∷ rows) j h k = (
  has_id-append r.id rows j k.0 (ground (arith, str_eq_iff r.id j.id, str_eq_iff j.id r.id)),
  append-IsKeyed rows j (ground arith) k.1,
)
