-- ===== src/Common/Sort.antt =====
-- A stable sort by insertion, for `ORDER BY` and `list.sort`.
use Prim.Native.Nat.{ℕ, suc, ◌≤◌}
use mathlib.Core.Path.{◌≡◌, refl, ap, ◌∙◌}
use mathlib.Core.Logic.{◌⊎◌, inl, inr}
use mathlib.Core.Bool.{Bool}
use mathlib.Core.List.{List, [], ◌∷◌}
use native.Mathlib.Omega.{arith}
use my_palace.Common.Tests.{if◌then◌else◌, Bool-cases, leb}
use my_palace.Common.Lists.{In, All, filter, length}

module _ {A : Type 0} (first : A → A → Bool) where
  -- `first x y` says that `x` may stand before `y`.
  unfoldable pub insert_by : A → List A → List A
  insert_by x [] = x ∷ []
  insert_by x (y ∷ ys) = let rest = insert_by x ys in if first x y then x ∷ y ∷ ys else y ∷ rest

  unfoldable pub sort_by : List A → List A
  unfolding insert_by
  sort_by [] = []
  sort_by (x ∷ xs) = insert_by x (sort_by xs)

  In-insert_by : (a x : A) (ys : List A) → In a (insert_by x ys) → (a ≡ x) ⊎ In a ys
  unfolding insert_by
  In-insert_by a x [] (inl e) = inl e
  In-insert_by a x [] (inr h) = elim h [ ]
  In-insert_by a x (y ∷ ys) h = elim (Bool-cases (first x y)) [
    | inl e ↦ elim (rw e at h) [ inl p ↦ inl p | inr q ↦ inr q ]
    | inr e ↦ elim (rw e at h) [
      | inl p ↦ inr (inl p)
      | inr q ↦ elim (In-insert_by a x ys q) [ inl p ↦ inl p | inr r ↦ inr (inr r) ]
    ]
  ]

  -- What a sorted list holds, the list held.
  pub In-sort_by : (a : A) (xs : List A) → In a (sort_by xs) → In a xs
  unfolding sort_by
  In-sort_by a [] h = h
  In-sort_by a (x ∷ xs) h = elim (In-insert_by a x (sort_by xs) h) [
    | inl e ↦ inl e
    | inr r ↦ inr (In-sort_by a xs r)
  ]

  insert_by-In : (a x : A) (ys : List A) → (a ≡ x) ⊎ In a ys → In a (insert_by x ys)
  unfolding insert_by
  insert_by-In a x [] (inl e) = inl e
  insert_by-In a x [] (inr h) = elim h [ ]
  insert_by-In a x (y ∷ ys) h = elim (Bool-cases (first x y)) [
    | inl e ↦ rw e h
    | inr e ↦ rw e (elim h [
      | inl p ↦ inr (insert_by-In a x ys (inl p))
      | inr (inl q) ↦ inl q
      | inr (inr r) ↦ inr (insert_by-In a x ys (inr r))
    ])
  ]

  pub sort_by-In : (a : A) (xs : List A) → In a xs → In a (sort_by xs)
  unfolding sort_by
  sort_by-In a [] h = h
  sort_by-In a (x ∷ xs) (inl e) = insert_by-In a x (sort_by xs) (inl e)
  sort_by-In a (x ∷ xs) (inr h) = insert_by-In a x (sort_by xs) (inr (sort_by-In a xs h))

  length-filter-insert_by :
      (p : A → Bool) (x : A) (ys : List A)
      → length (filter p (insert_by x ys)) ≡ length (filter p (x ∷ ys))
  unfolding insert_by
  length-filter-insert_by p x [] = refl
  length-filter-insert_by p x (y ∷ ys) = ground (arith, length-filter-insert_by p x ys)

  -- A sorted list has as many elements of a kind.
  pub length-filter-sort_by :
      (p : A → Bool) (xs : List A) → length (filter p (sort_by xs)) ≡ length (filter p xs)
  unfolding sort_by
  length-filter-sort_by p [] = refl
  length-filter-sort_by p (x ∷ xs) =
      ground (arith, length-filter-insert_by p x (sort_by xs), length-filter-sort_by p xs)

  length-insert_by : (x : A) (ys : List A) → length (insert_by x ys) ≡ suc (length ys)
  unfolding insert_by
  length-insert_by x [] = refl
  length-insert_by x (y ∷ ys) = ground (arith, length-insert_by x ys)

  pub length-sort_by : (xs : List A) → length (sort_by xs) ≡ length xs
  unfolding sort_by
  length-sort_by [] = refl
  length-sort_by (x ∷ xs) = length-insert_by x (sort_by xs) ∙ ap suc (length-sort_by xs)

-- The numbers of a list never rise.
abbrev pub Descending : {A : Type 0} → (A → ℕ) → List A → Type 0
Descending key [] = Unit {0}
Descending key (x ∷ xs) = All (λ y. key y ≤ key x) xs × Descending key xs

module _ {A : Type 0} (key : A → ℕ) where
  -- `key=…, reverse=True`
  abbrev pub highest_first : A → A → Bool
  highest_first x y = leb (key y) (key x)

  All-insert_by :
      (n : ℕ) (x : A) (ys : List A)
      → key x ≤ n
      → All (λ y. key y ≤ n) ys
      → All (λ y. key y ≤ n) (insert_by highest_first x ys)
  unfolding insert_by
  All-insert_by n x [] h a = (h, tt)
  All-insert_by n x (y ∷ ys) h a = elim (Bool-cases (highest_first x y)) [
    | inl e ↦ rw e (h, a)
    | inr e ↦ rw e (a.0, All-insert_by n x ys h a.1)
  ]

  All-bound : (m n : ℕ) (ys : List A) → m ≤ n → All (λ y. key y ≤ m) ys → All (λ y. key y ≤ n) ys
  All-bound m n [] h a = tt
  All-bound m n (y ∷ ys) h a = (omega (arith, h, a.0), All-bound m n ys h a.1)

  insert_by-Descending :
      (x : A) (ys : List A) → Descending key ys → Descending key (insert_by highest_first x ys)
  unfolding insert_by
  insert_by-Descending x [] d = (tt, tt)
  insert_by-Descending x (y ∷ ys) d = elim (Bool-cases (highest_first x y)) [
    | inl e ↦ rw e ((ground arith, All-bound (key y) (key x) ys (ground arith) d.0), d)
    | inr e ↦ rw e (All-insert_by (key y) x ys (ground arith) d.0, insert_by-Descending x ys d.1)
  ]

  pub sort_by-Descending : (xs : List A) → Descending key (sort_by highest_first xs)
  unfolding sort_by
  sort_by-Descending [] = tt
  sort_by-Descending (x ∷ xs) =
      insert_by-Descending x (sort_by highest_first xs) (sort_by-Descending xs)

-- The numbers of a list never fall.
abbrev pub Ascending : {A : Type 0} → (A → ℕ) → List A → Type 0
Ascending key [] = Unit {0}
Ascending key (x ∷ xs) = All (λ y. key x ≤ key y) xs × Ascending key xs

module _ {A : Type 0} (key : A → ℕ) where
  -- `ORDER BY key`
  abbrev pub lowest_first : A → A → Bool
  lowest_first x y = leb (key x) (key y)

  All-insert_by_low :
      (n : ℕ) (x : A) (ys : List A)
      → n ≤ key x
      → All (λ y. n ≤ key y) ys
      → All (λ y. n ≤ key y) (insert_by lowest_first x ys)
  unfolding insert_by
  All-insert_by_low n x [] h a = (h, tt)
  All-insert_by_low n x (y ∷ ys) h a = elim (Bool-cases (lowest_first x y)) [
    | inl e ↦ rw e (h, a)
    | inr e ↦ rw e (a.0, All-insert_by_low n x ys h a.1)
  ]

  All-bound_low :
      (m n : ℕ) (ys : List A) → n ≤ m → All (λ y. m ≤ key y) ys → All (λ y. n ≤ key y) ys
  All-bound_low m n [] h a = tt
  All-bound_low m n (y ∷ ys) h a = (omega (arith, h, a.0), All-bound_low m n ys h a.1)

  insert_by-Ascending :
      (x : A) (ys : List A) → Ascending key ys → Ascending key (insert_by lowest_first x ys)
  unfolding insert_by
  insert_by-Ascending x [] d = (tt, tt)
  insert_by-Ascending x (y ∷ ys) d = elim (Bool-cases (lowest_first x y)) [
    | inl e ↦ rw e ((ground arith, All-bound_low (key y) (key x) ys (ground arith) d.0), d)
    | inr e ↦ rw e (All-insert_by_low (key y) x ys (ground arith) d.0, insert_by-Ascending x ys d.1)
  ]

  pub sort_by-Ascending : (xs : List A) → Ascending key (sort_by lowest_first xs)
  unfolding sort_by
  sort_by-Ascending [] = tt
  sort_by-Ascending (x ∷ xs) =
      insert_by-Ascending x (sort_by lowest_first xs) (sort_by-Ascending xs)
