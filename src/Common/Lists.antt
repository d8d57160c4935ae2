-- ===== src/Common/Lists.antt =====
-- Lists measured by native numbers and tested by Booleans, under the library's names.
use Prim.Native.Nat.{ℕ, zero, suc, ◌+◌, ◌-◌, ◌≤◌, min}
use mathlib.Core.Path.{◌≡◌, refl, sym, ap, ◌∙◌, subst}
use mathlib.Core.Logic.{◌⊎◌, inl, inr}
use mathlib.Core.Bool.{false, true, ◌||◌, ◌&&◌, Bool, false, ◌||◌}
use mathlib.Core.Option.{Option, none, some}
use mathlib.Core.List.{List, [], ◌∷◌, ◌++◌, map}
use native.Mathlib.Omega.{arith}
use my_palace.Common.Tests.{Bool-cases, if◌then◌else◌}

module _ {ℓ} {A : Type ℓ} where
  abbrev pub length : List A → ℕ
  length [] = 0
  length (x ∷ xs) = suc (length xs)

  abbrev pub take : ℕ → List A → List A
  take zero xs = []
  take (suc n) [] = []
  take (suc n) (x ∷ xs) = x ∷ take n xs

  abbrev pub drop : ℕ → List A → List A
  drop zero xs = xs
  drop (suc n) [] = []
  drop (suc n) (x ∷ xs) = drop n xs

  -- `[x for x in xs if p(x)]`
  abbrev pub filter : (A → Bool) → List A → List A
  filter p [] = []
  filter p (x ∷ xs) = let rest = filter p xs in if p x then x ∷ rest else rest

  -- `any(p(x) for x in xs)`
  abbrev pub any : (A → Bool) → List A → Bool
  any p [] = false
  any p (x ∷ xs) = p x || any p xs

  -- `all(p(x) for x in xs)`
  abbrev pub all : (A → Bool) → List A → Bool
  all p [] = true
  all p (x ∷ xs) = p x && all p xs

  -- The first element that passes the test.
  abbrev pub find? : (A → Bool) → List A → Option A
  find? p [] = none
  find? p (x ∷ xs) = let rest = find? p xs in if p x then some x else rest

  -- A property of every element, by recursion.
  abbrev pub All {κ} : (A → Type κ) → List A → Type κ
  All P [] = Unit
  All P (x ∷ xs) = P x × All P xs

module _ {ℓ} {A : Type ℓ} where
  pub length-append : (xs ys : List A) → length (xs ++ ys) ≡ length xs + length ys
  length-append [] ys = omega arith
  length-append (x ∷ xs) ys = omega (arith, length-append xs ys)

  pub take-append-drop : (n : ℕ) (xs : List A) → take n xs ++ drop n xs ≡ xs
  take-append-drop zero xs = refl
  take-append-drop (suc n) [] = refl
  take-append-drop (suc n) (x ∷ xs) = ap (◌∷◌ x) (take-append-drop n xs)

  pub length-take : (n : ℕ) (xs : List A) → length (take n xs) ≡ min n (length xs)
  length-take zero xs = omega arith
  length-take (suc n) [] = omega arith
  length-take (suc n) (x ∷ xs) = omega (arith, length-take n xs)

  pub length-drop : (n : ℕ) (xs : List A) → length (drop n xs) ≡ length xs - n
  length-drop zero xs = omega arith
  length-drop (suc n) [] = omega arith
  length-drop (suc n) (x ∷ xs) = omega (arith, length-drop n xs)

  pub length-filter-le : (p : A → Bool) (xs : List A) → length (filter p xs) ≤ length xs
  length-filter-le p [] = omega arith
  length-filter-le p (x ∷ xs) = ground (arith, length-filter-le p xs)

  pub All-filter {κ} :
      (P : A → Type κ) (p : A → Bool) (xs : List A) → All P xs → All P (filter p xs)
  All-filter P p [] h = h
  All-filter P p (x ∷ xs) h = ground (arith, All-filter P p xs h.1)

module _ {A : Type 0} where
  -- The element stands in the list.
  abbrev pub In : A → List A → Type 0
  In a [] = ⊥
  In a (x ∷ xs) = (a ≡ x) ⊎ In a xs

  pub In-append_left : (a : A) (xs ys : List A) → In a xs → In a (xs ++ ys)
  In-append_left a [] ys h = absurd h
  In-append_left a (x ∷ xs) ys (inl e) = inl e
  In-append_left a (x ∷ xs) ys (inr h) = inr (In-append_left a xs ys h)

  pub In-append_right : (a : A) (xs ys : List A) → In a ys → In a (xs ++ ys)
  In-append_right a [] ys h = h
  In-append_right a (x ∷ xs) ys h = inr (In-append_right a xs ys h)

  pub In-append_cases : (a : A) (xs ys : List A) → In a (xs ++ ys) → In a xs ⊎ In a ys
  In-append_cases a [] ys h = inr h
  In-append_cases a (x ∷ xs) ys (inl e) = inl (inl e)
  In-append_cases a (x ∷ xs) ys (inr h) = elim (In-append_cases a xs ys h) [
    | inl l ↦ inl (inr l)
    | inr r ↦ inr r
  ]

  In-filter_cons :
      (p : A → Bool) (a x : A) (xs rest : List A)
      → (In a rest → In a xs × (p a ≡ true))
      → (b : Bool) → p x ≡ b
      → In a (if b then x ∷ rest else rest)
      → In a (x ∷ xs) × (p a ≡ true)
  In-filter_cons p a x xs rest ih true e (inl q) = (inl q, ap p q ∙ e)
  In-filter_cons p a x xs rest ih true e (inr r) = (inr (ih r).0, (ih r).1)
  In-filter_cons p a x xs rest ih false e r = (inr (ih r).0, (ih r).1)

  pub In-filter : (p : A → Bool) (a : A) (xs : List A) → In a (filter p xs) → In a xs × (p a ≡ true)
  In-filter p a [] h = absurd h
  In-filter p a (x ∷ xs) h = In-filter_cons p a x xs (filter p xs) (In-filter p a xs) (p x) refl h

  pub filter-In : (p : A → Bool) (a : A) (xs : List A) → In a xs → p a ≡ true → In a (filter p xs)
  filter-In p a [] h e = h
  filter-In p a (x ∷ xs) (inl q) e = rw (sym (ap p q) ∙ e) (inl q)
  filter-In p a (x ∷ xs) (inr h) e = elim (Bool-cases (p x)) [
    | inl t ↦ rw t (inr (filter-In p a xs h e))
    | inr f ↦ rw f (filter-In p a xs h e)
  ]

  pub All-mono {κ μ} :
      (P : A → Type κ) (Q : A → Type μ) (xs : List A) → ((x : A) → P x → Q x) → All P xs → All Q xs
  All-mono P Q [] f h = tt
  All-mono P Q (x ∷ xs) f h = (f x h.0, All-mono P Q xs f h.1)

  pub find?-some :
      (p : A → Bool) (a : A) (xs : List A) → find? p xs ≡ some a → In a xs × (p a ≡ true)
  find?-some p a [] h = ground arith
  find?-some p a (x ∷ xs) h = elim (Bool-cases (p x)) [
    | inl e ↦ (inl (ground arith), ground arith)
    | inr e ↦ let ih = find?-some p a xs (ground arith) in (inr ih.0, ih.1)
  ]

  pub find?-none : (p : A → Bool) (a : A) (xs : List A) → find? p xs ≡ none → In a xs → p a ≡ false
  find?-none p a [] h i = absurd i
  find?-none p a (x ∷ xs) h (inl e) = rw e (ground arith)
  find?-none p a (x ∷ xs) h (inr i) = find?-none p a xs (ground arith) i

  pub All-In {κ} : (P : A → Type κ) (a : A) (xs : List A) → All P xs → In a xs → P a
  All-In P a [] h i = absurd i
  All-In P a (x ∷ xs) h (inl e) = subst P (sym e) h.0
  All-In P a (x ∷ xs) h (inr i) = All-In P a xs h.1 i

module _ {ℓ} {A : Type ℓ} where
  pub filter-append :
      (p : A → Bool) (xs ys : List A) → filter p (xs ++ ys) ≡ filter p xs ++ filter p ys
  filter-append p [] ys = refl
  filter-append p (x ∷ xs) ys = ground (arith, filter-append p xs ys)

  -- A last element that passes both tests is found behind others that do not.
  pub find?-filter_last :
      (p q : A → Bool) (xs : List A) (x : A)
      → find? p xs ≡ none
      → q x ≡ true
      → p x ≡ true
      → find? p (filter q (xs ++ x ∷ [])) ≡ some x
  find?-filter_last p q [] x h hq hp = ground arith
  find?-filter_last p q (y ∷ xs) x h hq hp = ground (arith, find?-filter_last p q xs x)

  pub any-filter_last :
      (p q : A → Bool) (xs : List A) (x : A)
      → q x ≡ true
      → p x ≡ true
      → any p (filter q (xs ++ x ∷ [])) ≡ true
  any-filter_last p q [] x hq hp = ground arith
  any-filter_last p q (y ∷ xs) x hq hp = ground (arith, any-filter_last p q xs x)

module _ {ℓ κ} {A : Type ℓ} {B : Type κ} where
  pub length-map : (xs : List A) (f : A → B) → length (map f xs) ≡ length xs
  length-map [] f = refl
  length-map (x ∷ xs) f = ap suc (length-map xs f)

module _ {A B : Type 0} where
  pub In-map : (f : A → B) (b : B) (xs : List A) → In b (map f xs) → (a : A) × In a xs × (b ≡ f a)
  In-map f b [] h = absurd h
  In-map f b (x ∷ xs) (inl e) = (x, inl refl, e)
  In-map f b (x ∷ xs) (inr h) = let (a, i, e) = In-map f b xs h in (a, inr i, e)

  pub map-In : (f : A → B) (a : A) (xs : List A) → In a xs → In (f a) (map f xs)
  map-In f a [] h = h
  map-In f a (x ∷ xs) (inl e) = inl (ap f e)
  map-In f a (x ∷ xs) (inr h) = inr (map-In f a xs h)
