-- ===== src/Ingestion/Contradiction/Symmetry.antt =====
-- The heuristic does not depend on which of the two texts is the old one.
use my_palace.Common.{
  ℕ, ◌+◌, min, ◌≡◌, refl, sym, ap, ◌∙◌, Bool, true, false, not, ◌||◌, List, [], ◌∷◌, filter, length,
  arith, text_eq, text_eq→≡, Codes, is_nil, elem_text, distinct, Bool-cases, inl, inr, subst,
}
use my_palace.Ingestion.Contradiction.{
  check_contradiction, compared, by_overlap, common, signal, tokenize, has_negation,
  negation_tokens, same,
}

-- No text stands twice in a list.
abbrev IsDistinct : List Codes → Type 0
IsDistinct [] = Unit {0}
IsDistinct (x ∷ xs) = (elem_text x xs ≡ false) × IsDistinct xs

distinct-IsDistinct : (xs : List Codes) → IsDistinct (distinct xs)
unfolding distinct
distinct-IsDistinct [] = tt
distinct-IsDistinct (x ∷ xs) = elim (Bool-cases (elem_text x (distinct xs))) [
  | inl e ↦ rw e (distinct-IsDistinct xs)
  | inr e ↦ rw e (e, distinct-IsDistinct xs)
]

elem_text-filter :
    (p : Codes → Bool) (x : Codes) (xs : List Codes)
    → elem_text x xs ≡ false
    → elem_text x (filter p xs) ≡ false
elem_text-filter p x [] h = refl
elem_text-filter p x (y ∷ xs) h = ground (arith, elem_text-filter p x xs)

filter-IsDistinct : (p : Codes → Bool) (xs : List Codes) → IsDistinct xs → IsDistinct (filter p xs)
filter-IsDistinct p [] d = tt
filter-IsDistinct p (x ∷ xs) d = elim (Bool-cases (p x)) [
  | inl e ↦ rw e (elem_text-filter p x xs d.0, filter-IsDistinct p xs d.1)
  | inr e ↦ rw e (filter-IsDistinct p xs d.1)
]

text_eq_comm : (x y : Codes) → text_eq x y ≡ text_eq y x
unfolding text_eq
text_eq_comm [] [] = refl
text_eq_comm [] (d ∷ y) = refl
text_eq_comm (c ∷ x) [] = refl
text_eq_comm (c ∷ x) (d ∷ y) = ground (arith, text_eq_comm x y)

-- How often a text stands in a list, and how many pairs of two lists are equal.
abbrev one : Bool → ℕ
one true = 1
one false = 0

abbrev hits : Codes → List Codes → ℕ
hits x [] = 0
hits x (y ∷ ys) = one (text_eq x y) + hits x ys

abbrev pairs : List Codes → List Codes → ℕ
pairs [] ys = 0
pairs (x ∷ xs) ys = hits x ys + pairs xs ys

pairs-nil : (ys : List Codes) → pairs ys [] ≡ 0
pairs-nil [] = refl
pairs-nil (y ∷ ys) = omega (arith, pairs-nil ys)

pairs-cons : (x : Codes) (xs ys : List Codes) → pairs ys (x ∷ xs) ≡ hits x ys + pairs ys xs
pairs-cons x xs [] = omega arith
pairs-cons x xs (y ∷ ys) = rw (text_eq_comm y x) (omega (arith, pairs-cons x xs ys))

pairs_comm : (xs ys : List Codes) → pairs xs ys ≡ pairs ys xs
pairs_comm [] ys = sym (pairs-nil ys)
pairs_comm (x ∷ xs) ys = omega (arith, pairs_comm xs ys, pairs-cons x xs ys)

hits-none : (x : Codes) (ys : List Codes) → elem_text x ys ≡ false → hits x ys ≡ 0
hits-none x [] h = refl
hits-none x (y ∷ ys) h = ground (arith, hits-none x ys)

hits-one : (x : Codes) (ys : List Codes) → IsDistinct ys → hits x ys ≡ one (elem_text x ys)
hits-one x [] d = refl
hits-one x (y ∷ ys) d = elim (Bool-cases (text_eq x y)) [
  | inl e ↦
      let same_text : elem_text x ys ≡ false =
        subst (λ z. elem_text z ys ≡ false) (sym (text_eq→≡ x y e)) d.0 in
      rw e (omega (arith, hits-none x ys same_text))
  | inr e ↦ rw e (omega (arith, hits-one x ys d.1))
]

common-pairs : (xs ys : List Codes) → IsDistinct ys → common xs ys ≡ pairs xs ys
common-pairs [] ys d = refl
common-pairs (x ∷ xs) ys d = elim (Bool-cases (elem_text x ys)) [
  | inl e ↦ rw e (omega (arith, common-pairs xs ys d, hits-one x ys d ∙ ap one e))
  | inr e ↦ rw e (omega (arith, common-pairs xs ys d, hits-one x ys d ∙ ap one e))
]

common_comm : (xs ys : List Codes) → IsDistinct xs → IsDistinct ys → common xs ys ≡ common ys xs
common_comm xs ys d e = common-pairs xs ys e ∙ pairs_comm xs ys ∙ sym (common-pairs ys xs d)

compared_comm :
    (xs ys : List Codes) → IsDistinct xs → IsDistinct ys → compared xs ys ≡ compared ys xs
unfolding compared
compared_comm [] [] d e = refl
compared_comm [] (y ∷ ys) d e = refl
compared_comm (x ∷ xs) [] d e = refl
compared_comm (x ∷ xs) (y ∷ ys) d e =
    let c = common_comm (x ∷ xs) (y ∷ ys) d e in
    let m : min (length (x ∷ xs)) (length (y ∷ ys)) ≡ min (length (y ∷ ys)) (length (x ∷ xs)) =
      omega arith in
    ap (λ n. by_overlap n (min (length (x ∷ xs)) (length (y ∷ ys)))) c
    ∙ ap (by_overlap (common (y ∷ ys) (x ∷ xs))) m

same_comm : (a b : Bool) → same a b ≡ same b a
unfolding same
same_comm true true = refl
same_comm true false = refl
same_comm false true = refl
same_comm false false = refl

or_comm : (a b : Bool) → (a || b) ≡ (b || a)
or_comm a b = ground arith

tokenize-IsDistinct : (text : Codes) → IsDistinct (tokenize text)
unfolding tokenize
tokenize-IsDistinct text = distinct-IsDistinct _

-- The verdict on two texts, with its confidence and its reason, is the same whichever of them is the
-- old one.
check_contradiction_comm :
    (old new : Codes) → check_contradiction old new ≡ check_contradiction new old
unfolding check_contradiction
check_contradiction_comm old new =
    let inner =
      compared_comm (signal (tokenize old)) (signal (tokenize new))
        (filter-IsDistinct (λ t. not (elem_text t negation_tokens)) (tokenize old)
          (tokenize-IsDistinct old))
        (filter-IsDistinct (λ t. not (elem_text t negation_tokens)) (tokenize new)
          (tokenize-IsDistinct new)) in
    rw
      (
        same_comm (has_negation old) (has_negation new),
        or_comm (is_nil (tokenize old)) (is_nil (tokenize new)),
        inner,
      )
      refl
