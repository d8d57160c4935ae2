-- ===== src/Auth/Scopes/Globs.antt =====
-- What the patterns of the scope table match.
use my_palace.Common.{
  ℕ, ◌≡◌, refl, true, false, List, [], ◌∷◌, ◌++◌, arith, ◌==◌, any, starts_with, text_eq,
}
use my_palace.Auth.Scopes.{fnmatchcase, is_empty, some_suffix, literal}

abbrev pub IsLiteral : List ℕ → Type 0
IsLiteral p = any (λ c. c == b'*') p ≡ false

IsLiteral-cons : (c : ℕ) (p : List ℕ) → IsLiteral (c ∷ p) → ((c == b'*') ≡ false) × IsLiteral p
IsLiteral-cons c p h = ground arith

some_suffix-is_empty : (s : List ℕ) → some_suffix (fnmatchcase []) s ≡ true
unfolding some_suffix fnmatchcase is_empty
some_suffix-is_empty [] = refl
some_suffix-is_empty (c ∷ s) = some_suffix-is_empty s

-- A pattern with no star matches itself alone.
pub fnmatchcase-literal : (p s : List ℕ) → IsLiteral p → fnmatchcase p s ≡ text_eq s p
unfolding fnmatchcase is_empty literal text_eq
fnmatchcase-literal [] [] h = refl
fnmatchcase-literal [] (d ∷ s) h = refl
fnmatchcase-literal (c ∷ p) [] h = rw (IsLiteral-cons c p h).0
fnmatchcase-literal (c ∷ p) (d ∷ s) h =
    rw (IsLiteral-cons c p h).0 (ground (arith, fnmatchcase-literal p s (IsLiteral-cons c p h).1))

-- A pattern that ends in its only star matches the texts that start with the rest.
pub fnmatchcase-prefix :
    (p s : List ℕ) → IsLiteral p → fnmatchcase (p ++ b'*' ∷ []) s ≡ starts_with p s
unfolding fnmatchcase literal starts_with
fnmatchcase-prefix [] s h = some_suffix-is_empty s
fnmatchcase-prefix (c ∷ p) [] h = rw (IsLiteral-cons c p h).0
fnmatchcase-prefix (c ∷ p) (d ∷ s) h =
    rw (IsLiteral-cons c p h).0 (ground (arith, fnmatchcase-prefix p s (IsLiteral-cons c p h).1))

-- Whatever follows it, a literal beginning has to be matched.
pub fnmatchcase-needs_prefix :
    (p q s : List ℕ) → IsLiteral p → starts_with p s ≡ false → fnmatchcase (p ++ q) s ≡ false
unfolding fnmatchcase literal starts_with
fnmatchcase-needs_prefix [] q s h e = ground arith
fnmatchcase-needs_prefix (c ∷ p) q [] h e = rw (IsLiteral-cons c p h).0
fnmatchcase-needs_prefix (c ∷ p) q (d ∷ s) h e =
    rw (IsLiteral-cons c p h).0
      (ground (arith, fnmatchcase-needs_prefix p q s (IsLiteral-cons c p h).1))
