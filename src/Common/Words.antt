-- ===== src/Common/Words.antt =====
-- ASCII texts as code points: lower case, substrings, words.
use Prim.Native.Nat.{ℕ, ◌+◌}
use mathlib.Core.Bool.{Bool, true, false, ◌&&◌, ◌||◌}
use mathlib.Core.List.{List, [], ◌∷◌, map}
use my_palace.Common.Tests.{leb, if◌then◌else◌}
use my_palace.Common.Lists.{any}
use my_palace.Common.Text.{starts_with, text_eq}

abbrev pub Codes : Type 0
Codes = List ℕ

abbrev pub is_nil {ℓ} : {A : Type ℓ} → List A → Bool
is_nil [] = true
is_nil (x ∷ xs) = false

-- `c.lower()` on ASCII
unfoldable pub to_lower : ℕ → ℕ
to_lower c = if leb b'A' c && leb c b'Z' then c + 32 else c

-- `s.lower()`
unfoldable pub lower : Codes → Codes
unfolding to_lower
lower = map to_lower

-- `needle in hay`
unfoldable pub contains : Codes → Codes → Bool
contains needle [] = is_nil needle
contains needle (c ∷ hay) = starts_with needle (c ∷ hay) || contains needle hay

-- The white space of `str.split` and `str.strip` in ASCII.
unfoldable pub is_space : ℕ → Bool
is_space c = (leb 9 c && leb c 13) || (leb 28 c && leb c 32)

-- `word`, where it is not empty, before the words of the rest
abbrev before : Codes → List Codes → List Codes
before [] rest = rest
before (c ∷ word) rest = (c ∷ word) ∷ rest

-- The word that a text starts with, which may be empty, and the words behind it.
unfoldable pub split_head : Codes → Codes × List Codes
unfolding is_space
split_head [] = ([], [])
split_head (c ∷ s) =
    let (word, rest) = split_head s in
    if is_space c then ([], before word rest) else (c ∷ word, rest)

-- `s.split()`
unfoldable pub split_words : Codes → List Codes
unfolding split_head
split_words s = let (word, rest) = split_head s in before word rest

-- `x in xs`
abbrev pub elem_text : Codes → List Codes → Bool
elem_text x = any (text_eq x)

-- `set(xs)`, as the list of its elements
unfoldable pub distinct : List Codes → List Codes
distinct [] = []
distinct (x ∷ xs) = let rest = distinct xs in if elem_text x rest then rest else x ∷ rest
