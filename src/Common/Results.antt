-- ===== src/Common/Results.antt =====
-- Options as tests, texts in lists, and results with an error.
use mathlib.Core.Bool.{Bool, true, false}
use mathlib.Core.Option.{Option, none, some}
use mathlib.Core.List.{List}
use Prim.Native.String.{String}
use text.Mathlib.Text.{◌==◌ as str_eq}
use my_palace.Common.Lists.{any}

module _ {ℓ} {A : Type ℓ} where
  -- `x is not None`
  abbrev pub is_some : Option A → Bool
  is_some none = false
  is_some (some a) = true

  -- `x is None`
  abbrev pub is_none : Option A → Bool
  is_none none = true
  is_none (some a) = false

-- `x in xs`
abbrev pub elem : String → List String → Bool
elem x xs = any (str_eq x) xs

-- `x or default` for an optional text: the empty text counts as missing.
abbrev pub or_default : Option String → String → String
or_default none d = d
or_default (some String.[]) d = d
or_default (some (String.◌∷◌ c s)) d = String.◌∷◌ c s

-- A returned value, or what was raised.
pub data Result {ℓ} (E : Type 0) (A : Type ℓ) : Type ℓ where
  ok : A → Result E A
  err : E → Result E A
