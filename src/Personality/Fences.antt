-- ===== src/Personality/Fences.antt =====
-- The text between the fences of Markdown, as `_parse_llm_json` takes it.
pub mod Roundtrip
use my_palace.Common.{
  ℕ, Bool, true, false, ◌&&◌, Option, none, some, List, [], ◌∷◌, ◌++◌, drop, codes, starts_with,
  Codes, is_nil, is_space, if◌then◌else◌,
}

strip_start : Codes → Codes
unfolding is_space
strip_start [] = []
strip_start (c ∷ s) = let rest = strip_start s in if is_space c then rest else c ∷ s

strip_end : Codes → Codes
unfolding is_space
strip_end [] = []
strip_end (c ∷ s) = let rest = strip_end s in if is_space c && is_nil rest then [] else c ∷ rest

-- `s.strip()`
unfoldable pub strip : Codes → Codes
unfolding strip_start strip_end
strip s = strip_end (strip_start s)

abbrev pub fence : Codes
fence = codes "```"

put_before : ℕ → Option Codes → Option Codes
put_before c none = none
put_before c (some s) = some (c ∷ s)

-- The text before the first fence.
unfoldable pub until_fence : Codes → Option Codes
unfolding put_before
until_fence [] = none
until_fence (c ∷ s) =
    let rest = until_fence s in if starts_with fence (c ∷ s) then some [] else put_before c rest

-- The text behind the first fence.
unfoldable pub after_fence : Codes → Option Codes
after_fence [] = none
after_fence (c ∷ s) =
    let rest = after_fence s in if starts_with fence (c ∷ s) then some (drop 3 (c ∷ s)) else rest

-- `(?:json)?`
without_label : Codes → Codes
without_label s = if starts_with (codes "json") s then drop 4 s else s

inside : Codes → Option Codes → Codes
inside text none = text
inside text (some body) = strip body

opened : Codes → Option Codes → Codes
unfolding without_label inside until_fence strip
opened text none = text
opened text (some rest) = inside text (until_fence (without_label rest))

unfoldable pub unfenced : Codes → Codes
unfolding strip after_fence opened
unfenced raw = opened (strip raw) (after_fence (strip raw))
