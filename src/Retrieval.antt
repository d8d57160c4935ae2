-- ===== src/Retrieval.antt =====
-- mypalace/retrieval/layered.py: the character budget of a layer. A text counts its code points.
pub mod Budget
pub mod Graph
pub mod Recent
pub mod Tests
use my_palace.Common.{
  ℕ, ◌+◌, Bool, true, false, ◌&&◌, String, Option, none, some, List, [], ◌∷◌, ltb, leb, length,
  codes, or_default, if◌then◌else◌,
}
use my_palace.Common.Dict
use my_palace.Common.Dict.{Dict}

-- An item of a layer, with its values as texts; a value that is missing or None has no entry.
abbrev pub Item : Type 0
Item = Dict String

-- `len(item.get(key, "") or "")`
pub size_of : String → Item → ℕ
size_of key item = length (codes (or_default (Dict.get key item) ""))

-- The loop, from a total, and with the knowledge whether something has been kept.
pub enforce_from : ℕ → String → Bool → ℕ → List Item → List Item × ℕ
enforce_from budget key started total [] = ([], total)
enforce_from budget key started total (item ∷ items) =
    let next = total + size_of key item in
    let (kept, all) = enforce_from budget key true next items in
    if ltb budget next && started
    then ([], total)
    else if leb budget next
    then (item ∷ [], next)
    else (item ∷ kept, all)

-- _enforce_char_budget
pub enforce_char_budget : List Item → ℕ → String → List Item × ℕ
unfolding enforce_from
enforce_char_budget items budget key = enforce_from budget key false 0 items
