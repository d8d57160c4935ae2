-- ===== src/Arcs/Fenced.antt =====
-- strip_json_fences of mypalace/_llm_utils.py.
use my_palace.Common.{
  ◌-◌, Bool, ◌&&◌, ◌||◌, take, drop, length, leb, codes, starts_with, text_eq, Codes, if◌then◌else◌,
}
use my_palace.Personality.Fences.{strip, fence}

-- `(?:json|JSON)?`
without_tag : Codes → Codes
without_tag s = if starts_with (codes "json") s || starts_with (codes "JSON") s then drop 4 s else s

ends_with_fence : Codes → Bool
ends_with_fence s = leb 3 (length s) && text_eq (drop (length s - 3) s) fence

-- The group of the expression, stripped, for the text behind the first fence.
body : Codes → Codes
unfolding without_tag
body s = strip (without_tag (take (length s - 3) s))

unfoldable pub strip_json_fences : Codes → Codes
unfolding body ends_with_fence
strip_json_fences raw =
    let text = strip raw in
    if starts_with fence text && ends_with_fence (drop 3 text) then body (drop 3 text) else text
