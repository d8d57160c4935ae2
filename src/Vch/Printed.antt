-- ===== src/Vch/Printed.antt =====
-- The size of the text that format_for_context gives.
use my_palace.Common.{
  ℕ, ◌+◌, ◌-◌, ◌*◌, ◌≤◌, ◌≡◌, refl, inl, inr, String, List, [], ◌∷◌, map, length, ltb, Codes, arith,
  Bool-cases, length-append, length-map,
}
use my_palace.Vch.{Snippet, block, kept_blocks, joined, format_for_context}

sizes : List Codes → ℕ
sizes [] = 0
sizes (b ∷ bs) = length b + sizes bs

kept_blocks-sizes :
    (max_chars used : ℕ) (bs : List Codes)
    → (sizes (kept_blocks max_chars used bs) ≤ max_chars - used)
      × (length (kept_blocks max_chars used bs) ≤ length bs)
unfolding kept_blocks sizes
kept_blocks-sizes max_chars used [] = (omega arith, omega arith)
kept_blocks-sizes max_chars used (b ∷ bs) =
    let (small, few) = kept_blocks-sizes max_chars (used + length b) bs in
    elim (Bool-cases (ltb max_chars (used + length b))) [
      | inl e ↦ rw e (omega arith, omega arith)
      | inr e ↦ rw e (ground (arith, small), omega (arith, few))
    ]

length-joined : (bs : List Codes) → length (joined bs) ≡ sizes bs + 2 * (length bs - 1)
unfolding joined sizes
length-joined [] = refl
length-joined (b ∷ []) = omega arith
length-joined (b ∷ (b' ∷ bs)) =
    omega (arith, length-joined (b' ∷ bs), length-append b (10 ∷ 10 ∷ joined (b' ∷ bs)))

-- The text has at most `max_chars` characters and two more between any two blocks, since the loop
-- does not count the separators.
format_for_context-size :
    (date : ℕ → Codes) (snippets : List Snippet) (max_chars : ℕ)
    (assistant_label user_label : String)
    → length (format_for_context date snippets max_chars assistant_label user_label)
      ≤ max_chars + 2 * (length snippets - 1)
unfolding format_for_context
format_for_context-size date snippets max_chars a u =
    let bs = map (block date a u) snippets in
    let (small, few) = kept_blocks-sizes max_chars 0 bs in
    omega (
      arith,
      small,
      few,
      length-joined (kept_blocks max_chars 0 bs),
      length-map snippets (block date a u),
    )
