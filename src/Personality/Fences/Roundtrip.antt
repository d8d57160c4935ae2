-- ===== src/Personality/Fences/Roundtrip.antt =====
-- A text that was put between fences comes back.
use my_palace.Common.{
  ℕ, ◌≡◌, refl, sym, ap, ◌∙◌, inl, inr, true, false, Option, some, [], ◌∷◌, ◌++◌, codes,
  starts_with, Codes, is_nil, is_space, arith, All, ◌==◌, Bool-cases,
}
use my_palace.Personality.Fences.{
  strip_start, strip_end, strip, fence, until_fence, after_fence, without_label, inside, opened,
  unfenced,
}

is_nil-append : (s : Codes) (c : ℕ) → is_nil (s ++ c ∷ []) ≡ false
is_nil-append [] c = refl
is_nil-append (d ∷ s) c = refl

strip_end-last : (s : Codes) (c : ℕ) → is_space c ≡ false → strip_end (s ++ c ∷ []) ≡ s ++ c ∷ []
unfolding strip_end
strip_end-last [] c h = rw h refl
strip_end-last (d ∷ s) c h = rw (strip_end-last s c h, is_nil-append s c) (ground arith)

strip_end-space : (s : Codes) (c : ℕ) → is_space c ≡ true → strip_end (s ++ c ∷ []) ≡ strip_end s
unfolding strip_end
strip_end-space [] c h = rw h refl
strip_end-space (d ∷ s) c h = rw (strip_end-space s c h) refl

-- Trailing white space does not matter to `strip`.
strip-space : (s : Codes) (c : ℕ) → is_space c ≡ true → strip (s ++ c ∷ []) ≡ strip s
unfolding strip strip_start
strip-space [] c h = rw h refl
strip-space (d ∷ s) c h = elim (Bool-cases (is_space d)) [
  | inl e ↦ rw e (strip-space s c h)
  | inr e ↦ rw e (strip_end-space (d ∷ s) c h)
]

-- A text with no backtick.
abbrev pub IsPlain : Codes → Type 0
IsPlain = All λ c. (b'`' == c) ≡ false

until_fence-plain : (s : Codes) → IsPlain s → until_fence (s ++ fence) ≡ some s
unfolding until_fence starts_with
until_fence-plain [] h = refl
until_fence-plain (c ∷ s) h = rw (until_fence-plain s h.1) (rw h.0 refl)

assoc : (s t u : Codes) → s ++ (t ++ u) ≡ (s ++ t) ++ u
assoc [] t u = refl
assoc (c ∷ s) t u = ap (λ z. c ∷ z) (assoc s t u)

IsPlain-last : (s : Codes) (c : ℕ) → IsPlain s → (b'`' == c) ≡ false → IsPlain (s ++ c ∷ [])
IsPlain-last [] c h k = (k, tt)
IsPlain-last (d ∷ s) c h k = (h.0, IsPlain-last s c h.1 k)

abbrev opening : Codes
opening = codes "```json\n"

-- The fenced text has no white space at its ends.
strip-fenced :
    (body : Codes) → strip (opening ++ (body ++ codes "\n```")) ≡ opening ++ (body ++ codes "\n```")
unfolding strip strip_start is_space
strip-fenced body =
    let whole : opening ++ (body ++ codes "\n```")
        ≡ (opening ++ (body ++ codes "\n``")) ++ codes "`" =
      ap (λ z. opening ++ z) (assoc body (codes "\n``") (codes "`"))
      ∙ assoc opening (body ++ codes "\n``") (codes "`") in
    ap strip_end whole ∙ strip_end-last (opening ++ (body ++ codes "\n``")) b'`' refl ∙ sym whole

until_fence-body :
    (body : Codes)
    → IsPlain body
    → until_fence (10 ∷ (body ++ codes "\n```")) ≡ some (10 ∷ (body ++ 10 ∷ []))
until_fence-body body plain =
    ap (λ z. until_fence (10 ∷ z)) (assoc body (10 ∷ []) fence)
    ∙ until_fence-plain (10 ∷ (body ++ 10 ∷ [])) (refl, IsPlain-last body 10 plain refl)

-- The line break behind the label goes, and the one before the closing fence.
drop_line : (body : Codes) → strip (10 ∷ (body ++ 10 ∷ [])) ≡ strip body
unfolding strip strip_start is_space
drop_line body = strip-space body 10 refl

-- Where nothing is to be stripped, the text is taken apart as it is.
unfenced-strip : (raw : Codes) → strip raw ≡ raw → unfenced raw ≡ opened raw (after_fence raw)
unfolding unfenced
unfenced-strip raw e = ap (λ z. opened z (after_fence z)) e

opened-fenced :
    (text body : Codes)
    → opened text (after_fence (opening ++ body)) ≡ inside text (until_fence (10 ∷ body))
unfolding opened after_fence without_label starts_with
opened-fenced text body = refl

inside-some : (text : Codes) (r : Option Codes) (s : Codes) → r ≡ some s → inside text r ≡ strip s
unfolding inside
inside-some text r s e = ap (inside text) e

-- A text with no backtick that stands between fences with the label json, each on a line of its own,
-- is taken out as it is, but for white space around it.
unfenced-json :
    (body : Codes)
    → IsPlain body
    → unfenced (codes "```json\n" ++ (body ++ codes "\n```")) ≡ strip body
unfenced-json body plain =
    unfenced-strip (opening ++ (body ++ codes "\n```")) (strip-fenced body)
    ∙ opened-fenced (opening ++ (body ++ codes "\n```")) (body ++ codes "\n```")
    ∙ inside-some (opening ++ (body ++ codes "\n```")) _ (10 ∷ (body ++ 10 ∷ []))
        (until_fence-body body plain)
    ∙ drop_line body
