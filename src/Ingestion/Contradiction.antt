-- ===== src/Ingestion/Contradiction.antt =====
-- The heuristic of mypalace/retrieval/ingestion.py for a contradiction, on ASCII texts. A ratio is
-- given by its two numbers.
pub mod Symmetry
use my_palace.Common.{
  ℕ, ◌+◌, ◌-◌, ◌*◌, min, max, Bool, true, false, not, ◌&&◌, ◌||◌, String, Option, none, some, List,
  [], ◌∷◌, ◌++◌, map, leb, ltb, filter, any, length, take, drop, codes, text_eq, ◌==◌, Codes,
  is_nil, lower, contains, is_space, split_words, elem_text, distinct, if◌then◌else◌,
}

pub negation_tokens : List Codes
negation_tokens =
    codes "not"
    ∷ codes "no"
    ∷ codes "never"
    ∷ codes "n't"
    ∷ codes "none"
    ∷ codes "nothing"
    ∷ codes "stopped"
    ∷ codes "quit"
    ∷ codes "former"
    ∷ codes "ex"
    ∷ codes "longer"
    ∷ codes "anymore"
    ∷ codes "any-more"
    ∷ []

pub stopwords : List Codes
unfolding split_words
stopwords =
    split_words
      (codes "the a an is are was were be been being have has had do does did will would shall ")
    ++ split_words
        (codes "should may might must can could of to in for on with as by at from about into ")
    ++ split_words
        (codes "through during i me my we our you your he she it they them and or but so ")
    ++ split_words (codes "this that these those")

-- `c.isalnum()` on ASCII
is_alnum : ℕ → Bool
is_alnum c = (leb b'a' c && leb c b'z') || (leb b'A' c && leb c b'Z') || (leb b'0' c && leb c b'9')

kept_char : ℕ → ℕ
unfolding is_alnum is_space
kept_char c = if is_alnum c || is_space c || (c == b'\'') then c else b' '

drop_while : (ℕ → Bool) → Codes → Codes
drop_while p [] = []
drop_while p (c ∷ s) = let rest = drop_while p s in if p c then rest else c ∷ s

drop_end : (ℕ → Bool) → Codes → Codes
drop_end p [] = []
drop_end p (c ∷ s) = let rest = drop_end p s in if p c && is_nil rest then [] else c ∷ rest

-- `t.strip(chars)`
pub strip_chars : Codes → Codes → Codes
unfolding drop_while drop_end
strip_chars chars t =
    let strips = λ (c : ℕ). any (λ d. c == d) chars in drop_end strips (drop_while strips t)

-- `len(t) > len(suf) + 2 and t.endswith(suf)`
has_suffix : Codes → Codes → Bool
has_suffix suf t = ltb (length suf + 2) (length t) && text_eq (drop (length t - length suf) t) suf

stem_by : List Codes → Codes → Codes
unfolding has_suffix
stem_by [] t = t
stem_by (suf ∷ sufs) t =
    let rest = stem_by sufs t in if has_suffix suf t then take (length t - length suf) t else rest

pub stem : Codes → Codes
unfolding stem_by
stem = stem_by (codes "ing" ∷ codes "ed" ∷ codes "es" ∷ codes "s" ∷ [])

-- _tokenize
unfoldable pub tokenize : Codes → List Codes
unfolding kept_char strip_chars stem stopwords
tokenize text = distinct (
    map stem (
      filter (λ t. not (is_nil t) && not (elem_text t stopwords))
        (map (strip_chars (codes "'")) (split_words (map kept_char (lower text))))))

-- _has_negation
unfoldable pub has_negation : Codes → Bool
unfolding strip_chars negation_tokens
has_negation text =
    if contains (codes "n't") (lower text)
    then true
    else any (λ t. elem_text (strip_chars (codes ".,!?;:") t) negation_tokens)
        (split_words (lower text))

-- The answer, with the confidence as a ratio, 0 to 1 when nothing was compared.
pub record Verdict : Type 0 where
  pub contradicts : Bool
  pub overlap : ℕ
  pub smaller : ℕ
  pub reason : String

no_verdict : String → Verdict
no_verdict reason = record { contradicts = false; overlap = 0; smaller = 1; reason = reason }

-- `old_tokens - _NEGATION_TOKENS`
abbrev pub signal : List Codes → List Codes
signal = filter λ t. not (elem_text t negation_tokens)

-- `len(old_signal & new_signal)`
abbrev pub common : List Codes → List Codes → ℕ
common xs ys = length (filter (λ t. elem_text t ys) xs)

same : Bool → Bool → Bool
same true b = b
same false b = not b

-- The verdict on a number of words in common, and the size of the smaller set.
pub by_overlap : ℕ → ℕ → Verdict
by_overlap overlap smaller = record {
  contradicts = leb 2 overlap;
  overlap = overlap;
  smaller = smaller;
  reason = if leb 2 overlap then "negation:overlap" else "insufficient subject overlap";
}

pub compared : List Codes → List Codes → Verdict
unfolding no_verdict by_overlap
compared xs ys =
    if is_nil xs || is_nil ys
    then no_verdict "no signal tokens"
    else by_overlap (common xs ys) (min (length xs) (length ys))

-- _check_contradiction
unfoldable pub check_contradiction : Codes → Codes → Verdict
unfolding has_negation tokenize compared same
check_contradiction old_content new_content =
    let old = tokenize old_content in
    let new = tokenize new_content in
    if same (has_negation old_content) (has_negation new_content)
    then no_verdict "no negation asymmetry"
    else if is_nil old || is_nil new
    then no_verdict "insufficient content"
    else compared (signal old) (signal new)

-- `contradicts and conf > CONTRADICTION_CONFIDENCE_THRESHOLD`
unfoldable pub certain : Verdict → Bool
certain v = v.contradicts && ltb (7 * max v.smaller 1) (10 * v.overlap)
