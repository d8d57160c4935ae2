-- ===== src/Portability/Counted.antt =====
-- What an import does with each line.
use my_palace.Common.{
  ℕ, suc, ◌+◌, ◌≡◌, refl, sym, ap, ◌∙◌, ◌⊎◌, inl, inr, Bool, not, ◌&&◌, subst, String, Option, none,
  some, List, [], ◌∷◌, ◌++◌, map, filter, any, length, str_eq, elem, is_nil, Codes, All, In, arith,
  Bool-cases, Option-cases, if◌then◌else◌,
}
use my_palace.Personality.Fences.{strip}
use my_palace.Portability.{
  Row, Fields, build, coerce_timestamps, exportable, Parsed, malformed, no_object, object, Json,
  ImportSummary, empty_summary, count, skip, same_key, merged, Progress, built, remembered,
  ingest_object, ingest_parsed, ingest_line, ingest_lines, ingest_records,
}

unfoldable pub total : ImportSummary → ℕ
total s =
    s.tenants_seen + s.memories_imported + s.sessions_imported + s.arcs_imported
    + s.intentions_imported + s.dynamics_imported + s.supersessions_imported + s.skipped

total-count : (t : String) (s : ImportSummary) → total (count t s) ≡ suc (total s)
unfolding count total
total-count t s = ground arith

total-skip : (reason : String) (s : ImportSummary) → total (skip reason s) ≡ suc (total s)
unfolding skip total
total-skip reason s = omega arith

total-tenant :
    (s : ImportSummary) → total (record s { tenants_seen = s.tenants_seen + 1 }) ≡ suc (total s)
unfolding total
total-tenant s = omega arith

-- A line that is not blank.
abbrev pub filled : Codes → Bool
filled raw = not (is_nil (strip raw))

some_injective : {A : Type 0} (a b : A) → some a ≡ some b → a ≡ b
some_injective a b e = cc e

module _ (json : Json) (target : String) (reembed : Bool) where
  module _ (before : List Row) where
    -- A row that was there, or one that was built for the target.
    abbrev pub Comes : Row → Type 0
    Comes r = In r before ⊎ ((t : String) × (f : Fields) × (build json t target f ≡ some r))

    replaced-Comes :
        (r : Row) (rows : List Row)
        → Comes r
        → All Comes rows
        → All Comes (map (λ k. if same_key r k then r else k) rows)
    replaced-Comes r [] c a = tt
    replaced-Comes r (k ∷ rows) c a = elim (Bool-cases (same_key r k)) [
      | inl e ↦ rw e (c, replaced-Comes r rows c a.1)
      | inr e ↦ rw e (a.0, replaced-Comes r rows c a.1)
    ]

    appended-Comes :
        (r : Row) (rows : List Row) → Comes r → All Comes rows → All Comes (rows ++ r ∷ [])
    appended-Comes r [] c a = (c, tt)
    appended-Comes r (k ∷ rows) c a = (a.0, appended-Comes r rows c a.1)

    merged-Comes :
        (r : Row) (rows : List Row) → Comes r → All Comes rows → All Comes (merged r rows)
    unfolding merged
    merged-Comes r rows c a = elim (Bool-cases (any (same_key r) rows)) [
      | inl e ↦ rw e (replaced-Comes r rows c a)
      | inr e ↦ rw e (appended-Comes r rows c a)
    ]

    -- A step from `p` counts one line more.
    abbrev Counts : Progress json → Progress json → Type 0
    Counts p q = (total q.summary ≡ suc (total p.summary)) × (All Comes p.rows → All Comes q.rows)

    built-Counts :
        (t : String) (f : Fields) (o : Option Row) (p : Progress json)
        → build json t target f ≡ o
        → Counts p (built json t o p)
    unfolding built
    built-Counts t f none p e = (total-skip t p.summary, λ a. a)
    built-Counts t f (some r) p e =
        (total-count t p.summary, λ a. merged-Comes r p.rows (inr (t, f, e)) a)

    pub remembered-same :
        (t : String) (f : Fields) (p : Progress json)
        → ((remembered json reembed t f p).summary ≡ p.summary)
          × ((remembered json reembed t f p).rows ≡ p.rows)
    unfolding remembered
    remembered-same t f p = elim (Bool-cases (reembed && str_eq t "memory")) [
      | inl e ↦ rw e (refl, refl)
      | inr e ↦ rw e (refl, refl)
    ]

    ingest_object-Counts :
        (t : Option String) (f : Fields) (p : Progress json)
        → Counts p (ingest_object json target reembed t f p)
    unfolding ingest_object
    ingest_object-Counts none f p = (total-skip "unknown _type" p.summary, λ a. a)
    ingest_object-Counts (some t) f p = elim (Bool-cases (str_eq t "tenant")) [
      | inl e ↦ rw e (total-tenant p.summary, λ a. a)
      | inr e ↦ elim (Bool-cases (elem t exportable)) [
        | inl h ↦
            rw (e, h)
              (
                (built-Counts t (coerce_timestamps json f)
                      (build json t target (coerce_timestamps json f))
                      (remembered json reembed t (coerce_timestamps json f) p) refl).0
                    ∙ ap (λ x. suc (total x)) (remembered-same t (coerce_timestamps json f) p).0,
                λ a.
                    (built-Counts t (coerce_timestamps json f)
                        (build json t target (coerce_timestamps json f))
                        (remembered json reembed t (coerce_timestamps json f) p) refl).1
                      (subst (All Comes) (sym (remembered-same t (coerce_timestamps json f) p).1)
                        a),
              )
        | inr h ↦ rw (e, h) (total-skip "unknown _type" p.summary, λ a. a)
      ]
    ]

    ingest_parsed-Counts :
        (v : Parsed) (p q : Progress json)
        → ingest_parsed json target reembed v p ≡ some q
        → Counts p q
    unfolding ingest_parsed
    ingest_parsed-Counts malformed p q e =
        subst (Counts p) (some_injective _ q e) (total-skip "malformed json" p.summary, λ a. a)
    ingest_parsed-Counts no_object p q e = cc e
    ingest_parsed-Counts (object t f) p q e =
        subst (Counts p) (some_injective _ q e) (ingest_object-Counts t f p)

    ingest_lines-Counts :
        (lines : List Codes) (p q : Progress json)
        → ingest_lines json target reembed lines p ≡ some q
        → (total q.summary ≡ total p.summary + length (filter filled lines))
          × (All Comes p.rows → All Comes q.rows)
    unfolding ingest_lines ingest_line
    ingest_lines-Counts [] p q e =
        subst
          (λ (x : Progress json).
            (total x.summary ≡ total p.summary + 0) × (All Comes p.rows → All Comes x.rows))
          (some_injective p q e) (omega arith, λ a. a)
    ingest_lines-Counts (raw ∷ lines) p q e = elim (Bool-cases (is_nil (strip raw))) [
      | inl b ↦ rw b (ingest_lines-Counts lines p q (rw (b, ingest_lines) at e))
      | inr b ↦ elim (Option-cases (ingest_parsed json target reembed (json.loads (strip raw)) p)) [
        | inl n ↦ cc (rw (b, n, ingest_lines) at e)
        | inr (r, n) ↦
            let (one, keeps) = ingest_parsed-Counts (json.loads (strip raw)) p r n in
            let (more, keeps') = ingest_lines-Counts lines r q (rw (b, n, ingest_lines) at e) in
            rw b (omega (arith, one, more), λ a. keeps' (keeps a))
      ]
    ]

  -- An import that returns has counted each line that is not blank once, as a tenant, as a row of
  -- one of the six types or as skipped, and every row of the target's schema was there or was built
  -- for the target.
  ingest_records-Counted :
      (lines : List Codes) (rows : List Row) (q : Progress json)
      → ingest_records json target lines reembed rows ≡ some q
      → (total q.summary ≡ length (filter filled lines)) × All (Comes rows) q.rows
  unfolding ingest_records total
  ingest_records-Counted lines rows q e =
      let (counted, comes) =
        ingest_lines-Counts rows lines
          (record { summary = empty_summary; rows = rows; memory_payloads = [] }) q e in
      (omega (arith, counted), comes (All-self rows rows (λ r i. i)))
    where
      All-self : (rs ks : List Row) → ((r : Row) → In r ks → In r rs) → All (Comes rs) ks
      All-self rs [] h = tt
      All-self rs (k ∷ ks) h = (inl (h k (inl refl)), All-self rs ks (λ r i. h r (inr i)))
