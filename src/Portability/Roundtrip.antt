-- ===== src/Portability/Roundtrip.antt =====
-- The import of what was exported.
use mathlib.Core.List.{append_assoc, append-nil}
use my_palace.Common.{
  ℕ, none, ◌⊎◌, ◌≡◌, refl, sym, ap, ◌∙◌, subst, inl, inr, Bool, true, false, ◌&&◌, String, Option,
  some, List, [], ◌∷◌, ◌++◌, map, filter, any, str_eq, str_eq_iff, elem, is_nil, Codes, All, In,
  arith, Bool-cases,
}
use my_palace.Personality.Fences.{strip}
use my_palace.Portability.Counted.{remembered-same}
use my_palace.Portability.{
  Row, Column, Columns, Fields, time, string, plain, looks_like_time, in_columns, written,
  row_to_dict, coerce, read_time, coerce_timestamps, build, exportable, exported, stream_export,
  object, Json, ImportSummary, empty_summary, count, same_key, merged, Progress, built, remembered,
  ingest_object, ingest_parsed, ingest_line, ingest_lines, ingest_records,
}

-- A value that an import reads back as it is: a text that does not look like a time, or that is none.
abbrev pub Unread : Json → Column → Type 0
Unread json (time t) = Unit {0}
Unread json (string v) = (looks_like_time v ≡ false) ⊎ (json.fromisoformat v ≡ none)
Unread json (plain j) = Unit {0}

abbrev pub UnreadAll : Json → Columns → Type 0
UnreadAll json [] = Unit {0}
UnreadAll json ((name, v) ∷ columns) = Unread json v × UnreadAll json columns

-- For these rows: json gives the type and the fields of an object back from its text, which has no
-- white space around it; datetime gives a time back from its ISO text, which has a T and a colon; and
-- a model takes the key and the columns of a row as they are.
pub record Laws (json : Json) (source : List Row) : Type 0 where
  pub tenant_fields : String → Fields
  pub tenant_text :
      (t : String)
      → (strip (json.dumps_tenant t) ≡ json.dumps_tenant t) × (is_nil (json.dumps_tenant t) ≡ false)
  pub row_text :
      (r : Row)
      → In r source
      → (let text = json.dumps r.type_name r.tenant_id (row_to_dict json r) in
          (strip text ≡ text) × (is_nil text ≡ false))
  pub loads_tenant :
      (t : String) → json.loads (json.dumps_tenant t) ≡ object (some "tenant") (tenant_fields t)
  pub loads_row :
      (r : Row)
      → In r source
      → json.loads (json.dumps r.type_name r.tenant_id (row_to_dict json r))
        ≡ object (some r.type_name) (row_to_dict json r)
  pub iso_text : (t : ℕ) → looks_like_time (json.isoformat t) ≡ true
  pub iso : (t : ℕ) → json.fromisoformat (json.isoformat t) ≡ some t
  pub models :
      (r : Row)
      → In r source
      → json.model r.type_name (some (string r.key)) r.columns ≡ some (r.key, r.columns)

coerce_string :
    (json : Json) (v : String) → Unread json (string v) → coerce json (string v) ≡ string v
unfolding coerce read_time
coerce_string json v (inl e) = rw e refl
coerce_string json v (inr e) = elim (Bool-cases (looks_like_time v)) [
  | inl c ↦ rw (c, e) refl
  | inr c ↦ rw c refl
]

coerce-written :
    (json : Json) (source : List Row) (laws : Laws json source) (v : Column)
    → Unread json v
    → coerce json (written json v) ≡ v
unfolding coerce written read_time
coerce-written json source laws (time t) u = rw (laws.iso_text t, laws.iso t) refl
coerce-written json source laws (string v) u = coerce_string json v u
coerce-written json source laws (plain j) u = refl

coerced_columns :
    (json : Json) (source : List Row) (laws : Laws json source) (columns : Columns)
    → UnreadAll json columns
    → in_columns json (coerce json) (in_columns json (written json) columns) ≡ columns
coerced_columns json source laws [] u = refl
coerced_columns json source laws ((name, v) ∷ columns) u =
    rw (coerce-written json source laws v u.0, coerced_columns json source laws columns u.1) refl

-- No text of the row, nor its key, reads as a time.
abbrev pub UnreadRow : Json → Row → Type 0
UnreadRow json r = Unread json (string r.key) × UnreadAll json r.columns

build-row_to_dict :
    (json : Json) (source : List Row) (laws : Laws json source) (target : String) (r : Row)
    → In r source
    → UnreadRow json r
    → build json r.type_name target (coerce_timestamps json (row_to_dict json r))
      ≡ some (record r { tenant_id = target })
unfolding build coerce_timestamps row_to_dict
build-row_to_dict json source laws target r i (key, columns) =
    rw
      (
        coerce-written json source laws (string r.key) key,
        coerced_columns json source laws r.columns columns,
        laws.models r i,
        build,
      )
      refl

-- No two rows of one type and key.
abbrev pub Keyed : List Row → Type 0
Keyed [] = Unit {0}
Keyed (r ∷ rows) = All (λ k. same_key k r ≡ false) rows × Keyed rows

exported-type :
    (tenant_id : String) (ts all_types : List String) (rows : List Row)
    → ((t : String) → In t ts → elem t all_types ≡ true)
    → All (λ r. elem r.type_name all_types ≡ true) (exported tenant_id ts rows)
unfolding exported
exported-type tenant_id [] all_types rows h = tt
exported-type tenant_id (t ∷ ts) all_types rows h =
    front rows (exported tenant_id ts rows)
      (exported-type tenant_id ts all_types rows (λ u i. h u (inr i)))
  where
    front :
        (rows rest : List Row)
        → All (λ r. elem r.type_name all_types ≡ true) rest
        → All
            (λ r. elem r.type_name all_types ≡ true)
            (filter (λ r. str_eq r.type_name t && str_eq r.tenant_id tenant_id) rows ++ rest)
    front [] rest a = a
    front (r ∷ rows) rest a =
        elim (Bool-cases (str_eq r.type_name t && str_eq r.tenant_id tenant_id)) [
          | inl e ↦ rw e (
            subst (λ x. elem x all_types ≡ true) (sym ((str_eq_iff r.type_name t).0 (ground arith)))
                (h t (inl refl)),
            front rows rest a,
          )
          | inr e ↦ rw e (front rows rest a)
        ]

-- The types of the six tables are all there, and none is the tenant's.
exportable-elem : (t : String) → In t exportable → elem t exportable ≡ true
exportable-elem t (inl q) = rw q refl
exportable-elem t (inr (inl q)) = rw q refl
exportable-elem t (inr (inr (inl q))) = rw q refl
exportable-elem t (inr (inr (inr (inl q)))) = rw q refl
exportable-elem t (inr (inr (inr (inr (inl q))))) = rw q refl
exportable-elem t (inr (inr (inr (inr (inr (inl q)))))) = rw q refl
exportable-elem t (inr (inr (inr (inr (inr (inr i)))))) = absurd i

no_tenant : (t : String) → elem t exportable ≡ true → str_eq t "tenant" ≡ false
no_tenant t h = elim (Bool-cases (str_eq t "tenant")) [
  | inl e ↦
      absurd (ground (arith, subst (λ x. elem x exportable ≡ true) ((str_eq_iff t "tenant").0 e) h))
  | inr e ↦ e
]

module _ (json : Json) (source : List Row) (laws : Laws json source) (target : String)
    (reembed : Bool) (unread : (r : Row) → In r source → UnreadRow json r) where
  abbrev pub retagged : Row → Row
  retagged r = record r { tenant_id = target }

  any-append :
      (e k : Row) (acc : List Row)
      → any (same_key e) acc ≡ false
      → same_key e k ≡ false
      → any (same_key e) (acc ++ k ∷ []) ≡ false
  any-append e k [] h n = ground arith
  any-append e k (a ∷ acc) h n = ground (arith, any-append e k acc)

  fresh-more :
      (k : Row) (es acc : List Row)
      → All (λ e. any (same_key e) acc ≡ false) es
      → All (λ e. same_key e k ≡ false) es
      → All (λ e. any (same_key e) (acc ++ retagged k ∷ []) ≡ false) es
  fresh-more k [] acc a b = tt
  fresh-more k (e ∷ es) acc a b =
      (any-append e (retagged k) acc a.0 b.0, fresh-more k es acc a.1 b.1)

  abbrev dumped : Row → Codes
  dumped r = json.dumps r.type_name r.tenant_id (row_to_dict json r)

  line_of :
      (text : Codes) (t : Option String) (f : Fields) (p : Progress json)
      → (strip text ≡ text) × (is_nil text ≡ false)
      → json.loads text ≡ object t f
      → ingest_line json target reembed text p ≡ some (ingest_object json target reembed t f p)
  unfolding ingest_line ingest_parsed
  line_of text t f p (bare, filled) loaded = rw (bare, filled, loaded) refl

  -- Where no line was skipped and the rows are these.
  abbrev Ends : Progress json → List Row → Option (Progress json) → Type 0
  Ends p rows o =
      (q : Progress json) × (o ≡ some q) × (q.rows ≡ rows) × (q.summary.skipped ≡ p.summary.skipped)

  count-skipped : (t : String) (s : ImportSummary) → (count t s).skipped ≡ s.skipped
  unfolding count
  count-skipped t s = ground arith

  merged-fresh :
      (k : Row) (rows : List Row) → any (same_key k) rows ≡ false → merged k rows ≡ rows ++ k ∷ []
  unfolding merged
  merged-fresh k rows h = rw h refl

  -- The step of an object that is built.
  object_done :
      (e : Row) (p : Progress json)
      → In e source
      → any (same_key e) p.rows ≡ false
      → elem e.type_name exportable ≡ true
      → Ends p
          (p.rows ++ retagged e ∷ [])
          (some (ingest_object json target reembed (some e.type_name) (row_to_dict json e) p))
  unfolding ingest_object built
  object_done e p i fresh known =
      let p' =
        remembered json reembed e.type_name (coerce_timestamps json (row_to_dict json e)) p in
      let (summary, rows) =
        remembered-same json target reembed [] e.type_name
          (coerce_timestamps json (row_to_dict json e)) p in
      rw
        (
          no_tenant e.type_name known,
          known,
          build-row_to_dict json source laws target e i (unread e i),
        )
        (
          _,
          refl,
          merged-fresh (retagged e) p'.rows (ap (any (same_key e)) rows ∙ fresh)
              ∙ ap (λ l. l ++ retagged e ∷ []) rows,
          count-skipped e.type_name p'.summary ∙ ap (λ x. x.skipped) summary,
        )

  row_done :
      (e : Row) (p : Progress json)
      → In e source
      → any (same_key e) p.rows ≡ false
      → elem e.type_name exportable ≡ true
      → Ends p (p.rows ++ retagged e ∷ []) (ingest_line json target reembed (dumped e) p)
  row_done e p i fresh known =
      subst (Ends p (p.rows ++ retagged e ∷ [])) (sym (line e p i)) (object_done e p i fresh known)
    where
      line :
          (e : Row) (p : Progress json)
          → In e source
          → ingest_line json target reembed (dumped e) p
            ≡ some (ingest_object json target reembed (some e.type_name) (row_to_dict json e) p)
      line e p i =
          line_of (dumped e) (some e.type_name) (row_to_dict json e) p (laws.row_text e i)
            (laws.loads_row e i)

  rows_done :
      (es : List Row) (p : Progress json)
      → ((r : Row) → In r es → In r source)
      → All (λ e. any (same_key e) p.rows ≡ false) es
      → Keyed es
      → All (λ e. elem e.type_name exportable ≡ true) es
      → Ends p (p.rows ++ map retagged es) (ingest_lines json target reembed (map dumped es) p)
  unfolding ingest_lines
  rows_done [] p sub fresh keyed known = (p, refl, sym (append-nil p.rows), refl)
  rows_done (e ∷ es) p sub fresh keyed known =
      let (q, done, rows, skipped) = row_done e p (sub e (inl refl)) fresh.0 known.0 in
      let (r, done', rows', skipped') =
        rows_done es q (λ k i. sub k (inr i))
          (subst (λ l. All (λ k. any (same_key k) l ≡ false) es) (sym rows)
            (fresh-more e es p.rows fresh.1 keyed.0))
          keyed.1 known.1 in
      (
        r,
        rw (done, ingest_lines) done',
        rows'
            ∙ ap (λ l. l ++ map retagged es) rows
            ∙ append_assoc p.rows (retagged e ∷ []) (map retagged es),
        skipped' ∙ skipped,
      )

-- The import of an export into an empty schema: where no two exported rows have one type and key, and
-- no text among their keys and columns that has a T and a colon reads as an ISO time, it skips nothing,
-- and the schema then has exactly the exported rows, in their order, times and all, as rows of the
-- target.
pub ingest_records-stream_export :
    (json : Json) (tenant_id target : String) (reembed : Bool) (rows : List Row)
    → Laws json (exported tenant_id exportable rows)
    → Keyed (exported tenant_id exportable rows)
    → ((r : Row) → In r (exported tenant_id exportable rows) → UnreadRow json r)
    → (q : Progress json) × (ingest_records json target
          (stream_export json tenant_id rows)
          reembed
          []
        ≡ some q)
      × (q.rows
          ≡ map (λ (r : Row). record r { tenant_id = target }) (exported tenant_id exportable rows))
      × (q.summary.skipped ≡ 0)
unfolding ingest_records stream_export ingest_lines
ingest_records-stream_export json tenant_id target reembed rows laws keyed unread =
    let start : Progress json = record {
      summary = empty_summary;
      rows = [];
      memory_payloads = [];
    } in
    let es = exported tenant_id exportable rows in
    let tenant =
      ingest_object json target reembed (some "tenant") (laws.tenant_fields tenant_id) start in
    let (q, done, imported, skipped) =
      rows_done json es laws target reembed unread es tenant (λ r i. i) (nothing es) keyed
        (exported-type tenant_id exportable exportable rows exportable-elem) in
    (
      q,
      rw
          (
            line_of json es laws target reembed unread (json.dumps_tenant tenant_id) (some "tenant")
                (laws.tenant_fields tenant_id) start (laws.tenant_text tenant_id)
                (laws.loads_tenant tenant_id),
            ingest_lines,
          )
          done,
      imported,
      skipped,
    )
  where
    nothing : (es : List Row) → All (λ (e : Row). any (same_key e) [] ≡ false) es
    nothing [] = tt
    nothing (e ∷ es) = (refl, nothing es)
