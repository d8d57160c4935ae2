-- ===== src/Portability/Tests.antt =====
-- The export of two rows, and its import under another tenant; a toy JSON that knows these rows.
use my_palace.Common.{
  ℕ, zero, suc, ◌+◌, ◌-◌, String, none, ap, length, In, arith, ◌≡◌, refl, inl, inr, true, false,
  some, List, [], ◌∷◌, map, str_eq, text_eq, codes, Codes, if◌then◌else◌, subst, sym, is_nil,
}
use my_palace.Personality.Fences.{strip}
use my_palace.Portability.{
  Row, Fields, Columns, time, string, plain, looks_like_time, row_to_dict, exportable, exported,
  stream_export, Parsed, malformed, object, Json, Progress, ingest_records,
}
use my_palace.Portability.Roundtrip.{Laws, UnreadRow, ingest_records-stream_export}

-- A time as so many letters before a colon.
abbrev iso : ℕ → String
iso zero = "T:"
iso (suc n) = String.◌∷◌ "T" (iso n)

length-iso : (n : ℕ) → length (codes (iso n)) ≡ n + 2
length-iso zero = omega arith
length-iso (suc n) = omega (arith, length-iso n)

looks-iso : (n : ℕ) → looks_like_time (iso n) ≡ true
looks-iso zero = refl
looks-iso (suc n) = ground (arith, looks-iso n)

abbrev memory : Row
memory = record {
  type_name = "memory";
  key = "m1";
  tenant_id = "acme";
  columns = ("content", string "likes tea") ∷ ("created_at", time 7) ∷ [];
}

abbrev arc : Row
arc = record {
  type_name = "narrative_arc";
  key = "a1";
  tenant_id = "acme";
  columns = ("title", string "a move") ∷ ("key_episode_ids", plain "[]") ∷ [];
}

abbrev rows : List Row
rows = arc ∷ record memory { key = "m2"; tenant_id = "blue" } ∷ memory ∷ []

abbrev toy_dumps : String → String → Fields → Codes
toy_dumps t tenant f = if str_eq t "memory" then codes "{m}" else codes "{a}"

abbrev wire : Row → Columns → Fields
wire r columns = record { key = some (string r.key); columns = columns }

abbrev sent_memory : Fields
sent_memory = wire memory (("content", string "likes tea") ∷ ("created_at", string (iso 7)) ∷ [])

abbrev sent_arc : Fields
sent_arc = wire arc arc.columns

abbrev toy_loads : Codes → Parsed
toy_loads s =
    if text_eq s (codes "{t}")
    then object (some "tenant") sent_arc
    else if text_eq s (codes "{m}")
    then object (some "memory") sent_memory
    else if text_eq s (codes "{a}")
    then object (some "narrative_arc") sent_arc
    else malformed

abbrev json : Json
json = record {
  dumps_tenant = λ t. codes "{t}";
  dumps = toy_dumps;
  loads = toy_loads;
  isoformat = iso;
  fromisoformat = λ v. if looks_like_time v then some (length (codes v) - 2) else none;
  model = λ t key columns.
      if str_eq t "memory" then some ("m1", memory.columns) else some ("a1", arc.columns);
}

abbrev text_of : Row → Codes
text_of r = toy_dumps r.type_name r.tenant_id (row_to_dict json r)

abbrev HasText : Row → Type 0
HasText r = (strip (text_of r) ≡ text_of r) × (is_nil (text_of r) ≡ false)

abbrev IsLoaded : Row → Type 0
IsLoaded r = toy_loads (text_of r) ≡ object (some r.type_name) (row_to_dict json r)

abbrev IsModelled : Row → Type 0
IsModelled r = json.model r.type_name (some (string r.key)) r.columns ≡ some (r.key, r.columns)

laws : Laws json (exported "acme" exportable rows)
unfolding exported strip text_eq row_to_dict
laws = record {
  tenant_fields = λ t. sent_arc;
  tenant_text = λ t. (refl, refl);
  row_text = λ r i. elim i [
    | inl q ↦ subst (λ x. HasText x) (sym q) (refl, refl)
    | inr j ↦ elim j [ inl q ↦ subst (λ x. HasText x) (sym q) (refl, refl) | inr k ↦ absurd k ]
  ];
  loads_tenant = λ t. refl;
  loads_row = λ r i. elim i [
    | inl q ↦ subst (λ x. IsLoaded x) (sym q) refl
    | inr j ↦ elim j [ inl q ↦ subst (λ x. IsLoaded x) (sym q) refl | inr k ↦ absurd k ]
  ];
  iso_text = looks-iso;
  iso = λ t. rw (looks-iso t) (ap some (omega (arith, length-iso t)));
  models = λ r i. elim i [
    | inl q ↦ subst (λ x. IsModelled x) (sym q) refl
    | inr j ↦ elim j [ inl q ↦ subst (λ x. IsModelled x) (sym q) refl | inr k ↦ absurd k ]
  ];
}

unread : (r : Row) → In r (exported "acme" exportable rows) → UnreadRow json r
unfolding exported
unread r (inl q) = subst (UnreadRow json) (sym q) (inl refl, (inl refl, (tt, tt)))
unread r (inr (inl q)) = subst (UnreadRow json) (sym q) (inl refl, (inl refl, (tt, tt)))
unread r (inr (inr k)) = absurd k

ingest_records-stream_export_example :
    (q : Progress json) × (ingest_records json "copy" (stream_export json "acme" rows) true []
      ≡ some q)
    × (q.rows
        ≡ map (λ (r : Row). record r { tenant_id = "copy" }) (exported "acme" exportable rows))
    × (q.summary.skipped ≡ 0)
unfolding exported
ingest_records-stream_export_example =
    ingest_records-stream_export json "acme" "copy" true rows laws ((refl, tt), (tt, tt)) unread
