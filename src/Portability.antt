-- ===== src/Portability.antt =====
-- mypalace/api/portability.py: the export of a tenant as lines of JSON, and their import. A reason for
-- which a line is skipped is the words before its colon.
pub mod Counted
pub mod Roundtrip
pub mod Tests
use my_palace.Common.{
  ℕ, zero, suc, ◌+◌, Bool, true, false, ◌&&◌, String, Option, none, some, List, [], ◌∷◌, ◌++◌, map,
  filter, any, str_eq, elem, is_nil, codes, ◌==◌, Codes, if◌then◌else◌,
}
use my_palace.Personality.Fences.{strip}

-- A value of a column: a time, a text, or anything else, which JSON writes as it is.
pub data Column : Type 0 where
  time : ℕ → Column
  string : String → Column
  plain : (json : String) → Column

abbrev pub Columns : Type 0
Columns = List (String × Column)

-- A row of a table of the tenant's schema, under the name of its type; the columns are those besides
-- the key and the tenant.
pub record Row : Type 0 where
  pub type_name : String
  pub key : String
  pub tenant_id : String
  pub columns : Columns

-- The dict of a row, without its type and its tenant; an import may lack the key.
pub record Fields : Type 0 where
  pub key : Option Column
  pub columns : Columns

-- EXPORTABLE, but for the tenant itself
abbrev pub exportable : List String
exportable =
    "memory" ∷ "session" ∷ "narrative_arc" ∷ "intention" ∷ "memory_dynamics" ∷ "memory_supersession"
    ∷ []

-- What json.loads makes of a line: a value that is no object has no `pop`.
pub data Parsed : Type 0 where
  malformed : Parsed
  no_object : Parsed
  object : Option String → Fields → Parsed

-- json, datetime and SQLModel: the text of a tenant's object and of the object of a type, a tenant and
-- fields; times as ISO texts, where `none` is a ValueError; and the key and the columns of the row of
-- a type that a model makes of such values, `none` where it or the merge raises.
pub record Json : Type 0 where
  pub dumps_tenant : String → Codes
  pub dumps : String → String → Fields → Codes
  pub loads : Codes → Parsed
  pub isoformat : ℕ → String
  pub fromisoformat : String → Option ℕ
  pub model : String → Option Column → Columns → Option (String × Columns)

-- `"T" in v and ":" in v`
abbrev pub looks_like_time : String → Bool
looks_like_time v = any (λ c. c == 84) (codes v) && any (λ c. c == 58) (codes v)

module _ (json : Json) where
  pub written : Column → Column
  written (time t) = string (json.isoformat t)
  written (string v) = string v
  written (plain j) = plain j

  abbrev pub in_columns : (Column → Column) → Columns → Columns
  in_columns f [] = []
  in_columns f ((name, v) ∷ columns) = (name, f v) ∷ in_columns f columns

  -- _row_to_dict
  pub row_to_dict : Row → Fields
  unfolding written
  row_to_dict r = record {
    key = some (written (string r.key));
    columns = in_columns written r.columns;
  }

  pub read_time : String → Option ℕ → Column
  read_time v none = string v
  read_time v (some t) = time t

  pub coerce : Column → Column
  unfolding read_time
  coerce (time t) = time t
  coerce (string v) = if looks_like_time v then read_time v (json.fromisoformat v) else string v
  coerce (plain j) = plain j

  -- _coerce_timestamps, but for the tenant's id, which has no colon
  pub coerce_timestamps : Fields → Fields
  unfolding coerce
  coerce_timestamps f = record {
    key = elim f.key [ none ↦ none | some k ↦ some (coerce k) ];
    columns = in_columns coerce f.columns;
  }

  -- `model(**coerced)`, under the target tenant
  pub build : String → String → Fields → Option Row
  build t target f = elim (json.model t f.key f.columns) [
    | none ↦ none
    | some made ↦
        some (record { type_name = t; key = made.0; tenant_id = target; columns = made.1 })
  ]

pub record ImportSummary : Type 0 where
  pub tenants_seen : ℕ
  pub memories_imported : ℕ
  pub sessions_imported : ℕ
  pub arcs_imported : ℕ
  pub intentions_imported : ℕ
  pub dynamics_imported : ℕ
  pub supersessions_imported : ℕ
  pub skipped : ℕ
  pub skipped_reasons : List String

abbrev pub empty_summary : ImportSummary
empty_summary = record {
  tenants_seen = 0;
  memories_imported = 0;
  sessions_imported = 0;
  arcs_imported = 0;
  intentions_imported = 0;
  dynamics_imported = 0;
  supersessions_imported = 0;
  skipped = 0;
  skipped_reasons = [];
}

pub count : String → ImportSummary → ImportSummary
count t s =
    if str_eq t "memory"
    then record s { memories_imported = s.memories_imported + 1 }
    else if str_eq t "session"
    then record s { sessions_imported = s.sessions_imported + 1 }
    else if str_eq t "narrative_arc"
    then record s { arcs_imported = s.arcs_imported + 1 }
    else if str_eq t "intention"
    then record s { intentions_imported = s.intentions_imported + 1 }
    else if str_eq t "memory_dynamics"
    then record s { dynamics_imported = s.dynamics_imported + 1 }
    else record s { supersessions_imported = s.supersessions_imported + 1 }

pub skip : String → ImportSummary → ImportSummary
skip reason s = record s {
  skipped = s.skipped + 1;
  skipped_reasons = s.skipped_reasons ++ reason ∷ [];
}

-- The rows of the types, in their order, that are the tenant's.
unfoldable pub exported : String → List String → List Row → List Row
exported tenant_id [] rows = []
exported tenant_id (t ∷ ts) rows =
    filter (λ r. str_eq r.type_name t && str_eq r.tenant_id tenant_id) rows
    ++ exported tenant_id ts rows

abbrev pub same_key : Row → Row → Bool
same_key r k = str_eq r.type_name k.type_name && str_eq r.key k.key

-- `db.merge`
pub merged : Row → List Row → List Row
merged r rows =
    if any (same_key r) rows then map (λ k. if same_key r k then r else k) rows else rows ++ r ∷ []

module _ (json : Json) where
  -- _stream_export of a tenant that is in the table of tenants
  unfoldable pub stream_export : String → List Row → List Codes
  unfolding exported row_to_dict
  stream_export tenant_id rows =
      json.dumps_tenant tenant_id
      ∷ map (λ r. json.dumps r.type_name r.tenant_id (row_to_dict json r))
          (exported tenant_id exportable rows)

  -- What the loop has in hand: the summary, the rows of the session, and the memories to embed.
  pub record Progress : Type 0 where
    pub summary : ImportSummary
    pub rows : List Row
    pub memory_payloads : List Fields

  pub built : String → Option Row → Progress → Progress
  unfolding count skip merged
  built t none p = record p { summary = skip t p.summary }
  built t (some r) p = record p { summary = count t p.summary; rows = merged r p.rows }

  -- The payload of a memory is kept before its row is built.
  pub remembered : Bool → String → Fields → Progress → Progress
  remembered reembed t fields p =
      if reembed && str_eq t "memory"
      then record p { memory_payloads = p.memory_payloads ++ fields ∷ [] }
      else p

  pub ingest_object : String → Bool → Option String → Fields → Progress → Progress
  unfolding built remembered skip coerce_timestamps build
  ingest_object target reembed none fields p = record p { summary = skip "unknown _type" p.summary }
  ingest_object target reembed (some t) fields p =
      if str_eq t "tenant"
      then record p { summary = record p.summary { tenants_seen = p.summary.tenants_seen + 1 } }
      else if elem t exportable
      then built t (build json t target (coerce_timestamps json fields))
          (remembered reembed t (coerce_timestamps json fields) p)
      else record p { summary = skip "unknown _type" p.summary }

  -- `none` is a line that raises.
  pub ingest_parsed : String → Bool → Parsed → Progress → Option Progress
  unfolding ingest_object skip
  ingest_parsed target reembed malformed p =
      some (record p { summary = skip "malformed json" p.summary })
  ingest_parsed target reembed no_object p = none
  ingest_parsed target reembed (object t fields) p = some (ingest_object target reembed t fields p)

  pub ingest_line : String → Bool → Codes → Progress → Option Progress
  unfolding ingest_parsed
  ingest_line target reembed raw p =
      if is_nil (strip raw) then some p else ingest_parsed target reembed (json.loads (strip raw)) p

  -- The loop over the lines.
  pub ingest_lines : String → Bool → List Codes → Progress → Option Progress
  unfolding ingest_line
  ingest_lines target reembed [] p = some p
  ingest_lines target reembed (raw ∷ lines) p = elim (ingest_line target reembed raw p) [
    | none ↦ none
    | some p' ↦ ingest_lines target reembed lines p'
  ]

  -- _ingest_records, from the rows of the target's schema on; a raise leaves them as they were.
  unfoldable pub ingest_records : String → List Codes → Bool → List Row → Option Progress
  unfolding ingest_lines
  ingest_records target lines reembed rows =
      ingest_lines target reembed lines
        (record { summary = empty_summary; rows = rows; memory_payloads = [] })
