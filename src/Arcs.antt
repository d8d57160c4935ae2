-- ===== src/Arcs.antt =====
-- mypalace/arc_service.py: narrative arcs, and their synthesis from the answer of a language model.
mod Fenced
pub mod Synthesis
pub mod Tests
unfoldable pub use Fenced.{strip_json_fences}
use my_palace.Common.{
  ℕ, zero, suc, Bool, true, false, ◌&&◌, String, Option, none, some, List, [], ◌∷◌, ◌++◌, map,
  filter, take, find?, str_eq, leb, sort_by, Codes, if◌then◌else◌, Result, ok, err,
}

-- A value of the model's JSON; of the other kinds it matters whether Python takes them for true.
pub data Value : Type 0 where
  null : Value
  text : String → Value
  other : (truthy : Bool) (json : String) → Value

pub record NarrativeArc : Type 0 where
  pub id : String
  pub tenant_id : String
  pub user_id : String
  pub agent_id : Option String
  pub title : String
  pub summary : String
  pub status : String
  pub key_episode_ids : Value
  pub emotional_trajectory : String
  pub created_at : ℕ
  pub updated_at : ℕ

-- The payload of an event arc.synthesized, with its tenant.
pub record Synthesized : Type 0 where
  pub tenant_id : String
  pub arc_id : String
  pub user_id : String
  pub title : String
  pub status : String

-- The table, and what was published.
pub record Store : Type 0 where
  pub rows : List NarrativeArc
  pub published : List Synthesized

-- An arc as the model writes it; a key that is missing has no value.
pub record RawArc : Type 0 where
  pub existing_id : Option Value
  pub title : Option Value
  pub summary : Option Value
  pub status : Option Value
  pub key_episode_ids : Option Value
  pub emotional_trajectory : Option Value

-- An element of the list `arcs`: on one that is no object, `raw_arc.get` raises.
pub data Element : Type 0 where
  object : RawArc → Element
  not_object : Element

-- What a call writes into an arc.
pub record Fields : Type 0 where
  pub title : String
  pub summary : String
  pub status : String
  pub key_episode_ids : Value
  pub emotional_trajectory : String

-- `d.get(k, default)`
abbrev or_default {ℓ} : {A : Type ℓ} → A → Option A → A
or_default default none = default
or_default default (some a) = a

infixl 5 ◌>>=◌
abbrev ◌>>=◌ : {A B : Type 0} → Option A → (A → Option B) → Option B
none >>= f = none
some a >>= f = f a

-- The columns of texts take a text only.
pub text_of : Value → Option String
text_of null = none
text_of (text t) = some t
text_of (other truthy json) = none

-- The values of `fields` as the table takes them, where it does: the episode ids may be any JSON.
pub fields_of : RawArc → Option Fields
unfolding text_of
fields_of raw = do
  title ← text_of (or_default (text "") raw.title)
  summary ← text_of (or_default (text "") raw.summary)
  status ← text_of (or_default (text "active") raw.status)
  emotional_trajectory ← text_of (or_default (text "") raw.emotional_trajectory)
  some (record {
    title = title;
    summary = summary;
    status = status;
    key_episode_ids = or_default (other false "[]") raw.key_episode_ids;
    emotional_trajectory = emotional_trajectory;
  })

-- The caller of a synthesis.
pub record Caller : Type 0 where
  pub tenant_id : String
  pub user_id : String
  pub agent_id : Option String

-- What the database makes of a transaction beyond its values: all is well, it raises before its commit,
-- or the refresh of the row raises after it.
pub data Fate : Type 0 where
  well refused lost : Fate

-- The recent episodes, which come from the vector store, are in the prompt; `complete` answers for
-- the arcs that are. A call that raises gives `none`, and so does a text that json.loads refuses or
-- that has no list of arcs. For each element of the list, there is the id that a new arc gets and
-- the fate of the transaction.
pub record Env : Type 0 where
  pub now : ℕ
  pub complete : List NarrativeArc → Option Codes
  pub loads : Codes → Option (List Element)
  pub fresh_ids : ℕ → String
  pub fates : ℕ → Fate

pub get_active : String → ℕ → String → List NarrativeArc → List NarrativeArc
get_active user_id limit tenant_id rows = take limit (
    sort_by (λ a b. leb b.updated_at a.updated_at)
      (filter
        (λ a. str_eq a.user_id user_id && str_eq a.tenant_id tenant_id && str_eq a.status "active")
        rows))

abbrev pub names : String → String → NarrativeArc → Bool
names arc_id tenant_id a = str_eq a.id arc_id && str_eq a.tenant_id tenant_id

pub get : String → String → List NarrativeArc → Option NarrativeArc
get arc_id tenant_id = find? (names arc_id tenant_id)

pub new_arc : ℕ → String → Caller → Fields → NarrativeArc
new_arc now id c f = record {
  id = id;
  tenant_id = c.tenant_id;
  user_id = c.user_id;
  agent_id = c.agent_id;
  title = f.title;
  summary = f.summary;
  status = f.status;
  key_episode_ids = f.key_episode_ids;
  emotional_trajectory = f.emotional_trajectory;
  created_at = now;
  updated_at = now;
}

pub create : ℕ → String → Caller → Fields → List NarrativeArc → NarrativeArc × List NarrativeArc
unfolding new_arc
create now id c f rows = (new_arc now id c f, rows ++ new_arc now id c f ∷ [])

-- The loop of `setattr`, and the time.
pub with_fields : ℕ → Fields → NarrativeArc → NarrativeArc
with_fields now f a = record a {
  title = f.title;
  summary = f.summary;
  status = f.status;
  key_episode_ids = f.key_episode_ids;
  emotional_trajectory = f.emotional_trajectory;
  updated_at = now;
}

-- The row that was found is the one of that id and tenant.
pub update_found :
    ℕ
    → String
    → String
    → Fields
    → Option NarrativeArc
    → List NarrativeArc
    → Option NarrativeArc × List NarrativeArc
unfolding with_fields
update_found now arc_id tenant_id f none rows = (none, rows)
update_found now arc_id tenant_id f (some a) rows = (
  some (with_fields now f a),
  map (λ b. if names arc_id tenant_id b then with_fields now f b else b) rows,
)

pub update :
    ℕ → String → String → Fields → List NarrativeArc → Option NarrativeArc × List NarrativeArc
unfolding update_found get
update now arc_id tenant_id f rows =
    update_found now arc_id tenant_id f (get arc_id tenant_id rows) rows

-- `if existing_id`: a new arc, the update of an arc by a text, or a query with what is no text.
pub data Aim : Type 0 where
  fresh : Aim
  known : String → Aim
  ill_typed : Aim

pub aim_of : Option Value → Aim
aim_of none = fresh
aim_of (some null) = fresh
aim_of (some (text id)) = if str_eq id "" then fresh else known id
aim_of (some (other truthy json)) = if truthy then ill_typed else fresh

-- The end of a transaction: what it answers, `none` where it raises, and the table; `before` is the
-- table where nothing is committed.
pub committed :
    {A : Type 0} → Fate → A → List NarrativeArc → List NarrativeArc → Option A × List NarrativeArc
committed well a before after = (some a, after)
committed refused a before after = (none, before)
committed lost a before after = (none, after)

abbrev pub Answer : Type 0
Answer = Option (Option NarrativeArc) × List NarrativeArc

-- `create` and `update` with the values of an element, of which the table may refuse some.
pub create_raw : Env → Caller → ℕ → Option Fields → List NarrativeArc → Answer
unfolding create committed
create_raw env c n none rows = (none, rows)
create_raw env c n (some f) rows =
    let (a, rows') = create env.now (env.fresh_ids n) c f rows in
    committed (env.fates n) (some a) rows rows'

pub update_raw : Env → Caller → ℕ → String → Option Fields → List NarrativeArc → Answer
unfolding update get committed
update_raw env c n arc_id none rows = elim (get arc_id c.tenant_id rows) [
  | none ↦ committed (env.fates n) none rows rows
  | some a ↦ (none, rows)
]
update_raw env c n arc_id (some f) rows =
    let (a, rows') = update env.now arc_id c.tenant_id f rows in
    committed (env.fates n) a rows rows'

pub aimed : Env → Caller → ℕ → Aim → Option Fields → List NarrativeArc → Answer
unfolding create_raw update_raw
aimed env c n fresh f rows = create_raw env c n f rows
aimed env c n (known arc_id) f rows = update_raw env c n arc_id f rows
aimed env c n ill_typed f rows = (none, rows)

-- One turn of the loop, over the element `n`.
pub stored_one : Env → Caller → ℕ → Element → List NarrativeArc → Answer
unfolding aimed aim_of fields_of
stored_one env c n not_object rows = (none, rows)
stored_one env c n (object raw) rows = aimed env c n (aim_of raw.existing_id) (fields_of raw) rows

abbrev pub with_result : Option NarrativeArc → List NarrativeArc → List NarrativeArc
with_result none results = results
with_result (some a) results = a ∷ results

-- A turn that raises ends the loop; what the turns before have committed stays.
pub joined :
    Answer
    → Option (List NarrativeArc) × List NarrativeArc
    → Option (List NarrativeArc) × List NarrativeArc
joined (none, rows) rest = (none, rows)
joined (some a, rows) (none, rows') = (none, rows')
joined (some a, rows) (some results, rows') = (some (with_result a results), rows')

-- The loop over the elements, from the element `n` and a table on.
pub synthesized :
    Env
    → Caller
    → ℕ
    → List Element
    → List NarrativeArc
    → Option (List NarrativeArc) × List NarrativeArc
unfolding stored_one joined
synthesized env c n [] rows = (some [], rows)
synthesized env c n (e ∷ es) rows =
    let one = stored_one env c n e rows in joined one (synthesized env c (suc n) es one.1)

pub event_of : String → NarrativeArc → Synthesized
event_of tenant_id a = record {
  tenant_id = tenant_id;
  arc_id = a.id;
  user_id = a.user_id;
  title = a.title;
  status = a.status;
}

-- The events, which are published when the loop has ended.
pub announced :
    String
    → Option (List NarrativeArc) × List NarrativeArc
    → Store
    → Option (List NarrativeArc) × Store
unfolding event_of
announced tenant_id (none, rows) s = (none, record s { rows = rows })
announced tenant_id (some results, rows) s = (
  some results,
  record { rows = rows; published = s.published ++ map (event_of tenant_id) results },
)

-- From the parsed answer on.
pub stored : Env → Caller → Option (List Element) → Store → Option (List NarrativeArc) × Store
unfolding synthesized announced
stored env c none s = (none, s)
stored env c (some es) s = announced c.tenant_id (synthesized env c 0 es s.rows) s

pub answered : Env → Caller → Option Codes → Store → Option (List NarrativeArc) × Store
unfolding stored
answered env c none s = (none, s)
answered env c (some raw) s = stored env c (env.loads (strip_json_fences raw)) s

-- `none` is a call that raises.
unfoldable pub synthesize_narratives : Env → Caller → Store → Option (List NarrativeArc) × Store
unfolding get_active answered
synthesize_narratives env c s =
    answered env c (env.complete (get_active c.user_id 10 c.tenant_id s.rows)) s
