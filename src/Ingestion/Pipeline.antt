-- ===== src/Ingestion/Pipeline.antt =====
-- SmartIngestionService.dedup_and_write, supersede_memory and get_supersessions, over the model of
-- the memory service. A similarity is in millionths. A demotion and a graph edge, which the code
-- starts and whose failure it ignores, are recorded as such.
pub mod Counted
pub mod Superseded
use my_palace.Common.{
  ℕ, ◌+◌, Bool, true, false, not, ◌&&◌, ◌||◌, String, Option, none, some, List, [], ◌∷◌, ◌++◌, map,
  ltb, filter, find?, str_eq, codes, Result, ok, err, if◌then◌else◌,
}
use my_palace.Common.Dict
use Prim.Native.String.{◌++◌ as append}
use my_palace.Memory.{
  Memory, MemoryVersion, Metadata, Vectors, Query, Env, Action, Raised, Palace, Method, pure,
  continue, ◌>>=◌, ◌>>◌, gets, embed_text, publish_event, record_version, next_version_number,
}
use my_palace.Memory.Write.{Draft, create, version_of}
use my_palace.Memory.Read
use my_palace.Ingestion.Contradiction.{Verdict, check_contradiction, certain}

pub record Candidate : Type 0 where
  pub content : String
  pub extra : Metadata
  pub importance : ℕ

-- A row of `memory_supersessions`.
pub record Supersession : Type 0 where
  pub tenant_id : String
  pub superseded_id : String
  pub new_id : String
  pub user_id : String
  pub reason : String
  pub similarity_score : Option ℕ

-- The arguments of `dedup_and_write` besides the candidates.
pub record Target : Type 0 where
  pub user_id : String
  pub agent_id : Option String
  pub memory_type : String
  pub source : Option String
  pub base_metadata : Metadata
  pub tenant_id : String

-- What becomes of a candidate.
pub data Fate : Type 0 where
  written : Memory → Fate
  superseding : Memory → String → ℕ → String → Fate  -- new memory, old id, similarity, reason
  skipped : String → ℕ → Fate  -- reason, similarity

abbrev pub skip_threshold : ℕ
skip_threshold = 950_000

abbrev pub update_threshold : ℕ
update_threshold = 750_000

-- `{**base, **extra}`
pub merged : Metadata → Metadata → Metadata
merged base [] = base
merged base ((k, v) ∷ extra) = merged (Dict.put k v base) extra

-- `merged_meta or None`
pub or_none : Metadata → Option Metadata
or_none [] = none
or_none (kv ∷ d) = some (kv ∷ d)

pub draft_of : Target → Candidate → Draft
unfolding merged or_none
draft_of t c = record {
  user_id = t.user_id;
  content = c.content;
  memory_type = t.memory_type;
  agent_id = t.agent_id;
  source = t.source;
  importance = c.importance;
  metadata = or_none (merged t.base_metadata c.extra);
  tenant_id = t.tenant_id;
  ttl_seconds = none;
}

pub nearest_query : Target → Query
nearest_query t = record {
  limit = 1;
  user_id = some t.user_id;
  agent_id = t.agent_id;
  memory_type = none;
  min_score = 0;
  tenant_id = t.tenant_id;
}

-- `f"contradiction:{why}"`
pub prefixed : String → String
prefixed why = append "contradiction:" why

module _ (vectors : Vectors) where
  -- The memory service's state, the supersessions, the demotions as memory and user, and the edges
  -- from the new memory to the old one.
  pub record Library : Type 0 where
    pub palace : Palace vectors
    pub supersessions : List Supersession
    pub demoted : List (String × String)
    pub edges : List (String × String)

  abbrev pub Task : Type 0 → Type 0
  Task A = Action Library A

  -- A method of the memory service.
  abbrev pub memory_call : {A : Type 0} → Method vectors A → Task A
  memory_call m l = let (r, s) = m l.palace in (r, record l { palace = s })

  pub change : (Library → Library) → Task (Unit {0})
  change f l = (ok tt, f l)

  -- The snapshot of the old memory, found by its id alone.
  pub snapshot : Env → Option Memory → Supersession → Method vectors (Unit {0})
  snapshot env none row = pure tt
  snapshot env (some old) row = do
    n ← next_version_number vectors env row.superseded_id
    record_version vectors env
        (record (version_of old row.tenant_id n "superseded") { user_id = row.user_id })

  pub snapshot_old : Env → Supersession → Method vectors (Unit {0})
  unfolding snapshot
  snapshot_old env row = do
    rows ← gets vectors (λ s. s.rows)
    snapshot env (find? (λ m. str_eq m.id row.superseded_id) rows) row

  -- The row of a supersession, with the demotion and the edge that follow it.
  pub noted : Supersession → Library → Library
  noted row l = record l {
    supersessions = l.supersessions ++ row ∷ [];
    demoted = l.demoted ++ (row.superseded_id, row.user_id) ∷ [];
    edges = l.edges ++ (row.new_id, row.superseded_id) ∷ [];
  }

  -- _record_supersession
  pub record_supersession : Env → Supersession → Task (Unit {0})
  unfolding change noted snapshot_old
  record_supersession env row = do
    change (noted row)
    memory_call (snapshot_old env row)
    memory_call (publish_event vectors "memory.superseded" row.tenant_id row.superseded_id)

  pub write_new : Env → Target → Candidate → Task Fate
  unfolding draft_of
  write_new env t c = do m ← memory_call (create vectors env (draft_of t c)); pure (written m)

  pub supersede : Env → Target → Candidate → String → ℕ → String → Task Fate
  unfolding draft_of record_supersession
  supersede env t c old_id score reason = do
    m ← memory_call (create vectors env (draft_of t c))
    record_supersession env (record {
      tenant_id = t.tenant_id;
      superseded_id = old_id;
      new_id = m.id;
      user_id = t.user_id;
      reason = reason;
      similarity_score = some score;
    })
    pure (superseding m old_id score reason)

  -- The nearest memory was read: it may be gone.
  pub judged : Env → Target → Candidate → String → ℕ → Option Memory → Task Fate
  unfolding write_new supersede prefixed
  judged env t c old_id score none = write_new env t c
  judged env t c old_id score (some old) =
      let v = check_contradiction (codes old.content) (codes c.content) in
      if certain v
      then supersede env t c old_id score (prefixed v.reason)
      else pure (skipped "similar" score)

  pub placed : Env → Target → Candidate → List (String × ℕ) → Task Fate
  unfolding judged write_new
  placed env t c [] = write_new env t c
  placed env t c ((old_id, score) ∷ results) =
      if ltb skip_threshold score
      then pure (skipped "duplicate" score)
      else if ltb update_threshold score
      then (do
        old ← memory_call (Read.get vectors env old_id t.tenant_id)
        judged env t c old_id score old)
      else write_new env t c

  pub ingest : Env → Target → Candidate → Task Fate
  unfolding placed nearest_query
  ingest env t c = do
    v ← memory_call (embed_text vectors c.content)
    results ← memory_call (gets vectors (λ s. vectors.search v (nearest_query t) s.store))
    placed env t c results

  -- dedup_and_write, each candidate with what the environment gives to its round
  unfoldable pub dedup_and_write : Target → List (Candidate × Env) → Task (List Fate)
  unfolding ingest
  dedup_and_write t [] = pure []
  dedup_and_write t ((c, env) ∷ candidates) = do
    fate ← ingest env t c
    fates ← dedup_and_write t candidates
    pure (fate ∷ fates)

  -- supersede_memory on the memory that it found
  pub replaced :
      Env
      → Option Memory
      → String
      → String
      → String
      → String
      → Option Metadata
      → String
      → Task (Option Supersession)
  unfolding record_supersession
  replaced env none old_id content user_id reason metadata tenant_id = pure none
  replaced env (some old) old_id content user_id reason metadata tenant_id = do
    m ← memory_call (
        create vectors env (record {
          user_id = user_id;
          content = content;
          memory_type = old.memory_type;
          agent_id = old.agent_id;
          source = old.source;
          importance = old.importance;
          metadata = metadata;
          tenant_id = tenant_id;
          ttl_seconds = none;
        }))
    let row : Supersession = record {
      tenant_id = tenant_id;
      superseded_id = old_id;
      new_id = m.id;
      user_id = user_id;
      reason = reason;
      similarity_score = none;
    }
    record_supersession env row
    pure (some row)

  unfoldable pub supersede_memory :
      Env
      → String
      → String
      → String
      → String
      → Option Metadata
      → String
      → Task (Option Supersession)
  unfolding replaced
  supersede_memory env old_id content user_id reason metadata tenant_id = do
    old ← memory_call (Read.get vectors env old_id tenant_id)
    replaced env old old_id content user_id reason metadata tenant_id

  pub get_supersessions : String → String → Library → List Supersession
  get_supersessions memory_id tenant_id l =
      filter
        (λ r.
          str_eq r.tenant_id tenant_id
          && (str_eq r.superseded_id memory_id || str_eq r.new_id memory_id))
        l.supersessions
