-- ===== src/Dynamics/Service.antt =====
-- mypalace/dynamics/service.py: the tables memory_dynamics, whose key is the memory's id alone, and
-- memory_access_logs. A method that raises leaves what it has committed.
pub mod Promoted
use my_palace.Common.{
  ℕ, suc, ◌+◌, ◌*◌, Bool, true, false, not, ◌&&◌, String, Option, none, some, List, [], ◌∷◌, ◌++◌,
  map, filter, find?, any, length, ltb, str_eq, if◌then◌else◌, Result, ok, err,
}
use my_palace.Dynamics.Floats.{Floats, whole}
use my_palace.Dynamics.Fsrs.{
  Grade, grade_of, default_params, MemoryState, ReviewResult, retrievability, review,
  calculate_memory_score,
}

pub data Raised : Type 0 where
  integrity_error : Raised
  value_error : Raised
  arithmetic_error : Raised

-- What a call draws from its surroundings.
pub record Env : Type 0 where
  pub now : ℕ
  pub fresh_id : String

module _ (fl : Floats) where
  pub record MemoryDynamics : Type 0 where
    pub memory_id : String
    pub tenant_id : String
    pub user_id : String
    pub stability : fl.F
    pub difficulty : fl.F
    pub retrieval_strength : fl.F
    pub storage_strength : fl.F
    pub is_key : Bool
    pub importance_weight : fl.F
    pub category : Option String
    pub tags : Option (List (String × String))
    pub last_accessed_at : Option ℕ
    pub access_count : ℕ
    pub created_at : ℕ
    pub updated_at : ℕ

  pub record MemoryAccessLog : Type 0 where
    pub id : String
    pub tenant_id : String
    pub memory_id : String
    pub user_id : String
    pub grade : ℕ
    pub signal_type : String
    pub retrievability_at_access : fl.F
    pub accessed_at : ℕ

  pub record Store : Type 0 where
    pub rows : List MemoryDynamics
    pub logs : List MemoryAccessLog

  abbrev pub Answer : Type 0 → Type 0
  Answer A = Result Raised A × Store

  abbrev pub names : String → String → String → MemoryDynamics → Bool
  names memory_id user_id tenant_id r =
      str_eq r.memory_id memory_id && str_eq r.user_id user_id && str_eq r.tenant_id tenant_id

  pub get_dynamics : String → String → String → Store → Option MemoryDynamics
  get_dynamics memory_id user_id tenant_id s = find? (names memory_id user_id tenant_id) s.rows

  -- A row with the defaults of its class.
  pub new_row : ℕ → String → String → String → Bool → MemoryDynamics
  new_row now memory_id user_id tenant_id is_key = record {
    memory_id = memory_id;
    tenant_id = tenant_id;
    user_id = user_id;
    stability = whole fl 1;
    difficulty = whole fl 5;
    retrieval_strength = whole fl 1;
    storage_strength = fl.decimal 5 1;
    is_key = is_key;
    importance_weight = whole fl 1;
    category = none;
    tags = none;
    last_accessed_at = none;
    access_count = 0;
    created_at = now;
    updated_at = now;
  }

  -- `INSERT`, which the primary key may refuse
  pub inserted : MemoryDynamics → Store → Answer MemoryDynamics
  inserted r s =
      if any (λ k. str_eq k.memory_id r.memory_id) s.rows
      then (err integrity_error, s)
      else (ok r, record s { rows = s.rows ++ r ∷ [] })

  -- The row that was found, or a new one.
  pub or_inserted : Option MemoryDynamics → MemoryDynamics → Store → Answer MemoryDynamics
  unfolding inserted
  or_inserted (some r) new s = (ok r, s)
  or_inserted none new s = inserted new s

  unfoldable pub ensure_dynamics :
      Env → String → String → Bool → String → Store → Answer MemoryDynamics
  unfolding get_dynamics new_row or_inserted
  ensure_dynamics env memory_id user_id is_key tenant_id s =
      or_inserted (get_dynamics memory_id user_id tenant_id s)
        (new_row env.now memory_id user_id tenant_id is_key) s

  -- `days_elapsed`
  pub days_since : Option ℕ → ℕ → fl.F
  days_since none now = whole fl 0
  days_since (some t) now = fl.days now t

  -- The row with what a review gives, and the time.
  pub rated : ℕ → MemoryState fl → MemoryDynamics → MemoryDynamics
  rated now st r = record r {
    stability = st.stability;
    difficulty = st.difficulty;
    retrieval_strength = st.retrieval_strength;
    storage_strength = st.storage_strength;
    last_accessed_at = some now;
    access_count = r.access_count + 1;
    updated_at = now;
  }

  -- `UPDATE … WHERE memory_id = …`
  abbrev pub written : MemoryDynamics → List MemoryDynamics → List MemoryDynamics
  written r = map λ k. if str_eq k.memory_id r.memory_id then r else k

  pub state_of : MemoryDynamics → MemoryState fl
  state_of r = record {
    stability = r.stability;
    difficulty = r.difficulty;
    retrieval_strength = r.retrieval_strength;
    storage_strength = r.storage_strength;
    last_review = r.last_accessed_at;
    review_count = r.access_count;
  }

  pub log_of : Env → ℕ → String → fl.F → MemoryDynamics → MemoryAccessLog
  log_of env grade signal_type current_r r = record {
    id = env.fresh_id;
    tenant_id = r.tenant_id;
    memory_id = r.memory_id;
    user_id = r.user_id;
    grade = grade;
    signal_type = signal_type;
    retrievability_at_access = current_r;
    accessed_at = env.now;
  }

  -- The commit of a review that answered; `old` is the state that a raise leaves.
  pub committed :
      Env
      → ℕ
      → String
      → fl.F
      → MemoryDynamics
      → Option (ReviewResult fl)
      → Store
      → Store
      → Answer MemoryDynamics
  unfolding rated log_of
  committed env grade signal_type current_r r none old s = (err arithmetic_error, old)
  committed env grade signal_type current_r r (some res) old s =
      let new = rated env.now res.new_state r in
      (
        ok new,
        record {
          rows = written new s.rows;
          logs = s.logs ++ log_of env grade signal_type current_r r ∷ [];
        },
      )

  pub graded :
      Env
      → ℕ
      → String
      → Option fl.F
      → Option Grade
      → MemoryDynamics
      → Store
      → Store
      → Answer MemoryDynamics
  unfolding committed state_of default_params
  graded env grade signal_type none g r old s = (err arithmetic_error, old)
  graded env grade signal_type (some current_r) none r old s = (err value_error, old)
  graded env grade signal_type (some current_r) (some g) r old s =
      committed env grade signal_type current_r r
        (review fl (state_of r) g env.now (default_params fl)) old s

  pub promoted :
      Env → ℕ → String → Result Raised MemoryDynamics → Store → Store → Answer MemoryDynamics
  unfolding graded days_since
  promoted env grade signal_type (err e) old s = (err e, old)
  promoted env grade signal_type (ok r) old s =
      graded env grade signal_type
        (retrievability fl (days_since r.last_accessed_at env.now) r.stability (fl.decimal 1_542 4))
        (grade_of grade) r old s

  unfoldable pub promote :
      Env → String → String → ℕ → String → String → Store → Answer MemoryDynamics
  unfolding promoted ensure_dynamics
  promote env memory_id user_id grade signal_type tenant_id s =
      let (r, s') =
        or_inserted (get_dynamics memory_id user_id tenant_id s)
          (new_row env.now memory_id user_id tenant_id false) s in
      promoted env grade signal_type r s s'

  pub demote : Env → String → String → String → String → Store → Answer MemoryDynamics
  unfolding promote
  demote env memory_id user_id reason tenant_id s =
      promote env memory_id user_id 1 reason tenant_id s

  pub record Score : Type 0 where
    pub composite_score : fl.F
    pub fsrs_score : fl.F
    pub retrievability : fl.F
    pub storage_strength : fl.F

  -- `importance_weight if importance_weight else 1.0`
  pub importance : fl.F → fl.F
  importance x = if fl.eq x (whole fl 0) then whole fl 1 else x

  pub composite : fl.F → fl.F → MemoryDynamics → Score
  unfolding importance calculate_memory_score
  composite semantic_score current_r r =
      let fsrs_score =
        calculate_memory_score fl current_r r.storage_strength (importance r.importance_weight) in
      record {
        composite_score =
            fl.add (fl.mul (fl.decimal 6 1) semantic_score) (fl.mul (fl.decimal 4 1) fsrs_score);
        fsrs_score = fsrs_score;
        retrievability = current_r;
        storage_strength = r.storage_strength;
      }

  pub scored : fl.F → Option fl.F → MemoryDynamics → Result Raised Score
  unfolding composite
  scored semantic_score none r = err arithmetic_error
  scored semantic_score (some current_r) r = ok (composite semantic_score current_r r)

  pub scored_row : Env → fl.F → Result Raised MemoryDynamics → Result Raised Score
  unfolding scored days_since
  scored_row env semantic_score (err e) = err e
  scored_row env semantic_score (ok r) =
      scored semantic_score
        (retrievability fl (days_since r.last_accessed_at env.now) r.stability (fl.decimal 1_542 4))
        r

  -- The row that `ensure_dynamics` commits stays, also when the formulas raise.
  unfoldable pub score : Env → String → String → fl.F → String → Store → Answer Score
  unfolding scored_row ensure_dynamics
  score env memory_id user_id semantic_score tenant_id s =
      let (r, s') = ensure_dynamics env memory_id user_id false tenant_id s in
      (scored_row env semantic_score r, s')

  -- prune_access_logs: `accessed_at < now - retention_days`, in seconds
  unfoldable pub prune_access_logs : ℕ → ℕ → String → Store → ℕ × Store
  prune_access_logs now retention_days tenant_id s =
      let old = λ (l : MemoryAccessLog).
        ltb (l.accessed_at + 86_400 * retention_days) now && str_eq l.tenant_id tenant_id in
      (length (filter old s.logs), record s { logs = filter (λ l. not (old l)) s.logs })
