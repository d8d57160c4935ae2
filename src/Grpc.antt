-- ===== src/Grpc.antt =====
-- mypalace/grpc/auth_interceptor.py: the checks that every remote call passes before its servicer.
pub mod Guard
pub mod Routes
pub mod Tests
use my_palace.Common.{
  ℕ, Bool, true, false, String, Option, none, some, List, [], ◌∷◌, Codes, is_nil, if◌then◌else◌,
}
use my_palace.Common.Dict
use my_palace.Common.Dict.{Dict}
use my_palace.Auth.Context.{AuthContext, has_scope, all_scopes}
use my_palace.Auth.Keys.{Bcrypt, KeyStore, Env, lookup}

unfoldable pub rpc_scopes : Dict String
rpc_scopes =
    ("/palace.v1.MemoryService/CreateMemory", "write")
    ∷ ("/palace.v1.MemoryService/GetMemory", "read")
    ∷ ("/palace.v1.MemoryService/DeleteMemory", "write")
    ∷ ("/palace.v1.MemoryService/SearchMemories", "read")
    ∷ ("/palace.v1.MemoryService/ListMemories", "read")
    ∷ ("/palace.v1.SessionService/CreateSession", "write")
    ∷ ("/palace.v1.SessionService/GetSession", "read")
    ∷ ("/palace.v1.SessionService/AddMessage", "write")
    ∷ ("/palace.v1.SessionService/UpdateSession", "write")
    ∷ ("/palace.v1.SessionService/DeleteSession", "write")
    ∷ ("/palace.v1.EpisodeService/ReflectSession", "write")
    ∷ ("/palace.v1.EpisodeService/SearchEpisodes", "read")
    ∷ ("/palace.v1.EpisodeService/GetRecentEpisodes", "read")
    ∷ ("/palace.v1.ArcService/SynthesizeNarratives", "write")
    ∷ ("/palace.v1.ArcService/GetActiveArcs", "read")
    ∷ ("/palace.v1.IntentionService/SetIntention", "write")
    ∷ ("/palace.v1.IntentionService/CheckIntentions", "read")
    ∷ ("/palace.v1.IntentionService/FormatIntentions", "read")
    ∷ ("/palace.v1.IntentionService/ListIntentions", "read")
    ∷ ("/palace.v1.IntentionService/DeleteIntention", "write")
    ∷ ("/palace.v1.DynamicsService/PromoteMemory", "write")
    ∷ ("/palace.v1.DynamicsService/DemoteMemory", "write")
    ∷ ("/palace.v1.DynamicsService/GetDynamics", "read")
    ∷ ("/palace.v1.DynamicsService/ScoreMemory", "write")
    ∷ ("/palace.v1.RetrievalService/AssembleLayered", "read")
    ∷ ("/palace.v1.IngestionService/SupersedeMemory", "write")
    ∷ ("/palace.v1.IngestionService/GetSupersessions", "read")
    ∷ ("/palace.v1.JobService/GetJob", "read")
    ∷ []

-- `RPC_SCOPE.get(method, "write")`
unfoldable pub required_rpc_scope : String → String
unfolding rpc_scopes
required_rpc_scope method = elim (Dict.get method rpc_scopes) [
  | some scope ↦ scope
  | none ↦ "write"
]

pub data StatusCode : Type 0 where
  unauthenticated permission_denied : StatusCode

-- The value of the context variable `palace_grpc_auth`.
abbrev pub AuthVar : Type 0
AuthVar = Option AuthContext

-- A call is denied, with the text of the reason, or goes on to its servicer with the variable.
pub data Outcome : Type 0 where
  denied : String → StatusCode → Outcome
  continued : AuthVar → Outcome

-- From the lookup on.
pub check_rpc : String → Option AuthContext → Outcome
check_rpc method none = denied "invalid api key" unauthenticated
check_rpc method (some ctx) =
    if has_scope ctx (required_rpc_scope method)
    then continued (some ctx)
    else denied "requires scope" permission_denied

module _ (bcrypt : Bcrypt) where
  pub check_metadata : String → Option Codes → Env → KeyStore → Outcome × KeyStore
  unfolding check_rpc
  check_metadata method none env s = (denied "missing x-palace-key" unauthenticated, s)
  check_metadata method (some []) env s = (denied "missing x-palace-key" unauthenticated, s)
  check_metadata method (some (c ∷ text)) env s =
      let (ctx, s') = lookup bcrypt (c ∷ text) env s in (check_rpc method ctx, s')

  -- The call's method, and the value of x-palace-key in its metadata.
  unfoldable pub intercept_service :
      Bool → String → Option Codes → Env → KeyStore → AuthVar → Outcome × KeyStore
  unfolding check_metadata
  intercept_service auth_disabled method key env s var =
      if auth_disabled then (continued var, s) else check_metadata method key env s

-- The identity that a servicer works under; with no value in the variable it has every scope.
unfoldable pub current_auth : AuthVar → String → AuthContext
unfolding all_scopes
current_auth none default_tenant_id = all_scopes default_tenant_id
current_auth (some ctx) default_tenant_id = ctx
