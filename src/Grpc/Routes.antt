-- ===== src/Grpc/Routes.antt =====
-- The scopes of remote calls against those of the HTTP routes that do the same.
use my_palace.Common.{
  ◌≡◌, refl, sym, ap, ◌∙◌, Bool, true, false, ◌==◌, String, List, [], ◌∷◌, ◌++◌, All, any, arith,
  codes, Codes, text_eq, text_eq→≡, starts_with, Bool-cases, inl, inr, In, All-In,
}
use my_palace.Common.Dict
use my_palace.Auth.Scopes.{required_scope, upper}
use my_palace.Auth.Scopes.Table.{described_scope, required_scope-described}
use my_palace.Grpc.{required_rpc_scope}

-- A remote call, and the method and path of the route, which may hold an id.
pub record Twin : Type 0 where
  pub rpc : String
  pub method : String
  pub path : Codes → Codes

abbrev fixed : String → String → String → Twin
fixed rpc method path = record { rpc = rpc; method = method; path = λ _. codes path }

abbrev about : String → String → String → String → Twin
about rpc method before behind = record {
  rpc = rpc;
  method = method;
  path = λ id. codes before ++ id ++ codes behind;
}

abbrev pub twins : List Twin
twins =
    fixed "/palace.v1.MemoryService/CreateMemory" "POST" "/v1/memories"
    ∷ about "/palace.v1.MemoryService/GetMemory" "GET" "/v1/memories/" ""
    ∷ about "/palace.v1.MemoryService/DeleteMemory" "DELETE" "/v1/memories/" ""
    ∷ fixed "/palace.v1.MemoryService/SearchMemories" "POST" "/v1/memories/search"
    ∷ fixed "/palace.v1.MemoryService/ListMemories" "POST" "/v1/memories/list"
    ∷ fixed "/palace.v1.SessionService/CreateSession" "POST" "/v1/sessions"
    ∷ about "/palace.v1.SessionService/GetSession" "GET" "/v1/sessions/" ""
    ∷ about "/palace.v1.SessionService/AddMessage" "POST" "/v1/sessions/" "/messages"
    ∷ about "/palace.v1.SessionService/UpdateSession" "PATCH" "/v1/sessions/" ""
    ∷ about "/palace.v1.SessionService/DeleteSession" "DELETE" "/v1/sessions/" ""
    ∷ fixed "/palace.v1.EpisodeService/ReflectSession" "POST" "/v1/reflection/session"
    ∷ fixed "/palace.v1.EpisodeService/SearchEpisodes" "POST" "/v1/episodes/search"
    ∷ about "/palace.v1.EpisodeService/GetRecentEpisodes" "GET" "/v1/users/" "/episodes/recent"
    ∷ fixed "/palace.v1.ArcService/SynthesizeNarratives" "POST" "/v1/synthesis/narratives"
    ∷ about "/palace.v1.ArcService/GetActiveArcs" "GET" "/v1/users/" "/arcs/active"
    ∷ fixed "/palace.v1.IntentionService/SetIntention" "POST" "/v1/intentions"
    ∷ fixed "/palace.v1.IntentionService/CheckIntentions" "POST" "/v1/intentions/check"
    ∷ fixed "/palace.v1.IntentionService/FormatIntentions" "POST" "/v1/intentions/format"
    ∷ about "/palace.v1.IntentionService/ListIntentions" "GET" "/v1/users/" "/intentions"
    ∷ about "/palace.v1.IntentionService/DeleteIntention" "DELETE" "/v1/intentions/" ""
    ∷ about "/palace.v1.DynamicsService/PromoteMemory" "POST" "/v1/memories/" "/promote"
    ∷ about "/palace.v1.DynamicsService/DemoteMemory" "POST" "/v1/memories/" "/demote"
    ∷ about "/palace.v1.DynamicsService/GetDynamics" "GET" "/v1/memories/" "/dynamics"
    ∷ about "/palace.v1.DynamicsService/ScoreMemory" "POST" "/v1/memories/" "/score"
    ∷ fixed "/palace.v1.RetrievalService/AssembleLayered" "POST" "/v1/context/layered"
    ∷ about "/palace.v1.IngestionService/SupersedeMemory" "POST" "/v1/memories/" "/supersede"
    ∷ about "/palace.v1.IngestionService/GetSupersessions" "GET" "/v1/memories/" "/supersedes"
    ∷ about "/palace.v1.JobService/GetJob" "GET" "/v1/jobs/" ""
    ∷ []

abbrev pub Agrees : Twin → Type 0
Agrees t = (id : Codes) → required_rpc_scope t.rpc ≡ required_scope (codes t.method) (t.path id)

abbrev has_slash : Codes → Bool
has_slash = any (λ c. c == b'/')

any-behind : (s u : Codes) → has_slash u ≡ true → has_slash (s ++ u) ≡ true
any-behind [] u h = h
any-behind (c ∷ s) u h = ground (arith, any-behind s u h)

-- What ends behind a slash is no word.
text_eq-word :
    (s u t : Codes) → has_slash u ≡ true → has_slash t ≡ false → text_eq (s ++ u) t ≡ false
text_eq-word s u t h w = elim (Bool-cases (text_eq (s ++ u) t)) [
  | inl e ↦ cc (sym (any-behind s u h) ∙ ap has_slash (text_eq→≡ (s ++ u) t e) ∙ w)
  | inr e ↦ e
]

described :
    (rpc method : String) (path : Codes)
    → required_rpc_scope rpc ≡ described_scope (upper (codes method)) path
    → required_rpc_scope rpc ≡ required_scope (codes method) path
described rpc method path h = rw required_scope-described h

post_about :
    (rpc behind : String) (id : Codes)
    → required_rpc_scope rpc ≡ "write"
    → has_slash (codes behind) ≡ true
    → required_rpc_scope rpc
      ≡ required_scope (codes "POST") (codes "/v1/memories/" ++ id ++ codes behind)
unfolding upper starts_with text_eq
post_about rpc behind id h slash =
    described rpc "POST" (codes "/v1/memories/" ++ id ++ codes behind) (
      rw (
        h,
        text_eq-word id (codes behind) (codes "search") slash refl,
        text_eq-word id (codes behind) (codes "list") slash refl,
      ))

rpc_scopes-Agrees : All Agrees twins
unfolding required_rpc_scope Dict.get upper starts_with text_eq
rpc_scopes-Agrees = (
  λ id. described "/palace.v1.MemoryService/CreateMemory" "POST" (codes "/v1/memories") refl,
  (
    λ id.
        described "/palace.v1.MemoryService/GetMemory" "GET"
          (codes "/v1/memories/" ++ id ++ codes "") refl,
    (
      λ id.
          described "/palace.v1.MemoryService/DeleteMemory" "DELETE"
            (codes "/v1/memories/" ++ id ++ codes "") refl,
      (
        λ id.
            described "/palace.v1.MemoryService/SearchMemories" "POST" (codes "/v1/memories/search")
              refl,
        (
          λ id.
              described "/palace.v1.MemoryService/ListMemories" "POST" (codes "/v1/memories/list")
                refl,
          (
            λ id.
                described "/palace.v1.SessionService/CreateSession" "POST" (codes "/v1/sessions")
                  refl,
            (
              λ id.
                  described "/palace.v1.SessionService/GetSession" "GET"
                    (codes "/v1/sessions/" ++ id ++ codes "") refl,
              (
                λ id.
                    described "/palace.v1.SessionService/AddMessage" "POST"
                      (codes "/v1/sessions/" ++ id ++ codes "/messages") refl,
                (
                  λ id.
                      described "/palace.v1.SessionService/UpdateSession" "PATCH"
                        (codes "/v1/sessions/" ++ id ++ codes "") refl,
                  (
                    λ id.
                        described "/palace.v1.SessionService/DeleteSession" "DELETE"
                          (codes "/v1/sessions/" ++ id ++ codes "") refl,
                    (
                      λ id.
                          described "/palace.v1.EpisodeService/ReflectSession" "POST"
                            (codes "/v1/reflection/session") refl,
                      (
                        λ id.
                            described "/palace.v1.EpisodeService/SearchEpisodes" "POST"
                              (codes "/v1/episodes/search") refl,
                        (
                          λ id.
                              described "/palace.v1.EpisodeService/GetRecentEpisodes" "GET"
                                (codes "/v1/users/" ++ id ++ codes "/episodes/recent") refl,
                          (
                            λ id.
                                described "/palace.v1.ArcService/SynthesizeNarratives" "POST"
                                  (codes "/v1/synthesis/narratives") refl,
                            (
                              λ id.
                                  described "/palace.v1.ArcService/GetActiveArcs" "GET"
                                    (codes "/v1/users/" ++ id ++ codes "/arcs/active") refl,
                              (
                                λ id.
                                    described "/palace.v1.IntentionService/SetIntention" "POST"
                                      (codes "/v1/intentions") refl,
                                (
                                  λ id.
                                      described "/palace.v1.IntentionService/CheckIntentions" "POST"
                                        (codes "/v1/intentions/check") refl,
                                  (
                                    λ id.
                                        described "/palace.v1.IntentionService/FormatIntentions"
                                          "POST" (codes "/v1/intentions/format") refl,
                                    (
                                      λ id.
                                          described "/palace.v1.IntentionService/ListIntentions"
                                            "GET" (codes "/v1/users/" ++ id ++ codes "/intentions")
                                            refl,
                                      (
                                        λ id.
                                            described "/palace.v1.IntentionService/DeleteIntention"
                                              "DELETE" (codes "/v1/intentions/" ++ id ++ codes "")
                                              refl,
                                        (
                                          λ id.
                                              post_about "/palace.v1.DynamicsService/PromoteMemory"
                                                "/promote" id refl refl,
                                          (
                                            λ id.
                                                post_about "/palace.v1.DynamicsService/DemoteMemory"
                                                  "/demote" id refl refl,
                                            (
                                              λ id.
                                                  described "/palace.v1.DynamicsService/GetDynamics"
                                                    "GET"
                                                    (codes "/v1/memories/"
                                                      ++ id
                                                      ++ codes "/dynamics")
                                                    refl,
                                              (
                                                λ id.
                                                    post_about
                                                      "/palace.v1.DynamicsService/ScoreMemory"
                                                      "/score" id refl refl,
                                                (
                                                  λ id.
                                                      described
                                                        "/palace.v1.RetrievalService/AssembleLayered"
                                                        "POST" (codes "/v1/context/layered") refl,
                                                  (
                                                    λ id.
                                                        post_about
                                                          "/palace.v1.IngestionService/SupersedeMemory"
                                                          "/supersede" id refl refl,
                                                    (
                                                      λ id.
                                                          described
                                                            "/palace.v1.IngestionService/GetSupersessions"
                                                            "GET"
                                                            (codes "/v1/memories/"
                                                            ++ id
                                                            ++ codes "/supersedes")
                                                            refl,
                                                      (
                                                        λ id.
                                                            described "/palace.v1.JobService/GetJob"
                                                            "GET"
                                                            (codes "/v1/jobs/" ++ id ++ codes "")
                                                            refl,
                                                        tt,
                                                      ),
                                                    ),
                                                  ),
                                                ),
                                              ),
                                            ),
                                          ),
                                        ),
                                      ),
                                    ),
                                  ),
                                ),
                              ),
                            ),
                          ),
                        ),
                      ),
                    ),
                  ),
                ),
              ),
            ),
          ),
        ),
      ),
    ),
  ),
)

-- The table of the remote calls is in step with the one of the HTTP routes: each of its 28 calls
-- needs the scope that the route which does the same needs, whatever id stands in the path.
required_rpc_scope-required_scope :
    (t : Twin) (id : Codes)
    → In t twins
    → required_rpc_scope t.rpc ≡ required_scope (codes t.method) (t.path id)
required_rpc_scope-required_scope t id i = All-In Agrees t twins rpc_scopes-Agrees i id
