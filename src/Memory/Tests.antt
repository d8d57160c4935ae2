-- ===== src/Memory/Tests.antt =====
-- A toy vector store and a few rows, on which the theorems of Memory are tried.
use my_palace.Common.{
  ℕ, ◌≤◌, ◌≡◌, refl, sym, ap, Bool, true, false, ◌&&◌, String, Option, none, some, List, [], ◌∷◌,
  take, filter, str_eq, elem, In, arith, length-take, if◌then◌else◌, ◌+◌,
}
use my_palace.Common.Dict
use my_palace.Memory.{
  Memory, Query, Vectors, Env, Palace, gets, set_rows, emit, embed_text, upsert_vector,
  delete_vectors, bust_cache, publish_event, record_version, not_expired,
}
use my_palace.Memory.Write.{Draft, Patch, create, update, delete}
use my_palace.Memory.Write.Success.{Created, create-Created, Deleted, delete-Deleted}
use my_palace.Memory.Write.Isolation.{rows_of, update-others}
use my_palace.Memory.Sweep.{expired_in, cleanup_expired}
use my_palace.Memory.Sweep.Leak.{cleanup_expired-leaks}
use my_palace.Memory.Reembed.{Job, Progress, reembed}
use my_palace.Memory.Reembed.Counted.{Matching, reembed-Counted}
use my_palace.Memory.Read.{search}
use my_palace.Memory.Read.Scope.{Found, search-Found}

-- For each tenant, the ids that have a point.
abbrev pub Points : Type 0
Points = String → String → Bool

abbrev pub holds : Option Points → String → String → Bool
holds none t j = false
holds (some s) t j = s t j

abbrev pub both : List (String × ℕ)
both = ("m2", 9) ∷ ("m1", 7) ∷ []

abbrev pub toy_vectors : Vectors
toy_vectors = record {
  Store = Points;
  Vector = String;
  embed = λ text. some text;
  upsert = λ id v p s. some λ t j. if str_eq p.tenant_id t && str_eq id j then true else s t j;
  delete = λ ids tenant s. some λ t j. if str_eq tenant t && elem j ids then false else s t j;
  search = λ v q s. take q.limit both;
  has = λ t j s. s t j;
  has-upsert = λ id v p s s' t j h. sym (ap (λ o. holds o t j) h);
  has-delete = λ ids tenant s s' t j h. sym (ap (λ o. holds o t j) h);
  length-search = λ v q s. omega (arith, length-take q.limit both);
}

abbrev pub at_noon : Env
at_noon = record {
  utcnow = 1000;
  fresh_id = "m3";
  cache_enabled = true;
  versions_readable = true;
  versions_writable = true;
}

abbrev pub memory : String → String → Option ℕ → Memory
memory id tenant expires_at = record {
  id = id;
  tenant_id = tenant;
  user_id = "u1";
  agent_id = none;
  content = "tea";
  memory_type = "semantic";
  source = none;
  importance = 5;
  metadata_json = none;
  access_count = 0;
  created_at = 10;
  updated_at = 10;
  accessed_at = none;
  expires_at = expires_at;
}

-- Two memories of acme that are over, one that is not, and one of another tenant.
abbrev palace : Palace toy_vectors
palace = record {
  rows =
      memory "m1" "acme" (some 500)
      ∷ memory "m2" "acme" (some 600)
      ∷ memory "m4" "acme" none
      ∷ memory "m2" "globex" none
      ∷ [];
  store = λ t j. true;
  versions = [];
  effects = [];
}

abbrev draft : Draft
draft = record {
  user_id = "u1";
  content = "coffee";
  memory_type = "semantic";
  agent_id = none;
  source = none;
  importance = 5;
  metadata = none;
  tenant_id = "acme";
  ttl_seconds = some 60;
}

abbrev made : Memory
made = record (memory "m3" "acme" (some 1060)) {
  content = "coffee";
  created_at = 1000;
  updated_at = 1000;
}

create-Created_example :
    Created toy_vectors at_noon draft palace (create toy_vectors at_noon draft palace).1 made
unfolding create gets set_rows embed_text upsert_vector emit bust_cache record_version publish_event
create-Created_example =
    create-Created toy_vectors at_noon draft palace (create toy_vectors at_noon draft palace).1 made
      refl

delete-Deleted_example :
    Deleted toy_vectors "m2" "acme" palace (delete toy_vectors at_noon "m2" "acme" palace).1
unfolding delete gets set_rows delete_vectors bust_cache publish_event
delete-Deleted_example =
    delete-Deleted toy_vectors at_noon "m2" "acme" palace
      (delete toy_vectors at_noon "m2" "acme" palace).1 refl

abbrev rewording : Patch
rewording = record {
  content = some "green tea";
  memory_type = none;
  importance = none;
  metadata = none;
}

update-others_example :
    rows_of "globex" (update toy_vectors at_noon "m2" rewording "acme" palace).1.rows
    ≡ rows_of "globex" palace.rows
update-others_example = update-others toy_vectors at_noon "m2" rewording "acme" "globex" palace refl

abbrev query : Query
query = record {
  limit = 3;
  user_id = some "u1";
  agent_id = none;
  memory_type = none;
  min_score = 0;
  tenant_id = "globex";
}

abbrev hits : List (Memory × ℕ)
hits = (record (memory "m2" "globex" none) { access_count = 1; accessed_at = some 1000 }, 9) ∷ []

search-Found_example :
    (1 ≤ 3) × ((m : Memory) (n : ℕ) → In (m, n) hits → Found toy_vectors query 1000 palace m)
unfolding search gets set_rows embed_text not_expired Dict.get Dict.put
search-Found_example =
    search-Found toy_vectors at_noon "tea" query palace
      (search toy_vectors at_noon "tea" query palace).1 hits refl

cleanup_expired-leaks_example :
    (filter (expired_in "acme" 1000) (cleanup_expired toy_vectors at_noon "acme" 1 palace).1.rows
      ≡ [])
    × (toy_vectors.has "acme" "m2" (cleanup_expired toy_vectors at_noon "acme" 1 palace).1.store
        ≡ true)
unfolding cleanup_expired delete_vectors bust_cache
cleanup_expired-leaks_example =
    cleanup_expired-leaks toy_vectors at_noon "acme" 1 palace
      (cleanup_expired toy_vectors at_noon "acme" 1 palace).1 1 (memory "m2" "acme" (some 600)) refl
      refl

-- A new model that gives each text as its vector, in pages of two.
abbrev pages_of_two : Job toy_vectors
pages_of_two = record {
  tenant_id = "acme";
  batch_size = 2;
  embed = λ ts. some ts;
  before = λ a b. true;
}

pages_of_two-Matching : Matching toy_vectors pages_of_two
pages_of_two-Matching ts vs e = ground arith

reembed-Counted_example :
    (q : Progress toy_vectors) × (reembed toy_vectors pages_of_two palace.rows (λ t j. false)
      ≡ some q)
    × (q.total + q.failures ≡ 3)
    × (q.failures ≡ 0
        → (m : Memory) → In m palace.rows
        → str_eq m.tenant_id "acme" ≡ true
        → toy_vectors.has "acme" m.id q.store ≡ true)
reembed-Counted_example =
    reembed-Counted toy_vectors pages_of_two palace.rows (λ t j. false) pages_of_two-Matching
      (omega arith)
