-- ===== src/Ingestion/Tests.antt =====
-- Candidates and memories on which the theorems of Ingestion are tried.
use my_palace.Common.{ℕ, String, none, List, [], ◌∷◌, take, arith, length-take, true}
use my_palace.Memory.{Memory, Vectors, Env}
use my_palace.Memory.Read
use my_palace.Memory.Tests.{toy_vectors, memory, at_noon}
use my_palace.Ingestion.Pipeline.{
  Candidate, Target, Library, Fate, Supersession, superseding, skipped,
}
use my_palace.Ingestion.Pipeline.Counted.{Counted}

abbrev hits : List (String × ℕ)
hits = ("m1", 800_000) ∷ []

-- A vector store that finds "m1" near everything.
abbrev near : Vectors
near = record toy_vectors {
  search = λ v q s. take q.limit hits;
  length-search = λ v q s. omega (arith, length-take q.limit hits);
}

abbrev library : Library near
library = record {
  palace = record {
    rows = record (memory "m1" "acme" none) { content = "loves green tea" } ∷ [];
    store = λ t j. true;
    versions = [];
    effects = [];
  };
  supersessions = [];
  demoted = [];
  edges = [];
}

abbrev target : Target
target = record {
  user_id = "u1";
  agent_id = none;
  memory_type = "semantic";
  source = none;
  base_metadata = [];
  tenant_id = "acme";
}

abbrev correction : Candidate
correction = record { content = "no longer loves green tea"; extra = []; importance = 1 }

abbrev repetition : Candidate
repetition = record { content = "loves green tea a lot"; extra = []; importance = 1 }

abbrev candidates : List (Candidate × Env)
candidates = (correction, at_noon) ∷ (repetition, at_noon) ∷ []

abbrev written_one : Memory
written_one = record (memory "m3" "acme" none) {
  content = "no longer loves green tea";
  importance = 1;
  created_at = 1000;
  updated_at = 1000;
}

abbrev fates : List Fate
fates =
    superseding written_one "m1" 800_000 "contradiction:negation:overlap"
    ∷ skipped "similar" 800_000
    ∷ []

abbrev entry : Supersession
entry = record {
  tenant_id = "acme";
  superseded_id = "m1";
  new_id = "m3";
  user_id = "u1";
  reason = "manual";
  similarity_score = none;
}
