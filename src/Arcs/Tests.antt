-- ===== src/Arcs/Tests.antt =====
-- A synthesis whose model names the arc of another user.
use my_palace.Common.{false, refl, inl, none, some, [], ◌∷◌, codes, In}
use my_palace.Arcs.{
  NarrativeArc, Store, RawArc, Caller, Env, with_fields, synthesize_narratives, object, not_object,
  text, other, well, Fields, fields_of,
}
use my_palace.Arcs.Synthesis.{synthesize_narratives-any_user}

abbrev arc : NarrativeArc
arc = record {
  id = "a1";
  tenant_id = "acme";
  user_id = "u2";
  agent_id = some "mypalace";
  title = "A move";
  summary = "u2 looks for a flat.";
  status = "active";
  key_episode_ids = other false "[]";
  emotional_trajectory = "";
  created_at = 10;
  updated_at = 10;
}

abbrev raw_arc : RawArc
raw_arc = record {
  existing_id = some (text "a1");
  title = some (text "Another");
  summary = none;
  status = none;
  key_episode_ids = none;
  emotional_trajectory = none;
}

abbrev env : Env
env = record {
  now = 20;
  complete = λ arcs. some (codes "{}");
  loads = λ t. some (object raw_arc ∷ not_object ∷ []);
  fresh_ids = λ n. "new";
  fates = λ n. well;
}

abbrev caller : Caller
caller = record { tenant_id = "acme"; user_id = "u1"; agent_id = none }

abbrev store : Store
store = record { rows = arc ∷ []; published = [] }

abbrev one_arc : Env
one_arc = record env { loads = λ t. some (object raw_arc ∷ []) }

abbrev written : Fields
written = record {
  title = "Another";
  summary = "";
  status = "active";
  key_episode_ids = other false "[]";
  emotional_trajectory = "";
}

synthesize_narratives-any_user_example :
    In (with_fields 20 written arc) (synthesize_narratives one_arc caller store).1.rows
unfolding fields_of
synthesize_narratives-any_user_example =
    synthesize_narratives-any_user one_arc caller (codes "{}") raw_arc written arc store refl refl
      refl refl refl refl refl (inl refl)
