-- ===== src/Personality/Tests.antt =====
-- A language model that answers with JSON between fences, and a table of two traits.
use my_palace.Common.{◌≡◌, refl, true, false, String, none, some, [], ◌∷◌, codes}
use my_palace.Personality.{
  PersonalityTrait, Traits, Decision, Outside, Env, object, evaluate_and_apply,
}
use my_palace.Personality.History.{Keeps, evaluate_and_apply-Keeps}

abbrev trait : String → String → PersonalityTrait
trait id key = record {
  id = id;
  tenant_id = "acme";
  agent_id = "clara";
  category = "humour";
  trait_key = key;
  content = "dry";
  source = "manual";
  reason = none;
  active = true;
  created_at = 1;
  updated_at = 1;
}

abbrev table : Traits
table = trait "t1" "jokes" ∷ trait "t2" "puns" ∷ []

-- The model wants a trait removed, and one that is not there updated.
abbrev decision : String → String → Decision
decision action id = record {
  evolve = true;
  action = some action;
  category = none;
  trait_key = none;
  trait_id = some id;
  content = some "warm";
  reason = none;
}

abbrev reply_of : Decision → Outside
reply_of d = record {
  complete = λ traits message reply. some (codes "{}");
  loads = λ text. some (object d);
}

abbrev env : Env
env = record { fresh_id = "t3"; now = 9 }

evaluate_and_apply-Keeps_example :
    let r =
      evaluate_and_apply
        (reply_of (decision "update" "t7"))
        env
        (codes "hello")
        (codes "hi")
        "clara"
        "acme"
        table in
    (r.0.applied ≡ false → r.1 ≡ table) × Keeps table r.1
evaluate_and_apply-Keeps_example =
    evaluate_and_apply-Keeps (reply_of (decision "update" "t7")) env (codes "hello") (codes "hi")
      "clara" "acme" table

removed : evaluate_and_apply (reply_of (decision "remove" "t1")) env [] [] "clara" "acme" table ≡ (
  record { decision = decision "remove" "t1"; applied = true; error = none },
  record (trait "t1" "jokes") { active = false; source = "evolution"; updated_at = 9 }
      ∷ trait "t2" "puns"
      ∷ [],
)
unfolding evaluate_and_apply
removed = refl

unknown_is_refused :
    (evaluate_and_apply (reply_of (decision "update" "t7")) env [] [] "clara" "acme" table).0.error
    ≡ some "t7"
unfolding evaluate_and_apply
unknown_is_refused = refl

-- The removal of a trait that is not there counts as applied.
removed_nothing :
    (evaluate_and_apply
      (reply_of (decision "remove" "t7"))
      env
      []
      []
      "clara"
      "acme"
      table).0.applied
    ≡ true
unfolding evaluate_and_apply
removed_nothing = refl
