-- ===== src/Entities/Tests.antt =====
-- A few names on which the theorems of Entities are tried.
use my_palace.Common.{◌≡◌, refl, none, some, List, [], ◌∷◌, ◌&&◌, str_eq, if◌then◌else◌, arith}
use my_palace.Common.Dict
use my_palace.Entities.{
  ensure_loaded, mapping_onto, EntityAlias, EntityService, Env, strip_platform_prefix, resolve,
  register,
}
use my_palace.Entities.Table.{alias_of}
use my_palace.Entities.Cache.{
  Op, resolving, registering, invalidating, Names, Holds, Coherent, run_op, run_ops, spec_ops,
  run_ops-refines, register-hides,
}

abbrev env : Env
env = record { now = 50; fresh_id = "e2" }

abbrev josh : EntityAlias
josh = record {
  id = "e1";
  tenant_id = "acme";
  identifier = "josh";
  canonical_name = "Josh";
  source = "manual";
  created_at = 10;
  updated_at = 10;
}

abbrev service : EntityService
service = record { rows = josh ∷ []; cache = [] }

abbrev ops : List Op
ops =
    resolving "discord-josh" "acme"
    ∷ registering env "slack-1" "Anne" "acme" "manual"
    ∷ resolving "slack-1" "acme"
    ∷ invalidating (some "acme")
    ∷ resolving "teams-josh" "acme"
    ∷ []

abbrev names : Names
names t i = if str_eq "acme" t && str_eq "josh" i then some "Josh" else none

holds : Holds service names
unfolding alias_of
holds t i = ground arith

coherent : Coherent service
unfolding Dict.get
coherent t m e = absurd (ground arith)

run_ops-refines_example :
    ((run_ops ops service).0 ≡ (spec_ops ops names).0)
    × Coherent (run_ops ops service).1
    × Holds (run_ops ops service).1 (spec_ops ops names).1
unfolding run_op resolve ensure_loaded Dict.get Dict.put mapping_onto
run_ops-refines_example =
    run_ops-refines ops service names (tt, (refl, (tt, (tt, (tt, tt))))) coherent holds

register-hides_example :
    (resolve "josh" "acme" (register env "slack-1" "Anne" "acme" "manual" service).1).0 ≡ "josh"
unfolding strip_platform_prefix Dict.get
register-hides_example =
    register-hides env "slack-1" "Anne" "acme" "manual" "josh" service refl refl (λ e. cc)
