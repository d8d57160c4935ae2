-- ===== src/Grpc/Tests.antt =====
-- A remote call with a key, and a call with its route.
use my_palace.Common.{
  refl, ◌==◌, String, none, some, [], ◌∷◌, codes, Codes, text_eq, str_eq, starts_with,
  if◌then◌else◌,
}
use my_palace.Common.Dict
use my_palace.Auth.Context.{AuthContext, has_scope}
use my_palace.Auth.Keys.{Bcrypt, KeyStore, Env, first_verified, split, lookup}
use my_palace.Grpc.{required_rpc_scope, intercept_service}
use my_palace.Grpc.Guard.{Served, intercept_service-Served}

-- A toy in the place of bcrypt, which does not hash.
abbrev first_letter : Codes → String
first_letter [] = "none"
first_letter (c ∷ s) = if c == b'p' then "p" else "other"

abbrev toy_bcrypt : Bcrypt
toy_bcrypt = record {
  hashpw = λ p salt. first_letter p;
  checkpw = λ p h. some (str_eq (first_letter p) h);
}

abbrev secret : Codes
secret = codes "pk_live_abcdefghijklmnopqrstuvwxyz012345"

abbrev stored : KeyStore
stored = record {
  rows =
      (record {
        id = "k1";
        key_prefix = codes "abcdefgh";
        key_hash = "p";
        label = "ci";
        tenant_id = some "acme";
        scopes = "read" ∷ [];
        created_at = 1;
        last_used_at = none;
        revoked_at = none;
      })
      ∷ [];
  last_bumps = [];
}

abbrev at_noon : Env
at_noon = record { utcnow = 1000; monotonic = 500; random = []; salt = 7; fresh_id = "k2" }

abbrev caller : AuthContext
caller = record { key_id = "k1"; label = "ci"; scopes = "read" ∷ []; tenant_id = some "acme" }

intercept_service-Served_example :
    Served toy_bcrypt "/palace.v1.JobService/GetJob" (some secret) stored "default" (some caller)
unfolding intercept_service lookup first_verified split text_eq starts_with has_scope
    required_rpc_scope Dict.get
intercept_service-Served_example =
    intercept_service-Served toy_bcrypt "/palace.v1.JobService/GetJob" (some secret) at_noon stored
      none (some caller) "default" refl
