-- ===== src/Auth/Tests.antt =====
-- Keys, requests and tables on which the theorems of Auth are tried.
use my_palace.Common.{
  ℕ, ◌≡◌, ◌≢◌, refl, sym, ap, ◌∙◌, inl, inr, ◌==◌, false, String, none, some, List, [], ◌∷◌, codes,
  starts_with, text_eq, str_eq, str_eq_refl, if◌then◌else◌, arith,
}
use my_palace.Auth.Scopes.{fnmatchcase, scope_rules, first_match, upper, is_public, required_scope}
use my_palace.Auth.Scopes.Table.{described_scope, required_scope-described}
use my_palace.Auth.Context.{AuthContext, has_scope}
use my_palace.Auth.Keys.{
  Bcrypt, ApiKey, KeyStore, Env, first_verified, split, lookup, create_key, revoke,
}
use my_palace.Auth.Keys.Lifecycle.{create_key-lookup, IsKeyed, revoke-locks_out}
use my_palace.Auth.Middleware.{Settings, Request, dispatch, Admitted, dispatch_guards}

-- A toy in the place of bcrypt: the hash is the first letter behind the prefix, as far as it is "a".
abbrev digest : List ℕ → String
digest (_ ∷ _ ∷ _ ∷ _ ∷ _ ∷ _ ∷ _ ∷ _ ∷ c ∷ _) = if c == b'a' then "a" else "other"
digest _ = "short"

abbrev toy_bcrypt : Bcrypt
toy_bcrypt = record { hashpw = λ p salt. digest p; checkpw = λ p h. some (str_eq (digest p) h) }

abbrev random_part : List ℕ
random_part = codes "abcdefghijklmnopqrstuvwxyz012345"

abbrev secret : List ℕ
secret = codes "pk_live_abcdefghijklmnopqrstuvwxyz012345"

abbrev acme_key : ApiKey
acme_key = record {
  id = "k1";
  key_prefix = codes "abcdefgh";
  key_hash = "a";
  label = "ci";
  tenant_id = some "acme";
  scopes = "read" ∷ [];
  created_at = 1;
  last_used_at = none;
  revoked_at = none;
}

abbrev one_key : KeyStore
one_key = record { rows = acme_key ∷ []; last_bumps = [] }

abbrev no_keys : KeyStore
no_keys = record { rows = []; last_bumps = [] }

abbrev at_noon : Env
at_noon = record { utcnow = 1000; monotonic = 500; random = random_part; salt = 7; fresh_id = "k2" }

abbrev acme : AuthContext
acme = record { key_id = "k1"; label = "ci"; scopes = "read" ∷ []; tenant_id = some "acme" }

abbrev reading : Request
reading = record { method = codes "GET"; path = codes "/v1/memories"; header = some secret }

apart : ◌≢◌ {A = String} "k1" "k2"
apart e = let h : str_eq "k1" "k1" ≡ str_eq "k1" "k2" = ap (str_eq "k1") e in ground arith

abbrev auth_on : Settings
auth_on = record { auth_disabled = false; default_tenant_id = "default" }

required_scope-described_example :
    required_scope (codes "get") (codes "/v1/memories")
    ≡ described_scope (upper (codes "get")) (codes "/v1/memories")
required_scope-described_example = required_scope-described (codes "get") (codes "/v1/memories")

-- The key that is minted at noon in an empty table.
abbrev minted : ApiKey
minted = record acme_key {
  id = "k2";
  label = "app";
  tenant_id = none;
  scopes = "read" ∷ "write" ∷ [];
  created_at = 1000;
}

create_key-lookup_example :
    (lookup toy_bcrypt secret at_noon (record { rows = minted ∷ []; last_bumps = [] })).0
    ≡ some
        (record { key_id = "k2"; label = "app"; scopes = "read" ∷ "write" ∷ []; tenant_id = none })
unfolding create_key first_verified
create_key-lookup_example =
    create_key-lookup toy_bcrypt "app" ("write" ∷ "read" ∷ []) none at_noon at_noon no_keys
      (record { rows = minted ∷ []; last_bumps = [] }) minted secret
      (λ p salt. ap some (str_eq_refl (digest p))) refl refl refl

-- Two keys that accept the same text, of which the first is revoked.
abbrev two_keys : KeyStore
two_keys = record { rows = acme_key ∷ minted ∷ []; last_bumps = [] }

two_keys-IsKeyed : IsKeyed two_keys
two_keys-IsKeyed k j (inl p) (inl q) e = p ∙ sym q
two_keys-IsKeyed k j (inl p) (inr (inl q)) e =
    absurd (apart (sym (ap (λ (x : ApiKey). x.id) p) ∙ e ∙ ap (λ (x : ApiKey). x.id) q))
two_keys-IsKeyed k j (inr (inl p)) (inl q) e =
    absurd (apart (sym (ap (λ (x : ApiKey). x.id) q) ∙ sym e ∙ ap (λ (x : ApiKey). x.id) p))
two_keys-IsKeyed k j (inr (inl p)) (inr (inl q)) e = p ∙ sym q
two_keys-IsKeyed k j (inl p) (inr (inr w)) e = elim w [ ]
two_keys-IsKeyed k j (inr (inl p)) (inr (inr w)) e = elim w [ ]
two_keys-IsKeyed k j (inr (inr w)) _ e = elim w [ ]

revoke-locks_out_example : ◌≢◌ {A = String} "k2" "k1"
unfolding revoke lookup split starts_with text_eq
revoke-locks_out_example =
    revoke-locks_out toy_bcrypt "k1" at_noon at_noon two_keys secret
      (record { key_id = "k2"; label = "app"; scopes = "read" ∷ "write" ∷ []; tenant_id = none })
      two_keys-IsKeyed refl refl

dispatch_guards_example :
    (ctx : AuthContext) × (key : ApiKey) × (text : List ℕ) × (some acme ≡ some ctx)
    × Admitted toy_bcrypt reading one_key none (some "acme") ctx key text
unfolding dispatch lookup split required_scope first_match scope_rules fnmatchcase upper is_public
    starts_with text_eq has_scope
dispatch_guards_example =
    dispatch_guards toy_bcrypt auth_on reading at_noon one_key none (some "acme") (some acme) refl
      refl refl
