-- ===== src/Auth/Tenant/Names.antt =====
-- How the two checks of a tenant's name relate.
use my_palace.Common.{ℕ, ◌≡◌, refl, ap, true, List, [], ◌∷◌, ◌++◌, all, arith}
use my_palace.Auth.Tenant.{
  word_char, is_valid_tenant_id, schema_char, before_newline, is_valid_schema_name,
}

before_newline-words : (t : List ℕ) → all word_char t ≡ true → before_newline t ≡ t
unfolding before_newline word_char
before_newline-words [] h = refl
before_newline-words (c ∷ []) h = ground arith
before_newline-words (c ∷ d ∷ s) h = ap (◌∷◌ c) (before_newline-words (d ∷ s) (ground arith))

before_newline-append : (t : List ℕ) → before_newline (t ++ 10 ∷ []) ≡ t
unfolding before_newline
before_newline-append [] = refl
before_newline-append (c ∷ []) = refl
before_newline-append (c ∷ d ∷ s) = ap (◌∷◌ c) (before_newline-append (d ∷ s))

all-schema_char : (t : List ℕ) → all word_char t ≡ true → all schema_char t ≡ true
unfolding schema_char
all-schema_char [] h = refl
all-schema_char (c ∷ t) h = ground (arith, all-schema_char t)

words : (t : List ℕ) → is_valid_tenant_id t ≡ true → all word_char t ≡ true
unfolding is_valid_tenant_id
words t h = ground arith

-- Every tenant id that the request layer accepts is accepted as a schema name.
pub valid_tenant-valid_schema :
    (t : List ℕ) → is_valid_tenant_id t ≡ true → is_valid_schema_name t ≡ true
unfolding is_valid_tenant_id is_valid_schema_name
valid_tenant-valid_schema t h =
    rw (before_newline-words t (words t h)) (ground (arith, all-schema_char t (words t h)))

-- The check of a schema name lets through every valid tenant id with a line feed behind it.
schema_name-newline :
    (t : List ℕ) → is_valid_tenant_id t ≡ true → is_valid_schema_name (t ++ 10 ∷ []) ≡ true
unfolding is_valid_tenant_id is_valid_schema_name
schema_name-newline t h =
    rw (before_newline-append t) (ground (arith, all-schema_char t (words t h)))
