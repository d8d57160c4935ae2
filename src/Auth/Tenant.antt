-- ===== src/Auth/Tenant.antt =====
-- mypalace/auth/tenant.py and the name check of mypalace/tenancy.py. A regular expression of the
-- form `[class]{1,32}` is modelled by a test on each code point and one on the length.
pub mod Names
use my_palace.Common.{
  ℕ, ◌≤◌, ◌≡◌, Bool, true, false, ◌&&◌, ◌||◌, List, [], ◌∷◌, ◌++◌, ◌==◌, leb, length, all, Result,
  ok, err, if◌then◌else◌,
}

pub word_char : ℕ → Bool
word_char c = (leb b'a' c && leb c b'z') || (leb b'0' c && leb c b'9') || c == b'_'

-- `re.fullmatch(r"[a-z0-9_]{1,32}", tenant_id)`
unfoldable pub is_valid_tenant_id : List ℕ → Bool
unfolding word_char
is_valid_tenant_id t = all word_char t && leb 1 (length t) && leb (length t) 32

pub data TenantError : Type 0 where
  invalid_tenant_id : TenantError

pub validate_tenant_id : List ℕ → Result TenantError (List ℕ)
unfolding is_valid_tenant_id
validate_tenant_id t = if is_valid_tenant_id t then ok t else err invalid_tenant_id

pub schema_char : ℕ → Bool
unfolding word_char
schema_char c = word_char c || c == b'-'

-- The text without one newline at its end: `$` of a pattern matches before it, too.
pub before_newline : List ℕ → List ℕ
before_newline [] = []
before_newline (c ∷ []) = if c == 10 then [] else c ∷ []
before_newline (c ∷ d ∷ s) = c ∷ before_newline (d ∷ s)

-- `re.match(r"^[a-z0-9_-]{1,32}$", tenant_id)`
pub is_valid_schema_name : List ℕ → Bool
unfolding schema_char before_newline
is_valid_schema_name t =
    let s = before_newline t in all schema_char s && leb 1 (length s) && leb (length s) 32
