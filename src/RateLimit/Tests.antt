-- ===== src/RateLimit/Tests.antt =====
-- Sorted sets as functions from keys to entries, on which the theorems of RateLimit are tried.
use my_palace.Common.{
  ℕ, ◌≤◌, ◌≡◌, refl, true, false, not, ◌&&◌, some, List, [], ◌∷◌, codes, leb, filter, length,
  text_eq, text_eq_refl, ◌∙◌, if◌then◌else◌, arith,
}
use my_palace.Auth.Context.{AuthContext}
use my_palace.RateLimit.{Redis, Entry, has_member, LimitDecision, Settings}
use my_palace.RateLimit.Window.{recent, granted, granted_within_limit}

abbrev Sets : Type 0
Sets = List ℕ → List Entry

abbrev change : List ℕ → (List Entry → List Entry) → Sets → Sets
change k f s j = if text_eq k j then f (s j) else s j

change-same : (k : List ℕ) (f : List Entry → List Entry) (s : Sets) → change k f s k ≡ f (s k)
change-same k f s = rw text_eq_refl

abbrev added : ℕ → ℕ → ℕ → List Entry → List Entry
added time process score es =
    if has_member time process es
    then es
    else record { time = time; process = process; score = score } ∷ es

abbrev sets : Redis
sets = record {
  Store = Sets;
  zremrangebyscore = λ k lo hi. change k (filter λ e. not (leb lo e.score && leb e.score hi));
  zcard = λ k s. length (s k);
  zadd = λ k time process score. change k (added time process score);
  expire = λ k seconds s. s;
  entries = λ k s. s k;
  entries-zremrangebyscore =
      λ k lo hi s. change-same k (filter λ e. not (leb lo e.score && leb e.score hi)) s;
  zcard-entries = λ k s. refl;
  entries-zadd = λ k time process score s h. change-same k (added time process score) s ∙ rw h;
  entries-expire = λ k seconds s. refl;
}

abbrev nothing : Sets
nothing k = []

abbrev key : List ℕ
key = codes "palace:rl:acme"

-- Two requests in the window and one before it.
abbrev history : List ℕ
history = 130_000_000 ∷ 125_000_000 ∷ 65_000_000 ∷ []

granted_within_limit_example :
    length (recent 140_000_000 (granted sets key 1 nothing 1 history)) ≤ 1
granted_within_limit_example =
    granted_within_limit sets key 1 nothing 1 140_000_000 history refl
      (omega arith, (omega arith, (omega arith, tt)))
      ((omega arith, (omega arith, tt)), ((omega arith, tt), (tt, tt)))
      (omega arith, (omega arith, (omega arith, tt)))

abbrev closed : Settings
closed = record {
  enabled = true;
  default_tenant_id = "default";
  search_per_min = 0;
  default_per_min = 0;
}

abbrev caller : AuthContext
caller = record { key_id = "k1"; label = "ci"; scopes = "read" ∷ []; tenant_id = some "acme" }

abbrev refusal : LimitDecision
refusal = record { allowed = false; current = 1; limit = 0; retry_after_seconds = 60 }
