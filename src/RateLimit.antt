-- ===== src/RateLimit.antt =====
-- mypalace/ratelimit: the sliding-window limiter over Redis sorted sets, and its middleware. Times
-- are microseconds. Redis is a parameter: its commands, a view of what a set holds, and their
-- documented behaviour on that view.
pub mod Window
pub mod Guard
pub mod Tests
use my_palace.Common.{
  ℕ, suc, ◌+◌, ◌-◌, ◌*◌, ◌≡◌, ◌≢◌, Bool, true, false, not, ◌&&◌, ◌||◌, String, Option, none, some,
  List, [], ◌∷◌, ◌++◌, ltb, leb, filter, any, length, elem, codes, starts_with, text_eq, or_default,
  if◌then◌else◌,
}
use my_palace.Auth.Scopes.{is_public}
use my_palace.Auth.Context.{AuthContext}

-- A member `f"{now}:{id(self)}"` is given by its two numbers. An entry is a member and its score.
pub record Entry : Type 0 where
  pub time : ℕ
  pub process : ℕ
  pub score : ℕ

abbrev pub has_member : ℕ → ℕ → List Entry → Bool
has_member time process =
    any λ e. leb e.time time && leb time e.time && leb e.process process && leb process e.process

pub record Redis : Type 1 where
  pub Store : Type 0
  pub zremrangebyscore : List ℕ → ℕ → ℕ → Store → Store
  pub zcard : List ℕ → Store → ℕ
  pub zadd : List ℕ → ℕ → ℕ → ℕ → Store → Store
  pub expire : List ℕ → ℕ → Store → Store
  -- What the set under a key holds, the latest addition first.
  pub entries : List ℕ → Store → List Entry
  pub entries-zremrangebyscore :
      (k : List ℕ) (lo hi : ℕ) (s : Store)
      → entries k (zremrangebyscore k lo hi s)
        ≡ filter (λ e. not (leb lo e.score && leb e.score hi)) (entries k s)
  pub zcard-entries : (k : List ℕ) (s : Store) → zcard k s ≡ length (entries k s)
  -- A member that the set does not hold is added.
  pub entries-zadd :
      (k : List ℕ) (time process score : ℕ) (s : Store)
      → has_member time process (entries k s) ≡ false
      → entries k (zadd k time process score s)
        ≡ record { time = time; process = process; score = score } ∷ entries k s
  pub entries-expire :
      (k : List ℕ) (seconds : ℕ) (s : Store) → entries k (expire k seconds s) ≡ entries k s

pub record LimitDecision : Type 0 where
  pub allowed : Bool
  pub current : ℕ
  pub limit : ℕ
  pub retry_after_seconds : ℕ

abbrev pub window_seconds : ℕ
window_seconds = 60

-- The window in microseconds.
abbrev pub window : ℕ
window = window_seconds * 1_000_000

-- RateLimiter._key
pub limit_key : String → String → String → String → List ℕ
limit_key tenant_id key_id user_id bucket =
    codes "palace:rl:"
    ++ (codes tenant_id ++ (b':' ∷ codes key_id ++ (b':' ∷ codes user_id ++ (b':' ∷ codes bucket))))

fail_open : ℕ → LimitDecision
fail_open limit = record { allowed = true; current = 0; limit = limit; retry_after_seconds = 0 }

pub decide : ℕ → ℕ → LimitDecision
decide current limit =
    if ltb limit current
    then record {
      allowed = false;
      current = current;
      limit = limit;
      retry_after_seconds = window_seconds;
    }
    else record { allowed = true; current = current; limit = limit; retry_after_seconds = 0 }

module _ (redis : Redis) where
  open redis use {Store, zremrangebyscore, zcard, zadd, expire}

  -- How the call to Redis goes: no client, a pipeline that fails after which the store is as given,
  -- or a pipeline that is executed.
  pub data Link : Type 0 where
    no_client : Link
    pipeline_fails : Store → Link
    executes : Link

  -- The transaction, up to the count that it reads: expired entries are dropped first.
  pub dropped : List ℕ → ℕ → Store → Store
  dropped key now s = zremrangebyscore key 0 (now - window) s

  pub recorded : List ℕ → ℕ → ℕ → Store → Store
  unfolding dropped
  recorded key now process s =
      expire key (window_seconds + 1) (zadd key now process now (dropped key now s))

  -- RateLimiter.check
  pub check : Bool → Link → List ℕ → ℕ → ℕ → ℕ → Store → LimitDecision × Store
  unfolding recorded fail_open decide
  check false link key limit now process s = (fail_open limit, s)
  check true no_client key limit now process s = (fail_open limit, s)
  check true (pipeline_fails s') key limit now process s = (fail_open limit, s')
  check true executes key limit now process s =
      (decide (zcard key (dropped key now s) + 1) limit, recorded key now process s)

pub search_paths : List (List ℕ)
search_paths =
    codes "/v1/memories/search"
    ∷ codes "/v1/episodes/search"
    ∷ codes "/v1/context"
    ∷ codes "/v1/context/layered"
    ∷ []

pub record Settings : Type 0 where
  pub enabled : Bool
  pub default_tenant_id : String
  pub search_per_min : ℕ
  pub default_per_min : ℕ

pub bucket_for : Settings → List ℕ → String × ℕ
unfolding search_paths
bucket_for settings path =
    if any (λ prefix. text_eq path prefix || starts_with (prefix ++ b'/' ∷ []) path) search_paths
    then ("search", settings.search_per_min)
    else ("default", settings.default_per_min)

-- What the middleware does with a request: it goes on to the next layer, or is answered 429.
pub data Verdict : Type 0 where
  passes : Verdict
  too_many : LimitDecision → Verdict

pub verdict_of : LimitDecision → Verdict
verdict_of d = if d.allowed then passes else too_many d

module _ (redis : Redis) where
  open redis use {Store}

  pub limit_for :
      Settings → Link redis → List ℕ → AuthContext → ℕ → ℕ → Store → LimitDecision × Store
  unfolding bucket_for limit_key check
  limit_for settings link path auth now process s =
      let (bucket, limit) = bucket_for settings path in
      let tenant = or_default auth.tenant_id settings.default_tenant_id in
      check redis settings.enabled link (limit_key tenant auth.key_id auth.key_id bucket) limit now
        process s

  pub limited :
      Settings → Link redis → List ℕ → Option AuthContext → ℕ → ℕ → Store → Verdict × Store
  unfolding limit_for verdict_of
  limited settings link path none now process s = (passes, s)
  limited settings link path (some auth) now process s =
      if elem "unlimited" auth.scopes
      then (passes, s)
      else let (decision, s') = limit_for settings link path auth now process s in
        (verdict_of decision, s')

  unfoldable pub dispatch :
      Settings → Link redis → List ℕ → Option AuthContext → ℕ → ℕ → Store → Verdict × Store
  unfolding limited
  dispatch settings link path auth now process s =
      if not settings.enabled || is_public path
      then (passes, s)
      else limited settings link path auth now process s
