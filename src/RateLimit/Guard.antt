-- ===== src/RateLimit/Guard.antt =====
-- Who the limiter's middleware refuses, and what it does when Redis is away.
use my_palace.Common.{
  ℕ, ◌+◌, ◌<◌, ◌≡◌, refl, Bool, true, false, Option, none, some, List, elem, arith, if◌then◌else◌,
}
use my_palace.Auth.Scopes.{is_public}
use my_palace.Auth.Context.{AuthContext}
use my_palace.RateLimit.{
  Redis, LimitDecision, Link, no_client, pipeline_fails, executes, window_seconds, decide, check,
  Settings, bucket_for, Verdict, passes, too_many, verdict_of, limit_for, limited, dispatch,
}

module _ (redis : Redis) where
  open redis use {Store}

  -- What is known of a request that is answered 429 with the decision `d`.
  pub record Refused (settings : Settings) (link : Link redis) (path : List ℕ)
      (auth : Option AuthContext) (d : LimitDecision) : Type 0 where
    pub enabled : settings.enabled ≡ true
    pub guarded : is_public path ≡ false
    pub caller : AuthContext
    pub authenticated : auth ≡ some caller
    pub bounded : elem "unlimited" caller.scopes ≡ false
    pub reached : link ≡ executes
    pub over : (bucket_for settings path).1 < d.current
    pub limit : d.limit ≡ (bucket_for settings path).1
    pub retry : d.retry_after_seconds ≡ window_seconds

  verdict_of-too_many :
      (count limit : ℕ) (d : LimitDecision)
      → verdict_of (decide count limit) ≡ too_many d
      → (limit < d.current) × (d.limit ≡ limit) × (d.retry_after_seconds ≡ window_seconds)
  unfolding verdict_of decide
  verdict_of-too_many count limit d h = ground arith

  -- A decision of `check` that refuses comes from a pipeline that was executed.
  check-too_many :
      (on : Bool) (link : Link redis) (key : List ℕ) (limit now process : ℕ) (s : Store)
      (d : LimitDecision)
      → verdict_of (check redis on link key limit now process s).0 ≡ too_many d
      → (link ≡ executes)
        × (limit < d.current)
        × (d.limit ≡ limit)
        × (d.retry_after_seconds ≡ window_seconds)
  unfolding check verdict_of
  check-too_many false link key limit now process s d h = ground arith
  check-too_many true no_client key limit now process s d h = ground arith
  check-too_many true (pipeline_fails s') key limit now process s d h = ground arith
  check-too_many true executes key limit now process s d h =
      let (over, same, retry) = verdict_of-too_many (redis.zcard key _ + 1) limit d h in
      (refl, over, same, retry)

  past_guard :
      (g : Bool) (s : Store) (z : Verdict × Store) (d : LimitDecision)
      → (if g then (passes, s) else z).0 ≡ too_many d
      → (g ≡ false) × (z.0 ≡ too_many d)
  past_guard true s z d h = ground arith
  past_guard false s z d h = (refl, h)

  -- The middleware answers 429 only when it is enabled, the path is not public, the caller is
  -- authenticated and has no "unlimited" scope, the pipeline was executed, and the count of the
  -- window, the request included, is over the limit of the path's bucket. The answer then carries
  -- that limit and the window as the time to wait.
  dispatch-too_many :
      (settings : Settings) (link : Link redis) (path : List ℕ) (auth : Option AuthContext)
      (now process : ℕ) (s : Store) (d : LimitDecision)
      → (dispatch redis settings link path auth now process s).0 ≡ too_many d
      → Refused settings link path auth d
  unfolding dispatch limited limit_for
  dispatch-too_many settings link path none now process s d h =
      let (guards, late) =
        past_guard _ s (limited redis settings link path none now process s) d h in
      ground arith
  dispatch-too_many settings link path (some caller) now process s d h =
      let (guards, late) =
        past_guard _ s (limited redis settings link path (some caller) now process s) d h in
      let (bounded, last) =
        past_guard _ s
          (let (decision, s') = limit_for redis settings link path caller now process s in
            (verdict_of decision, s'))
          d late in
      let (reached, over, limit, retry) =
        check-too_many settings.enabled link _ _ now process s d last in
      record {
        enabled = ground arith;
        guarded = ground arith;
        caller = caller;
        authenticated = refl;
        bounded = bounded;
        reached = reached;
        over = over;
        limit = limit;
        retry = retry;
      }
