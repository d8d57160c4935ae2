-- ===== src/RateLimit/Window.antt =====
-- The limiter counts exactly the requests of the last window.
use my_palace.Common.{
  ℕ, suc, ◌+◌, ◌-◌, ◌≤◌, ◌<◌, ◌≡◌, refl, sym, ap, ◌∙◌, true, false, not, ◌&&◌, List, [], ◌∷◌, map,
  ltb, leb, filter, length, All, All-filter, arith, if◌then◌else◌, length-map, Bool-cases, inl, inr,
}
use my_palace.RateLimit.{
  Redis, Entry, has_member, executes, window, decide, dropped, recorded, check,
}

-- The requests of a history that lie in the window that ends now.
abbrev pub recent : ℕ → List ℕ → List ℕ
recent now = filter λ t. ltb now (t + window)

-- Times fall along a history, which has the latest request first.
abbrev pub Falling : List ℕ → Type 0
Falling [] = Unit {0}
Falling (t ∷ ts) = All (λ u. u < t) ts × Falling ts

-- What the set holds after a history: at each request the outdated entries go.
abbrev kept : List ℕ → List ℕ
kept [] = []
kept (t ∷ ts) = t ∷ recent t (kept ts)

recent-recent : (now t : ℕ) (ts : List ℕ) → t ≤ now → recent now (recent t ts) ≡ recent now ts
recent-recent now t [] h = refl
recent-recent now t (u ∷ ts) h = ground (arith, recent-recent now t ts)

recent-kept :
    (now : ℕ) (ts : List ℕ)
    → All (λ u. u < now) ts
    → Falling ts
    → recent now (kept ts) ≡ recent now ts
recent-kept now [] b f = refl
recent-kept now (t ∷ ts) b f =
    let same : recent now (recent t (kept ts)) ≡ recent now ts =
      recent-recent now t (kept ts) (omega arith) ∙ recent-kept now ts b.1 f.1 in
    rw same

kept-All : (P : ℕ → Type 0) (ts : List ℕ) → All P ts → All P (kept ts)
kept-All P [] h = tt
kept-All P (t ∷ ts) h = (h.0, All-filter P _ (kept ts) (kept-All P ts h.1))

length-recent_mono :
    (t now : ℕ) (ts : List ℕ) → t ≤ now → length (recent now ts) ≤ length (recent t ts)
length-recent_mono t now [] h = omega arith
length-recent_mono t now (u ∷ ts) h = ground (arith, length-recent_mono t now ts)

length-recent_cons :
    (now t : ℕ) (ts : List ℕ) → length (recent now (t ∷ ts)) ≤ suc (length (recent now ts))
length-recent_cons now t ts = ground arith

decide-allowed : (count limit : ℕ) → (decide count limit).allowed ≡ true → count ≤ limit
unfolding decide
decide-allowed count limit h = ground arith

module _ (redis : Redis) (key : List ℕ) (process : ℕ) where
  open redis use {
    Store, zcard, entries, entries-zremrangebyscore, zcard-entries, entries-zadd, entries-expire,
  }

  entry : ℕ → Entry
  entry t = record { time = t; process = process; score = t }

  -- The store after a history of executed checks.
  pub after : Store → List ℕ → Store
  after s [] = s
  after s (t ∷ ts) = recorded redis key t process (after s ts)

  filter-entry :
      (now : ℕ) (ts : List ℕ)
      → window ≤ now
      → filter (λ e. not (leb 0 e.score && leb e.score (now - window))) (map entry ts)
        ≡ map entry (recent now ts)
  unfolding entry
  filter-entry now [] h = refl
  filter-entry now (t ∷ ts) h = ground (arith, filter-entry now ts)

  not_member :
      (t : ℕ) (us : List ℕ) → All (λ u. u < t) us → has_member t process (map entry us) ≡ false
  unfolding entry
  not_member t [] h = refl
  not_member t (u ∷ us) h = ground (arith, not_member t us h.1)

  entries-recorded :
      (t : ℕ) (s : Store) (us : List ℕ)
      → window ≤ t
      → All (λ u. u < t) us
      → entries key s ≡ map entry us
      → entries key (recorded redis key t process s) ≡ map entry (t ∷ recent t us)
  unfolding recorded dropped entry
  entries-recorded t s us late earlier e =
      entries-expire key 61 _
      ∙ entries-zadd key t process t _
          (rw held (not_member t (recent t us) (All-filter _ _ us earlier)))
      ∙ ap (◌∷◌ (entry t)) held
    where
      held : entries key (dropped redis key t s) ≡ map entry (recent t us)
      held = entries-zremrangebyscore key 0 (t - window) s ∙ rw e (filter-entry t us late)

  entries-after :
      (s : Store) (ts : List ℕ)
      → entries key s ≡ []
      → All (λ t. window ≤ t) ts
      → Falling ts
      → entries key (after s ts) ≡ map entry (kept ts)
  unfolding after
  entries-after s [] e late f = e
  entries-after s (t ∷ ts) e late f =
      entries-recorded t (after s ts) (kept ts) late.0 (kept-All _ ts f.0)
        (entries-after s ts e late.1 f.1)

  -- From an empty set, and for requests of one process at times that grow and are later than a
  -- window from the start of the clock, with every pipeline executed: the decision on a request is
  -- the one for the number of requests of the last window, the new one included. A request that was
  -- denied counts too.
  check_exact :
      (s : Store) (ts : List ℕ) (now limit : ℕ)
      → entries key s ≡ []
      → All (λ t. window ≤ t) (now ∷ ts)
      → Falling (now ∷ ts)
      → (check redis true executes key limit now process (after s ts)).0
        ≡ decide (length (recent now ts) + 1) limit
  unfolding check dropped
  check_exact s ts now limit e late f = ap (λ n. decide (n + 1) limit) counted
    where
      counted : zcard key (dropped redis key now (after s ts)) ≡ length (recent now ts)
      counted =
          zcard-entries key _
          ∙ ap length (
              entries-zremrangebyscore key 0 (now - window) (after s ts)
              ∙ rw (entries-after s ts e late.1 f.1) (filter-entry now (kept ts) late.0))
          ∙ ap length (ap (map entry) (recent-kept now ts f.0 f.1))
          ∙ length-map (recent now ts) entry

  -- The requests of a history that were let through.
  pub granted : Store → ℕ → List ℕ → List ℕ
  granted s limit [] = []
  granted s limit (t ∷ ts) =
      let rest = granted s limit ts in
      if (check redis true executes key limit t process (after s ts)).0.allowed
      then t ∷ rest
      else rest

  granted-recent-le :
      (s : Store) (limit now : ℕ) (ts : List ℕ)
      → length (recent now (granted s limit ts)) ≤ length (recent now ts)
  unfolding granted
  granted-recent-le s limit now [] = omega arith
  granted-recent-le s limit now (t ∷ ts) = ground (arith, granted-recent-le s limit now ts)

  -- From an empty set, and for requests of one process at times that grow and are later than a
  -- window from the start of the clock, with every pipeline executed: no window of a minute that ends
  -- with or after the last request holds more than `limit` requests that were let through.
  pub granted_within_limit :
      (s : Store) (limit now : ℕ) (ts : List ℕ)
      → entries key s ≡ []
      → All (λ t. window ≤ t) ts
      → Falling ts
      → All (λ t. t ≤ now) ts
      → length (recent now (granted s limit ts)) ≤ limit
  unfolding granted
  granted_within_limit s limit now [] e late f past = omega arith
  granted_within_limit s limit now (t ∷ ts) e late f past =
      elim (Bool-cases (check redis true executes key limit t process (after s ts)).0.allowed) [
        | inl yes_t ↦ rw yes_t (
            omega (
              arith,
              length-recent_cons now t (granted s limit ts),
              granted-recent-le s limit now ts,
              length-recent_mono t now ts past.0,
              decide-allowed _ limit
                  (sym (ap (λ d. d.allowed) (check_exact s ts t limit e late f)) ∙ yes_t),
            ))
        | inr no_t ↦ rw no_t (granted_within_limit s limit now ts e late.1 f.1 past.1)
      ]
