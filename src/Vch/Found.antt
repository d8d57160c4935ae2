-- ===== src/Vch/Found.antt =====
-- What a search of the history answers.
use my_palace.Common.{
  ℕ, zero, suc, ◌+◌, ◌*◌, ◌≤◌, ◌<◌, ◌≡◌, ◌/◌, ◌&&◌, String, str_eq, str_eq_iff, refl, sym, ap,
  subst, inl, inr, true, false, List, [], ◌∷◌, map, filter, take, any, length, leb, All, In, arith,
  Bool-cases, sort_by, In-sort_by, In-filter, In-map, length-map, length-take, is_nil,
}
use my_palace.Vch.{
  Message, Database, TextSearch, Call, Snippet, is_match, match_rows, in_context, context_rows,
  same_bucket, surfaced, of_user, near, Session, snippet, search,
}
use my_palace.Personality.Fences.{strip}

take-In : (a : Message) (n : ℕ) (xs : List Message) → In a (take n xs) → In a xs
take-In a zero xs i = absurd i
take-In a (suc n) [] i = absurd i
take-In a (suc n) (x ∷ xs) (inl q) = inl q
take-In a (suc n) (x ∷ xs) (inr i) = inr (take-In a n xs i)

-- Of one session, in the same ten minutes of the clock.
abbrev pub Together : Message → Message → Type 0
Together k m = (k.session_id ≡ m.session_id) × (k.created_at / 600 ≡ m.created_at / 600)

-- No two are together.
abbrev pub Apart : List Message → Type 0
Apart [] = Unit {0}
Apart (m ∷ ms) = All (λ k. ¬ Together k m) ms × Apart ms

not-Together : (k m : Message) → same_bucket k m ≡ false → ¬ Together k m
unfolding same_bucket
not-Together k m e (session, time) =
    ground (arith, (str_eq_iff k.session_id m.session_id).1 session)

All-not-Together :
    (m : Message) (ks : List Message)
    → All (λ k. same_bucket k m ≡ false) ks
    → All (λ k. ¬ Together k m) ks
All-not-Together m [] a = tt
All-not-Together m (k ∷ ks) a = (not-Together k m a.0, All-not-Together m ks a.1)

of_user-Session :
    (user_id : String) (sessions : List Session) (m : Message)
    → of_user user_id sessions m ≡ true
    → (s : Session) × In s sessions × (s.id ≡ m.session_id) × (s.user_id ≡ user_id)
unfolding of_user
of_user-Session user_id [] m e = ground arith
of_user-Session user_id (s ∷ sessions) m e =
    elim (Bool-cases (str_eq s.id m.session_id && str_eq s.user_id user_id)) [
      | inl hit ↦ (
        s,
        inl refl,
        (str_eq_iff s.id m.session_id).0 (ground arith),
        (str_eq_iff s.user_id user_id).0 (ground arith),
      )
      | inr miss ↦
          let (k, i, same, own) = of_user-Session user_id sessions m (ground arith) in
          (k, inr i, same, own)
    ]

surfaced-fresh :
    (k : Message) (seen ms : List Message)
    → In k seen
    → All (λ m. same_bucket m k ≡ false) (surfaced seen ms)
unfolding surfaced
surfaced-fresh k seen [] i = tt
surfaced-fresh k seen (m ∷ ms) i = elim (Bool-cases (any (same_bucket m) seen)) [
  | inl e ↦ rw e (surfaced-fresh k seen ms i)
  | inr e ↦ rw e (any-false m k seen e i, surfaced-fresh k (m ∷ seen) ms (inr i))
]
  where
    any-false :
        (m k : Message) (seen : List Message)
        → any (same_bucket m) seen ≡ false
        → In k seen
        → same_bucket m k ≡ false
    any-false m k [] e i = absurd i
    any-false m k (s ∷ seen) e (inl q) = ground (arith, ap (same_bucket m) q)
    any-false m k (s ∷ seen) e (inr i) = any-false m k seen (ground arith) i

surfaced_lem :
    (seen ms : List Message)
    → (length (surfaced seen ms) ≤ length ms)
      × Apart (surfaced seen ms)
      × ((m : Message) → In m (surfaced seen ms) → In m ms)
unfolding surfaced
surfaced_lem seen [] = (omega arith, tt, λ m i. i)
surfaced_lem seen (m ∷ ms) =
    let (few, apart, there) = surfaced_lem seen ms in
    let (few', apart', there') = surfaced_lem (m ∷ seen) ms in
    elim (Bool-cases (any (same_bucket m) seen)) [
      | inl e ↦ rw e (omega (arith, few), apart, λ k i. inr (there k i))
      | inr e ↦ rw e (
        omega (arith, few'),
        (All-not-Together m _ (surfaced-fresh m (m ∷ seen) ms (inl refl)), apart'),
        λ k i. elim i [ inl q ↦ inl q | inr j ↦ inr (there' k j) ],
      )
    ]

module _ (fts : TextSearch) (call : Call) (db : Database) where
  -- A message that the call may answer.
  abbrev pub Asked : Message → Type 0
  Asked m =
      In m db.messages
      × (m.tenant_id ≡ call.tenant_id)
      × ((s : Session) × In s db.sessions × (s.id ≡ m.session_id) × (s.user_id ≡ call.user_id))
      × (call.min_content_length < length m.content)
      × (fts.matches call.query m.content ≡ true)

  -- A message of the tenant in the session of `m`, within five minutes of it.
  abbrev pub Around : Message → Message → Type 0
  Around m k =
      In k db.messages
      × (k.session_id ≡ m.session_id)
      × (k.tenant_id ≡ call.tenant_id)
      × (m.created_at ≤ k.created_at + 300)
      × (k.created_at ≤ m.created_at + 300)

  -- A snippet of the call.
  abbrev pub OfCall : Snippet → Type 0
  OfCall s =
      Asked s.matched
      × (length s.messages ≤ call.context_window * 2 + 1)
      × ((k : Message) → In k s.messages → Around s.matched k)

  is_match-Asked :
      (m : Message) → In m db.messages → is_match fts call db.sessions m ≡ true → Asked m
  unfolding is_match
  is_match-Asked m i e = (
    i,
    (str_eq_iff m.tenant_id call.tenant_id).0 (ground arith),
    of_user-Session call.user_id db.sessions m (ground arith),
    ground arith,
    ground arith,
  )

  in_context-Around :
      (m k : Message) → In k db.messages → in_context call.tenant_id m k ≡ true → Around m k
  unfolding in_context near
  in_context-Around m k i e = (
    i,
    (str_eq_iff k.session_id m.session_id).0 (ground arith),
    (str_eq_iff k.tenant_id call.tenant_id).0 (ground arith),
    ground arith,
    ground arith,
  )

  context-In :
      (n : ℕ) (m k : Message)
      → In k (context_rows call.tenant_id n m db.messages)
      → In k db.messages × (in_context call.tenant_id m k ≡ true)
  unfolding context_rows
  context-In n m k i =
      In-filter (in_context call.tenant_id m) k db.messages
        (In-sort_by _ k (filter (in_context call.tenant_id m) db.messages) (take-In k n _ i))

  length-context : (n : ℕ) (m : Message) → length (context_rows call.tenant_id n m db.messages) ≤ n
  unfolding context_rows
  length-context n m = omega (
    arith,
    length-take n (
        sort_by (λ (k l : Message). leb k.created_at l.created_at)
          (filter (in_context call.tenant_id m) db.messages)),
  )

  snippet-OfCall : (m : Message) → In m (match_rows fts call db) → OfCall (snippet fts call db m)
  unfolding snippet match_rows
  snippet-OfCall m i =
      let (there, fits) =
        In-filter (is_match fts call db.sessions) m db.messages
          (In-sort_by _ m _ (take-In m call.limit _ i)) in
      (
        is_match-Asked m there fits,
        length-context (call.context_window * 2 + 1) m,
        λ k j.
            let (stored, near_it) = context-In (call.context_window * 2 + 1) m k j in
            in_context-Around m k stored near_it,
      )

  matched-snippets :
      (ms : List Message) → map (λ (s : Snippet). s.matched) (map (snippet fts call db) ms) ≡ ms
  unfolding snippet
  matched-snippets [] = refl
  matched-snippets (m ∷ ms) = ap (◌∷◌ m) (matched-snippets ms)

  abbrev pub Answers : List Snippet → Type 0
  Answers ss =
      (length ss ≤ call.limit)
      × Apart (map (λ (s : Snippet). s.matched) ss)
      × ((s : Snippet) → In s ss → OfCall s)

  limited : length (match_rows fts call db) ≤ call.limit
  unfolding match_rows
  limited = omega (
    arith,
    length-take call.limit (sort_by _ (filter (is_match fts call db.sessions) db.messages)),
  )

  answered : Answers (map (snippet fts call db) (surfaced [] (match_rows fts call db)))
  answered =
      let (few, apart, there) = surfaced_lem [] (match_rows fts call db) in
      (
        omega (
          arith,
          few,
          length-map (surfaced [] (match_rows fts call db)) (snippet fts call db),
          limited,
        ),
        subst Apart (sym (matched-snippets (surfaced [] (match_rows fts call db)))) apart,
        λ s i.
            let (m, j, q) =
              In-map (snippet fts call db) s (surfaced [] (match_rows fts call db)) i in
            subst OfCall (sym q) (snippet-OfCall m (there m j)),
      )

  -- A search answers at most `limit` snippets, no two of one session and of the same ten minutes of
  -- the clock. Each is of a stored message of the tenant in a session of the user, longer than the
  -- minimum, that Postgres matches with the query. A snippet has at most `2 * context_window + 1`
  -- messages, all stored, of the tenant, in the session of its match and within five minutes of it.
  pub search-OfCall : Answers (search fts call db)
  unfolding search
  search-OfCall = elim (Bool-cases (is_nil (strip call.query))) [
    | inl e ↦ rw e (omega arith, tt, λ s i. absurd i)
    | inr e ↦ elim (Bool-cases fts.up) [
      | inl u ↦ rw (e, u) answered
      | inr u ↦ rw (e, u) (omega arith, tt, λ s i. absurd i)
    ]
  ]
