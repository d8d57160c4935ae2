-- ===== src/Dynamics/Service/Promoted.antt =====
-- promote of mypalace/dynamics/service.py, on each of its ends.
use my_palace.Common.{
  ℕ, ◌≡◌, refl, subst, ◌⊎◌, inl, inr, Bool, true, false, ◌&&◌, String, Option, none, some, List, [],
  ◌∷◌, ◌++◌, any, str_eq, str_eq_iff, str_eq_refl, if◌then◌else◌, ok, err, arith, Bool-cases,
  Option-cases, In, In-map, map-In, In-append_left, In-append_right, In-append_cases, find?-some,
}
use my_palace.Dynamics.Floats.{Floats, Laws}
use my_palace.Dynamics.Fsrs.{Grade, grade_of, default_params, ReviewResult, retrievability, review}
use my_palace.Dynamics.Fsrs.Bounds.{Bounded, review-Bounded}
use my_palace.Dynamics.Service.{
  integrity_error, Env, MemoryDynamics, MemoryAccessLog, Store, Answer, names, get_dynamics,
  new_row, inserted, or_inserted, days_since, rated, written, state_of, log_of, committed, graded,
  promoted, promote,
}

&&-true³ : (a b c : Bool) → (a && b && c) ≡ true → (a ≡ true) × (b ≡ true) × (c ≡ true)
&&-true³ a b c h = ground arith

module _ (fl : Floats) where
  -- A call's arguments.
  pub record Call : Type 0 where
    pub env : Env
    pub memory_id : String
    pub user_id : String
    pub grade : ℕ
    pub signal_type : String
    pub tenant_id : String

  abbrev pub Row : Type 0
  Row = MemoryDynamics fl

  -- The row that the call works on: the one that is stored, or a new one under a free id.
  abbrev pub Worked : Call → Store fl → Row → Type 0
  Worked c s k =
      (get_dynamics fl c.memory_id c.user_id c.tenant_id s ≡ some k)
      ⊎ ((k ≡ new_row fl c.env.now c.memory_id c.user_id c.tenant_id false)
          × (any (λ j. str_eq j.memory_id c.memory_id) s.rows ≡ false))

  pub record Promoted (c : Call) (s : Store fl) (r : Row) (s' : Store fl) : Type 0 where
    pub old : Row
    pub grade : Grade
    pub worked : Worked c s old
    pub graded : grade_of c.grade ≡ some grade
    pub reviewed : Bounded fl (state_of fl old) grade c.env.now (state_of fl r)
    pub named : names fl c.memory_id c.user_id c.tenant_id r ≡ true
    pub stored : In r s'.rows
    pub kept : (k : Row) → In k s.rows → str_eq k.memory_id c.memory_id ≡ false → In k s'.rows
    pub known :
        (k : Row)
        → In k s'.rows
        → (k ≡ r) ⊎ (In k s.rows × (str_eq k.memory_id c.memory_id ≡ false))
    pub log : MemoryAccessLog fl
    pub logged : s'.logs ≡ s.logs ++ log ∷ []
    pub log_names :
        (log.memory_id ≡ c.memory_id) × (log.tenant_id ≡ c.tenant_id) × (log.grade ≡ c.grade)

  abbrev pub Promotes : Call → Store fl → Answer fl Row → Type 0
  Promotes c s (err e, s') = s' ≡ s
  Promotes c s (ok r, s') = Promoted c s r s'

  abbrev replaced : Row → Row → Row
  replaced r k = if str_eq k.memory_id r.memory_id then r else k

  written-In :
      (r k : Row) (rows : List Row)
      → In k (written fl r rows)
      → (k ≡ r) ⊎ (In k rows × (str_eq k.memory_id r.memory_id ≡ false))
  written-In r k rows h =
      let (j, i, e) = In-map (replaced r) k rows h in
      elim (Bool-cases (str_eq j.memory_id r.memory_id)) [
        | inl same ↦ inl (ground arith)
        | inr other ↦ inr (
            subst (λ z. In z rows × (str_eq z.memory_id r.memory_id ≡ false)) (ground arith)
              (i, other))
      ]

  In-written :
      (r k : Row) (rows : List Row)
      → In k rows
      → str_eq k.memory_id r.memory_id ≡ false
      → In k (written fl r rows)
  In-written r k rows i e =
      subst (λ z. In z (written fl r rows)) (ground arith) (map-In (replaced r) k rows i)

  In-written_self :
      (r k : Row) (rows : List Row)
      → In k rows
      → str_eq k.memory_id r.memory_id ≡ true
      → In r (written fl r rows)
  In-written_self r k rows i e =
      subst (λ z. In z (written fl r rows)) (ground arith) (map-In (replaced r) k rows i)

  -- What is known before the review: the row stands in a table that the call may commit.
  record Ready (c : Call) (s : Store fl) (k : Row) (s1 : Store fl) : Type 0 where
    worked : Worked c s k
    named : names fl c.memory_id c.user_id c.tenant_id k ≡ true
    standing : In k s1.rows
    before : (j : Row) → In j s.rows → In j s1.rows
    after : (j : Row) → In j s1.rows → str_eq j.memory_id c.memory_id ≡ false → In j s.rows
    logs : s1.logs ≡ s.logs

  Ready-found :
      (c : Call) (s : Store fl) (k : Row)
      → get_dynamics fl c.memory_id c.user_id c.tenant_id s ≡ some k
      → Ready c s k s
  unfolding get_dynamics
  Ready-found c s k e =
      let (i, n) = find?-some (names fl c.memory_id c.user_id c.tenant_id) k s.rows e in
      record {
        worked = inl e;
        named = n;
        standing = i;
        before = λ j h. h;
        after = λ j h _. h;
        logs = refl;
      }

  Ready-new :
      (c : Call) (s : Store fl)
      → any (λ j. str_eq j.memory_id c.memory_id) s.rows ≡ false
      → Ready c s (new_row fl c.env.now c.memory_id c.user_id c.tenant_id false) (record s {
        rows = s.rows ++ new_row fl c.env.now c.memory_id c.user_id c.tenant_id false ∷ [];
      })
  unfolding new_row
  Ready-new c s free =
      let k = new_row fl c.env.now c.memory_id c.user_id c.tenant_id false in
      record {
        worked = inr (refl, free);
        named = rw (str_eq_refl c.memory_id, str_eq_refl c.user_id, str_eq_refl c.tenant_id);
        standing = In-append_right k s.rows (k ∷ []) (inl refl);
        before = λ j h. In-append_left j s.rows (k ∷ []) h;
        after = λ j h e. elim (In-append_cases j s.rows (k ∷ []) h) [
          | inl i ↦ i
          | inr (inl q) ↦ absurd (ground (arith, str_eq_refl c.memory_id))
          | inr (inr no_more) ↦ absurd no_more
        ];
        logs = refl;
      }

  module _ (laws : Laws fl) where
    committed_lem :
        (c : Call) (r : fl.F) (g : Grade) (k : Row) (res : ReviewResult fl) (s s1 : Store fl)
        → Ready c s k s1
        → grade_of c.grade ≡ some g
        → Bounded fl (state_of fl k) g c.env.now res.new_state
        → Promotes c s (committed fl c.env c.grade c.signal_type r k (some res) s s1)
    unfolding committed rated log_of state_of
    committed_lem c r g k res s s1 ready e bounded =
        let new = rated fl c.env.now res.new_state k in
        let names_k = &&-true³ _ _ _ ready.named in
        let same = (str_eq_iff k.memory_id c.memory_id).0 names_k.0 in
        record {
          old = k;
          grade = g;
          worked = ready.worked;
          graded = e;
          reviewed = record {
            easy_enough = bounded.easy_enough;
            hard_enough = bounded.hard_enough;
            lasting = bounded.lasting;
            lapse = bounded.lapse;
            retrieval = bounded.retrieval;
            storage = bounded.storage;
            reviewed = refl;
            counted = omega arith;
          };
          named = ready.named;
          stored = In-written_self new k s1.rows ready.standing (str_eq_refl k.memory_id);
          kept = λ j i other. In-written new j s1.rows (ready.before j i) (rw same other);
          known = λ j i. elim (written-In new j s1.rows i) [
            | inl q ↦ inl q
            | inr (h, other) ↦
                let other' = subst (λ m. str_eq j.memory_id m ≡ false) same other in
                inr (ready.after j h other', other')
          ];
          log = log_of fl c.env c.grade c.signal_type r k;
          logged = rw ready.logs;
          log_names = (same, (str_eq_iff k.tenant_id c.tenant_id).0 names_k.2, refl);
        }

    -- A review either raises, or answers with a bounded state.
    committed_any :
        (c : Call) (r : fl.F) (g : Grade) (k : Row) (m : Option (ReviewResult fl)) (s s1 : Store fl)
        → Ready c s k s1
        → grade_of c.grade ≡ some g
        → review fl (state_of fl k) g c.env.now (default_params fl) ≡ m
        → Promotes c s (committed fl c.env c.grade c.signal_type r k m s s1)
    unfolding committed
    committed_any c r g k none s s1 ready e h = refl
    committed_any c r g k (some res) s s1 ready e h =
        committed_lem c r g k res s s1 ready e
          (review-Bounded fl laws (state_of fl k) g c.env.now res h)

    graded_lem :
        (c : Call) (r : Option fl.F) (g : Option Grade) (k : Row) (s s1 : Store fl)
        → Ready c s k s1
        → grade_of c.grade ≡ g
        → Promotes c s (graded fl c.env c.grade c.signal_type r g k s s1)
    unfolding graded
    graded_lem c none g k s s1 ready e = refl
    graded_lem c (some r) none k s s1 ready e = refl
    graded_lem c (some r) (some g) k s s1 ready e =
        committed_any c r g k (review fl (state_of fl k) g c.env.now (default_params fl)) s s1 ready
          e refl

    promoted_lem :
        (c : Call) (k : Row) (s s1 : Store fl)
        → Ready c s k s1
        → Promotes c s (promoted fl c.env c.grade c.signal_type (ok k) s s1)
    unfolding promoted
    promoted_lem c k s s1 ready =
        graded_lem c
          (retrievability fl (days_since fl k.last_accessed_at c.env.now) k.stability
            (fl.decimal 1_542 4))
          (grade_of c.grade) k s s1 ready refl

    promoted-none :
        (c : Call) (s : Store fl) (taken : Bool)
        → any (λ j. str_eq j.memory_id c.memory_id) s.rows ≡ taken
        → (let k = new_row fl c.env.now c.memory_id c.user_id c.tenant_id false in
            let a : Answer fl Row =
              if taken
              then (err integrity_error, s)
              else (ok k, record s { rows = s.rows ++ k ∷ [] }) in
            Promotes c s (promoted fl c.env c.grade c.signal_type a.0 s a.1))
    unfolding promoted
    promoted-none c s true e = refl
    promoted-none c s false e = promoted_lem c _ s _ (Ready-new c s e)

    -- A `promote` that raises leaves the tables as they were. One that answers worked on the row of
    -- the memory, the user and the tenant, or on a new one under a free id, by a grade from 1 to 4:
    -- the row that it answers is stored with a state that a review bounds, and with one access
    -- more; the rows of other memories are as before and there are no others, and the log has one
    -- more entry, of this memory, tenant and grade.
    pub promote-Promotes :
        (c : Call) (s : Store fl)
        → Promotes c s (promote fl c.env c.memory_id c.user_id c.grade c.signal_type c.tenant_id s)
    unfolding promote or_inserted inserted new_row
    promote-Promotes c s =
        elim (Option-cases (get_dynamics fl c.memory_id c.user_id c.tenant_id s)) [
          | inl e ↦ rw e (promoted-none c s _ refl)
          | inr (k, e) ↦ rw e (promoted_lem c k s s (Ready-found c s k e))
        ]
