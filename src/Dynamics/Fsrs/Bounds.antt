-- ===== src/Dynamics/Fsrs/Bounds.antt =====
-- What holds of a memory's state after a review, whatever it was before.
use my_palace.Common.{
  ℕ, zero, suc, ◌≡◌, ◌≢◌, refl, sym, subst, ◌⊎◌, inl, inr, false, Option, none, some, arith,
}
use my_palace.Dynamics.Floats.{
  Floats, Laws, Gives, Gives-bind, Gives-some, whole, float_max, float_min, float_max-left,
  float_max-cases, float_min-left, float_min-right,
}
use my_palace.Dynamics.Fsrs.{
  grade_less, Grade, again, hard, good, easy, FsrsParams, default_params, MemoryState, ReviewResult,
  initial_stability, constrain_difficulty, initial_difficulty, update_difficulty,
  update_stability_success, update_stability_failure, strengths, update_dual_strength, elapsed,
  current_retrievability, next_difficulty, next_stability, review,
}

module _ (fl : Floats) where
  -- `a` is not below `b`, which also holds of a float that is no number.
  abbrev pub NotBelow : fl.F → fl.F → Type 0
  NotBelow a b = fl.lt a b ≡ false

  -- The state that a review leaves.
  pub record Bounded (st : MemoryState fl) (g : Grade) (now : ℕ) (new : MemoryState fl)
      : Type 0 where
    pub easy_enough : NotBelow (whole fl 10) new.difficulty
    pub hard_enough : NotBelow new.difficulty (whole fl 1)
    pub lasting : NotBelow new.stability (fl.decimal 1 1)
    pub lapse :
        g ≡ again
        → st.review_count ≢ 0
        → (new.stability ≡ fl.decimal 1 1) ⊎ NotBelow st.stability new.stability
    pub retrieval : NotBelow (whole fl 1) new.retrieval_strength
    pub storage : g ≢ again → NotBelow (whole fl 1) new.storage_strength
    pub reviewed : new.last_review ≡ some now
    pub counted : new.review_count ≡ suc st.review_count

module _ (fl : Floats) (laws : Laws fl) where
  constrain_difficulty-range :
      (d : fl.F)
      → NotBelow fl (whole fl 10) (constrain_difficulty fl d)
        × NotBelow fl (constrain_difficulty fl d) (whole fl 1)
  unfolding constrain_difficulty
  constrain_difficulty-range d =
      let m = float_min fl (whole fl 10) d in
      (
        elim (float_max-cases fl laws (whole fl 1) m) [
          | inl e ↦
              subst (λ z. NotBelow fl (whole fl 10) z) (sym e)
                (laws.decimal_lt 10 0 1 0 (omega arith) (omega arith) (omega arith) (omega arith))
          | inr e ↦
              subst (λ z. NotBelow fl (whole fl 10) z) (sym e)
                (float_min-left fl laws (whole fl 10) d)
        ],
        float_max-left fl laws (whole fl 1) m,
      )

  next_difficulty-range :
      (n : ℕ) (d : fl.F) (g : Grade) (w : FsrsParams fl)
      → Gives
          (λ d'. NotBelow fl (whole fl 10) d' × NotBelow fl d' (whole fl 1))
          (next_difficulty fl n d g w)
  unfolding next_difficulty initial_difficulty update_difficulty
  next_difficulty-range zero d g w =
      Gives-bind _ (fl.exp (fl.mul (w 5) (grade_less fl g 1))) _ λ e h. constrain_difficulty-range _
  next_difficulty-range (suc n) d g w = constrain_difficulty-range _

  abbrev Lasting : fl.F → Type 0
  Lasting s = NotBelow fl s (fl.decimal 1 1)

  initial_stability-Lasting : (g : Grade) → Lasting (initial_stability fl g (default_params fl))
  unfolding initial_stability default_params
  initial_stability-Lasting again =
      laws.decimal_lt 2_120 4 1 1 (omega arith) (omega arith) (omega arith) (omega arith)
  initial_stability-Lasting hard =
      laws.decimal_lt 12_931 4 1 1 (omega arith) (omega arith) (omega arith) (omega arith)
  initial_stability-Lasting good =
      laws.decimal_lt 23_065 4 1 1 (omega arith) (omega arith) (omega arith) (omega arith)
  initial_stability-Lasting easy =
      laws.decimal_lt 82_956 4 1 1 (omega arith) (omega arith) (omega arith) (omega arith)

  update_stability_success-Lasting :
      (s d r : fl.F) (g : Grade) (w : FsrsParams fl)
      → Gives Lasting (update_stability_success fl s d r g w)
  unfolding update_stability_success
  update_stability_success-Lasting s d r g w = Gives-bind Lasting (fl.exp (w 6)) _ λ a i.
      Gives-bind Lasting (fl.pow s (fl.neg (w 7))) _ λ b j.
        Gives-bind Lasting (fl.exp (fl.mul (w 8) (fl.sub (whole fl 1) r))) _
          λ c k. float_max-left fl laws _ _

  -- Not below 0.1, and 0.1 or not above the old one.
  abbrev Lapsed : fl.F → fl.F → Type 0
  Lapsed s s' = Lasting s' × ((s' ≡ fl.decimal 1 1) ⊎ NotBelow fl s s')

  lapse-Lapsed : (n s : fl.F) → Lapsed s (float_max fl (fl.decimal 1 1) (float_min fl n s))
  lapse-Lapsed n s =
      let m = float_min fl n s in
      (
        float_max-left fl laws (fl.decimal 1 1) m,
        elim (float_max-cases fl laws (fl.decimal 1 1) m) [
          | inl e ↦ inl e
          | inr e ↦ inr (subst (λ z. NotBelow fl s z) (sym e) (float_min-right fl laws n s))
        ],
      )

  update_stability_failure-Lapsed :
      (s d r : fl.F) (w : FsrsParams fl) → Gives (Lapsed s) (update_stability_failure fl s d r w)
  unfolding update_stability_failure
  update_stability_failure-Lapsed s d r w =
      Gives-bind (Lapsed s) (fl.pow d (fl.neg (w 15))) _ λ a i.
        Gives-bind (Lapsed s) (fl.pow (fl.add s (whole fl 1)) (w 16)) _ λ b j.
          Gives-bind (Lapsed s) (fl.exp (fl.mul (w 17) (fl.sub (whole fl 1) r))) _
            λ c k. lapse-Lapsed _ s

  -- What a review does to the stability.
  abbrev Steady : ℕ → Grade → fl.F → fl.F → Type 0
  Steady n g s s' = Lasting s' × (g ≡ again → n ≢ 0 → (s' ≡ fl.decimal 1 1) ⊎ NotBelow fl s s')

  Steady-succeeded :
      (n : ℕ) (g : Grade) (s : fl.F) (m : Option fl.F)
      → g ≢ again
      → Gives Lasting m
      → Gives (Steady n g s) m
  Steady-succeeded n g s none ne h = tt
  Steady-succeeded n g s (some s') ne h = (h, λ e. absurd (ne e))

  Steady-failed :
      (n : ℕ) (g : Grade) (s : fl.F) (m : Option fl.F) → Gives (Lapsed s) m → Gives (Steady n g s) m
  Steady-failed n g s none h = tt
  Steady-failed n g s (some s') h = (h.0, λ e k. h.1)

  next_stability-Steady :
      (n : ℕ) (s d r : fl.F) (g : Grade)
      → Gives (Steady n g s) (next_stability fl n s d r g (default_params fl))
  unfolding next_stability
  next_stability-Steady zero s d r g = (initial_stability-Lasting g, λ e k. absurd (k refl))
  next_stability-Steady (suc n) s d r again =
      Steady-failed (suc n) again s _ (update_stability_failure-Lapsed s d r (default_params fl))
  next_stability-Steady (suc n) s d r hard =
      Steady-succeeded (suc n) hard s _ (λ e. ground arith)
        (update_stability_success-Lasting s d r hard (default_params fl))
  next_stability-Steady (suc n) s d r good =
      Steady-succeeded (suc n) good s _ (λ e. ground arith)
        (update_stability_success-Lasting s d r good (default_params fl))
  next_stability-Steady (suc n) s d r easy =
      Steady-succeeded (suc n) easy s _ (λ e. ground arith)
        (update_stability_success-Lasting s d r easy (default_params fl))

  abbrev Capped : Grade → fl.F × fl.F → Type 0
  Capped g p = NotBelow fl (whole fl 1) p.0 × (g ≢ again → NotBelow fl (whole fl 1) p.1)

  strengths-Capped :
      (g : Grade) (decayed storage : fl.F) → Capped g (strengths fl g decayed storage)
  unfolding strengths
  strengths-Capped again decayed storage = (
    laws.decimal_lt 1 0 3 1 (omega arith) (omega arith) (omega arith) (omega arith),
    λ ne. absurd (ne refl),
  )
  strengths-Capped hard decayed storage =
      (float_min-left fl laws _ _, λ ne. float_min-left fl laws _ _)
  strengths-Capped good decayed storage =
      (float_min-left fl laws _ _, λ ne. float_min-left fl laws _ _)
  strengths-Capped easy decayed storage =
      (float_min-left fl laws _ _, λ ne. float_min-left fl laws _ _)

  update_dual_strength-Capped :
      (retrieval storage : fl.F) (g : Grade) (days : fl.F)
      → Gives (Capped g) (update_dual_strength fl retrieval storage g days)
  unfolding update_dual_strength
  update_dual_strength-Capped retrieval storage g days =
      Gives-bind (Capped g) (fl.div (whole fl 1) (fl.add (whole fl 1) storage)) _ λ slowing i.
        Gives-bind (Capped g) (fl.exp (fl.mul (fl.neg (fl.mul (fl.decimal 1 1) slowing)) days)) _
          λ e j. strengths-Capped g _ storage

  review-Gives :
      (st : MemoryState fl) (g : Grade) (now : ℕ)
      → Gives
          (λ (r : ReviewResult fl). Bounded fl st g now r.new_state)
          (review fl st g now (default_params fl))
  unfolding review
  review-Gives st g now =
      let w = default_params fl in
      let P = λ (r : ReviewResult fl). Bounded fl st g now r.new_state in
      let days = elapsed fl st.last_review now in
      Gives-bind P (current_retrievability fl st.review_count days st.stability w) _ λ r i.
        Gives-bind P (next_difficulty fl st.review_count st.difficulty g w) _ λ difficulty j.
          Gives-bind P (next_stability fl st.review_count st.stability st.difficulty r g w) _
            λ stability k.
              Gives-bind P
                (update_dual_strength fl st.retrieval_strength st.storage_strength g days) _
                λ strength l.
                  let ranged =
                    Gives-some _ _ difficulty
                      (next_difficulty-range st.review_count st.difficulty g w) j in
                  let steady =
                    Gives-some _ _ stability
                      (next_stability-Steady st.review_count st.stability st.difficulty r g) k in
                  let capped =
                    Gives-some _ _ strength
                      (update_dual_strength-Capped st.retrieval_strength st.storage_strength g days)
                      l in
                  record {
                    easy_enough = ranged.0;
                    hard_enough = ranged.1;
                    lasting = steady.0;
                    lapse = steady.1;
                    retrieval = capped.0;
                    storage = capped.1;
                    reviewed = refl;
                    counted = refl;
                  }

  -- A review with the default parameters that answers leaves a difficulty from 1 to 10, a stability
  -- of at least 0.1 and a retrieval strength of at most 1, whatever the state was, and a storage
  -- strength of at most 1 unless the grade is AGAIN. That grade leaves a memory that was reviewed
  -- before with a stability of 0.1 or one that is not above the old. The review is dated and counted.
  -- Here a float that is no number counts as at most and at least any other.
  pub review-Bounded :
      (st : MemoryState fl) (g : Grade) (now : ℕ) (res : ReviewResult fl)
      → review fl st g now (default_params fl) ≡ some res
      → Bounded fl st g now res.new_state
  review-Bounded st g now res h =
      Gives-some (λ (r : ReviewResult fl). Bounded fl st g now r.new_state) _ res
        (review-Gives st g now) h
