-- ===== src/Dynamics/Fsrs.antt =====
-- mypalace/dynamics/fsrs.py: the FSRS-6 formulas over the floats. None is a call that raises.
pub mod Bounds
use my_palace.Common.{
  ℕ, zero, suc, ◌+◌, Bool, true, false, String, Option, none, some, List, [], ◌∷◌, ◌==◌, str_eq,
  if◌then◌else◌,
}
use my_palace.Dynamics.Floats.{Floats, ◌>>=◌, whole, float_max, float_min}

pub data Grade : Type 0 where
  again : Grade
  hard : Grade
  good : Grade
  easy : Grade

abbrev pub value : Grade → ℕ
value again = 1
value hard = 2
value good = 3
value easy = 4

-- `Grade(n)`, which raises on any other number
pub grade_of : ℕ → Option Grade
grade_of n =
    if n == 1
    then some again
    else if n == 2
    then some hard
    else if n == 3
    then some good
    else if n == 4
    then some easy
    else none

abbrev signal_grades : List (String × Grade)
signal_grades =
    ("used_in_response", good)
    ∷ ("mentioned_by_user", easy)
    ∷ ("user_correction", again)
    ∷ ("task_completed", easy)
    ∷ ("explicit_recall", good)
    ∷ ("contradiction_detected", again)
    ∷ ("implicit_reference", good)
    ∷ ("partial_recall", hard)
    ∷ []

grade_in : List (String × Grade) → String → Grade
grade_in [] signal_type = good
grade_in ((s, g) ∷ gs) signal_type =
    let rest = grade_in gs signal_type in if str_eq s signal_type then g else rest

pub infer_grade_from_signal : String → Grade
unfolding grade_in
infer_grade_from_signal = grade_in signal_grades

-- The parameters in units of 1 / 10000.
default_weights : List ℕ
default_weights =
    2_120 ∷ 12_931 ∷ 23_065 ∷ 82_956 ∷ 64_133 ∷ 8_334 ∷ 30_194 ∷ 10 ∷ 18_722 ∷ 1_666 ∷ 7_960
    ∷ 14_835 ∷ 614 ∷ 2_629 ∷ 16_483 ∷ 6_014 ∷ 18_729 ∷ 5_425 ∷ 912 ∷ 658 ∷ 1_542 ∷ []

nth : List ℕ → ℕ → ℕ
nth [] n = 0
nth (x ∷ xs) zero = x
nth (x ∷ xs) (suc n) = nth xs n

module _ (fl : Floats) where
  -- `w`, by the index
  abbrev pub FsrsParams : Type 0
  FsrsParams = ℕ → fl.F

  unfoldable pub default_params : FsrsParams
  unfolding default_weights nth
  default_params n = fl.decimal (nth default_weights n) 4

  pub record MemoryState : Type 0 where
    pub stability : fl.F
    pub difficulty : fl.F
    pub retrieval_strength : fl.F
    pub storage_strength : fl.F
    pub last_review : Option ℕ
    pub review_count : ℕ

  pub record ReviewResult : Type 0 where
    pub new_state : MemoryState
    pub retrievability_before : fl.F
    pub next_review_days : fl.F

  -- retrievability
  unfoldable pub retrievability : fl.F → fl.F → fl.F → Option fl.F
  retrievability days_elapsed stability w20 =
      if fl.le days_elapsed (whole fl 0)
      then some (whole fl 1)
      else if fl.le stability (whole fl 0)
      then some (whole fl 0)
      else (do
        inverse ← fl.div (fl.neg (whole fl 1)) w20
        power ← fl.pow (fl.decimal 9 1) inverse
        ratio ← fl.div (fl.mul (fl.sub power (whole fl 1)) days_elapsed) stability
        fl.pow (fl.add (whole fl 1) ratio) (fl.neg w20))

  -- initial_stability
  pub initial_stability : Grade → FsrsParams → fl.F
  initial_stability again w = w 0
  initial_stability hard w = w 1
  initial_stability good w = w 2
  initial_stability easy w = w 3

  -- _constrain_difficulty
  pub constrain_difficulty : fl.F → fl.F
  constrain_difficulty d = float_max fl (whole fl 1) (float_min fl (whole fl 10) d)

  -- `grade.value - n`
  pub grade_less : Grade → ℕ → fl.F
  grade_less g n = fl.sub (whole fl (value g)) (whole fl n)

  -- initial_difficulty
  pub initial_difficulty : Grade → FsrsParams → Option fl.F
  unfolding constrain_difficulty grade_less
  initial_difficulty g w = do
    e ← fl.exp (fl.mul (w 5) (grade_less g 1))
    some (constrain_difficulty (fl.add (fl.sub (w 4) e) (whole fl 1)))

  -- _mean_reversion
  pub mean_reversion : fl.F → FsrsParams → fl.F
  mean_reversion d w = fl.add (fl.mul (w 13) (w 4)) (fl.mul (fl.sub (whole fl 1) (w 13)) d)

  pub update_difficulty : fl.F → Grade → FsrsParams → fl.F
  unfolding constrain_difficulty grade_less mean_reversion
  update_difficulty current_difficulty g w =
      constrain_difficulty
        (mean_reversion (fl.add current_difficulty (fl.mul (w 11) (grade_less g 3))) w)

  pub bonus : Grade → FsrsParams → fl.F
  bonus hard w = w 9
  bonus easy w = w 10
  bonus _ w = whole fl 1

  pub update_stability_success : fl.F → fl.F → fl.F → Grade → FsrsParams → Option fl.F
  unfolding bonus
  update_stability_success stability difficulty r g w = do
    stability_factor ← fl.exp (w 6)
    stability_decay ← fl.pow stability (fl.neg (w 7))
    e ← fl.exp (fl.mul (w 8) (fl.sub (whole fl 1) r))
    let difficulty_factor = fl.sub (whole fl 11) difficulty
    let retrievability_factor = fl.sub e (whole fl 1)
    let growth =
        fl.mul
          (fl.mul (fl.mul (fl.mul stability_factor difficulty_factor) stability_decay)
            retrievability_factor)
          (bonus g w)
    some (float_max fl (fl.decimal 1 1) (fl.mul stability (fl.add (whole fl 1) growth)))

  pub update_stability_failure : fl.F → fl.F → fl.F → FsrsParams → Option fl.F
  update_stability_failure stability difficulty r w = do
    difficulty_factor ← fl.pow difficulty (fl.neg (w 15))
    power ← fl.pow (fl.add stability (whole fl 1)) (w 16)
    retrievability_factor ← fl.exp (fl.mul (w 17) (fl.sub (whole fl 1) r))
    let stability_factor = fl.sub power (whole fl 1)
    let new_stability =
        fl.mul (fl.mul (fl.mul (w 14) difficulty_factor) stability_factor) retrievability_factor
    some (float_max fl (fl.decimal 1 1) (float_min fl new_stability stability))

  -- The boost of the retrieval strength, and the gain of the storage strength for a bonus, of a
  -- successful recall.
  pub boost : Grade → fl.F
  boost hard = fl.decimal 5 1
  boost good = fl.decimal 7 1
  boost _ = fl.decimal 9 1

  pub gain : Grade → fl.F → fl.F
  gain hard b = fl.add (fl.decimal 1 1) (fl.mul (fl.decimal 1 1) b)
  gain good b = fl.add (fl.decimal 15 2) (fl.mul (fl.decimal 15 2) b)
  gain _ b = fl.add (fl.decimal 1 1) (fl.mul (fl.decimal 5 2) b)

  -- The new strengths, from the decayed retrieval strength and the storage strength.
  pub strengths : Grade → fl.F → fl.F → fl.F × fl.F
  unfolding boost gain
  strengths again decayed storage = (fl.decimal 3 1, fl.add storage (fl.decimal 5 2))
  strengths g decayed storage =
      let difficulty_bonus = float_max fl (whole fl 0) (fl.sub (whole fl 1) decayed) in
      (
        float_min fl (whole fl 1) (fl.add decayed (boost g)),
        float_min fl (whole fl 1) (fl.add storage (gain g difficulty_bonus)),
      )

  pub update_dual_strength : fl.F → fl.F → Grade → fl.F → Option (fl.F × fl.F)
  unfolding strengths
  update_dual_strength retrieval storage g elapsed_days = do
    slowing ← fl.div (whole fl 1) (fl.add (whole fl 1) storage)
    e ← fl.exp (fl.mul (fl.neg (fl.mul (fl.decimal 1 1) slowing)) elapsed_days)
    some (strengths g (fl.mul retrieval e) storage)

  pub elapsed : Option ℕ → ℕ → fl.F
  elapsed none now = whole fl 0
  elapsed (some t) now = fl.days now t

  pub current_retrievability : ℕ → fl.F → fl.F → FsrsParams → Option fl.F
  unfolding retrievability
  current_retrievability zero elapsed_days stability w = some (whole fl 1)
  current_retrievability (suc n) elapsed_days stability w =
      retrievability elapsed_days stability (w 20)

  pub next_difficulty : ℕ → fl.F → Grade → FsrsParams → Option fl.F
  unfolding initial_difficulty update_difficulty
  next_difficulty zero difficulty g w = initial_difficulty g w
  next_difficulty (suc n) difficulty g w = some (update_difficulty difficulty g w)

  pub next_stability : ℕ → fl.F → fl.F → fl.F → Grade → FsrsParams → Option fl.F
  unfolding initial_stability update_stability_failure update_stability_success
  next_stability zero stability difficulty r g w = some (initial_stability g w)
  next_stability (suc n) stability difficulty r again w =
      update_stability_failure stability difficulty r w
  next_stability (suc n) stability difficulty r g w =
      update_stability_success stability difficulty r g w

  unfoldable pub review : MemoryState → Grade → ℕ → FsrsParams → Option ReviewResult
  unfolding elapsed current_retrievability next_difficulty next_stability update_dual_strength
  review st g review_time w = do
    r ← current_retrievability st.review_count (elapsed st.last_review review_time) st.stability w
    difficulty ← next_difficulty st.review_count st.difficulty g w
    stability ← next_stability st.review_count st.stability st.difficulty r g w
    strength ←
        update_dual_strength st.retrieval_strength st.storage_strength g
          (elapsed st.last_review review_time)
    some (record {
      new_state = record {
        stability = stability;
        difficulty = difficulty;
        retrieval_strength = strength.0;
        storage_strength = strength.1;
        last_review = some review_time;
        review_count = suc st.review_count;
      };
      retrievability_before = r;
      next_review_days = stability;
    })

  -- calculate_memory_score
  unfoldable pub calculate_memory_score : fl.F → fl.F → fl.F → fl.F
  calculate_memory_score r storage_strength importance_weight =
      fl.mul (fl.add (fl.mul (fl.decimal 7 1) r) (fl.mul (fl.decimal 3 1) storage_strength))
        importance_weight
