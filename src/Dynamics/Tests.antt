-- ===== src/Dynamics/Tests.antt =====
-- Decimal fractions without a sign in place of the floats, and a memory that is reviewed with them.
use my_palace.Common.{
  ℕ, ◌+◌, ◌-◌, ◌*◌, ◌/◌, ◌^◌, ◌≡◌, refl, Bool, true, false, Option, none, some, [], ◌∷◌, ltb, leb,
  ◌==◌, if◌then◌else◌, arith,
}
use my_palace.Dynamics.Floats.{Floats, Laws}
use my_palace.Dynamics.Fsrs.{good, MemoryState, default_params, review}
use my_palace.Dynamics.Fsrs.Bounds.{Bounded, review-Bounded}
use my_palace.Dynamics.Service.{MemoryDynamics, Store, promote}
use my_palace.Dynamics.Service.Promoted.{Call, Promotes, promote-Promotes}

abbrev pub fraction_lt : ℕ × ℕ → ℕ × ℕ → Bool
fraction_lt (a, e) (b, f) = ltb (a * 10 ^ f) (b * 10 ^ e)

abbrev pub fraction_le : ℕ × ℕ → ℕ × ℕ → Bool
fraction_le (a, e) (b, f) = leb (a * 10 ^ f) (b * 10 ^ e)

abbrev pub fraction_eq : ℕ × ℕ → ℕ × ℕ → Bool
fraction_eq (a, e) (b, f) = a * 10 ^ f == b * 10 ^ e

abbrev pub fraction_add : ℕ × ℕ → ℕ × ℕ → ℕ × ℕ
fraction_add (a, e) (b, f) = (a * 10 ^ f + b * 10 ^ e, e + f)

abbrev pub fraction_sub : ℕ × ℕ → ℕ × ℕ → ℕ × ℕ
fraction_sub (a, e) (b, f) = (a * 10 ^ f - b * 10 ^ e, e + f)

abbrev pub fraction_mul : ℕ × ℕ → ℕ × ℕ → ℕ × ℕ
fraction_mul (a, e) (b, f) = (a * b, e + f)

-- To four digits.
abbrev pub fraction_div : ℕ × ℕ → ℕ × ℕ → Option (ℕ × ℕ)
fraction_div (a, e) (b, f) = if b == 0 then none else some (a * 10 ^ (f + 4) / (b * 10 ^ e), 4)

abbrev pub fractions : Floats
fractions = record {
  F = ℕ × ℕ;
  decimal = λ m e. (m, e);
  lt = fraction_lt;
  le = fraction_le;
  eq = fraction_eq;
  add = fraction_add;
  sub = fraction_sub;
  mul = fraction_mul;
  neg = λ x. x;
  div = fraction_div;
  exp = λ x. some (fraction_add (1, 0) x);
  pow = λ x y. some x;
  days = λ a b. ((a - b) * 10 ^ 4 / 86_400, 4);
}

fraction-asym : (a b : ℕ × ℕ) → fraction_lt a b ≡ true → fraction_lt b a ≡ false
fraction-asym (a, e) (b, f) h = ground arith

fraction_laws : Laws fractions
fraction_laws = record { asym = fraction-asym; decimal_lt = λ a e b f _ _ _ _. refl }

abbrev new_state : MemoryState fractions
new_state = record {
  stability = (1, 0);
  difficulty = (5, 0);
  retrieval_strength = (1, 0);
  storage_strength = (5, 1);
  last_review = none;
  review_count = 0;
}

review-Bounded_example : Bounded fractions new_state good 90_000 (record {
  stability = (23_065, 4);
  difficulty = (474_650_000, 8);
  retrieval_strength = (1, 0);
  storage_strength = (65_000, 5);
  last_review = some 90_000;
  review_count = 1;
})
unfolding review default_params
review-Bounded_example =
    review-Bounded fractions fraction_laws new_state good 90_000
      (record {
        new_state = record {
          stability = (23_065, 4);
          difficulty = (474_650_000, 8);
          retrieval_strength = (1, 0);
          storage_strength = (65_000, 5);
          last_review = some 90_000;
          review_count = 1;
        };
        retrievability_before = (1, 0);
        next_review_days = (23_065, 4);
      })
      refl

abbrev row : MemoryDynamics fractions
row = record {
  memory_id = "m1";
  tenant_id = "acme";
  user_id = "u1";
  stability = (23_065, 4);
  difficulty = (2, 0);
  retrieval_strength = (1, 0);
  storage_strength = (65, 2);
  is_key = false;
  importance_weight = (1, 0);
  category = none;
  tags = none;
  last_accessed_at = some 90_000;
  access_count = 1;
  created_at = 90_000;
  updated_at = 90_000;
}

abbrev store : Store fractions
store = record { rows = row ∷ record row { memory_id = "m2" } ∷ []; logs = [] }

abbrev call : Call fractions
call = record {
  env = record { now = 180_000; fresh_id = "l1" };
  memory_id = "m1";
  user_id = "u1";
  grade = 1;
  signal_type = "user_correction";
  tenant_id = "acme";
}

promote-Promotes_example :
    Promotes fractions call store
      (promote fractions call.env "m1" "u1" 1 "user_correction" "acme" store)
promote-Promotes_example = promote-Promotes fractions fraction_laws call store
