-- ===== src/Dynamics/Floats.antt =====
-- Python's floats and the module `math`, as a parameter: the operations, where none is a call that
-- raises, and what is known of the order.
use my_palace.Common.{
  ℕ, ◌*◌, ◌^◌, ◌<◌, ◌≤◌, ◌≡◌, refl, Bool, true, false, Option, none, some, ltb, if◌then◌else◌,
  Bool-cases, subst, ◌⊎◌, inl, inr,
}

pub record Floats : Type 1 where
  pub F : Type 0
  pub decimal : ℕ → ℕ → F  -- m / 10 ^ e, rounded
  pub lt : F → F → Bool
  pub le : F → F → Bool
  pub eq : F → F → Bool
  pub add : F → F → F
  pub sub : F → F → F
  pub mul : F → F → F
  pub neg : F → F
  pub div : F → F → Option F
  pub exp : F → Option F
  pub pow : F → F → Option F
  -- `(a - b).total_seconds() / 86400.0`
  pub days : ℕ → ℕ → F

-- The order of IEEE 754 is asymmetric, also where a number is none; and literals of up to fifteen
-- digits are as their values are.
pub record Laws (fl : Floats) : Type 0 where
  pub asym : (a b : fl.F) → fl.lt a b ≡ true → fl.lt b a ≡ false
  pub decimal_lt :
      (a e b f : ℕ)
      → a < 10 ^ 15
      → b < 10 ^ 15
      → e ≤ 15
      → f ≤ 15
      → fl.lt (fl.decimal a e) (fl.decimal b f) ≡ ltb (a * 10 ^ f) (b * 10 ^ e)

infixl 10 ◌>>=◌
abbrev pub ◌>>=◌ : {A B : Type 0} → Option A → (A → Option B) → Option B
none >>= f = none
some a >>= f = f a

-- What a call answers, when it answers.
abbrev pub Gives : {A : Type 0} → (A → Type 0) → Option A → Type 0
Gives P none = Unit {0}
Gives P (some a) = P a

pub Gives-bind :
    {A B : Type 0} (P : B → Type 0) (m : Option A) (f : A → Option B)
    → ((a : A) → m ≡ some a → Gives P (f a))
    → Gives P (m >>= f)
Gives-bind P none f h = tt
Gives-bind P (some a) f h = h a refl

pub Gives-some : {A : Type 0} (P : A → Type 0) (m : Option A) (a : A) → Gives P m → m ≡ some a → P a
Gives-some P m a g e = subst (Gives P) e g

module _ (fl : Floats) where
  abbrev pub whole : ℕ → fl.F
  whole n = fl.decimal n 0

  -- `max(a, b)`, which answers `a` unless `b > a`
  abbrev pub float_max : fl.F → fl.F → fl.F
  float_max a b = if fl.lt a b then b else a

  -- `min(a, b)`
  abbrev pub float_min : fl.F → fl.F → fl.F
  float_min a b = if fl.lt b a then b else a

  module _ (laws : Laws fl) where
    pub lt_irrefl : (a : fl.F) → fl.lt a a ≡ false
    lt_irrefl a = elim (Bool-cases (fl.lt a a)) [ inl e ↦ laws.asym a a e | inr e ↦ e ]

    -- A maximum is not below its first number, whatever the other is.
    pub float_max-left : (a b : fl.F) → fl.lt (float_max a b) a ≡ false
    float_max-left a b = elim (Bool-cases (fl.lt a b)) [
      | inl e ↦ rw e (laws.asym a b e)
      | inr e ↦ rw e (lt_irrefl a)
    ]

    pub float_min-left : (a b : fl.F) → fl.lt a (float_min a b) ≡ false
    float_min-left a b = elim (Bool-cases (fl.lt b a)) [
      | inl e ↦ rw e (laws.asym b a e)
      | inr e ↦ rw e (lt_irrefl a)
    ]

    -- A maximum is one of its numbers.
    pub float_max-cases : (a b : fl.F) → (float_max a b ≡ a) ⊎ (float_max a b ≡ b)
    float_max-cases a b = elim (Bool-cases (fl.lt a b)) [
      | inl e ↦ inr (rw e refl)
      | inr e ↦ inl (rw e refl)
    ]

    -- A minimum is not above its second number.
    pub float_min-right : (a b : fl.F) → fl.lt b (float_min a b) ≡ false
    float_min-right a b = elim (Bool-cases (fl.lt b a)) [
      | inl e ↦ rw e (lt_irrefl b)
      | inr e ↦ rw e e
    ]
