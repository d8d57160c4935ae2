-- ===== src/Topics/Dedupe.antt =====
-- _dedupe_topics of mypalace/topic_service.py: one topic for each name, the heaviest.
use my_palace.Common.{
  ℕ, zero, suc, ◌≤◌, ◌≡◌, refl, sym, ap, ◌∙◌, subst, ◌⊎◌, inl, inr, Bool, true, false, List, [],
  ◌∷◌, map, any, take, ltb, text_eq, text_eq→≡, Codes, All, All-In, In, arith, Bool-cases,
  if◌then◌else◌,
}
use my_palace.Topics.{Topic, weight_order, seen_with, dedupe_onto, dedupe_topics}

-- No two topics have one name.
abbrev pub Distinct : List Codes → Type 0
Distinct [] = Unit {0}
Distinct (t ∷ ts) = (any (text_eq t) ts ≡ false) × Distinct ts

abbrev pub topics : List Topic → List Codes
topics = map λ t. t.topic

-- The heavier of two topics of one name has that name.
chosen-topic : (b : Bool) (t k : Topic) → k.topic ≡ t.topic → (if b then t else k).topic ≡ k.topic
chosen-topic true t k e = sym e
chosen-topic false t k e = refl

module _ (P : Topic → Type 0) where
  chosen : (b : Bool) (t k : Topic) → P t → P k → P (if b then t else k)
  chosen true t k p q = p
  chosen false t k p q = q

  seen_with-All : (t : Topic) (seen : List Topic) → P t → All P seen → All P (seen_with t seen)
  unfolding seen_with
  seen_with-All t [] p a = (p, tt)
  seen_with-All t (k ∷ seen) p a = elim (Bool-cases (text_eq k.topic t.topic)) [
    | inl e ↦ rw e (chosen _ t k p a.0, a.1)
    | inr e ↦ rw e (a.0, seen_with-All t seen p a.1)
  ]

  pub dedupe_onto-All : (seen ts : List Topic) → All P seen → All P ts → All P (dedupe_onto seen ts)
  unfolding dedupe_onto
  dedupe_onto-All seen [] a h = a
  dedupe_onto-All seen (t ∷ ts) a h =
      dedupe_onto-All (seen_with t seen) ts (seen_with-All t seen h.0 a) h.1

  pub take-All : (n : ℕ) (ts : List Topic) → All P ts → All P (take n ts)
  take-All zero ts h = tt
  take-All (suc n) [] h = tt
  take-All (suc n) (t ∷ ts) h = (h.0, take-All n ts h.1)

-- A new topic takes no other name.
any-seen_with :
    (n : Codes) (t : Topic) (seen : List Topic)
    → text_eq n t.topic ≡ false
    → any (text_eq n) (topics (seen_with t seen)) ≡ any (text_eq n) (topics seen)
unfolding seen_with
any-seen_with n t [] h = ground arith
any-seen_with n t (k ∷ seen) h = elim (Bool-cases (text_eq k.topic t.topic)) [
  | inl e ↦ rw (e, chosen-topic _ t k (text_eq→≡ k.topic t.topic e))
  | inr e ↦ rw (e, any-seen_with n t seen h)
]

seen_with-Distinct :
    (t : Topic) (seen : List Topic) → Distinct (topics seen) → Distinct (topics (seen_with t seen))
unfolding seen_with
seen_with-Distinct t [] d = (refl, tt)
seen_with-Distinct t (k ∷ seen) d = elim (Bool-cases (text_eq k.topic t.topic)) [
  | inl e ↦ rw (e, chosen-topic _ t k (text_eq→≡ k.topic t.topic e)) d
  | inr e ↦ rw e (any-seen_with k.topic t seen e ∙ d.0, seen_with-Distinct t seen d.1)
]

pub dedupe_onto-Distinct :
    (seen ts : List Topic) → Distinct (topics seen) → Distinct (topics (dedupe_onto seen ts))
unfolding dedupe_onto
dedupe_onto-Distinct seen [] d = d
dedupe_onto-Distinct seen (t ∷ ts) d =
    dedupe_onto-Distinct (seen_with t seen) ts (seen_with-Distinct t seen d)

-- The list has a topic of that name that is as heavy.
abbrev pub Covered : List Topic → Topic → Type 0
Covered l t =
    (k : Topic) × In k l
    × (k.topic ≡ t.topic)
    × (weight_order t.emotional_weight ≤ weight_order k.emotional_weight)

chosen-heavier :
    (t k : Topic)
    → (let c =
          if ltb (weight_order k.emotional_weight) (weight_order t.emotional_weight)
          then t
          else k in
        (weight_order k.emotional_weight ≤ weight_order c.emotional_weight)
        × (weight_order t.emotional_weight ≤ weight_order c.emotional_weight))
chosen-heavier t k = ground arith

seen_with-Covered : (t : Topic) (seen : List Topic) → Covered (seen_with t seen) t
unfolding seen_with
seen_with-Covered t [] = (t, inl refl, refl, omega arith)
seen_with-Covered t (k ∷ seen) = elim (Bool-cases (text_eq k.topic t.topic)) [
  | inl e ↦ rw e (
    _,
    inl refl,
    chosen-topic _ t k (text_eq→≡ k.topic t.topic e) ∙ text_eq→≡ k.topic t.topic e,
    (chosen-heavier t k).1,
  )
  | inr e ↦ let (c, i, same, heavy) = seen_with-Covered t seen in rw e (c, inr i, same, heavy)
]

-- What was covered stays so.
seen_with-keeps : (t s : Topic) (seen : List Topic) → Covered seen s → Covered (seen_with t seen) s
unfolding seen_with
seen_with-keeps t s [] (k, i, same, heavy) = absurd i
seen_with-keeps t s (k ∷ seen) (c, inl q, same, heavy) =
    elim (Bool-cases (text_eq k.topic t.topic)) [
      | inl e ↦ rw e (
        _,
        inl refl,
        chosen-topic _ t k (text_eq→≡ k.topic t.topic e)
            ∙ ap (λ (x : Topic). x.topic) (sym q)
            ∙ same,
        omega (
          arith,
          (chosen-heavier t k).0,
          heavy,
          ap (λ (x : Topic). weight_order x.emotional_weight) q,
        ),
      )
      | inr e ↦ rw e (c, inl q, same, heavy)
    ]
seen_with-keeps t s (k ∷ seen) (c, inr i, same, heavy) =
    elim (Bool-cases (text_eq k.topic t.topic)) [
      | inl e ↦ rw e (c, inr i, same, heavy)
      | inr e ↦
          let (d, j, same', heavy') = seen_with-keeps t s seen (c, i, same, heavy) in
          rw e (d, inr j, same', heavy')
    ]

dedupe_onto-Covered :
    (s : Topic) (seen ts : List Topic) → Covered seen s ⊎ In s ts → Covered (dedupe_onto seen ts) s
unfolding dedupe_onto
dedupe_onto-Covered s seen [] (inl c) = c
dedupe_onto-Covered s seen [] (inr i) = absurd i
dedupe_onto-Covered s seen (t ∷ ts) (inl c) =
    dedupe_onto-Covered s (seen_with t seen) ts (inl (seen_with-keeps t s seen c))
dedupe_onto-Covered s seen (t ∷ ts) (inr (inl q)) =
    dedupe_onto-Covered s (seen_with t seen) ts
      (inl (subst (Covered (seen_with t seen)) (sym q) (seen_with-Covered t seen)))
dedupe_onto-Covered s seen (t ∷ ts) (inr (inr i)) =
    dedupe_onto-Covered s (seen_with t seen) ts (inr i)

All-In_self :
    (ts : List Topic) (us : List Topic) → ((t : Topic) → In t us → In t ts) → All (λ t. In t ts) us
All-In_self ts [] h = tt
All-In_self ts (u ∷ us) h = (h u (inl refl), All-In_self ts us (λ t i. h t (inr i)))

-- Of a list of topics the deduplication keeps topics of that list, no two of one name, and for
-- every name one that is as heavy as any topic of the list with that name.
pub dedupe_topics-Heaviest :
    (ts : List Topic)
    → Distinct (map (λ t. t.topic) (dedupe_topics ts))
      × ((k : Topic) → In k (dedupe_topics ts) → In k ts)
      × ((t : Topic) → In t ts → Covered (dedupe_topics ts) t)
unfolding dedupe_topics
dedupe_topics-Heaviest ts = (
  dedupe_onto-Distinct [] ts tt,
  λ k i.
      All-In (λ t. In t ts) k (dedupe_onto [] ts)
        (dedupe_onto-All (λ t. In t ts) [] ts tt (All-In_self ts ts (λ t j. j))) i,
  λ t i. dedupe_onto-Covered t [] ts (inr i),
)
