-- ===== src/Topics/Stored.antt =====
-- What an extraction of topics stores, whatever the language model answers.
use mathlib.Core.List.{append-nil}
use my_palace.Common.{
  ℕ, zero, suc, ◌≤◌, ◌≡◌, refl, sym, ap, subst, inl, inr, true, false, String, Option, none, some,
  List, [], ◌∷◌, ◌++◌, map, any, take, length, ltb, elem, text_eq, Codes, All, arith, Bool-cases,
  length-take, lower,
}
use my_palace.Personality.Fences.{strip}
use my_palace.Dynamics.Floats.{Floats}
use my_palace.Topics.{
  RawTopic, Topic, valid_types, valid_weights, text_or_empty, one_of, named_topic, validate_topics,
  dedupe_onto, dedupe_topics, TopicMention, Conversation, Env, mention, mentions, topics_or_empty,
  topics_of, json_text, extract_and_store,
}
use my_palace.Topics.Dedupe.{Distinct, topics, dedupe_onto-All, dedupe_topics-Heaviest, take-All}

-- A topic as the table takes it.
abbrev pub WellFormed : Topic → Type 0
WellFormed t =
    (2 ≤ length t.topic)
    × (elem t.topic_type valid_types ≡ true)
    × (elem t.emotional_weight valid_weights ≡ true)
    × (length t.context_snippet ≤ 100)

one_of-elem :
    (valid : List String) (default : String) (x : Option String)
    → elem default valid ≡ true
    → elem (one_of valid default x) valid ≡ true
unfolding one_of
one_of-elem valid default none h = h
one_of-elem valid default (some x) h = elim (Bool-cases (elem x valid)) [
  | inl e ↦ rw e e
  | inr e ↦ rw e h
]

validate_topics-WellFormed : (ts : List RawTopic) → All WellFormed (validate_topics ts)
unfolding validate_topics named_topic
validate_topics-WellFormed [] = tt
validate_topics-WellFormed (t ∷ ts) =
    let name = lower (strip (text_or_empty t.topic)) in
    elim (Bool-cases (ltb (length name) 2)) [
      | inl e ↦ rw e (validate_topics-WellFormed ts)
      | inr e ↦ rw e (
        (
          ground arith,
          one_of-elem valid_types "theme" t.topic_type refl,
          one_of-elem valid_weights "moderate" t.emotional_weight refl,
          omega (arith, length-take 100 (text_or_empty t.context_snippet)),
        ),
        validate_topics-WellFormed ts,
      )
    ]

any-take :
    (n : Codes) (m : ℕ) (ts : List Topic)
    → any (text_eq n) (topics ts) ≡ false
    → any (text_eq n) (topics (take m ts)) ≡ false
any-take n zero ts h = refl
any-take n (suc m) [] h = refl
any-take n (suc m) (t ∷ ts) h = ground (arith, any-take n m ts)

take-Distinct : (m : ℕ) (ts : List Topic) → Distinct (topics ts) → Distinct (topics (take m ts))
take-Distinct zero ts d = tt
take-Distinct (suc m) [] d = tt
take-Distinct (suc m) (t ∷ ts) d = (any-take t.topic m ts d.0, take-Distinct m ts d.1)

module _ (fl : Floats) (env : Env fl) (c : Conversation fl) where
  -- A row that a call stores.
  abbrev pub OfCall : TopicMention fl → Type 0
  OfCall r =
      (r.tenant_id ≡ c.tenant_id)
      × (r.user_id ≡ c.user_id)
      × (r.agent_id ≡ c.agent_id)
      × (r.created_at ≡ env.now)
      × (2 ≤ length r.topic)
      × (elem r.topic_type valid_types ≡ true)
      × (elem r.emotional_weight valid_weights ≡ true)
      × (length r.context_snippet ≤ 100)

  mentions-topics :
      (n : ℕ) (ts : List Topic)
      → map (λ (r : TopicMention fl). r.topic) (mentions fl env c n ts) ≡ topics ts
  unfolding mentions mention
  mentions-topics n [] = refl
  mentions-topics n (t ∷ ts) = ap (◌∷◌ t.topic) (mentions-topics (suc n) ts)

  length-mentions : (n : ℕ) (ts : List Topic) → length (mentions fl env c n ts) ≡ length ts
  unfolding mentions
  length-mentions n [] = refl
  length-mentions n (t ∷ ts) = ap suc (length-mentions (suc n) ts)

  mentions-OfCall :
      (n : ℕ) (ts : List Topic) → All WellFormed ts → All OfCall (mentions fl env c n ts)
  unfolding mentions mention
  mentions-OfCall n [] h = tt
  mentions-OfCall n (t ∷ ts) h =
      ((refl, refl, refl, refl, h.0.0, h.0.1, h.0.2, h.0.3), mentions-OfCall (suc n) ts h.1)

  topics_of_lem :
      (o : Option Codes)
      → (length (topics_of fl env o) ≤ 3)
        × Distinct (topics (topics_of fl env o))
        × All WellFormed (topics_of fl env o)
  unfolding topics_of dedupe_topics
  topics_of_lem none = (omega arith, tt, tt)
  topics_of_lem (some raw) =
      let ts = validate_topics (topics_or_empty fl (env.loads (json_text raw))) in
      (
        omega (arith, length-take 3 (dedupe_onto [] ts)),
        take-Distinct 3 (dedupe_onto [] ts) (unfold dedupe_topics in (dedupe_topics-Heaviest ts).0),
        take-All WellFormed 3 (dedupe_onto [] ts) (
            dedupe_onto-All WellFormed [] ts tt
              (validate_topics-WellFormed (topics_or_empty fl (env.loads (json_text raw))))),
      )

  -- Whatever the language model answers, an extraction adds at most three rows behind the table and
  -- answers them. They are of the call's tenant, user and agent and of its time, no two are of one
  -- topic, the topic has at least two characters, its kind and weight are ones that there are, and
  -- its snippet has at most a hundred characters.
  extract_and_store-OfCall :
      (rows : List (TopicMention fl))
      → (let new = (extract_and_store fl env c rows).0 in
          ((extract_and_store fl env c rows).1 ≡ rows ++ new)
          × (length new ≤ 3)
          × Distinct (map (λ (r : TopicMention fl). r.topic) new)
          × All OfCall new)
  unfolding extract_and_store
  extract_and_store-OfCall rows =
      let ts = topics_of fl env (env.complete (take 4_000 c.text)) in
      let (few, distinct, formed) = topics_of_lem (env.complete (take 4_000 c.text)) in
      elim (Bool-cases (ltb (length (strip c.text)) 50)) [
        | inl e ↦ rw e (sym (append-nil rows), omega arith, tt, tt)
        | inr e ↦ rw e (
          refl,
          omega (arith, length-mentions 0 ts, few),
          subst Distinct (sym (mentions-topics 0 ts)) distinct,
          mentions-OfCall 0 ts formed,
        )
      ]
