-- ===== src/Topics/Recurrence/Listed.antt =====
-- Which topics a recurrence query answers.
use my_palace.Common.{
  ℕ, ◌≤◌, ◌≡◌, ◌+◌, ◌*◌, ◌&&◌, str_eq, str_eq_iff, le→leb, refl, sym, ap, ◌∙◌, subst, ◌⊎◌, inl, inr,
  true, false, String, List, [], ◌∷◌, map, filter, any, length, ltb, leb, text_eq, text_eq→≡, Codes,
  In, filter-In, map-In, arith, Bool-cases, length-map, In-sort_by, sort_by-In, length-sort_by,
  length-filter-sort_by, Descending, sort_by-Descending, highest_first, ltb→lt,
}
use my_palace.Dynamics.Floats.{Floats}
use my_palace.Topics.{TopicMention}
use my_palace.Topics.Patterns.{compute_topic_pattern}
use my_palace.Topics.Recurrence.{
  Caller, Sets, Recurring, first_seen, in_window, by_time, group, recurring, recurrences,
  get_recurrence,
}

first_seen-In :
    (t : Codes) (seen ts : List Codes)
    → In t ts
    → any (text_eq t) seen ≡ false
    → In t (first_seen seen ts)
unfolding first_seen
first_seen-In t seen [] i h = i
first_seen-In t seen (u ∷ ts) i h = elim (Bool-cases (any (text_eq u) seen)) [
  | inl e ↦ rw e (first_seen-In t seen ts (old i e) h)
  | inr e ↦
      rw e (new i (Bool-cases (text_eq t u)) (λ j c. first_seen-In t (u ∷ seen) ts j (rw (c, h))))
]
  where
    old : In t (u ∷ ts) → any (text_eq u) seen ≡ true → In t ts
    old (inl q) e = cc (sym h ∙ ap (λ x. any (text_eq x) seen) q ∙ e)
    old (inr j) e = j

    new :
        In t (u ∷ ts)
        → (text_eq t u ≡ true) ⊎ (text_eq t u ≡ false)
        → (In t ts → text_eq t u ≡ false → In t (first_seen (u ∷ seen) ts))
        → In t (u ∷ first_seen (u ∷ seen) ts)
    new (inl q) c later = inl q
    new (inr j) (inl c) later = inl (text_eq→≡ t u c)
    new (inr j) (inr c) later = inr (later j c)

module _ (fl : Floats) where
  count-pattern :
      (ms : List (fl.F × String)) → (compute_topic_pattern fl ms).mention_count ≡ length ms
  unfolding compute_topic_pattern
  count-pattern [] = refl
  count-pattern (m ∷ ms) = refl

  module _ (sets : Sets) (now : ℕ) where
    count-recurring :
        (t : Codes) (items : List (TopicMention fl))
        → (recurring fl sets now t items).mention_count ≡ length items
    unfolding recurring by_time
    count-recurring t items =
        count-pattern _
        ∙ length-map _ (λ r. (r.sentiment, r.emotional_weight))
        ∙ length-sort_by _ items

    topic-recurring :
        (t : Codes) (items : List (TopicMention fl)) → (recurring fl sets now t items).topic ≡ t
    unfolding recurring
    topic-recurring t items = refl

    recurrences-In :
        (min : ℕ) (rows : List (TopicMention fl)) (ts : List Codes) (r : Recurring)
        → In r (recurrences fl sets now min rows ts)
        → (min ≤ r.mention_count) × (r.mention_count ≡ length (group fl r.topic rows))
    unfolding recurrences
    recurrences-In min rows [] r i = absurd i
    recurrences-In min rows (t ∷ ts) r i = elim (Bool-cases (ltb (length (group fl t rows)) min)) [
      | inl e ↦ recurrences-In min rows ts r (rw e at i)
      | inr e ↦ elim (rw e at i) [
        | inl q ↦
            subst
              (λ (x : Recurring).
                (min ≤ x.mention_count) × (x.mention_count ≡ length (group fl x.topic rows)))
              (sym q) (count-of t e)
        | inr j ↦ recurrences-In min rows ts r j
      ]
    ]
      where
        count-of :
            (t' : Codes)
            → ltb (length (group fl t' rows)) min ≡ false
            → (min ≤ (recurring fl sets now t' (group fl t' rows)).mention_count)
              × ((recurring fl sets now t' (group fl t' rows)).mention_count
                  ≡ length (group fl (recurring fl sets now t' (group fl t' rows)).topic rows))
        count-of t' e = rw (count-recurring t' (group fl t' rows)) (
          ground arith,
          ap (λ u. length (group fl u rows)) (sym (topic-recurring t' (group fl t' rows))),
        )

    In-recurrences :
        (min : ℕ) (rows : List (TopicMention fl)) (ts : List Codes) (t : Codes)
        → In t ts
        → min ≤ length (group fl t rows)
        → (r : Recurring) × In r (recurrences fl sets now min rows ts) × (r.topic ≡ t)
    unfolding recurrences
    In-recurrences min rows [] t i h = absurd i
    In-recurrences min rows (u ∷ ts) t (inl q) h =
        elim (Bool-cases (ltb (length (group fl u rows)) min)) [
          | inl e ↦ absurd (
              omega (
                arith,
                ltb→lt (length (group fl u rows)) min e,
                ap (λ x. length (group fl x rows)) q,
              ))
          | inr e ↦ rw e (
            recurring fl sets now u (group fl u rows),
            inl refl,
            topic-recurring u (group fl u rows) ∙ sym q,
          )
        ]
    In-recurrences min rows (u ∷ ts) t (inr i) h =
        let (r, j, same) = In-recurrences min rows ts t i h in
        elim (Bool-cases (ltb (length (group fl u rows)) min)) [
          | inl e ↦ rw e (r, j, same)
          | inr e ↦ rw e (r, inr j, same)
        ]

    -- The rows on a topic of the caller's tenant, user and agent, no older than its days.
    abbrev pub mentions : Caller → Codes → List (TopicMention fl) → List (TopicMention fl)
    mentions c topic table =
        filter (λ k. text_eq k.topic topic)
          (filter
            (λ k.
              str_eq k.tenant_id c.tenant_id
              && str_eq k.user_id c.user_id
              && str_eq k.agent_id c.agent_id
              && leb now (k.created_at + 86_400 * c.lookback_days))
            table)

    -- A query answers, with the topic that comes up most first, a topic of which the table has at
    -- least `min_mentions` rows of the caller's tenant, user and agent that are at most
    -- `lookback_days` days old, with the number of those rows; and it answers the topic of each row
    -- of that tenant, user, agent and time whose topic has so many of them.
    pub get_recurrence-Exact :
        (c : Caller) (table : List (TopicMention fl))
        → (let rs = get_recurrence fl sets now c table in
            Descending (λ (r : Recurring). r.mention_count) rs
            × ((r : Recurring)
                → In r rs
                → (c.min_mentions ≤ r.mention_count)
                  × (r.mention_count ≡ length (mentions c r.topic table)))
            × ((k : TopicMention fl)
                → In k table
                → k.tenant_id ≡ c.tenant_id
                → k.user_id ≡ c.user_id
                → k.agent_id ≡ c.agent_id
                → now ≤ k.created_at + 86_400 * c.lookback_days
                → c.min_mentions ≤ length (mentions c k.topic table)
                → (r : Recurring) × In r rs × (r.topic ≡ k.topic)))
    unfolding get_recurrence by_time in_window
    get_recurrence-Exact c table =
        let rows = filter (in_window fl now c) table in
        let sorted = by_time fl rows in
        let ts = first_seen [] (map (λ (r : TopicMention fl). r.topic) sorted) in
        let found = recurrences fl sets now c.min_mentions sorted ts in
        (
          sort_by-Descending (λ (r : Recurring). r.mention_count) found,
          λ r i.
              let (enough, count) =
                recurrences-In c.min_mentions sorted ts r (In-sort_by _ r found i) in
              (
                enough,
                count
                    ∙ length-filter-sort_by _ (λ (k : TopicMention fl). text_eq k.topic r.topic)
                        rows,
              ),
          λ k i tenant user agent young enough.
              let here =
                sort_by-In (λ (r j : TopicMention fl). leb r.created_at j.created_at) k rows
                  (filter-In (in_window fl now c) k table i (
                    rw
                      (
                        (str_eq_iff k.tenant_id c.tenant_id).1 tenant,
                        (str_eq_iff k.user_id c.user_id).1 user,
                        (str_eq_iff k.agent_id c.agent_id).1 agent,
                        le→leb now (k.created_at + 86_400 * c.lookback_days) young,
                      )
                      refl)) in
              let (r, j, same) =
                In-recurrences c.min_mentions sorted ts k.topic
                  (first_seen-In k.topic [] (map (λ (r : TopicMention fl). r.topic) sorted)
                    (map-In (λ (r : TopicMention fl). r.topic) k sorted here) refl)
                  (omega (
                    arith,
                    enough,
                    length-filter-sort_by (λ (r j : TopicMention fl). leb r.created_at j.created_at)
                        (λ (r : TopicMention fl). text_eq r.topic k.topic) rows,
                  )) in
              (r, sort_by-In (highest_first (λ (r : Recurring). r.mention_count)) r found j, same),
        )
