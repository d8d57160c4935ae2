-- ===== src/Arcs/Synthesis.antt =====
-- What a synthesis leaves of the arcs that there were.
use my_palace.Common.{
  ℕ, ◌≤◌, ◌≡◌, refl, ap, ◌∙◌, subst, inl, inr, Bool, true, false, not, String, Option, none, some,
  List, [], ◌∷◌, ◌++◌, map, filter, length, str_eq, str_eq_iff, str_eq_refl, Codes, All, In, arith,
  Option-cases, if◌then◌else◌, ◌⊎◌, map-In, find?-none,
}
use my_palace.Arcs.{
  strip_json_fences, NarrativeArc, Store, RawArc, Fields, fields_of, Caller, Env, get, names,
  with_fields, update_found, update, synthesized, event_of, object, text, well, committed,
  update_raw, known, aim_of, aimed, stored_one, joined, announced, stored, answered,
  synthesize_narratives, get_active,
}

-- What no synthesis changes of an arc.
abbrev pub Origin : Type 0
Origin = String × String × String × Option String × ℕ

abbrev pub origin : NarrativeArc → Origin
origin a = (a.id, a.tenant_id, a.user_id, a.agent_id, a.created_at)

abbrev pub foreign : String → NarrativeArc → Bool
foreign tenant_id a = not (str_eq a.tenant_id tenant_id)

module _ (env : Env) (c : Caller) where
  -- The origin of an arc that the call creates.
  abbrev pub Created : Origin → Type 0
  Created (i, t, u, a, at) = (t ≡ c.tenant_id) × (u ≡ c.user_id) × (a ≡ c.agent_id) × (at ≡ env.now)

  -- The tables before and after.
  abbrev pub Keeps : List NarrativeArc → List NarrativeArc → Type 0
  Keeps before after =
      (filter (foreign c.tenant_id) after ≡ filter (foreign c.tenant_id) before)
      × ((new : List Origin) × (map origin after ≡ map origin before ++ new) × All Created new)

  module _ (f : Fields) (arc_id : String) where
    abbrev changed : NarrativeArc → NarrativeArc
    changed b = if names arc_id c.tenant_id b then with_fields env.now f b else b

  -- At most so many answers, where there are any.
  abbrev AtMost : ℕ → Option (List NarrativeArc) → Type 0
  AtMost n none = Unit {0}
  AtMost n (some results) = length results ≤ n

  -- What a synthesis comes to: it raises, and has published nothing, or it returns, and has published
  -- an event for each arc that it answers, of which there are at most as many as `most`.
  abbrev pub Ends : ℕ → Store → Option (List NarrativeArc) × Store → Type 0
  Ends most s (o, s') =
      Keeps s.rows s'.rows
      × (((o ≡ none) × (s'.published ≡ s.published))
          ⊎ ((results : List NarrativeArc) × (o ≡ some results)
              × (s'.published ≡ s.published ++ map (event_of c.tenant_id) results)
              × (length results ≤ most)))

  names_own : (a : NarrativeArc) → a.tenant_id ≡ c.tenant_id → names a.id c.tenant_id a ≡ true
  names_own a ours = ground (arith, str_eq_refl a.id, str_eq_iff a.tenant_id c.tenant_id)

  update-In :
      (f : Fields) (a : NarrativeArc) (rows : List NarrativeArc)
      → a.tenant_id ≡ c.tenant_id
      → In a rows
      → In (with_fields env.now f a) (update env.now a.id c.tenant_id f rows).1
  unfolding update update_found get
  update-In f a rows ours i = elim (Option-cases (get a.id c.tenant_id rows)) [
    | inl e ↦ absurd (cc (names_own a ours, find?-none (names a.id c.tenant_id) a rows e i))
    | inr (b, e) ↦ rw e (
        subst (λ x. In x (map (changed f a.id) rows))
          (ap (λ t. if t then with_fields env.now f a else a) (names_own a ours))
          (map-In (changed f a.id) a rows i))
  ]

  update_raw-rows :
      (f : Fields) (a : NarrativeArc) (rows : List NarrativeArc)
      → env.fates 0 ≡ well
      → (joined
          (update_raw env c 0 a.id (some f) rows)
          (some [], (update_raw env c 0 a.id (some f) rows).1)).1
        ≡ (update env.now a.id c.tenant_id f rows).1
  unfolding update_raw committed joined
  update_raw-rows f a rows e = rw e refl

  announced-rows :
      (r : Option (List NarrativeArc) × List NarrativeArc) (s : Store)
      → (announced c.tenant_id r s).1.rows ≡ r.1
  unfolding announced
  announced-rows (none, rows) s = refl
  announced-rows (some results, rows) s = refl

  -- If the model's answer names just one arc, by the id of an arc of the caller's tenant, with texts
  -- where the table wants texts, and the transaction does not raise, that arc is rewritten, whichever
  -- user's and agent's it is.
  pub synthesize_narratives-any_user :
      (raw : Codes) (r : RawArc) (f : Fields) (a : NarrativeArc) (s : Store)
      → env.complete (get_active c.user_id 10 c.tenant_id s.rows) ≡ some raw
      → env.loads (strip_json_fences raw) ≡ some (object r ∷ [])
      → r.existing_id ≡ some (text a.id)
      → str_eq a.id "" ≡ false
      → fields_of r ≡ some f
      → env.fates 0 ≡ well
      → a.tenant_id ≡ c.tenant_id
      → In a s.rows
      → In (with_fields env.now f a) (synthesize_narratives env c s).1.rows
  unfolding synthesize_narratives answered stored synthesized stored_one aimed
  synthesize_narratives-any_user raw r f a s e e' ex some_id texts fine ours i =
      let named : aim_of r.existing_id ≡ known a.id =
        ap aim_of ex ∙ (unfold aim_of in rw some_id refl) in
      rw (e, e')
        (rw (announced-rows (synthesized env c 0 (object r ∷ []) s.rows) s)
          (rw (named, texts, update_raw-rows f a s.rows fine) (update-In f a s.rows ours i)))
