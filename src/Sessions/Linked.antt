-- ===== src/Sessions/Linked.antt =====
-- Messages and the sessions that they belong to.
use my_palace.Common.{
  ℕ, zero, suc, ◌≡◌, refl, sym, ap, ◌∙◌, Bool, true, false, not, ◌&&◌, String, Option, none, some,
  List, [], ◌∷◌, ◌++◌, filter, find?, map, str_eq, str_eq_iff, arith, In, In-filter, filter-In,
  In-map, map-In, In-append_cases, find?-some, if◌then◌else◌, Bool-cases, inl, inr, subst,
}
use my_palace.Sessions.{
  Session, Message, Store, names, within, find_session, get, delete, delete_found, post, posted,
  offer, latest, add_message,
}

-- Every message belongs to a session of its tenant, and ids are the keys of the sessions.
pub record IsLinked (s : Store) : Type 0 where
  pub keyed : (k j : Session) → In k s.sessions → In j s.sessions → k.id ≡ j.id → k ≡ j
  pub owned :
      (m : Message)
      → In m s.messages
      → (k : Session) × In k s.sessions × (k.id ≡ m.session_id) × (k.tenant_id ≡ m.tenant_id)

-- What a `delete` that answers true has done.
pub record Silenced (session_id tenant : String) (s s' : Store) : Type 0 where
  pub gone : get session_id true tenant s' ≡ none
  pub silent : filter (within session_id tenant) s'.messages ≡ []
  pub kept : (m : Message) → In m s.messages → within session_id tenant m ≡ false → In m s'.messages
  pub linked : IsLinked s'

filter-none : (p : Message → Bool) (xs : List Message) → filter p (filter (λ x. not (p x)) xs) ≡ []
filter-none p [] = refl
filter-none p (x ∷ xs) = ground (arith, filter-none p xs)

find?-In :
    (p : Session → Bool) (xs : List Session)
    → ((x : Session) → In x xs → p x ≡ false)
    → find? p xs ≡ none
find?-In p [] h = refl
find?-In p (x ∷ xs) h = rw (h x (inl refl)) (find?-In p xs (λ y i. h y (inr i)))

-- A message outside the deleted session keeps its own one.
still_owned :
    (session : Session) (session_id tenant : String) (s : Store) (m : Message)
    → IsLinked s
    → In session s.sessions
    → names session_id tenant session ≡ true
    → In m s.messages
    → within session_id tenant m ≡ false
    → (k : Session) × In k (filter (λ k. not (str_eq k.id session.id)) s.sessions)
      × (k.id ≡ m.session_id)
      × (k.tenant_id ≡ m.tenant_id)
still_owned session session_id tenant s m linked i named j out =
    let (k, ik, e, t) = linked.owned m j in
    elim (Bool-cases (str_eq k.id session.id)) [
      | inl hit ↦
          let same = linked.keyed k session ik i ((str_eq_iff k.id session.id).0 hit) in
          let here : names session_id tenant k ≡ true =
            subst (λ z. names session_id tenant z ≡ true) (sym same) named in
          let inside : within session_id tenant m ≡ true =
            subst (λ z. (str_eq z session_id && str_eq m.tenant_id tenant) ≡ true) e
              (subst (λ z. (str_eq k.id session_id && str_eq z tenant) ≡ true) t here) in
          absurd (ground arith)
      | inr miss ↦ (k, filter-In _ k s.sessions ik (rw miss refl), e, t)
    ]

-- A session with the deleted id is not left.
names-gone :
    (session : Session) (session_id tenant : String) (s : Store) (k : Session)
    → names session_id tenant session ≡ true
    → In k (filter (λ k. not (str_eq k.id session.id)) s.sessions)
    → names session_id tenant k ≡ false
names-gone session session_id tenant s k named i =
    let (j, away) = In-filter _ k s.sessions i in
    let same : session.id ≡ session_id = (str_eq_iff session.id session_id).0 (ground arith) in
    elim (Bool-cases (names session_id tenant k)) [
      | inl e ↦
          let hit : str_eq k.id session.id ≡ true =
            subst (λ z. str_eq k.id z ≡ true) (sym same) (ground arith) in
          absurd (ground arith)
      | inr e ↦ e
    ]

delete_found-Silenced :
    (found : Option Session) (session_id tenant : String) (s : Store)
    → IsLinked s
    → find_session session_id tenant s ≡ found
    → (delete_found found session_id tenant s).0 ≡ true
    → Silenced session_id tenant s (delete_found found session_id tenant s).1
unfolding delete_found get
delete_found-Silenced none session_id tenant s linked e h = absurd (ground arith)
delete_found-Silenced (some session) session_id tenant s linked e h =
    let (i, named) = find?-some (names session_id tenant) session s.sessions e in
    let none_left =
      find?-In (names session_id tenant) (filter (λ k. not (str_eq k.id session.id)) s.sessions)
        (λ k j. names-gone session session_id tenant s k named j) in
    record {
      gone = rw (none_left, get) refl;
      silent = filter-none (within session_id tenant) s.messages;
      kept = λ m j out. filter-In _ m s.messages j (rw out refl);
      linked = record {
        keyed = λ k j ik ij same.
            linked.keyed k j (In-filter _ k s.sessions ik).0 (In-filter _ j s.sessions ij).0 same;
        owned = λ m j.
            let (im, out) = In-filter _ m s.messages j in
            still_owned session session_id tenant s m linked i named im (ground arith);
      };
    }

-- Where every message belongs to a session and ids are keys, a `delete` that answers true leaves no
-- such session to `get` and none of its messages, keeps every other message, and every message that
-- is left still belongs to a session.
pub delete-Silenced :
    (session_id tenant : String) (s : Store)
    → IsLinked s
    → (delete session_id tenant s).0 ≡ true
    → Silenced session_id tenant s (delete session_id tenant s).1
unfolding delete
delete-Silenced session_id tenant s linked h =
    delete_found-Silenced (find_session session_id tenant s) session_id tenant s linked refl h

-- The mark that a message leaves on its session changes neither ids nor tenants.
mark : Message → Session → Session
mark m k = if names m.session_id m.tenant_id k then record k { updated_at = m.created_at } else k

mark-id :
    (m : Message) (k : Session) → ((mark m k).id ≡ k.id) × ((mark m k).tenant_id ≡ k.tenant_id)
unfolding mark
mark-id m k = ground arith

posted-IsLinked :
    (m : Message) (session : Session) (s : Store)
    → IsLinked s
    → In session s.sessions
    → (session.id ≡ m.session_id) × (session.tenant_id ≡ m.tenant_id)
    → IsLinked (posted m s)
unfolding posted mark
posted-IsLinked m session s linked i own = record {
  keyed = λ k j ik ij same.
      let (k', pk, ek) = In-map (mark m) k s.sessions ik in
      let (j', pj, ej) = In-map (mark m) j s.sessions ij in
      let one = linked.keyed k' j' pk pj (
        sym (mark-id m k').0
        ∙ ap (λ (x : Session). x.id) (sym ek)
        ∙ same
        ∙ ap (λ (x : Session). x.id) ej
        ∙ (mark-id m j').0) in
      ek ∙ ap (mark m) one ∙ sym ej;
  owned = λ n p. elim (In-append_cases n s.messages (m ∷ []) p) [
    | inl old ↦
        let (k, ik, e, t) = linked.owned n old in
        (mark m k, map-In (mark m) k s.sessions ik, (mark-id m k).0 ∙ e, (mark-id m k).1 ∙ t)
    | inr new ↦ owned_new n new
  ];
}
  where
    owned_new :
        (n : Message)
        → In n (m ∷ [])
        → (k : Session) × In k (map (mark m) s.sessions)
          × (k.id ≡ n.session_id)
          × (k.tenant_id ≡ n.tenant_id)
    owned_new n (inl e) = (
      mark m session,
      map-In (mark m) session s.sessions i,
      (mark-id m session).0 ∙ own.0 ∙ sym (ap (λ (x : Message). x.session_id) e),
      (mark-id m session).1 ∙ own.1 ∙ sym (ap (λ (x : Message). x.tenant_id) e),
    )
    owned_new n (inr w) = elim w [ ]

offer-IsLinked :
    (chance : ℕ) (session_id reply tenant : String) (s : Store)
    → IsLinked s
    → IsLinked (offer chance session_id reply tenant s)
unfolding offer latest
offer-IsLinked zero session_id reply tenant s linked = linked
offer-IsLinked (suc n) session_id reply tenant s linked =
    elim (latest (filter (λ m. within session_id tenant m && str_eq m.role "user") s.messages))
      as (λ o. IsLinked (elim o [
        | none ↦ s
        | some m ↦ record s { offered = s.offered ++ (m.content, reply) ∷ [] }
      ])) [ none ↦ linked | some m ↦ record { keyed = linked.keyed; owned = linked.owned } ]

post-IsLinked :
    (found : Option Session) (chance : ℕ) (m : Message) (s : Store)
    → IsLinked s
    → find_session m.session_id m.tenant_id s ≡ found
    → IsLinked (post found chance m s).1
unfolding post
post-IsLinked none chance m s linked e = linked
post-IsLinked (some session) chance m s linked e =
    let (i, named) = find?-some (names m.session_id m.tenant_id) session s.sessions e in
    let after = posted-IsLinked m session s linked i (
      (str_eq_iff session.id m.session_id).0 (ground arith),
      (str_eq_iff session.tenant_id m.tenant_id).0 (ground arith),
    ) in
    elim (Bool-cases (str_eq m.role "assistant")) [
      | inl reply ↦
          rw reply (offer-IsLinked chance m.session_id m.content m.tenant_id (posted m s) after)
      | inr other ↦ rw other after
    ]

-- An `add_message`, whether it returns or raises because the session is missing, keeps every message
-- of the tables in a session of its tenant.
add_message-IsLinked :
    (chance : ℕ) (id : String) (now : ℕ) (session_id user role content tenant : String) (s : Store)
    → IsLinked s
    → IsLinked (add_message chance id now session_id user role content tenant s).1
unfolding add_message
add_message-IsLinked chance id now session_id user role content tenant s linked =
    post-IsLinked (find_session session_id tenant s) chance _ s linked refl
