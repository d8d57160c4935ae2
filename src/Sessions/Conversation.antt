-- ===== src/Sessions/Conversation.antt =====
-- The order of a conversation.
use my_palace.Common.{
  ℕ, zero, suc, ◌≤◌, ◌≡◌, refl, sym, ap, ◌∙◌, Bool, true, String, Option, none, some, List, [], ◌∷◌,
  ◌++◌, filter, str_eq_refl, All, All-filter, arith, ok,
}
use my_palace.Sessions.{
  Session, Message, Store, within, find_session, by_time, insert_message, conversation, posted,
  offer, post, add_message,
}

-- All messages are from `now` or before.
abbrev pub Past : ℕ → List Message → Type 0
Past now = All λ (k : Message). k.created_at ≤ now

insert_message-last :
    (k m : Message) (ms : List Message)
    → k.created_at ≤ m.created_at
    → insert_message k (ms ++ m ∷ []) ≡ insert_message k ms ++ m ∷ []
unfolding insert_message
insert_message-last k m [] h = ground arith
insert_message-last k m (j ∷ ms) h = ground (arith, insert_message-last k m ms h)

by_time-last :
    (m : Message) (ms : List Message)
    → Past m.created_at ms
    → by_time (ms ++ m ∷ []) ≡ by_time ms ++ m ∷ []
unfolding by_time
by_time-last m [] h = refl
by_time-last m (k ∷ ms) h =
    ap (insert_message k) (by_time-last m ms h.1) ∙ insert_message-last k m (by_time ms) h.0

filter-last :
    (p : Message → Bool) (m : Message) (ms : List Message)
    → p m ≡ true
    → filter p (ms ++ m ∷ []) ≡ filter p ms ++ m ∷ []
filter-last p m [] h = ground arith
filter-last p m (k ∷ ms) h = ground (arith, filter-last p m ms h)

offer-messages :
    (chance : ℕ) (session_id reply tenant : String) (s : Store)
    → (offer chance session_id reply tenant s).messages ≡ s.messages
unfolding offer
offer-messages zero session_id reply tenant s = refl
offer-messages (suc n) session_id reply tenant s = ground arith

post-messages :
    (found : Option Session) (chance : ℕ) (m r : Message) (s s' : Store)
    → post found chance m s ≡ (ok r, s')
    → (r ≡ m) × (s'.messages ≡ s.messages ++ m ∷ [])
unfolding post posted
post-messages none chance m r s s' h = ground arith
post-messages (some k) chance m r s s' h =
    ground (arith, offer-messages chance m.session_id m.content m.tenant_id (posted m s))

-- An `add_message` that returns, at a time that no message of the table is past, puts the message at
-- the end of the conversation of its session, behind all that was said there.
add_message-conversation :
    (chance : ℕ) (id : String) (now : ℕ) (session_id user role content tenant : String)
    (s s' : Store) (m : Message)
    → Past now s.messages
    → add_message chance id now session_id user role content tenant s ≡ (ok m, s')
    → conversation session_id tenant s' ≡ conversation session_id tenant s ++ m ∷ []
unfolding add_message conversation
add_message-conversation chance id now session_id user role content tenant s s' m past h =
    let (same, rows) = post-messages (find_session session_id tenant s) chance _ m s s' h in
    let new : Message = record {
      id = id;
      tenant_id = tenant;
      session_id = session_id;
      user_id = user;
      role = role;
      content = content;
      created_at = now;
    } in
    ap (λ z. by_time (filter (within session_id tenant) z)) rows
    ∙ ap by_time (
        filter-last (within session_id tenant) new s.messages
          (rw (str_eq_refl session_id, str_eq_refl tenant) refl))
    ∙ by_time-last new (filter (within session_id tenant) s.messages)
        (All-filter _ _ s.messages past)
    ∙ ap (λ z. by_time (filter (within session_id tenant) s.messages) ++ z ∷ []) (sym same)
