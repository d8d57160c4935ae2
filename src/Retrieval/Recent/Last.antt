-- ===== src/Retrieval/Recent/Last.antt =====
-- Which messages of a session a context has.
use my_palace.Common.{
  ℕ, ◌-◌, ◌<◌, ◌≡◌, refl, sym, ap, ◌∙◌, inl, inr, true, false, String, some, List, [], ◌++◌, take,
  length, ltb, ◌==◌, str_eq, min, take-append-drop, length-drop, arith, Bool-cases,
}
use my_palace.Sessions.{Session, Message, Store, get, find_session, conversation}
use my_palace.Retrieval.Recent.{last_slice, recent, session_context}

-- The last part of a list, of at most that size.
abbrev pub Last : ℕ → List Message → List Message → Type 0
Last n msgs kept =
    ((older : List Message) × (msgs ≡ older ++ kept)) × (length kept ≡ min n (length msgs))

recent-Last : (n : ℕ) (msgs : List Message) → 0 < n → Last n msgs (recent n msgs)
unfolding recent last_slice
recent-Last n msgs pos = elim (Bool-cases (ltb n (length msgs))) [
  | inl e ↦ elim (Bool-cases (n == 0)) [
    | inl z ↦ absurd (ground arith)
    | inr p ↦
        rw (e, p)
          (
            (take (length msgs - n) msgs, sym (take-append-drop (length msgs - n) msgs)),
            ground (arith, length-drop (length msgs - n) msgs),
          )
  ]
  | inr e ↦ rw e (([], refl), ground arith)
]

recent-all : (msgs : List Message) → recent 0 msgs ≡ msgs
unfolding recent last_slice
recent-all msgs = ground arith

get-found :
    (session_id tenant_id : String) (s : Store) (session : Session)
    → find_session session_id tenant_id s ≡ some session
    → get session_id true tenant_id s ≡ some (session, some (conversation session_id tenant_id s))
unfolding get
get-found session_id tenant_id s session found = rw (found, get) refl

-- The context of a session that the tenant has takes the end of its conversation, as many messages
-- as are asked for or there are. Where none are asked for, it takes all of them.
pub session_context-Last :
    (n : ℕ) (session_id tenant_id : String) (s : Store) (session : Session)
    → str_eq session_id "" ≡ false
    → find_session session_id tenant_id s ≡ some session
    → (kept : List Message) × (session_context n session_id tenant_id s
        ≡ (some kept, session.summary))
      × (0 < n → Last n (conversation session_id tenant_id s) kept)
      × (n ≡ 0 → kept ≡ conversation session_id tenant_id s)
unfolding session_context
session_context-Last n session_id tenant_id s session named found =
    rw (named, get-found session_id tenant_id s session found)
      (
        recent n (conversation session_id tenant_id s),
        refl,
        λ pos. recent-Last n (conversation session_id tenant_id s) pos,
        λ z.
            ap (λ k. recent k (conversation session_id tenant_id s)) z
            ∙ recent-all (conversation session_id tenant_id s),
      )
