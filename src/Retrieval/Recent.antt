-- ===== src/Retrieval/Recent.antt =====
-- The session of a context, in assemble of mypalace/retrieval/layered.py.
pub mod Last
use my_palace.Common.{
  ℕ, ◌-◌, Bool, true, false, String, Option, none, some, List, [], ◌∷◌, drop, length, ltb, ◌==◌,
  str_eq, if◌then◌else◌,
}
use my_palace.Sessions.{Session, Message, Store, get}

-- `msgs[-n:]`: with 0 the slice starts at the front.
unfoldable pub last_slice : ℕ → List Message → List Message
last_slice n msgs = if n == 0 then msgs else drop (length msgs - n) msgs

unfoldable pub recent : ℕ → List Message → List Message
unfolding last_slice
recent max_recent_messages msgs =
    if ltb max_recent_messages (length msgs) then last_slice max_recent_messages msgs else msgs

-- `session_data.get("messages", [])`
abbrev pub messages_or_empty : Option (List Message) → List Message
messages_or_empty none = []
messages_or_empty (some msgs) = msgs

abbrev pub of_session :
    ℕ → Option (Session × Option (List Message)) → Option (List Message) × Option String
of_session n none = (none, none)
of_session n (some (session, msgs)) = (some (recent n (messages_or_empty msgs)), session.summary)

-- `recent_messages` and `summary`
unfoldable pub session_context : ℕ → String → String → Store → Option (List Message) × Option String
unfolding recent
session_context n session_id tenant_id s =
    if str_eq session_id "" then (none, none) else of_session n (get session_id true tenant_id s)
