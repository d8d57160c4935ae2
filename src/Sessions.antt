-- ===== src/Sessions.antt =====
-- mypalace/session_service.py: sessions and their messages, two tables that are lists of rows. A
-- session is deleted by its primary key, its messages by session and tenant. Times are numbers.
pub mod Conversation
pub mod Linked
pub mod Tests
use my_palace.Common.{
  ℕ, zero, suc, ltb, leb, Bool, true, false, not, ◌&&◌, String, Option, none, some, List, [], ◌∷◌,
  ◌++◌, map, filter, find?, any, is_some, str_eq, Result, ok, err, if◌then◌else◌,
}

pub record Session : Type 0 where
  pub id : String
  pub tenant_id : String
  pub user_id : String
  pub title : Option String
  pub summary : Option String
  pub created_at : ℕ
  pub updated_at : ℕ

pub record Message : Type 0 where
  pub id : String
  pub tenant_id : String
  pub session_id : String
  pub user_id : String
  pub role : String
  pub content : String
  pub created_at : ℕ

-- The tables, and the exchanges that were offered to the personality evolution: what the user said
-- and the reply.
pub record Store : Type 0 where
  pub sessions : List Session
  pub messages : List Message
  pub offered : List (String × String)

abbrev pub names : String → String → Session → Bool
names session_id tenant_id s = str_eq s.id session_id && str_eq s.tenant_id tenant_id

abbrev pub within : String → String → Message → Bool
within session_id tenant_id m = str_eq m.session_id session_id && str_eq m.tenant_id tenant_id

abbrev pub find_session : String → String → Store → Option Session
find_session session_id tenant_id s = find? (names session_id tenant_id) s.sessions

pub create : String → String → Option String → String → ℕ → Store → Session × Store
create id user_id title tenant_id now s =
    let session : Session = record {
      id = id;
      tenant_id = tenant_id;
      user_id = user_id;
      title = title;
      summary = none;
      created_at = now;
      updated_at = now;
    } in
    (session, record s { sessions = s.sessions ++ session ∷ [] })

insert_message : Message → List Message → List Message
insert_message m [] = m ∷ []
insert_message m (k ∷ ms) =
    let rest = insert_message m ms in if leb m.created_at k.created_at then m ∷ k ∷ ms else k ∷ rest

-- `ORDER BY created_at`, where rows of one time stay in the order of the table
pub by_time : List Message → List Message
unfolding insert_message
by_time [] = []
by_time (m ∷ ms) = insert_message m (by_time ms)

-- The messages of a session, as `get` answers them.
pub conversation : String → String → Store → List Message
unfolding by_time
conversation session_id tenant_id s = by_time (filter (within session_id tenant_id) s.messages)

-- The session, and its messages when they are asked for.
unfoldable pub get : String → Bool → String → Store → Option (Session × Option (List Message))
unfolding conversation
get session_id include_messages tenant_id s = elim (find_session session_id tenant_id s) [
  | none ↦ none
  | some session ↦
      some
        (session, (if include_messages then some (conversation session_id tenant_id s) else none))
]

latest : List Message → Option Message
latest [] = none
latest (m ∷ ms) = elim (latest ms) [
  | none ↦ some m
  | some k ↦ if ltb k.created_at m.created_at then some m else some k
]

-- _maybe_trigger_personality_evolution, with the chance of the settings
pub offer : ℕ → String → String → String → Store → Store
unfolding latest
offer zero session_id reply tenant_id s = s
offer (suc chance) session_id reply tenant_id s =
    elim (latest (filter (λ m. within session_id tenant_id m && str_eq m.role "user") s.messages)) [
      | none ↦ s
      | some m ↦ record s { offered = s.offered ++ (m.content, reply) ∷ [] }
    ]

-- `result.scalar_one()` raises when there is no such session, and nothing is committed.
pub data Raised : Type 0 where
  no_result_found : Raised

-- The row of the message is in the table, and the session is marked.
pub posted : Message → Store → Store
posted m s = record s {
  messages = s.messages ++ m ∷ [];
  sessions =
      map
        (λ k.
          if names m.session_id m.tenant_id k then record k { updated_at = m.created_at } else k)
        s.sessions;
}

post : Option Session → ℕ → Message → Store → Result Raised Message × Store
unfolding posted offer
post none chance m s = (err no_result_found, s)
post (some session) chance m s = (
  ok m,
  (if str_eq m.role "assistant"
      then offer chance m.session_id m.content m.tenant_id (posted m s)
      else posted m s),
)

-- add_message, with the id and the time that it draws
unfoldable pub add_message :
    ℕ
    → String
    → ℕ
    → String
    → String
    → String
    → String
    → String
    → Store
    → Result Raised Message × Store
unfolding post
add_message chance id now session_id user_id role content tenant_id s =
    post (find_session session_id tenant_id s) chance
      (record {
        id = id;
        tenant_id = tenant_id;
        session_id = session_id;
        user_id = user_id;
        role = role;
        content = content;
        created_at = now;
      })
      s

abbrev pub given : Option String → Option String → Option String
given none old = old
given (some x) old = some x

pub edited : Option String → Option String → ℕ → Session → Session
edited title summary now k = record k {
  title = given title k.title;
  summary = given summary k.summary;
  updated_at = now;
}

pub update : String → Option String → Option String → String → ℕ → Store → Option Session × Store
unfolding edited
update session_id title summary tenant_id now s = elim (find_session session_id tenant_id s) [
  | none ↦ (none, s)
  | some session ↦ (
    some (edited title summary now session),
    record s {
      sessions =
          map (λ k. if names session_id tenant_id k then edited title summary now k else k)
            s.sessions;
    },
  )
]

pub delete_found : Option Session → String → String → Store → Bool × Store
delete_found none session_id tenant_id s = (false, s)
delete_found (some session) session_id tenant_id s = (
  true,
  record s {
    messages = filter (λ m. not (within session_id tenant_id m)) s.messages;
    sessions = filter (λ k. not (str_eq k.id session.id)) s.sessions;
  },
)

unfoldable pub delete : String → String → Store → Bool × Store
unfolding delete_found
delete session_id tenant_id s =
    delete_found (find_session session_id tenant_id s) session_id tenant_id s
