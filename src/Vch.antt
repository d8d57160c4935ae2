-- ===== src/Vch.antt =====
-- mypalace/vch_service.py: the search of the verbatim chat history, and its text for a prompt.
pub mod Found
pub mod Missed
pub mod Printed
pub mod Tests
use my_palace.Common.{
  ℕ, ◌+◌, ◌*◌, ◌/◌, Bool, true, false, not, ◌&&◌, String, Option, none, some, List, [], ◌∷◌, ◌++◌,
  map, filter, take, any, length, ltb, leb, ◌==◌, str_eq, text_eq, codes, Codes, sort_by, is_nil,
  if◌then◌else◌,
}
use my_palace.Personality.Fences.{strip}

pub record Message : Type 0 where
  pub id : String
  pub tenant_id : String
  pub session_id : String
  pub role : String
  pub content : Codes
  pub created_at : ℕ

pub record Session : Type 0 where
  pub id : String
  pub user_id : String

pub record Database : Type 0 where
  pub messages : List Message
  pub sessions : List Session

-- Postgres: the match of a text with a query, and its rank. `up` is false where the statements raise.
pub record TextSearch : Type 0 where
  pub up : Bool
  pub matches : Codes → Codes → Bool
  pub rank : Codes → Codes → ℕ

pub record Call : Type 0 where
  pub query : Codes
  pub user_id : String
  pub limit : ℕ
  pub context_window : ℕ
  pub min_content_length : ℕ
  pub tenant_id : String

pub record Snippet : Type 0 where
  pub messages : List Message
  pub matched : Message
  pub rank : ℕ

-- The join with the sessions, whose ids are keys.
pub of_user : String → List Session → Message → Bool
of_user user_id sessions m =
    any (λ (s : Session). str_eq s.id m.session_id && str_eq s.user_id user_id) sessions

module _ (fts : TextSearch) where
  -- The WHERE of _MATCH_SQL.
  pub is_match : Call → List Session → Message → Bool
  unfolding of_user
  is_match call sessions m =
      of_user call.user_id sessions m
      && str_eq m.tenant_id call.tenant_id
      && ltb call.min_content_length (length m.content)
      && fts.matches call.query m.content

  -- `ORDER BY rank DESC, created_at DESC`
  pub before : Codes → Message → Message → Bool
  before query m k =
      if fts.rank query m.content == fts.rank query k.content
      then leb k.created_at m.created_at
      else ltb (fts.rank query k.content) (fts.rank query m.content)

  pub match_rows : Call → Database → List Message
  unfolding is_match before
  match_rows call db =
      take call.limit (sort_by (before call.query) (filter (is_match call db.sessions) db.messages))

-- The five minutes before and after.
unfoldable pub near : ℕ → ℕ → Bool
near at t = leb at (t + 300) && leb t (at + 300)

-- The WHERE of _CONTEXT_SQL for a match.
unfoldable pub in_context : String → Message → Message → Bool
unfolding near
in_context tenant_id m k =
    str_eq k.session_id m.session_id
    && str_eq k.tenant_id tenant_id
    && near m.created_at k.created_at

unfoldable pub context_rows : String → ℕ → Message → List Message → List Message
unfolding in_context
context_rows tenant_id max_context m messages =
    take max_context
      (sort_by (λ k l. leb k.created_at l.created_at) (filter (in_context tenant_id m) messages))

-- `dedupe_key`
abbrev pub bucket : Message → String × ℕ
bucket m = (m.session_id, m.created_at / 600)

pub same_bucket : Message → Message → Bool
same_bucket m k = str_eq m.session_id k.session_id && m.created_at / 600 == k.created_at / 600

-- The loop over the matches; `seen` are those whose key is in the set.
pub surfaced : List Message → List Message → List Message
unfolding same_bucket
surfaced seen [] = []
surfaced seen (m ∷ ms) =
    let old = surfaced seen ms in
    let new = m ∷ surfaced (m ∷ seen) ms in if any (same_bucket m) seen then old else new

module _ (fts : TextSearch) where
  pub snippet : Call → Database → Message → Snippet
  snippet call db m = record {
    messages = context_rows call.tenant_id (call.context_window * 2 + 1) m db.messages;
    matched = m;
    rank = fts.rank call.query m.content;
  }

  unfoldable pub search : Call → Database → List Snippet
  unfolding surfaced match_rows snippet
  search call db =
      if is_nil (strip call.query)
      then []
      else if fts.up
      then map (snippet call db) (surfaced [] (match_rows fts call db))
      else []

-- The lines of a block, each behind a line feed; `date` is the first ten characters of the time
-- stamp.
label : String → String → String → Codes
label assistant_label user_label role =
    codes (if str_eq role "assistant" then assistant_label else user_label)

lines : String → String → List Message → Codes
unfolding label
lines assistant_label user_label [] = []
lines assistant_label user_label (m ∷ ms) =
    10 ∷ codes "  "
    ++ label assistant_label user_label m.role
    ++ codes ": "
    ++ m.content
    ++ lines assistant_label user_label ms

-- A snippet with no message ends its first line all the same.
body : String → String → List Message → Codes
unfolding lines
body assistant_label user_label [] = 10 ∷ []
body assistant_label user_label (m ∷ ms) = lines assistant_label user_label (m ∷ ms)

pub block : (ℕ → Codes) → String → String → Snippet → Codes
unfolding body
block date assistant_label user_label s =
    codes "["
    ++ date s.matched.created_at
    ++ codes "]"
    ++ body assistant_label user_label s.messages

-- The blocks that are kept, from the number of characters used on.
unfoldable pub kept_blocks : ℕ → ℕ → List Codes → List Codes
kept_blocks max_chars chars_used [] = []
kept_blocks max_chars chars_used (b ∷ bs) =
    let rest = kept_blocks max_chars (chars_used + length b) bs in
    if ltb max_chars (chars_used + length b) then [] else b ∷ rest

-- `"\n\n".join(parts)`
unfoldable pub joined : List Codes → Codes
joined [] = []
joined (b ∷ []) = b
joined (b ∷ (b' ∷ bs)) = b ++ 10 ∷ 10 ∷ joined (b' ∷ bs)

unfoldable pub format_for_context : (ℕ → Codes) → List Snippet → ℕ → String → String → Codes
unfolding kept_blocks joined block
format_for_context date snippets max_chars assistant_label user_label =
    joined (kept_blocks max_chars 0 (map (block date assistant_label user_label) snippets))
