-- ===== src/Vch/Tests.antt =====
-- A match with three messages right before it, of which its context of one row takes the first.
use my_palace.Common.{◌<◌, true, List, [], ◌∷◌, codes, All, arith}
use my_palace.Vch.{Message, Database, TextSearch, Call, Snippet, in_context, context_rows, search}
use my_palace.Vch.Found.{Answers, search-OfCall}
use my_palace.Vch.Missed.{context_rows-Earlier}

abbrev matched : Message
matched = record {
  id = "m4";
  tenant_id = "acme";
  session_id = "s1";
  role = "user";
  content = codes "the flat in Lisbon";
  created_at = 1_000;
}

abbrev database : Database
database = record {
  messages =
      record matched { id = "m1"; created_at = 900 }
      ∷ record matched { id = "m2"; created_at = 910 }
      ∷ record matched { id = "m3"; created_at = 920 }
      ∷ matched
      ∷ [];
  sessions = record { id = "s1"; user_id = "u1" } ∷ [];
}

abbrev text_search : TextSearch
text_search = record { up = true; matches = λ q t. true; rank = λ q t. 1 }

abbrev call : Call
call = record {
  query = codes "flat";
  user_id = "u1";
  limit = 5;
  context_window = 1;
  min_content_length = 3;
  tenant_id = "acme";
}

search-OfCall_example : Answers text_search call database (search text_search call database)
search-OfCall_example = search-OfCall text_search call database

context_rows-Earlier_example :
    All (λ (k : Message). k.created_at < 1_000) (context_rows "acme" 3 matched database.messages)
unfolding in_context
context_rows-Earlier_example = context_rows-Earlier "acme" 3 matched database.messages (omega arith)

abbrev snippets : List Snippet
snippets =
    record { messages = matched ∷ []; matched = matched; rank = 1 }
    ∷ record { messages = matched ∷ []; matched = matched; rank = 1 }
    ∷ []
