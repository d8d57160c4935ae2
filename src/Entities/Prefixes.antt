-- ===== src/Entities/Prefixes.antt =====
-- strip_platform_prefix of mypalace/entity_service.py: `^(discord|…|whatsapp)-(.+)$` under `match`.
use Prim.Native.Char.{Char, code}
use my_palace.Common.{String, Option, none, some, List, [], ◌∷◌, ◌==◌, if◌then◌else◌}

-- The text behind a prefix.
behind : String → String → Option String
behind String.[] s = some s
behind (String.◌∷◌ c p) String.[] = none
behind (String.◌∷◌ c p) (String.◌∷◌ d s) =
    let rest = behind p s in if code c == code d then rest else none

put_char : Char → Option String → Option String
put_char c none = none
put_char c (some s) = some (String.◌∷◌ c s)

-- What `(.*)$` takes: no line feed, but there may be one behind it at the end.
rest_of_line : String → Option String
unfolding put_char
rest_of_line String.[] = some String.[]
rest_of_line (String.◌∷◌ c String.[]) =
    if code c == 10 then some String.[] else some (String.◌∷◌ c String.[])
rest_of_line (String.◌∷◌ c (String.◌∷◌ d s)) =
    let rest = rest_of_line (String.◌∷◌ d s) in if code c == 10 then none else put_char c rest

-- `.+` takes at least one character.
some_text : Option String → Option String
some_text none = none
some_text (some String.[]) = none
some_text (some (String.◌∷◌ c s)) = some (String.◌∷◌ c s)

line_behind : Option String → Option String
unfolding rest_of_line some_text
line_behind none = none
line_behind (some s) = some_text (rest_of_line s)

first_match : List String → String → Option String
unfolding behind line_behind
first_match [] identifier = none
first_match (p ∷ ps) identifier =
    let rest = first_match ps identifier in
    elim (line_behind (behind p identifier)) [ some bare ↦ some bare | none ↦ rest ]

platforms : List String
platforms =
    "discord-" ∷ "teams-" ∷ "slack-" ∷ "telegram-" ∷ "matrix-" ∷ "signal-" ∷ "whatsapp-" ∷ []

unfoldable pub strip_platform_prefix : String → Option String
unfolding platforms first_match
strip_platform_prefix = first_match platforms
