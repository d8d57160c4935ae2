-- ===== src/Sessions/Tests.antt =====
-- A session with two messages, on which the theorems of Sessions are tried.
use my_palace.Common.{ℕ, ◌≡◌, refl, sym, ap, ◌∙◌, String, none, [], ◌∷◌, In, inl, inr}
use my_palace.Sessions.{Session, Message, Store, delete}
use my_palace.Sessions.Linked.{IsLinked, Silenced, delete-Silenced}

abbrev pub session : Session
session = record {
  id = "s1";
  tenant_id = "acme";
  user_id = "u1";
  title = none;
  summary = none;
  created_at = 1;
  updated_at = 1;
}

abbrev pub message : String → String → String → ℕ → Message
message id role content created_at = record {
  id = id;
  tenant_id = "acme";
  session_id = "s1";
  user_id = "u1";
  role = role;
  content = content;
  created_at = created_at;
}

abbrev pub store : Store
store = record {
  sessions = session ∷ [];
  messages = message "m1" "user" "hello" 2 ∷ [];
  offered = [];
}

store-keyed : (k j : Session) → In k (session ∷ []) → In j (session ∷ []) → k.id ≡ j.id → k ≡ j
store-keyed k j (inl p) (inl q) e = p ∙ sym q
store-keyed k j (inl p) (inr w) e = elim w [ ]
store-keyed k j (inr w) _ e = elim w [ ]

store-owned :
    (m : Message)
    → In m (message "m1" "user" "hello" 2 ∷ [])
    → (k : Session) × In k (session ∷ []) × (k.id ≡ m.session_id) × (k.tenant_id ≡ m.tenant_id)
store-owned m (inl p) = (
  session,
  inl refl,
  sym (ap (λ (x : Message). x.session_id) p),
  sym (ap (λ (x : Message). x.tenant_id) p),
)
store-owned m (inr w) = elim w [ ]

store-IsLinked : IsLinked store
store-IsLinked = record { keyed = store-keyed; owned = store-owned }

delete-Silenced_example : Silenced "s1" "acme" store (delete "s1" "acme" store).1
unfolding delete
delete-Silenced_example = delete-Silenced "s1" "acme" store store-IsLinked refl
