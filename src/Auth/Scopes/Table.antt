-- ===== src/Auth/Scopes/Table.antt =====
-- What the scope table says, as one description of the paths and methods.
use my_palace.Common.{
  ℕ, ◌≡◌, refl, Bool, true, false, ◌&&◌, ◌||◌, ◌==◌, String, List, [], ◌∷◌, arith, any, inl, inr,
  codes, starts_with, text_eq, text_eq→≡, if◌then◌else◌, Bool-cases,
}
use my_palace.Auth.Scopes.{
  fnmatchcase, upper, scope_rules, method_fits, first_match, required_scope, is_public,
  public_paths,
}
use my_palace.Auth.Scopes.Globs.{fnmatchcase-literal, fnmatchcase-prefix, fnmatchcase-needs_prefix}

abbrev pub is_admin_path : List ℕ → Bool
is_admin_path p =
    starts_with (codes "/v1/admin/") p
    || text_eq p (codes "/v1/admin")
    || starts_with (codes "/v1/maintenance/") p
    || text_eq p (codes "/v1/maintenance")

-- The routes that read although they are POSTs.
abbrev pub is_query_path : List ℕ → Bool
is_query_path p =
    text_eq p (codes "/v1/memories/search")
    || text_eq p (codes "/v1/memories/list")
    || text_eq p (codes "/v1/episodes/search")
    || text_eq p (codes "/v1/intentions/check")
    || text_eq p (codes "/v1/intentions/format")
    || text_eq p (codes "/v1/context")
    || starts_with (codes "/v1/context/") p

abbrev pub reads : List ℕ → List ℕ → Bool
reads m p =
    (text_eq (codes "POST") m && is_query_path p)
    || (text_eq (codes "GET") m && starts_with (codes "/v1/") p)

abbrev pub described_scope : List ℕ → List ℕ → String
described_scope m p = if is_admin_path p then "admin" else if reads m p then "read" else "write"

any_method : (m : List ℕ) → method_fits (codes "*") m ≡ true
unfolding method_fits text_eq
any_method m = refl

one_method :
    (m : List ℕ)
    → (method_fits (codes "POST") m ≡ text_eq (codes "POST") m)
      × (method_fits (codes "GET") m ≡ text_eq (codes "GET") m)
unfolding method_fits text_eq
one_method m = (ground arith, ground arith)

module _ (p : List ℕ) where
  prefix_laws :
      (fnmatchcase (codes "/v1/admin/*") p ≡ starts_with (codes "/v1/admin/") p)
      × (fnmatchcase (codes "/v1/maintenance/*") p ≡ starts_with (codes "/v1/maintenance/") p)
      × (fnmatchcase (codes "/v1/context/*") p ≡ starts_with (codes "/v1/context/") p)
      × (fnmatchcase (codes "/v1/*") p ≡ starts_with (codes "/v1/") p)
  prefix_laws = (
    fnmatchcase-prefix (codes "/v1/admin/") p refl,
    fnmatchcase-prefix (codes "/v1/maintenance/") p refl,
    fnmatchcase-prefix (codes "/v1/context/") p refl,
    fnmatchcase-prefix (codes "/v1/") p refl,
  )

  exact : (t : List ℕ) → any (λ c. c == 42) t ≡ false → fnmatchcase t p ≡ text_eq p t
  exact t h = fnmatchcase-literal t p h

  -- The patterns with more stars add nothing to `/v1/*`.
  deeper :
      starts_with (codes "/v1/") p ≡ false
      → (fnmatchcase (codes "/v1/*/*") p ≡ false) × (fnmatchcase (codes "/v1/*/*/*") p ≡ false)
  deeper h = (
    fnmatchcase-needs_prefix (codes "/v1/") (codes "*/*") p refl h,
    fnmatchcase-needs_prefix (codes "/v1/") (codes "*/*/*") p refl h,
  )

-- The rows of the table in order, each test by itself.
rows :
    {A : Type 0} (a r w : A)
    (admin admins upkeep upkeeps post q1 q2 q3 q4 q5 q6 q7 get v1 v2 v3 : Bool)
    → (v1 ≡ false → (v2 ≡ false) × (v3 ≡ false))
    → (if admins
        then a
        else if admin
        then a
        else if upkeeps
        then a
        else if upkeep
        then a
        else if post && q1
        then r
        else if post && q2
        then r
        else if post && q3
        then r
        else if post && q4
        then r
        else if post && q5
        then r
        else if post && q6
        then r
        else if post && q7
        then r
        else if get && v1
        then r
        else if get && v2
        then r
        else if get && v3
        then r
        else if v1
        then w
        else if v2
        then w
        else if v3
        then w
        else w)
      ≡ (if admins || admin || upkeeps || upkeep
          then a
          else if (post && (q1 || q2 || q3 || q4 || q5 || q6 || q7)) || (get && v1)
          then r
          else w)
rows a r w admin admins upkeep upkeeps post q1 q2 q3 q4 q5 q6 q7 get true v2 v3 h = ground arith
rows a r w admin admins upkeep upkeeps post q1 q2 q3 q4 q5 q6 q7 get false v2 v3 h =
    rw ((h refl).0, (h refl).1) (ground arith)

-- For every method and path the table gives the scope of the description.
pub required_scope-described : (m p : List ℕ) → required_scope m p ≡ described_scope (upper m) p
unfolding required_scope scope_rules first_match
required_scope-described m p =
    rw
      (
        any_method (upper m),
        (one_method (upper m)).0,
        (one_method (upper m)).1,
        (prefix_laws p).0,
        (prefix_laws p).1,
        (prefix_laws p).2,
        (prefix_laws p).3,
        exact p (codes "/v1/admin") refl,
        exact p (codes "/v1/maintenance") refl,
        exact p (codes "/v1/memories/search") refl,
        exact p (codes "/v1/memories/list") refl,
        exact p (codes "/v1/episodes/search") refl,
        exact p (codes "/v1/intentions/check") refl,
        exact p (codes "/v1/intentions/format") refl,
        exact p (codes "/v1/context") refl,
      )
      (rows "admin" "read" "write" (text_eq p (codes "/v1/admin"))
        (starts_with (codes "/v1/admin/") p) (text_eq p (codes "/v1/maintenance"))
        (starts_with (codes "/v1/maintenance/") p) (text_eq (codes "POST") (upper m))
        (text_eq p (codes "/v1/memories/search")) (text_eq p (codes "/v1/memories/list"))
        (text_eq p (codes "/v1/episodes/search")) (text_eq p (codes "/v1/intentions/check"))
        (text_eq p (codes "/v1/intentions/format")) (text_eq p (codes "/v1/context"))
        (starts_with (codes "/v1/context/") p) (text_eq (codes "GET") (upper m))
        (starts_with (codes "/v1/") p) _ _ (deeper p))

-- A text cannot start with two words that part at the second letter.
apart :
    (x c d : ℕ) (r t p : List ℕ)
    → (c == d) ≡ false
    → starts_with (x ∷ c ∷ r) p ≡ true
    → starts_with (x ∷ d ∷ t) p ≡ false
unfolding starts_with
apart x c d r t [] n h = refl
apart x c d r t (y ∷ []) n h = ground arith
apart x c d r t (y ∷ z ∷ p) n h = ground arith

not_listed :
    (l : List (List ℕ)) (p : List ℕ)
    → any (starts_with (codes "/v1/")) l ≡ false
    → any (text_eq p) l ≡ true
    → starts_with (codes "/v1/") p ≡ false
not_listed [] p n h = ground arith
not_listed (q ∷ l) p n h = elim (Bool-cases (text_eq p q)) [
  | inl e ↦ rw (text_eq→≡ p q e) (ground arith)
  | inr e ↦ not_listed l p (ground arith) (ground arith)
]

public_cases :
    (listed docs redoc page assets v : Bool)
    → (listed ≡ true → v ≡ false)
    → (docs ≡ true → v ≡ false)
    → (redoc ≡ true → v ≡ false)
    → (page ≡ true → v ≡ false)
    → (assets ≡ true → v ≡ false)
    → (if listed then true else if docs || redoc then true else page || assets) ≡ true
    → v ≡ false
public_cases listed docs redoc page assets v h1 h2 h3 h4 h5 h = ground arith

not_page : (p : List ℕ) → text_eq p (codes "/admin") ≡ true → starts_with (codes "/v1/") p ≡ false
unfolding starts_with
not_page p h = rw (text_eq→≡ p (codes "/admin") h)

-- No path under `/v1/` is public.
pub is_public-not_v1 : (p : List ℕ) → is_public p ≡ true → starts_with (codes "/v1/") p ≡ false
unfolding is_public public_paths starts_with
is_public-not_v1 p =
    public_cases (any (text_eq p) public_paths) (starts_with (codes "/docs/") p)
      (starts_with (codes "/redoc/") p) (text_eq p (codes "/admin"))
      (starts_with (codes "/admin/") p) (starts_with (codes "/v1/") p)
      (not_listed public_paths p none_v1) (apart b'/' b'd' b'v' (codes "ocs/") (codes "1/") p refl)
      (apart b'/' b'r' b'v' (codes "edoc/") (codes "1/") p refl) (not_page p)
      (apart b'/' b'a' b'v' (codes "dmin/") (codes "1/") p refl)
  where
    none_v1 : any (starts_with (codes "/v1/")) public_paths ≡ false
    none_v1 = refl
