-- ===== src/Cache/Tests.antt =====
-- A dictionary in the place of Redis, and calls over it.
use my_palace.Common.{
  ℕ, ◌≡◌, refl, true, false, String, none, some, List, [], ◌∷◌, ◌⊎◌, inl, inr, arith, Bool-cases,
  str_eq, str_eq_iff, filter, map, if◌then◌else◌,
}
use my_palace.Common.Dict
use my_palace.Common.Dict.{Dict}
use my_palace.Cache.{Backend, Laws, Cache, tenant_of}
use my_palace.Cache.Calls.{
  other, tupled, cons, nil, Request, Event, calling, invalidating, Explained, cached_call-Explained,
}

abbrev dict_delete : String → Dict String → Dict String
dict_delete k = filter λ e. if str_eq e.0 k then false else true

-- Values are texts, which are their own JSON.
abbrev pub dict_backend : Backend
dict_backend = record {
  Store = Dict String;
  Value = String;
  get = λ k s. some (Dict.get k s);
  set = λ k text ttl s. some (Dict.put k text s);
  scan = λ pattern s. some (map (λ e. e.0) s);
  delete = λ k s. some (dict_delete k s);
  dumps = λ v. some v;
  loads = λ raw. some raw;
  is_none = λ v. str_eq v "null";
  list_of = λ vs. "[]";
  dict_of = λ vs. "{}";
}

dict-get-set :
    (k j raw text : String) (ttl : ℕ) (s s' : Dict String)
    → some (Dict.put k text s) ≡ some s'
    → some (Dict.get j s') ≡ some (some raw)
    → ((k ≡ j) × (raw ≡ text)) ⊎ (some (Dict.get j s) ≡ some (some raw))
dict-get-set k j raw text ttl s s' e h = elim (Bool-cases (str_eq k j)) [
  | inl same ↦ inl ((str_eq_iff k j).0 same, ground (arith, Dict.get-put k j text s))
  | inr apart ↦ inr (ground (arith, Dict.get-put k j text s))
]

get-dict_delete :
    (k j : String) (s : Dict String)
    → Dict.get j (dict_delete k s) ≡ (if str_eq k j then none else Dict.get j s)
unfolding Dict.get tenant_of
get-dict_delete k j [] = ground arith
get-dict_delete k j ((l, v) ∷ s) =
    ground (arith, get-dict_delete k j s, str_eq_iff k j, str_eq_iff l k, str_eq_iff l j)

dict-get-delete :
    (k j raw : String) (s s' : Dict String)
    → some (dict_delete k s) ≡ some s'
    → some (Dict.get j s') ≡ some (some raw)
    → some (Dict.get j s) ≡ some (some raw)
dict-get-delete k j raw s s' e h = ground (arith, get-dict_delete k j s)

pub dict_laws : Laws dict_backend
dict_laws = record { get-set = dict-get-set; get-delete = dict-get-delete }

abbrev pub empty_cache : Cache dict_backend
empty_cache = record { enabled = true; store = []; hits = 0; misses = 0 }

abbrev no_digest : Dict String → String
no_digest parts = "d"

abbrev search : String → Request dict_backend no_digest
search answer = record {
  namespace = "memories_search";
  parts = ("tenant_id", "acme") ∷ [];
  ttl = 60;
  loader = some (tupled (cons (other answer) nil));
}

abbrev events : List (Event dict_backend no_digest)
events =
    calling (search "old") ∷ calling (search "new") ∷ invalidating "acme" "memories_search" ∷ []

cached_call-Explained_example : Explained dict_backend no_digest [] events empty_cache
unfolding Dict.get tenant_of
cached_call-Explained_example =
    cached_call-Explained dict_backend dict_laws no_digest events [] empty_cache (refl, (refl, tt))
      tt (λ k v h. absurd (ground arith))
