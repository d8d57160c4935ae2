-- ===== src/Embeddings/Tests.antt =====
-- Texts that are their own vectors, and a cache that knows one of them.
use my_palace.Common.{◌≡◌, refl, sym, ap, String, some, List, [], ◌∷◌, map, arith, str_eq_iff}
use my_palace.Common.Dict
use my_palace.Cache.Tests.{dict_backend, dict_laws, empty_cache}
use my_palace.Embeddings.{Inner, CachedEmbedder, embed}
use my_palace.Embeddings.Exact.{Reliable, Right, embed-Exact}

abbrev inner : Inner dict_backend
inner = record { embed = λ ts. some ts; key = λ t. t; ttl = 60 }

abbrev itself : String → String
itself t = t

map-itself : (ts : List String) → map itself ts ≡ ts
map-itself [] = refl
map-itself (t ∷ ts) = ap (◌∷◌ t) (map-itself ts)

reliable : Reliable dict_backend dict_laws inner itself
reliable = record {
  reread = λ t w r. ground arith;
  embeds = λ ts. ap some (sym (map-itself ts));
  keyed = λ s t e. e;
}

abbrev embedder : CachedEmbedder dict_backend
embedder = record { cache = record empty_cache { store = ("a", "a") ∷ [] }; hits = 0; misses = 0 }

right : Right dict_backend dict_laws inner itself embedder.cache
unfolding Dict.get
right t v (raw, g, l) = ground (arith, str_eq_iff "a" t)

embed-Exact_example :
    ((embed dict_backend inner ("a" ∷ "b" ∷ "b" ∷ []) embedder).0 ≡ some ("a" ∷ "b" ∷ "b" ∷ []))
    × Right dict_backend dict_laws inner itself
        (embed dict_backend inner ("a" ∷ "b" ∷ "b" ∷ []) embedder).1.cache
embed-Exact_example =
    embed-Exact dict_backend dict_laws inner itself ("a" ∷ "b" ∷ "b" ∷ []) embedder reliable right
