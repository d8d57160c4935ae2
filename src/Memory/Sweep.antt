-- ===== src/Memory/Sweep.antt =====
-- MemoryService.delete_for_user and cleanup_expired: many rows at once.
pub mod Chunks
pub mod Leak
use my_palace.Common.{
  ℕ, zero, suc, ◌+◌, ◌≡◌, Bool, true, false, not, ◌&&◌, ◌||◌, String, Option, none, some, List, [],
  ◌∷◌, ◌++◌, map, filter, take, drop, length, leb, str_eq, Result, ok, err, if◌then◌else◌,
}
use my_palace.Common.Dict
use my_palace.Memory.{
  Memory, Metadata, Vectors, Env, Palace, Method, pure, ◌>>=◌, ◌>>◌, gets, set_rows, delete_vectors,
  bust_cache,
}

-- `expires_at IS NOT NULL AND expires_at <= now`
pub is_expired : ℕ → Memory → Bool
is_expired now m = elim m.expires_at [ none ↦ false | some t ↦ leb t now ]

unfoldable pub option_is : Option String → String → Bool
option_is none x = false
option_is (some y) x = str_eq y x

-- A clause that is only there when its argument is.
agent_clause : Option String → Memory → Bool
unfolding option_is
agent_clause none m = true
agent_clause (some a) m = option_is m.agent_id a

-- `metadata @> {"run_id": run_id}`
run_clause : Option String → Memory → Bool
unfolding option_is
run_clause none m = true
run_clause (some r) m = elim m.metadata_json [
  | none ↦ false
  | some d ↦ option_is (Dict.get "run_id" d) r
]

pub of_user : String → String → Option String → Option String → Memory → Bool
unfolding agent_clause run_clause
of_user tenant user agent run m =
    str_eq m.tenant_id tenant && str_eq m.user_id user && agent_clause agent m && run_clause run m

pub expired_in : String → ℕ → Memory → Bool
unfolding is_expired
expired_in tenant now m = str_eq m.tenant_id tenant && is_expired now m

abbrev pub chunk_size : ℕ
chunk_size = 500

abbrev pub ids_of : List Memory → List String
ids_of = map λ m. m.id

module _ (vectors : Vectors) where
  -- `for i in range(0, len(ids), 500)`; the rounds are at most the ids.
  pub delete_chunks : ℕ → List String → String → Method vectors (Unit {0})
  delete_chunks zero ids tenant = pure tt
  delete_chunks (suc rounds) [] tenant = pure tt
  delete_chunks (suc rounds) (i ∷ ids) tenant = do
    delete_vectors vectors (take chunk_size (i ∷ ids)) tenant
    delete_chunks rounds (drop chunk_size (i ∷ ids)) tenant

  -- `DELETE … WHERE p RETURNING id`, committed
  pub delete_where : (Memory → Bool) → Method vectors (List String)
  delete_where p s =
      (ok (ids_of (filter p s.rows)), record s { rows = filter (λ m. not (p m)) s.rows })

  unfoldable pub delete_for_user :
      Env → String → Option String → Option String → String → Method vectors ℕ
  unfolding delete_where delete_chunks of_user
  delete_for_user env user agent run tenant = do
    ids ← delete_where (of_user tenant user agent run)
    delete_chunks (length ids) ids tenant
    bust_cache vectors env tenant
    pure (length ids)

  pub sweep : Env → List String → String → Method vectors ℕ
  unfolding delete_chunks
  sweep env [] tenant = pure 0
  sweep env (i ∷ ids) tenant = do
    delete_chunks (length (i ∷ ids)) (i ∷ ids) tenant
    bust_cache vectors env tenant
    pure (length (i ∷ ids))

  -- The ids are cut to the batch after the rows are gone.
  unfoldable pub cleanup_expired : Env → String → ℕ → Method vectors ℕ
  unfolding delete_where sweep expired_in
  cleanup_expired env tenant batch_size = do
    ids ← delete_where (expired_in tenant env.utcnow)
    sweep env (take batch_size ids) tenant
