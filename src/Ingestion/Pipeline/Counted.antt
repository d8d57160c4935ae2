-- ===== src/Ingestion/Pipeline/Counted.antt =====
-- Which rows a run of the pipeline adds.
use my_palace.Common.{
  ◌≡◌, refl, ap, String, Option, none, some, List, [], ◌∷◌, map, ◌++◌, Result, ok, err, arith,
}
use my_palace.Memory.{Memory, Vectors, Env, Raised, Palace, record_version, next_version_number}
use my_palace.Memory.Read
use my_palace.Ingestion.Pipeline.{
  Fate, written, superseding, skipped, Library, Task, snapshot, Supersession,
}

-- A row without what a read changes, the count of the accesses and the time of the last.
abbrev pub kept : Memory → Memory
kept m = record m { access_count = 0; accessed_at = none }

-- The rows that a fate adds.
abbrev pub new_rows : Fate → List Memory
new_rows (written m) = kept m ∷ []
new_rows (superseding m old_id score reason) = kept m ∷ []
new_rows (skipped reason score) = []

-- The ids, old and new, of the supersessions that it adds.
abbrev pub new_supersessions : Fate → List (String × String)
new_supersessions (written m) = []
new_supersessions (superseding m old_id score reason) = (old_id, m.id) ∷ []
new_supersessions (skipped reason score) = []

abbrev pub total : {A : Type 0} → (Fate → List A) → List Fate → List A
total f [] = []
total f (x ∷ xs) = f x ++ total f xs

abbrev pub linked : Supersession → String × String
linked row = (row.superseded_id, row.new_id)

pub ok-inj : {A : Type 0} {a b : A} → ◌≡◌ {A = Result Raised A} (ok a) (ok b) → a ≡ b
ok-inj {A} {a} {b} h = ap (λ (r : Result Raised A). elim r [ ok x ↦ x | err e ↦ a ]) h

module _ (vectors : Vectors) where
  -- A run has added just these rows and supersessions, behind all that there were. The rows that were
  -- there are as they were but for the accesses.
  pub record Counted (rows : List Memory) (supersessions : List (String × String))
      (l l' : Library vectors) : Type 0 where
    pub stored : map kept l'.palace.rows ≡ map kept l.palace.rows ++ rows
    pub recorded :
        (new : List Supersession) × (l'.supersessions ≡ l.supersessions ++ new)
        × (map linked new ≡ supersessions)

  pub snapshot-rows :
      (env : Env) (o : Option Memory) (row : Supersession) (s : Palace vectors)
      → (snapshot vectors env o row s).1.rows ≡ s.rows
  unfolding snapshot next_version_number record_version
  snapshot-rows env none row s = refl
  snapshot-rows env (some old) row s = ground arith

  -- The count of what a task has come to.
  abbrev Adds : Task vectors Fate → Type 0
  Adds m =
      (l l' : Library vectors) (f : Fate)
      → m l ≡ (ok f, l')
      → Counted (new_rows f) (new_supersessions f) l l'
