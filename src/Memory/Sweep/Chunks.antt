-- ===== src/Memory/Sweep/Chunks.antt =====
-- The chunks of a deletion together remove every vector of the list, and no other.
use my_palace.Common.{
  ℕ, zero, suc, ◌≤◌, ◌≡◌, refl, sym, ap, ◌∙◌, Bool, false, ◌&&◌, ◌||◌, String, Option, none, some,
  List, [], ◌∷◌, ◌++◌, take, drop, length, str_eq, elem, ok, if◌then◌else◌, arith, take-append-drop,
  length-drop, subst,
}
use my_palace.Memory.{Vectors, Palace, >>=-ok, write_store, delete_vectors}
use my_palace.Memory.Sweep.{chunk_size, delete_chunks}

elem-append : (x : String) (xs ys : List String) → elem x (xs ++ ys) ≡ (elem x xs || elem x ys)
elem-append x [] ys = refl
elem-append x (y ∷ xs) ys = ground (arith, elem-append x xs ys)

elem-take-drop :
    (n : ℕ) (x : String) (xs : List String) → (elem x (take n xs) || elem x (drop n xs)) ≡ elem x xs
elem-take-drop n x xs =
    sym (elem-append x (take n xs) (drop n xs)) ∙ ap (elem x) (take-append-drop n xs)

module _ (vectors : Vectors) where
  open vectors use {has, has-delete}

  -- The store after a deletion, and that only the store has changed.
  pub record Removed (ids : List String) (tenant : String) (s s' : Palace vectors) : Type 0 where
    pub rows : s'.rows ≡ s.rows
    pub versions : s'.versions ≡ s.versions
    pub points :
        (t j : String)
        → has t j s'.store ≡ (if str_eq tenant t && elem j ids then false else has t j s.store)

  write_store-Removed :
      (ids : List String) (tenant : String) (s : Palace vectors) (o : Option vectors.Store)
      (u : Unit {0})
      → vectors.delete ids tenant s.store ≡ o
      → (write_store vectors o s).0 ≡ ok u
      → Removed ids tenant s (write_store vectors o s).1
  unfolding write_store
  write_store-Removed ids tenant s none u e h = ground arith
  write_store-Removed ids tenant s (some st) u e h = record {
    rows = refl;
    versions = refl;
    points = λ t j. has-delete ids tenant s.store st t j e;
  }

  delete_vectors-Removed :
      (ids : List String) (tenant : String) (s : Palace vectors) (u : Unit {0})
      → (delete_vectors vectors ids tenant s).0 ≡ ok u
      → Removed ids tenant s (delete_vectors vectors ids tenant s).1
  unfolding delete_vectors
  delete_vectors-Removed ids tenant s u h = write_store-Removed ids tenant s _ u refl h

  pub none_Removed : (tenant : String) (s s' : Palace vectors) → s ≡ s' → Removed [] tenant s s'
  none_Removed tenant s s' e =
      subst (Removed [] tenant s) e
        (record { rows = refl; versions = refl; points = λ t j. ground arith })

  both :
      (t a b c d : Bool)
      → (a || b) ≡ c
      → (if t && b then false else if t && a then false else d) ≡ (if t && c then false else d)
  both t a b c d h = ground arith

  -- When every request goes through, the chunks remove the points of all the ids from the tenant's
  -- collection; every other point, the rows and the versions stay.
  pub delete_chunks-Removed :
      (rounds : ℕ) (ids : List String) (tenant : String) (s s' : Palace vectors)
      → length ids ≤ rounds
      → delete_chunks vectors rounds ids tenant s ≡ (ok tt, s')
      → Removed ids tenant s s'
  unfolding delete_chunks
  delete_chunks-Removed zero [] tenant s s' fits h = none_Removed tenant s s' (ap (λ r. r.1) h)
  delete_chunks-Removed zero (i ∷ ids) tenant s s' fits h = absurd (omega arith)
  delete_chunks-Removed (suc rounds) [] tenant s s' fits h =
      none_Removed tenant s s' (ap (λ r. r.1) h)
  delete_chunks-Removed (suc rounds) (i ∷ ids) tenant s s' fits h =
      let now = take chunk_size (i ∷ ids) in
      let later = drop chunk_size (i ∷ ids) in
      let (u, first, rest) =
        >>=-ok (delete_vectors vectors now tenant) (λ _. delete_chunks vectors rounds later tenant)
          s s' tt h in
      let one = delete_vectors-Removed now tenant s u first in
      let more =
        delete_chunks-Removed rounds (drop 499 ids) tenant
          (delete_vectors vectors (take chunk_size (i ∷ ids)) tenant s).1 s'
          (omega (arith, length-drop 499 ids)) rest in
      record {
        rows = more.rows ∙ one.rows;
        versions = more.versions ∙ one.versions;
        points = λ t j.
            more.points t j
            ∙ rw (one.points t j) (
                both (str_eq tenant t) (elem j now) (elem j later) (elem j (i ∷ ids)) _
                  (elem-take-drop chunk_size j (i ∷ ids)));
      }
