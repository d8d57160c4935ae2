-- ===== src/Retrieval/Budget.antt =====
-- What the character budget keeps.
use my_palace.Common.{
  ℕ, ◌+◌, ◌≤◌, ◌<◌, ◌≡◌, refl, ap, ◌∙◌, ◌⊎◌, inl, inr, Bool, true, false, ◌&&◌, String, List, [],
  ◌∷◌, ◌++◌, ltb, leb, arith, Bool-cases,
}
use my_palace.Retrieval.{Item, size_of, enforce_from, enforce_char_budget}

pub sizes : String → List Item → ℕ
sizes key [] = 0
sizes key (item ∷ items) = size_of key item + sizes key items

-- Why the loop stopped before these items.
abbrev pub Stopped : ℕ → String → ℕ → List Item → Type 0
Stopped budget key total [] = Unit {0}
Stopped budget key total (item ∷ rest) = (budget ≤ total) ⊎ (budget < total + size_of key item)

-- A run of the loop from `start`: it keeps the first items, counts them, and stops for a reason.
pub record Kept (budget : ℕ) (key : String) (start : ℕ) (items kept : List Item) (total : ℕ)
    : Type 0 where
  pub rest : List Item
  pub first : items ≡ kept ++ rest
  pub counted : total ≡ start + sizes key kept
  pub stopped : Stopped budget key total rest

Kept-cons :
    (budget : ℕ) (key : String) (start : ℕ) (item : Item) (items kept : List Item) (total : ℕ)
    → Kept budget key (start + size_of key item) items kept total
    → Kept budget key start (item ∷ items) (item ∷ kept) total
unfolding sizes
Kept-cons budget key start item items kept total k = record {
  rest = k.rest;
  first = ap (λ xs. item ∷ xs) k.first;
  counted = k.counted ∙ omega arith;
  stopped = k.stopped;
}

full :
    (budget : ℕ) (key : String) (total : ℕ) (items : List Item)
    → budget ≤ total
    → Stopped budget key total items
full budget key total [] h = tt
full budget key total (i ∷ items) h = inl h

enforce_from-Kept :
    (budget : ℕ) (key : String) (started : Bool) (total : ℕ) (items : List Item)
    → let r = enforce_from budget key started total items in Kept budget key total items r.0 r.1
unfolding enforce_from sizes
enforce_from-Kept budget key started total [] = record {
  rest = [];
  first = refl;
  counted = omega arith;
  stopped = tt;
}
enforce_from-Kept budget key started total (item ∷ items) =
    elim (Bool-cases (ltb budget (total + size_of key item) && started)) [
      | inl e ↦ rw e (record {
        rest = item ∷ items;
        first = refl;
        counted = omega arith;
        stopped = inr (ground arith);
      })
      | inr e ↦ elim (Bool-cases (leb budget (total + size_of key item))) [
        | inl f ↦
            rw (e, f)
              (record {
                rest = items;
                first = refl;
                counted = omega arith;
                stopped = full budget key _ items (ground arith);
              })
        | inr f ↦
            rw (e, f)
              (Kept-cons budget key total item items _ _
                (enforce_from-Kept budget key true (total + size_of key item) items))
      ]
    ]

-- Once something is kept, the total stays within the budget.
enforce_from-bounded :
    (budget : ℕ) (key : String) (total : ℕ) (items : List Item)
    → total ≤ budget
    → (enforce_from budget key true total items).1 ≤ budget
unfolding enforce_from
enforce_from-bounded budget key total [] h = h
enforce_from-bounded budget key total (item ∷ items) h =
    elim (Bool-cases (ltb budget (total + size_of key item))) [
      | inl e ↦ rw e h
      | inr e ↦ elim (Bool-cases (leb budget (total + size_of key item))) [
        | inl f ↦ rw (e, f) (ground arith)
        | inr f ↦
            rw (e, f)
              (enforce_from-bounded budget key (total + size_of key item) items (ground arith))
      ]
    ]

bounded :
    (budget : ℕ) (key : String) (items : List Item)
    → let r = enforce_from budget key false 0 items in
      (r.1 ≤ budget) ⊎ ((i : Item) × (r.0 ≡ i ∷ []))
unfolding enforce_from
bounded budget key [] = inl (omega arith)
bounded budget key (item ∷ items) = elim (Bool-cases (leb budget (0 + size_of key item))) [
  | inl f ↦ inr (item, ground arith)
  | inr f ↦ inl (
      let rest = enforce_from-bounded budget key (0 + size_of key item) items (ground arith) in
      ground arith)
]

-- The budget keeps a first part of the items, in their order, and answers the sum of their sizes.
-- That is at most the budget, except that the first item is kept alone whatever its size. If an item
-- is left out, the total has reached the budget or the next item would have passed it.
pub enforce_char_budget-Kept :
    (items : List Item) (budget : ℕ) (key : String)
    → let (kept, total) = enforce_char_budget items budget key in
      Kept budget key 0 items kept total × ((total ≤ budget) ⊎ ((i : Item) × (kept ≡ i ∷ [])))
unfolding enforce_char_budget
enforce_char_budget-Kept items budget key =
    (enforce_from-Kept budget key false 0 items, bounded budget key items)
