-- ===== src/Vch/Missed.antt =====
-- The context of a match, which the statement cuts off at its newest rows.
use my_palace.Common.{
  ℕ, zero, suc, ◌≤◌, ◌<◌, ◌≡◌, refl, inl, inr, Bool, ◌&&◌, String, List, [], ◌∷◌, filter, take,
  length, ltb, All, arith, Bool-cases, sort_by, length-filter-sort_by, Ascending, lowest_first,
  sort_by-Ascending, ltb→lt,
}
use my_palace.Vch.{Message, in_context, context_rows}

module _ (at : ℕ) where
  abbrev earlier : Message → Bool
  earlier k = ltb k.created_at at

  none-earlier :
      (t : ℕ) (ks : List Message)
      → at ≤ t
      → All (λ (k : Message). t ≤ k.created_at) ks
      → length (filter earlier ks) ≡ 0
  none-earlier t [] h a = refl
  none-earlier t (k ∷ ks) h a = ground (arith, none-earlier t ks h a.1, a.0)

  -- In the order of their times, the first so many rows are earlier ones where there are so many.
  take-earlier :
      (n : ℕ) (ks : List Message)
      → Ascending (λ (k : Message). k.created_at) ks
      → n ≤ length (filter earlier ks)
      → All (λ (k : Message). k.created_at < at) (take n ks)
  take-earlier zero ks d h = tt
  take-earlier (suc n) [] d h = tt
  take-earlier (suc n) (k ∷ ks) d h = elim (Bool-cases (earlier k)) [
    | inl e ↦ (ltb→lt k.created_at at e, take-earlier n ks d.1 (ground arith))
    | inr e ↦ absurd (ground (arith, none-earlier k.created_at ks (ground arith) d.0))
  ]

length-filter_and :
    (p q : Message → Bool) (ks : List Message)
    → length (filter q (filter p ks)) ≡ length (filter (λ k. p k && q k) ks)
length-filter_and p q [] = refl
length-filter_and p q (k ∷ ks) = ground (arith, length-filter_and p q ks)

-- Where the session has at least as many messages in the five minutes before a match as the context
-- may have rows, every message of the context is older than the match: it is not in its own context.
pub context_rows-Earlier :
    (tenant_id : String) (max_context : ℕ) (m : Message) (messages : List Message)
    → max_context
      ≤ length (filter (λ k. in_context tenant_id m k && ltb k.created_at m.created_at) messages)
    → All
        (λ (k : Message). k.created_at < m.created_at)
        (context_rows tenant_id max_context m messages)
unfolding context_rows
context_rows-Earlier tenant_id n m messages h =
    let rows = filter (in_context tenant_id m) messages in
    take-earlier m.created_at n (sort_by (lowest_first (λ (k : Message). k.created_at)) rows)
      (sort_by-Ascending (λ (k : Message). k.created_at) rows)
      (omega (
        arith,
        h,
        length-filter-sort_by (lowest_first (λ (k : Message). k.created_at))
            (λ k. ltb k.created_at m.created_at) rows,
        length-filter_and (in_context tenant_id m) (λ k. ltb k.created_at m.created_at) messages,
      ))
