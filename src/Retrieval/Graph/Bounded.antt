-- ===== src/Retrieval/Graph/Bounded.antt =====
-- What the graph adds to a context.
use my_palace.Common.{
  ℕ, ◌≤◌, ◌<◌, ◌≡◌, ◌≢◌, subst, sym, ap, ◌∙◌, leb→le, str_eq_refl, refl, ◌⊎◌, inl, inr, true, false,
  not, ◌||◌, String, Option, none, some, List, [], ◌∷◌, ◌++◌, length, leb, str_eq, elem, is_nil,
  All, In, length-append, arith, Bool-cases, str_eq_iff,
}
use my_palace.Retrieval.Graph.{
  Node, Neighborhood, Graph, GraphContext, ids, is_new, add_nodes, joined, walk,
  fetch_graph_context,
}

-- No two nodes of one id.
abbrev pub Distinct : List Node → Type 0
Distinct [] = Unit {0}
Distinct (n ∷ ns) = (elem n.id (ids ns) ≡ false) × Distinct ns

elem-append :
    (x : String) (k : Node) (ns : List Node)
    → elem x (ids ns) ≡ false
    → str_eq x k.id ≡ false
    → elem x (ids (ns ++ k ∷ [])) ≡ false
elem-append x k [] h e = ground arith
elem-append x k (n ∷ ns) h e = ground (arith, elem-append x k ns)

append-Distinct :
    (k : Node) (ns : List Node) → Distinct ns → elem k.id (ids ns) ≡ false → Distinct (ns ++ k ∷ [])
append-Distinct k [] d h = (refl, tt)
append-Distinct k (n ∷ ns) d h = (
  elem-append n.id k ns d.0 (ground (arith, str_eq_iff n.id k.id, str_eq_iff k.id n.id)),
  append-Distinct k ns d.1 (ground arith),
)

module _ (graph : Graph) (max_neighbors : ℕ) (memory_ids : List String) where
  -- A node that the graph has given for a memory of the layer, and that is none of them.
  abbrev pub Neighbor : Node → Type 0
  Neighbor n =
      (str_eq n.id "" ≡ false)
      × (elem n.id memory_ids ≡ false)
      × ((mid : String) × (h : Neighborhood) × In mid memory_ids
          × (graph.neighbors mid ≡ some h)
          × In n h.nodes)

  abbrev pub Bounded : List Node → Type 0
  Bounded seen = (length seen ≤ max_neighbors) × Distinct seen × All Neighbor seen

  All-append :
      (seen : List Node) (k : Node) → All Neighbor seen → Neighbor k → All Neighbor (seen ++ k ∷ [])
  All-append [] k a p = (p, tt)
  All-append (n ∷ ns) k a p = (a.0, All-append ns k a.1 p)

  add_nodes-Bounded :
      (mid : String) (h : Neighborhood) (ns seen : List Node)
      → In mid memory_ids
      → graph.neighbors mid ≡ some h
      → ((n : Node) → In n ns → In n h.nodes)
      → length seen < max_neighbors
      → Bounded seen
      → Bounded (add_nodes max_neighbors memory_ids ns seen)
  unfolding add_nodes is_new
  add_nodes-Bounded mid h [] seen i e there room b = b
  add_nodes-Bounded mid h (n ∷ ns) seen i e there room b =
      elim (Bool-cases (is_new memory_ids seen n)) [
        | inl new ↦ elim (Bool-cases (leb max_neighbors (length (seen ++ n ∷ [])))) [
          | inl full ↦ rw (new, full) (added new)
          | inr more ↦
              rw (new, more)
                (add_nodes-Bounded mid h ns (seen ++ n ∷ []) i e (λ k j. there k (inr j))
                  (ground arith) (added new))
        ]
        | inr old ↦ rw old (add_nodes-Bounded mid h ns seen i e (λ k j. there k (inr j)) room b)
      ]
    where
      added : is_new memory_ids seen n ≡ true → Bounded (seen ++ n ∷ [])
      added new = (
        omega (arith, length-append seen (n ∷ []), room),
        append-Distinct n seen b.1 (ground arith),
        All-append seen n b.2 (ground arith, ground arith, (mid, h, i, e, there n (inl refl))),
      )

  joined-Bounded :
      (mid : String) (o : Option Neighborhood) (c : GraphContext)
      → graph.neighbors mid ≡ o
      → In mid memory_ids
      → length c.related_memories < max_neighbors
      → Bounded c.related_memories
      → Bounded (joined max_neighbors memory_ids o c).related_memories
  unfolding joined
  joined-Bounded mid none c e i room b = b
  joined-Bounded mid (some h) c e i room b =
      add_nodes-Bounded mid h h.nodes c.related_memories i e (λ n j. j) room b

  walk-Bounded :
      (mids : List String) (c : GraphContext)
      → ((mid : String) → In mid mids → In mid memory_ids)
      → Bounded c.related_memories
      → Bounded (walk graph max_neighbors memory_ids mids c).related_memories
  unfolding walk
  walk-Bounded [] c there b = b
  walk-Bounded (mid ∷ mids) c there b =
      elim (Bool-cases (leb max_neighbors (length c.related_memories))) [
        | inl full ↦ rw full b
        | inr room ↦ rw room (
            walk-Bounded mids (joined max_neighbors memory_ids (graph.neighbors mid) c)
              (λ m j. there m (inr j))
              (joined-Bounded mid (graph.neighbors mid) c refl (there mid (inl refl)) (ground arith)
                b))
      ]

  elem-added :
      (x : String) (k : Node) (seen : List Node)
      → elem x (ids seen) ≡ true
      → elem x (ids (seen ++ k ∷ [])) ≡ true
  elem-added x k [] e = ground arith
  elem-added x k (n ∷ seen) e = ground (arith, elem-added x k seen)

  elem-last : (k : Node) (seen : List Node) → elem k.id (ids (seen ++ k ∷ [])) ≡ true
  elem-last k [] = rw (str_eq_refl k.id) refl
  elem-last k (n ∷ seen) = ground (arith, elem-last k seen)

  add_nodes_keeps :
      (x : String) (ns seen : List Node)
      → elem x (ids seen) ≡ true
      → elem x (ids (add_nodes max_neighbors memory_ids ns seen)) ≡ true
  unfolding add_nodes
  add_nodes_keeps x [] seen e = e
  add_nodes_keeps x (n ∷ ns) seen e =
      let added = elem-added x n seen e in
      elim (Bool-cases (is_new memory_ids seen n)) [
        | inl new ↦ elim (Bool-cases (leb max_neighbors (length (seen ++ n ∷ [])))) [
          | inl full ↦ rw (new, full) added
          | inr more ↦ rw (new, more) (add_nodes_keeps x ns (seen ++ n ∷ []) added)
        ]
        | inr old ↦ rw old (add_nodes_keeps x ns seen e)
      ]

  -- A node that is none of the layer's, with an id.
  abbrev pub Foreign : Node → Type 0
  Foreign n = (n.id ≢ "") × (elem n.id memory_ids ≡ false)

  seen_before :
      (n : Node) (seen : List Node)
      → Foreign n
      → is_new memory_ids seen n ≡ false
      → elem n.id (ids seen) ≡ true
  unfolding is_new
  seen_before n seen (some_id, outside) old = elim (Bool-cases (str_eq n.id "")) [
    | inl e ↦ absurd (some_id ((str_eq_iff n.id "").0 e))
    | inr e ↦ ground arith
  ]

  -- Every such node that the graph gives for a memory of the layer is there, by its id.
  abbrev pub Complete : List Node → Type 0
  Complete found =
      (mid : String) (h : Neighborhood) (n : Node)
      → In mid memory_ids
      → graph.neighbors mid ≡ some h
      → In n h.nodes
      → Foreign n
      → elem n.id (ids found) ≡ true

  add_nodes_complete :
      (n : Node) (ns seen : List Node)
      → In n ns
      → Foreign n
      → length (add_nodes max_neighbors memory_ids ns seen) < max_neighbors
      → elem n.id (ids (add_nodes max_neighbors memory_ids ns seen)) ≡ true
  unfolding add_nodes
  add_nodes_complete n [] seen i out room = absurd i
  add_nodes_complete n (k ∷ ns) seen i out room = elim (Bool-cases (is_new memory_ids seen k)) [
    | inl new ↦ elim (Bool-cases (leb max_neighbors (length (seen ++ k ∷ [])))) [
      | inl full ↦ absurd (full_up new full)
      | inr more ↦
          rw (new, more)
            (elim i [
              | inl e ↦ add_nodes_keeps n.id ns (seen ++ k ∷ []) (
                  subst (λ (z : Node). elem z.id (ids (seen ++ k ∷ [])) ≡ true) (sym e)
                    (elem-last k seen))
              | inr j ↦ add_nodes_complete n ns (seen ++ k ∷ []) j out (rw (new, more) at room)
            ])
    ]
    | inr old ↦ rw old (elim i [
      | inl e ↦
          add_nodes_keeps n.id ns seen
            (seen_before n seen out (subst (λ z. is_new memory_ids seen z ≡ false) (sym e) old))
      | inr j ↦ add_nodes_complete n ns seen j out (rw old at room)
    ])
  ]
    where
      full_up :
          is_new memory_ids seen k ≡ true → leb max_neighbors (length (seen ++ k ∷ [])) ≡ true → ⊥
      full_up new full = ground (arith, (rw (new, full) at room))

  joined_keeps :
      (x : String) (o : Option Neighborhood) (c : GraphContext)
      → elem x (ids c.related_memories) ≡ true
      → elem x (ids (joined max_neighbors memory_ids o c).related_memories) ≡ true
  unfolding joined
  joined_keeps x none c e = e
  joined_keeps x (some h) c e = add_nodes_keeps x h.nodes c.related_memories e

  add_nodes_grows :
      (ns seen : List Node) → length seen ≤ length (add_nodes max_neighbors memory_ids ns seen)
  unfolding add_nodes
  add_nodes_grows [] seen = omega arith
  add_nodes_grows (n ∷ ns) seen = ground (
    arith,
    length-append seen (n ∷ []),
    add_nodes_grows ns (seen ++ n ∷ []),
    add_nodes_grows ns seen,
  )

  joined_grows :
      (o : Option Neighborhood) (c : GraphContext)
      → length c.related_memories ≤ length (joined max_neighbors memory_ids o c).related_memories
  unfolding joined
  joined_grows none c = omega arith
  joined_grows (some h) c = add_nodes_grows h.nodes c.related_memories

  walk_grows :
      (mids : List String) (c : GraphContext)
      → length c.related_memories
        ≤ length (walk graph max_neighbors memory_ids mids c).related_memories
  unfolding walk
  walk_grows [] c = omega arith
  walk_grows (mid ∷ mids) c =
      let next = joined max_neighbors memory_ids (graph.neighbors mid) c in
      ground (arith, joined_grows (graph.neighbors mid) c, walk_grows mids next)

  small :
      {m n : ℕ} {o : Option Neighborhood} {h : Neighborhood} (c : GraphContext)
      → length (joined max_neighbors memory_ids o c).related_memories ≤ m
      → o ≡ some h
      → m < n
      → length (add_nodes max_neighbors memory_ids h.nodes c.related_memories) < n
  unfolding joined
  small {m} {n} {o} {h} c le e lt =
      let le' =
        subst (λ z. length (joined max_neighbors memory_ids z c).related_memories ≤ m) e le in
      omega (arith, le', lt)

  walk_keeps :
      (x : String) (mids : List String) (c : GraphContext)
      → elem x (ids c.related_memories) ≡ true
      → elem x (ids (walk graph max_neighbors memory_ids mids c).related_memories) ≡ true
  unfolding walk
  walk_keeps x [] c e = e
  walk_keeps x (mid ∷ mids) c e =
      elim (Bool-cases (leb max_neighbors (length c.related_memories))) [
        | inl full ↦ rw full e
        | inr room ↦ rw room (
            walk_keeps x mids (joined max_neighbors memory_ids (graph.neighbors mid) c)
              (joined_keeps x (graph.neighbors mid) c e))
      ]

  walk_complete :
      (n : Node) (mid : String) (h : Neighborhood) (mids : List String) (c : GraphContext)
      → In mid mids
      → graph.neighbors mid ≡ some h
      → In n h.nodes
      → Foreign n
      → length (walk graph max_neighbors memory_ids mids c).related_memories < max_neighbors
      → elem n.id (ids (walk graph max_neighbors memory_ids mids c).related_memories) ≡ true
  unfolding walk
  walk_complete n mid h [] c i e j out room = absurd i
  walk_complete n mid h (k ∷ mids) c i e j out room =
      let next = joined max_neighbors memory_ids (graph.neighbors k) c in
      elim (Bool-cases (leb max_neighbors (length c.related_memories))) [
        | inl full ↦ absurd (
            ground
              (arith, leb→le max_neighbors (length c.related_memories) full, (rw full at room)))
        | inr more ↦ rw more (elim i [
          | inl q ↦
              let given : graph.neighbors k ≡ some h = ap graph.neighbors (sym q) ∙ e in
              walk_keeps n.id mids next (
                rw given (
                  add_nodes_complete n h.nodes c.related_memories j out
                    (small c (walk_grows mids next) given (rw more at room))))
          | inr l ↦ walk_complete n mid h mids next l e j out (rw more at room)
        ])
      ]

  -- The graph adds nothing exactly where it is switched off or the layer is empty. Otherwise it adds
  -- at most `max_neighbors` nodes, no two of one id and none that is in the layer, each of which the
  -- graph has given as a neighbor of a memory of the layer, whichever of its calls raise; and where
  -- these are fewer than `max_neighbors`, every node with an id and outside the layer that the graph
  -- gives as a neighbor of a memory of the layer has its id among them.
  pub fetch_graph_context-Bounded :
      (let o = fetch_graph_context graph max_neighbors memory_ids in
        ((o ≡ none) × ((graph.enabled ≡ false) ⊎ (memory_ids ≡ [])))
        ⊎ ((graph.enabled ≡ true)
            × (memory_ids ≢ [])
            × ((c : GraphContext) × (o ≡ some c)
                × Bounded c.related_memories
                × (length c.related_memories < max_neighbors → Complete c.related_memories))))
  unfolding fetch_graph_context
  fetch_graph_context-Bounded = elim (Bool-cases (not graph.enabled || is_nil memory_ids)) [
    | inl e ↦ rw e (inl (refl, off memory_ids e))
    | inr e ↦ rw e (
        inr (
          ground arith,
          λ q. ground (arith, ap is_nil q),
          (
            _,
            refl,
            walk-Bounded memory_ids (record { related_memories = []; edges = [] }) (λ m i. i)
                (omega arith, tt, tt),
            λ room mid h n i e j out.
                walk_complete n mid h memory_ids (record { related_memories = []; edges = [] }) i e
                  j out room,
          ),
        ))
  ]
    where
      off :
          (l : List String)
          → (not graph.enabled || is_nil l) ≡ true
          → (graph.enabled ≡ false) ⊎ (l ≡ [])
      off [] e = inr refl
      off (x ∷ l) e = inl (ground arith)
