-- ===== src/Kernel/Graph/Walk/Reach.antt =====
-- The walk (kernel/graph_memory.py, `_walk`) against reachability by a chain of allowed edges.
use trading_agents.Prelude.{
  ◌≡◌, refl, sym, subst, String, Bool, true, false, ◌&&◌, Option, some, List, [], ◌∷◌, ◌++◌, ◌⊎◌,
  inl, inr, arith, All, All-append, any, any-append, elem, elem-append, map, ◌==◌, ==_iff, ==_refl,
  Bool-cases, Option-cases, string_eq, pair_eq,
}
use mathlib.Core.List.{map-append}
use trading_agents.Prelude.Dict.{get}
use trading_agents.Kernel.Graph.Store.{
  NodeKey, Node, Edge, node_key, Store, ok, knows, source_end, target_end,
}
use trading_agents.Kernel.Graph.Walk.{Progress, edge_allowed, discover, visit, visit_all}

-- No key is listed twice.
abbrev pub Distinct : List NodeKey → Type 0
Distinct [] = Unit
Distinct (k ∷ ks) = (elem k ks ≡ false) × Distinct ks

module _ (s : Store) (edge_types : Option (List String)) (downstream : Bool) where
  -- The edge leads from `j` to `k`, and its type is allowed.
  abbrev pub leads : NodeKey → NodeKey → Edge → Bool
  leads j k edge =
      source_end downstream edge == j
      && (edge_allowed edge edge_types && target_end downstream edge == k)

  -- What visiting some edges for one frontier makes of the progress.
  pub record Level (frontier : List NodeKey) (edges : List Edge) (p q : Progress) : Type 0 where
    pub grows : (k : NodeKey) → elem k p.seen ≡ true → elem k q.seen ≡ true
    pub sound :
        (k : NodeKey)
        → elem k q.seen ≡ true
        → (elem k p.seen ≡ true)
          ⊎ ((j : NodeKey) × (elem j frontier ≡ true) × (any (leads j k) edges ≡ true))
    pub complete :
        (j k : NodeKey)
        → elem j frontier ≡ true
        → any (leads j k) edges ≡ true
        → elem k q.seen ≡ true
    pub fresh :
        (k : NodeKey) → elem k q.seen ≡ true → (elem k p.seen ≡ true) ⊎ (elem k q.frontier ≡ true)
    pub next : (k : NodeKey) → elem k p.frontier ≡ true → elem k q.frontier ≡ true

  Level-trans :
      (frontier : List NodeKey) (es fs : List Edge) (p q r : Progress)
      → Level frontier es p q
      → Level frontier fs q r
      → Level frontier (es ++ fs) p r
  Level-trans frontier es fs p q r a b = record {
    grows = λ k h. b.grows k (a.grows k h);
    sound = λ k h. elim (b.sound k h) [
      | inr (j, jf, via) ↦ inr (j, jf, ground (arith, any-append (leads j k) es fs, via))
      | inl old ↦ elim (a.sound k old) [
        | inl older ↦ inl older
        | inr (j, jf, via) ↦ inr (j, jf, ground (arith, any-append (leads j k) es fs, via))
      ]
    ];
    complete = λ j k jf via. elim (Bool-cases (any (leads j k) es)) [
      | inl first ↦ b.grows k (a.complete j k jf first)
      | inr later ↦ b.complete j k jf (ground (arith, any-append (leads j k) es fs, via, later))
    ];
    fresh = λ k h. elim (b.fresh k h) [
      | inr new ↦ inr new
      | inl old ↦ elim (a.fresh k old) [ inl older ↦ inl older | inr new ↦ inr (b.next k new) ]
    ];
    next = λ k h. b.next k (a.next k h);
  }

  Level-none : (frontier : List NodeKey) (p : Progress) → Level frontier [] p p
  Level-none frontier p = record {
    grows = λ k h. h;
    sound = λ k h. inl h;
    complete = λ j k jf via. cc;
    fresh = λ k h. inl h;
    next = λ k h. h;
  }

  leads_facts :
      (j k : NodeKey) (edge : Edge)
      → any (leads j k) (edge ∷ []) ≡ true
      → (source_end downstream edge ≡ j)
        × (edge_allowed edge edge_types ≡ true)
        × (target_end downstream edge ≡ k)
  leads_facts j k edge via = (
    (==_iff (source_end downstream edge) j).0 (ground (arith, via)),
    ground (arith, via),
    (==_iff (target_end downstream edge) k).0 (ground (arith, via)),
  )

  leads_self :
      (edge : Edge)
      → edge_allowed edge edge_types ≡ true
      → leads (source_end downstream edge) (target_end downstream edge) edge ≡ true
  leads_self edge h =
      rw (==_refl (source_end downstream edge), h, ==_refl (target_end downstream edge))

  -- One edge that the walk does not take.
  Level-skip :
      (frontier : List NodeKey) (edge : Edge) (p : Progress)
      → (elem (source_end downstream edge) frontier && edge_allowed edge edge_types) ≡ false
      → Level frontier (edge ∷ []) p p
  Level-skip frontier edge p off = record {
    grows = λ k h. h;
    sound = λ k h. inl h;
    complete = λ j k jf via.
        let (source, allowed, target) = leads_facts j k edge via in
        absurd (ground (arith, off, allowed, subst (λ x. elem x frontier ≡ true) (sym source) jf));
    fresh = λ k h. inl h;
    next = λ k h. h;
  }

  -- One edge that it takes, to a node that is there.
  Level-take :
      (frontier : List NodeKey) (edge : Edge) (found : Node) (p : Progress)
      → (elem (source_end downstream edge) frontier && edge_allowed edge edge_types) ≡ true
      → Level frontier
          (edge ∷ [])
          p
          (discover s edge_types downstream (target_end downstream edge) found p)
  Level-take frontier edge found p on =
      let source = source_end downstream edge in
      let target = target_end downstream edge in
      elim (Bool-cases (elem target p.seen)) [
        | inl known ↦ rw known (record {
          grows = λ k h. h;
          sound = λ k h. inl h;
          complete =
              λ j k jf via. subst (λ x. elem x p.seen ≡ true) (leads_facts j k edge via).2 known;
          fresh = λ k h. inl h;
          next = λ k h. h;
        })
        | inr unknown ↦ rw unknown (record {
          grows = λ k h. ground (arith, elem-append k p.seen (target ∷ []), h);
          sound = λ k h. elim (Bool-cases (elem k p.seen)) [
            | inl old ↦ inl old
            | inr new ↦
                let is_target : target ≡ k =
                  (==_iff target k).0
                    (ground (arith, elem-append k p.seen (target ∷ []), h, new)) in
                inr (
                  source,
                  ground (arith, on),
                  subst (λ x. any (leads source x) (edge ∷ []) ≡ true) is_target
                      (ground (arith, leads_self edge (ground (arith, on)))),
                )
          ];
          complete = λ j k jf via.
              subst (λ x. elem x (p.seen ++ target ∷ []) ≡ true) (leads_facts j k edge via).2
                (ground (arith, elem-append target p.seen (target ∷ []), ==_refl target));
          fresh = λ k h. elim (Bool-cases (elem k p.seen)) [
            | inl old ↦ inl old
            | inr new ↦ inr (
                ground (
                  arith,
                  elem-append k p.seen (target ∷ []),
                  elem-append k p.frontier (target ∷ []),
                  h,
                  new,
                ))
          ];
          next = λ k h. ground (arith, elem-append k p.frontier (target ∷ []), h);
        })
      ]

known_node : (s : Store) (k : NodeKey) → knows s k ≡ true → (n : Node) × (get k s.nodes ≡ some n)
known_node s k h = elim (Option-cases (get k s.nodes)) [
  | inl e ↦ absurd (ground (arith, e, h))
  | inr found ↦ found
]

Distinct-snoc :
    (ks : List NodeKey) (k : NodeKey) → elem k ks ≡ false → Distinct ks → Distinct (ks ++ k ∷ [])
Distinct-snoc [] k new h = (refl, tt)
Distinct-snoc (j ∷ ks) k new h = (
  ground (arith, elem-append j ks (k ∷ []), h.0, ==_iff k j, ==_iff j k, new),
  Distinct-snoc ks k (ground (arith, new)) h.1,
)

module _ (s : Store) (edge_types : Option (List String)) (downstream : Bool) (start : NodeKey) where
  -- What the walk keeps of its variables: `seen` is the start and the nodes given out, each once and
  -- each as stored, and the next frontier lies inside.
  pub record IsTracked (p : Progress) : Type 0 where
    pub tracked : p.seen ≡ start ∷ map node_key p.out
    pub distinct : Distinct p.seen
    pub stored : All (λ n. get (node_key n) s.nodes ≡ some n) p.out
    pub inside : (k : NodeKey) → elem k p.frontier ≡ true → elem k p.seen ≡ true

  discover-IsTracked :
      (found : Node) (p : Progress)
      → get (node_key found) s.nodes ≡ some found
      → IsTracked p
      → IsTracked (discover s edge_types downstream (node_key found) found p)
  discover-IsTracked found p h t = elim (Bool-cases (elem (node_key found) p.seen)) [
    | inl known ↦ rw known t
    | inr unknown ↦ rw unknown (record {
      tracked = rw (t.tracked, map-append);
      distinct = Distinct-snoc p.seen (node_key found) unknown t.distinct;
      stored = All-append _ p.out (found ∷ []) t.stored (h, tt);
      inside = λ k f. ground (
        arith,
        elem-append k p.seen (node_key found ∷ []),
        elem-append k p.frontier (node_key found ∷ []),
        f,
        t.inside k,
      );
    })
  ]

  -- The inner loop over edges whose targets are stored: it raises nothing.
  abbrev pub Visited : List NodeKey → List Edge → Progress → Type 0
  Visited frontier edges p =
      (q : Progress) × (visit_all s edge_types downstream frontier edges p ≡ ok q)
      × Level s edge_types downstream frontier edges p q
      × (IsTracked p → IsTracked q)

  visit-Visited :
      (frontier : List NodeKey) (edge : Edge) (p : Progress) (found : Node)
      → get (target_end downstream edge) s.nodes ≡ some found
      → node_key found ≡ target_end downstream edge
      → (q : Progress) × (visit s edge_types downstream frontier edge p ≡ ok q)
        × Level s edge_types downstream frontier (edge ∷ []) p q
        × (IsTracked p → IsTracked q)
  unfolding visit
  visit-Visited frontier edge p found h key =
      elim (Bool-cases
        (elem (source_end downstream edge) frontier && edge_allowed edge edge_types)) [
          | inr off ↦ (p, rw off, Level-skip s edge_types downstream frontier edge p off, λ t. t)
          | inl on ↦ (
            discover s edge_types downstream (target_end downstream edge) found p,
            rw (on, h),
            Level-take s edge_types downstream frontier edge found p on,
            λ t.
                subst (λ k. IsTracked (discover s edge_types downstream k found p)) key
                  (discover-IsTracked found p (rw key h) t),
          )
        ]

  pub visits-Visited :
      (frontier : List NodeKey) (edges : List Edge) (p : Progress)
      → ((k : NodeKey) (n : Node) → get k s.nodes ≡ some n → node_key n ≡ k)
      → All (λ edge. knows s (target_end downstream edge) ≡ true) edges
      → Visited frontier edges p
  unfolding visit_all
  visits-Visited frontier [] p keyed known =
      (p, refl, Level-none s edge_types downstream frontier p, λ t. t)
  visits-Visited frontier (edge ∷ edges) p keyed known =
      let (found, h) = known_node s (target_end downstream edge) known.0 in
      let (p1, e1, l1, t1) =
        visit-Visited frontier edge p found h (keyed (target_end downstream edge) found h) in
      let (q, e, l, t) = visits-Visited frontier edges p1 keyed known.1 in
      (
        q,
        rw (e1, visit_all) e,
        Level-trans s edge_types downstream frontier (edge ∷ []) edges p p1 q l1 l,
        λ before. t (t1 before),
      )
