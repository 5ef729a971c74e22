-- ===== src/Kernel/Graph/Walk/Exact.antt =====
-- The walk (kernel/graph_memory.py, `_walk`) gives exactly the nodes that a chain of at most
-- `max_depth` allowed edges leads to.
use trading_agents.Prelude.{
  ℕ, zero, suc, ◌+◌, ◌≡◌, refl, subst, ◌∙◌, String, Bool, true, Option, some, List, [], ◌∷◌, ◌⊎◌,
  inl, inr, ◌↔◌, arith, All, All-mono, any, elem, map, ==_iff, string_eq, pair_eq,
}
use trading_agents.Prelude.Dict.{get}
use trading_agents.Kernel.Graph.Store.{NodeKey, Node, Edge, node_key, Store, ok, knows, target_end}
use trading_agents.Kernel.Graph.Edges.{IsValid}
use trading_agents.Kernel.Graph.Walk.{Progress, visit_all, levels, walk}
use trading_agents.Kernel.Graph.Walk.Reach.{
  Distinct, leads, Level, IsTracked, Visited, visits-Visited,
}

-- `d` more levels from level `n`.
abbrev levels_on : ℕ → ℕ → ℕ
levels_on zero n = n
levels_on (suc d) n = levels_on d (suc n)

module _ (s : Store) (edge_types : Option (List String)) (downstream : Bool) (start : NodeKey) where
  -- Some stored edge leads from `j` to `k`.
  abbrev pub Arc : NodeKey → NodeKey → Type 0
  Arc j k = any (leads s edge_types downstream j k) s.edges ≡ true

  -- A chain of at most so many edges leads from the start to `k`.
  abbrev pub ReachedIn : ℕ → NodeKey → Type 0
  ReachedIn zero k = start ≡ k
  ReachedIn (suc n) k = ReachedIn n k ⊎ ((j : NodeKey) × ReachedIn n j × Arc j k)

  -- The progress after `n` levels.
  record IsAt (n : ℕ) (p : Progress) : Type 0 where
    reached : (k : NodeKey) → elem k p.seen ≡ true → ReachedIn n k
    found : (k : NodeKey) → ReachedIn n k → elem k p.seen ≡ true
    closed :
        (j k : NodeKey)
        → elem j p.seen ≡ true
        → Arc j k
        → (elem j p.frontier ≡ true) ⊎ (elem k p.seen ≡ true)

  advance-IsAt :
      (n : ℕ) (p q : Progress)
      → IsAt n p
      → IsTracked s edge_types downstream start p
      → Level s edge_types downstream p.frontier s.edges (record p { frontier = [] }) q
      → IsAt (suc n) q
  advance-IsAt n p q a t l = record {
    reached = λ k h. elim (l.sound k h) [
      | inl old ↦ inl (a.reached k old)
      | inr (j, jf, via) ↦ inr (j, a.reached j (t.inside j jf), via)
    ];
    found = λ k r. elim r [
      | inl near ↦ l.grows k (a.found k near)
      | inr (j, rj, via) ↦ elim (a.closed j k (a.found j rj) via) [
        | inl jf ↦ l.complete j k jf via
        | inr ks ↦ l.grows k ks
      ]
    ];
    closed = λ j k js via. elim (l.fresh j js) [
      | inr new ↦ inl new
      | inl old ↦ elim (a.closed j k old via) [
        | inl jf ↦ inr (l.complete j k jf via)
        | inr ks ↦ inr (l.grows k ks)
      ]
    ];
  }

  -- With nothing on the frontier, one more level changes nothing.
  IsAt-still : (n : ℕ) (p : Progress) → p.frontier ≡ [] → IsAt n p → IsAt (suc n) p
  IsAt-still n p e a = record {
    reached = λ k h. inl (a.reached k h);
    found = λ k r. elim r [
      | inl near ↦ a.found k near
      | inr (j, rj, via) ↦ elim (a.closed j k (a.found j rj) via) [
        | inl jf ↦ absurd (ground (arith, e, jf))
        | inr ks ↦ ks
      ]
    ];
    closed = a.closed;
  }

  IsAt-still_on : (d n : ℕ) (p : Progress) → p.frontier ≡ [] → IsAt n p → IsAt (levels_on d n) p
  IsAt-still_on zero n p e a = a
  IsAt-still_on (suc d) n p e a = IsAt-still_on d (suc n) p e (IsAt-still n p e a)

  frontier_cases :
      (ks : List NodeKey) → (ks ≡ []) ⊎ ((k : NodeKey) × ((more : List NodeKey) × (ks ≡ k ∷ more)))
  frontier_cases [] = inl refl
  frontier_cases (k ∷ more) = inr (k, (more, refl))

  levels_stop :
      (d : ℕ) (p q : Progress)
      → visit_all s edge_types downstream p.frontier s.edges (record p { frontier = [] }) ≡ ok q
      → q.frontier ≡ []
      → levels s edge_types downstream (suc d) p ≡ ok q
  unfolding levels
  levels_stop d p q e f = ground (arith, e, f)

  levels_go :
      (d : ℕ) (p q : Progress) (k : NodeKey) (more : List NodeKey)
      → visit_all s edge_types downstream p.frontier s.edges (record p { frontier = [] }) ≡ ok q
      → q.frontier ≡ k ∷ more
      → levels s edge_types downstream (suc d) p ≡ levels s edge_types downstream d q
  unfolding levels
  levels_go d p q k more e f = ground (arith, e, f)

  module _ (valid : IsValid s) where
    target_known :
        (edge : Edge)
        → knows s edge.parent ≡ true
        → knows s edge.child ≡ true
        → knows s (target_end downstream edge) ≡ true
    target_known edge p c = ground (arith, p, c)

    targets_known : All (λ edge. knows s (target_end downstream edge) ≡ true) s.edges
    targets_known = All-mono _ _ (λ edge ends. target_known edge ends.0 ends.1) s.edges valid.joined

    level :
        (p : Progress)
        → Visited s edge_types downstream start p.frontier s.edges (record p { frontier = [] })
    level p =
        visits-Visited s edge_types downstream start p.frontier s.edges (record p { frontier = [] })
          valid.keyed targets_known

    without_frontier :
        (p : Progress)
        → IsTracked s edge_types downstream start p
        → IsTracked s edge_types downstream start (record p { frontier = [] })
    without_frontier p t = record {
      tracked = t.tracked;
      distinct = t.distinct;
      stored = t.stored;
      inside = λ k f. cc;
    }

    levels_exact :
        (d n : ℕ) (p : Progress)
        → IsAt n p
        → IsTracked s edge_types downstream start p
        → (q : Progress) × (levels s edge_types downstream d p ≡ ok q)
          × IsAt (levels_on d n) q
          × IsTracked s edge_types downstream start q
    unfolding levels
    levels_exact zero n p a t = (p, refl, a, t)
    levels_exact (suc d) n p a t =
        let (q, e, l, keeps) = level p in
        let b = advance-IsAt n p q a t l in
        let tq = keeps (without_frontier p t) in
        let rest = levels_exact d (suc n) q b tq in
        elim (frontier_cases q.frontier) [
          | inl done ↦ (q, levels_stop d p q e done, IsAt-still_on d (suc n) q done b, tq)
          | inr (k, (more, split)) ↦
              (rest.0, levels_go d p q k more e split ∙ rest.1, rest.2, rest.3)
        ]

levels_on_add : (d n : ℕ) → levels_on d n ≡ d + n
levels_on_add zero n = omega arith
levels_on_add (suc d) n = omega (arith, levels_on_add d (suc n))

abbrev first_level : NodeKey → Progress
first_level start = record { seen = start ∷ []; frontier = start ∷ []; out = [] }

-- What the levels from the start come to, read off the last progress.
walk_result :
    (s : Store) (edge_types : Option (List String)) (downstream : Bool) (node : Node)
    (max_depth : ℕ) (q : Progress)
    → levels s edge_types downstream max_depth (first_level (node_key node)) ≡ ok q
    → IsAt s edge_types downstream (node_key node) max_depth q
    → IsTracked s edge_types downstream (node_key node) q
    → (out : List Node) × (walk s edge_types downstream node max_depth ≡ ok out)
      × Distinct (node_key node ∷ map node_key out)
      × All (λ n. get (node_key n) s.nodes ≡ some n) out
      × ((k : NodeKey)
          → (elem k (node_key node ∷ map node_key out) ≡ true)
            ↔ ReachedIn s edge_types downstream (node_key node) max_depth k)
unfolding walk
walk_result s edge_types downstream node max_depth q e at t = (
  q.out,
  rw (e, walk),
  subst Distinct t.tracked t.distinct,
  t.stored,
  λ k.
      subst
        (λ ks. (elem k ks ≡ true) ↔ ReachedIn s edge_types downstream (node_key node) max_depth k)
        t.tracked (at.reached k, at.found k),
)

-- The walk of a valid store raises nothing. It gives each node once, as it is stored, and never the
-- start; with the start they are exactly the nodes that a chain of at most `max_depth` allowed
-- edges leads to.
pub walk_exact :
    (s : Store) (edge_types : Option (List String)) (downstream : Bool) (node : Node)
    (max_depth : ℕ)
    → IsValid s
    → (out : List Node) × (walk s edge_types downstream node max_depth ≡ ok out)
      × Distinct (node_key node ∷ map node_key out)
      × All (λ n. get (node_key n) s.nodes ≡ some n) out
      × ((k : NodeKey)
          → (elem k (node_key node ∷ map node_key out) ≡ true)
            ↔ ReachedIn s edge_types downstream (node_key node) max_depth k)
walk_exact s edge_types downstream node max_depth valid =
    let start = node_key node in
    let (q, e, at, t) =
      levels_exact s edge_types downstream start valid max_depth 0 (first_level start)
        (record {
          reached = λ k h. (==_iff start k).0 (ground (arith, h));
          found = λ k r. ground (arith, (==_iff start k).1 r);
          closed = λ j k js via. inl js;
        })
        (record { tracked = refl; distinct = (refl, tt); stored = tt; inside = λ k f. f }) in
    walk_result s edge_types downstream node max_depth q e
      (subst (λ n. IsAt s edge_types downstream start n q) (levels_on_add max_depth 0 ∙ omega arith)
        at)
      t
