-- ===== src/Kernel/Graph/Append.antt =====
-- Merging a node (kernel/graph_memory.py `merge_node`, kernel/graph_support.py `_append_props`) only
-- ever adds: what is stored stays, but for the completion of a partial fill.
use trading_agents.Prelude.{
  ℕ, ◌≡◌, refl, subst, ◌∙◌, ap, String, true, false, Option, none, some, [], ◌∷◌, ◌⊎◌, inl, inr,
  arith, elem, ◌==◌, ==_iff, ==_refl, ltb, Bool-cases, string_eq, nat_eq, pair_eq,
}
use trading_agents.Prelude.Dict.{get, put, keys, get-put, put-get}
use trading_agents.Kernel.Graph.Value.{Value, freeze, value_eq}
use trading_agents.Kernel.Graph.Freeze.{freeze-freeze, value_eq_refl}
use trading_agents.Kernel.Graph.Store.{
  Props, Node, frozen_props, make_node, is_partial_completion, conflicts, Merge, merged_to,
  overwrites, append_from, append_props, Store, Result, ok, raised, fault_boundary, merge_known,
  merge_at, merge_node,
}

-- A Python mapping names each key once.
abbrev pub IsUnique : Props → Type 0
IsUnique [] = Unit
IsUnique ((name, value) ∷ props) = (elem name (keys props) ≡ false) × IsUnique props

-- The properties stored hold every one of the written ones, frozen.
abbrev pub Holds : Props → Props → Type 0
Holds stored [] = Unit
Holds stored ((name, value) ∷ props) = (get name stored ≡ some (freeze value)) × Holds stored props

abbrev pub map_freeze : Option Value → Option Value
map_freeze none = none
map_freeze (some v) = some (freeze v)

pub get-frozen_props :
    (name : String) (props : Props) → get name (frozen_props props) ≡ map_freeze (get name props)
unfolding get frozen_props
get-frozen_props name [] = refl
get-frozen_props name ((k, v) ∷ props) = ground (arith, get-frozen_props name props)

pub frozen_props-frozen_props :
    (props : Props) → frozen_props (frozen_props props) ≡ frozen_props props
unfolding frozen_props
frozen_props-frozen_props [] = refl
frozen_props-frozen_props ((k, v) ∷ props) = cc (freeze-freeze v, frozen_props-frozen_props props)

pub Holds-frozen_props :
    (stored props : Props) → Holds stored props → Holds (frozen_props stored) props
Holds-frozen_props stored [] h = tt
Holds-frozen_props stored ((name, value) ∷ props) h = (
  get-frozen_props name stored ∙ (ap map_freeze h.0 ∙ ap some (freeze-freeze value)),
  Holds-frozen_props stored props h.1,
)

module _ (existing new_props : Props) where
  -- A name that is not written keeps its value.
  append_from-other :
      (rest merged result : Props) (name : String)
      → append_from existing new_props rest merged ≡ merged_to result
      → elem name (keys rest) ≡ false
      → get name result ≡ get name merged
  unfolding append_from
  append_from-other [] merged result name e h = cc
  append_from-other ((k, v) ∷ rest) merged result name e h = ground (
    arith,
    append_from-other rest (put k (freeze v) merged) result name,
    get-put k name (freeze v) merged,
  )

  pub append_from-Holds :
      (rest merged result : Props)
      → IsUnique rest
      → append_from existing new_props rest merged ≡ merged_to result
      → Holds result rest
  unfolding append_from
  append_from-Holds [] merged result u e = tt
  append_from-Holds ((k, v) ∷ rest) merged result u e =
      let go : append_from existing new_props rest (put k (freeze v) merged) ≡ merged_to result =
        ground arith in
      (
        append_from-other rest (put k (freeze v) merged) result k go u.0
            ∙ (get-put k k (freeze v) merged ∙ rw (==_refl k)),
        append_from-Holds rest (put k (freeze v) merged) result u.1 go,
      )

  -- Writing what is held changes nothing and conflicts with nothing.
  pub append_from_held :
      (rest merged : Props)
      → Holds merged rest
      → append_from existing new_props rest merged ≡ merged_to merged
  unfolding append_from conflicts
  append_from_held [] merged h = refl
  append_from_held ((k, v) ∷ rest) merged h = rw (put-get k (freeze v) merged h.0) (
      ground
        (arith, h.0, append_from_held rest merged h.1, freeze-freeze v, value_eq_refl (freeze v)))

  -- What becomes of a stored value: it stays equal, or its partial fill is completed.
  abbrev pub Kept : String → Value → Props → Type 0
  Kept name u result =
      (u' : Value) × (get name result ≡ some u')
      × ((value_eq (freeze u) (freeze u') ≡ true)
          ⊎ (is_partial_completion existing new_props name ≡ true))

  no_conflict :
      (merged : Props) (name : String) (u v : Value)
      → get name merged ≡ some u
      → conflicts existing new_props merged name v ≡ false
      → (value_eq (freeze u) (freeze v) ≡ true)
        ⊎ (is_partial_completion existing new_props name ≡ true)
  unfolding conflicts
  no_conflict merged name u v e c = elim (Bool-cases (value_eq (freeze u) (freeze v))) [
    | inl same ↦ inl same
    | inr other ↦ inr (ground (arith, c, e, other))
  ]

  pub append_from-Kept :
      (rest merged result : Props) (name : String) (u : Value)
      → IsUnique rest
      → append_from existing new_props rest merged ≡ merged_to result
      → get name merged ≡ some u
      → Kept name u result
  unfolding append_from
  append_from-Kept [] merged result name u unique e h =
      (u, ground arith, inl (value_eq_refl (freeze u)))
  append_from-Kept ((k, v) ∷ rest) merged result name u unique e h =
      let go : append_from existing new_props rest (put k (freeze v) merged) ≡ merged_to result =
        ground arith in
      let free : conflicts existing new_props merged k v ≡ false = ground arith in
      let later = append_from-Kept rest (put k (freeze v) merged) result name u unique.1 go in
      elim (Bool-cases (k == name)) [
        | inl same ↦
            let e' : k ≡ name = (==_iff k name).0 same in
            (
              freeze v,
              subst (λ n. get n result ≡ some (freeze v)) e'
                  (append_from-Holds ((k, v) ∷ rest) merged result unique e).0,
              rw (freeze-freeze v) (
                  subst
                    (λ n.
                      (value_eq (freeze u) (freeze v) ≡ true)
                      ⊎ (is_partial_completion existing new_props n ≡ true))
                    e' (no_conflict merged k u v (rw e' h) free)),
            )
        | inr other ↦ later (get-put k name (freeze v) merged ∙ (rw other h))
      ]

pub Merge-cases :
    (m : Merge) → ((merged : Props) × (m ≡ merged_to merged)) ⊎ ((n : String) × (m ≡ overwrites n))
Merge-cases (merged_to merged) = inl (merged, refl)
Merge-cases (overwrites n) = inr (n, refl)

-- A merge that succeeds over a known node, taken apart.
merge_known-ok :
    (label key : String) (current : Node) (props : Props) (version : ℕ) (s s' : Store) (node : Node)
    → merge_known label key current props version s ≡ (ok node, s')
    → (current.schema_version ≡ version)
      × ((merged : Props) × (append_props current.props props ≡ merged_to merged)
          × (node ≡ make_node label key merged version)
          × (s' ≡ record s { nodes = put (label, key) node s.nodes }))
unfolding merge_known
merge_known-ok label key current props version s s' node e =
    elim (Merge-cases (append_props current.props props)) [
      | inl (merged, m) ↦ (ground (arith, m), (merged, m, ground (arith, m), ground (arith, m)))
      | inr (n, m) ↦ absurd (ground (arith, m))
    ]

-- Where the node of a merge comes from.
abbrev pub Origin : String → String → Props → ℕ → Option Node → Node → Type 0
Origin label key props version none node = node ≡ make_node label key props version
Origin label key props version (some current) node =
    (current.schema_version ≡ version)
    × ((merged : Props) × (append_props current.props props ≡ merged_to merged)
        × (node ≡ make_node label key merged version))

boundary_ok :
    {A : Type 0} (r : Result A) (s s' : Store) (a : A)
    → fault_boundary (r, s) ≡ (ok a, s')
    → (r ≡ ok a) × (s ≡ s')
boundary_ok (ok b) s s' a e = (cc, cc)
boundary_ok (raised x) s s' a e = (cc, cc)

merge_at-ok :
    (label key : String) (props : Props) (version : ℕ) (o : Option Node) (s s' : Store)
    (node : Node)
    → merge_at label key props version o s ≡ (ok node, s')
    → Origin label key props version o node
      × (s' ≡ record s { nodes = put (label, key) node s.nodes })
unfolding merge_at
merge_at-ok label key props version none s s' node e = (ground arith, ground arith)
merge_at-ok label key props version (some current) s s' node e =
    let (same, (merged, m, n, t)) = merge_known-ok label key current props version s s' node e in
    ((same, (merged, m, n)), t)

pub merge_node-ok :
    (label key : String) (props : Props) (version : ℕ) (s s' : Store) (node : Node)
    → merge_node label key props version s ≡ (ok node, s')
    → (ltb version 1 ≡ false)
      × Origin label key props version (get (label, key) s.nodes) node
      × (s' ≡ record s { nodes = put (label, key) node s.nodes })
unfolding merge_node
merge_node-ok label key props version s s' node e = elim (Bool-cases (ltb version 1)) [
  | inl bad ↦ absurd (ground (arith, bad))
  | inr fine ↦
      let (r, s1) = merge_at label key props version (get (label, key) s.nodes) s in
      let inner : fault_boundary (r, s1) ≡ (ok node, s') = rw fine at e in
      let (re, se) = boundary_ok r s1 s' node inner in
      let (origin, t) =
        merge_at-ok label key props version (get (label, key) s.nodes) s s' node (cc) in
      (fine, origin, t)
]
