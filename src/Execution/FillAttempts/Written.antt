-- ===== src/Execution/FillAttempts/Written.antt =====
-- The write of a selected attempt (agents/execution/fill_attempts.py, with `merge_node` of
-- kernel/graph_memory.py).
use trading_agents.Prelude.{
  ◌≡◌, sym, refl, ◌∙◌, ap, String, Bool, inl, inr, Option-cases, true, false, some, [], ◌∷◌, arith,
  ==_iff, string_eq, pair_eq, nat_eq, elem, All,
}
use trading_agents.Prelude.Dict.{get, put, get-put, keys}
use trading_agents.Kernel.Graph.Value.{Value, null, num, str, freeze, value_eq}
use trading_agents.Kernel.Graph.Store.{
  Props, Node, Store, ok, append_from, append_props, conflicts, merged_to, merge_node, merge_at,
  merge_known, make_node, node_key,
}
use trading_agents.Kernel.Graph.Append.{IsUnique}
use trading_agents.Kernel.Graph.Fresh.{with_node, merge_new}
use trading_agents.Execution.FillAttempts.{agrees, props_compatible, usable}

-- The values of a fill: texts, ints and nothing at all.
abbrev pub IsScalar : Value → Type 0
IsScalar null = Unit
IsScalar (num n) = Unit
IsScalar (str s) = Unit
IsScalar _ = ⊥

pub freeze_scalar : (v : Value) → IsScalar v → freeze v ≡ v
unfolding freeze
freeze_scalar null h = refl
freeze_scalar (num n) h = refl
freeze_scalar (str s) h = refl
freeze_scalar _ h = absurd h

freeze_same : (old v : Value) → IsScalar v → value_eq old v ≡ true → freeze old ≡ old
unfolding freeze value_eq
freeze_same null v h e = refl
freeze_same (num n) v h e = refl
freeze_same (str s) v h e = refl
freeze_same _ null h e = absurd (ground (arith, e))
freeze_same _ (num n) h e = absurd (ground (arith, e))
freeze_same _ (str s) h e = absurd (ground (arith, e))
freeze_same _ _ h e = absurd h

scalar_agrees :
    (old v : Value) → IsScalar v → value_eq old v ≡ true → value_eq (freeze old) (freeze v) ≡ true
scalar_agrees old v h e = rw (freeze_same old v h e, freeze_scalar v h) e

abbrev pub AllScalar : Props → Type 0
AllScalar props = All (λ field. IsScalar field.1) props

-- A write elsewhere keeps props compatible.
compatible_put :
    (name : String) (v : Value) (merged rest : Props)
    → elem name (keys rest) ≡ false
    → props_compatible merged rest ≡ true
    → props_compatible (put name v merged) rest ≡ true
unfolding props_compatible
compatible_put name v merged [] other h = refl
compatible_put name v merged ((k, u) ∷ rest) other h = ground (
  arith,
  other,
  h,
  get-put name k v merged,
  ==_iff name k,
  ==_iff k name,
  compatible_put name v merged rest,
)

module _ (existing new_props : Props) where
  no_clash :
      (merged : Props) (name : String) (v : Value)
      → IsScalar v
      → agrees (get name merged) v ≡ true
      → conflicts existing new_props merged name v ≡ false
  unfolding conflicts
  no_clash merged name v scalar h = elim (Option-cases (get name merged)) [
    | inl missing ↦ ground (arith, missing)
    | inr (old, at) ↦
        ground (arith, at, scalar_agrees old v scalar (ap (λ o. agrees o v) (sym at) ∙ h))
  ]

  -- Compatible scalars are appended, whatever they complete.
  append_from_compatible :
      (rest merged : Props)
      → IsUnique rest
      → AllScalar rest
      → props_compatible merged rest ≡ true
      → (result : Props) × (append_from existing new_props rest merged ≡ merged_to result)
  unfolding append_from props_compatible
  append_from_compatible [] merged unique scalar h = (merged, refl)
  append_from_compatible ((name, v) ∷ rest) merged unique scalar h =
      let (result, ran) =
        append_from_compatible rest (put name (freeze v) merged) unique.1 scalar.1
          (compatible_put name (freeze v) merged rest unique.0 (ground (arith, h))) in
      (result, rw (no_clash merged name v scalar.0 (ground (arith, h))) ran)

-- A selected attempt can be written.
pub merge_usable :
    (key : String) (props : Props) (force_new : Bool) (s : Store)
    → IsUnique props
    → AllScalar props
    → ((old : Node) → get ("Fill", key) s.nodes ≡ some old → old.schema_version ≡ 1)
    → usable force_new (get ("Fill", key) s.nodes) props ≡ true
    → (node : Node) × (s' : Store) × (merge_node "Fill" key props 1 s ≡ (ok node, s'))
      × (node_key node ≡ ("Fill", key))
      × (node.schema_version ≡ 1)
unfolding merge_node merge_at merge_known append_props usable make_node
merge_usable key props force_new s unique scalar version is_usable =
    elim (Option-cases (get ("Fill", key) s.nodes)) [
      | inl new ↦ (_, _, merge_new "Fill" key props s new, refl, refl)
      | inr (old, at) ↦
          let (merged, ran) =
            append_from_compatible old.props props props old.props unique scalar
              (ground (arith, at, is_usable)) in
          (
            make_node "Fill" key merged 1,
            with_node (make_node "Fill" key merged 1) s,
            rw at (ground (arith, version old at, ran)),
            refl,
            refl,
          )
    ]
