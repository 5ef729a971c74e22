-- ===== src/Execution/FillStore/Written.antt =====
-- What the write of a fill leaves in the graph (agents/execution/store.py, fill_attempts.py and
-- kernel/graph_memory.py).
use native.Mathlib.Decide.{dec_lt}
use trading_agents.Prelude.{
  ℕ, suc, ◌≡◌, ◌<◌, refl, sym, ap, subst, ◌∙◌, String, true, false, Option, some, [], ◌∷◌, length,
  arith, ◌==◌, ==_iff, ==_refl, string_eq, pair_eq, nat_eq, if◌then◌else◌, Bool-cases, inl, inr,
}
use trading_agents.Prelude.Dict.{get}
use trading_agents.Kernel.Graph.Freeze.{value_eq_refl}
use trading_agents.Kernel.Graph.Store.{
  Node, Props, NodeKey, Store, Result, ok, node_key, merge_node,
}
use trading_agents.Kernel.Graph.Append.{Holds}
use trading_agents.Kernel.Graph.Idempotent.{merge_node_idempotent, merge_node_appends}
use trading_agents.Execution.PaperBroker.{BrokerFill}
use trading_agents.Execution.FillAttempts.{
  FillAttempt, fill_attempt_key, usable, usable_at, attempt_at, props_compatible,
  with_attempt_props, select_fill_attempt,
}
use trading_agents.Execution.FillAttempts.Selection.{
  fill_attempt_key_injective, IsFirst, select_fill_attempt-IsFirst,
}
use trading_agents.Execution.FillAttempts.Written.{AllScalar, freeze_scalar, merge_usable}
use trading_agents.Execution.FillStore.{OrderIntentSet, fill_props, write_fill}
use trading_agents.Execution.FillStore.Clean.{
  IsClean, fill_props-IsClean, with_attempt_props-IsClean,
}

-- What holds the props is compatible with them.
held_compatible :
    (stored props : Props)
    → AllScalar props
    → Holds stored props
    → props_compatible stored props ≡ true
unfolding props_compatible
held_compatible stored [] all held = refl
held_compatible stored ((name, v) ∷ props) all held =
    rw (held.0, freeze_scalar v all.0, value_eq_refl v) (held_compatible stored props all.1 held.1)

module _ (number : ℕ → String) (injective : (i j : ℕ) → number i ≡ number j → i ≡ j) (graph : Store)
    (key : String) (props : Props) where
  abbrev selected : Store → ℕ → Option FillAttempt
  selected s fuel = select_fill_attempt number s key props false fuel

  abbrev First : Store → FillAttempt → Type 0
  First s a = IsFirst number injective s key props false a

  -- There is one first attempt.
  same_attempt : (a b : FillAttempt) → First graph a → First graph b → a ≡ b
  same_attempt a b fa fb = elim (dec_lt a.ordinal b.ordinal) [
    | yes less ↦ absurd (ground (arith, fa, fb.2 a.ordinal less))
    | no ge ↦ elim (dec_lt b.ordinal a.ordinal) [
      | yes more ↦ absurd (ground (arith, fb, fa.2 b.ordinal more))
      | no le ↦
          let same : a.ordinal ≡ b.ordinal = omega arith in
          fa.0 ∙ (ap (attempt_at number graph key props false) same ∙ sym fb.0)
    ]
  ]

  abbrev fill_key : String → NodeKey
  fill_key k = ("Fill", k)

  key_of : (a : FillAttempt) → First graph a → a.key ≡ fill_attempt_key number key a.ordinal
  unfolding attempt_at
  key_of a first = ap (λ b. b.key) first.0

  -- The key of an earlier ordinal is another one.
  key_apart :
      (a : FillAttempt) (i : ℕ)
      → First graph a
      → i < a.ordinal
      → (fill_key a.key == fill_key (fill_attempt_key number key i)) ≡ false
  key_apart a i first less =
      elim (Bool-cases (fill_key a.key == fill_key (fill_attempt_key number key i))) [
        | inr apart ↦ apart
        | inl same ↦
            let keys_same =
              ap (λ k. k.1)
                ((==_iff (fill_key a.key) (fill_key (fill_attempt_key number key i))).0 same) in
            let ordinals =
              fill_attempt_key_injective number injective key a.ordinal i
                (sym (key_of a first) ∙ keys_same) in
            absurd (omega (arith, ordinals))
      ]

  usable_at_is :
      (s : Store) (i : ℕ)
      → usable_at number s key props false i
        ≡ usable false
            (get (fill_key (fill_attempt_key number key i)) s.nodes)
            (with_attempt_props props key i)
  unfolding attempt_at usable_at
  usable_at_is s i = refl

  props_of : (a : FillAttempt) → First graph a → a.props ≡ with_attempt_props props key a.ordinal
  unfolding attempt_at
  props_of a first = ap (λ b. b.props) first.0

  usable_of :
      (a : FillAttempt)
      → First graph a
      → usable false (get (fill_key a.key) graph.nodes) a.props ≡ true
  usable_of a first =
      rw (key_of a first, props_of a first) (sym (usable_at_is graph a.ordinal) ∙ first.1)

  usable_held :
      (node : Node) (held : Props)
      → AllScalar held
      → Holds node.props held
      → usable false (some node) held ≡ true
  unfolding usable
  usable_held node held all holds = held_compatible node.props held all holds

  -- The store where a node was written under one key.
  abbrev pub WrittenAt : NodeKey → Node → Store → Type 0
  WrittenAt at node s' =
      (k : NodeKey) → get k s'.nodes ≡ (if at == k then some node else get k graph.nodes)

  at_written :
      (a : FillAttempt) (node : Node) (s' : Store)
      → First graph a
      → WrittenAt (fill_key a.key) node s'
      → get (fill_key (fill_attempt_key number key a.ordinal)) s'.nodes ≡ some node
  at_written a node s' first after =
      ap (λ k. get (fill_key k) s'.nodes) (sym (key_of a first))
      ∙ (after (fill_key a.key) ∙ rw (==_refl (fill_key a.key)) refl)

  earlier_same :
      (a : FillAttempt) (node : Node) (s' : Store) (i : ℕ)
      → First graph a
      → WrittenAt (fill_key a.key) node s'
      → i < a.ordinal
      → get (fill_key (fill_attempt_key number key i)) s'.nodes
        ≡ get (fill_key (fill_attempt_key number key i)) graph.nodes
  earlier_same a node s' i first after less =
      after (fill_key (fill_attempt_key number key i)) ∙ rw (key_apart a i first less) refl

  -- A write of the first attempt leaves it the first one.
  attempt_again :
      (a : FillAttempt) (node : Node) (s' : Store)
      → First graph a
      → AllScalar a.props
      → WrittenAt (fill_key a.key) node s'
      → Holds node.props a.props
      → First s' a
  unfolding attempt_at
  attempt_again a node s' first scalar after held = (
    first.0,
    usable_at_is s' a.ordinal
        ∙ (ap (λ o. usable false o (with_attempt_props props key a.ordinal))
              (at_written a node s' first after)
            ∙ (ap (usable false (some node)) (sym (props_of a first))
                ∙ usable_held node a.props scalar held)),
    λ i less.
        usable_at_is s' i
        ∙ (ap (λ o. usable false o (with_attempt_props props key i))
              (earlier_same a node s' i first after less)
            ∙ (sym (usable_at_is graph i) ∙ first.2 i less)),
  )

module _ (number : ℕ → String) (injective : (i j : ℕ) → number i ≡ number j → i ≡ j)
    (order_tolerance_props : BrokerFill → Props) (fill : BrokerFill)
    (order_set : Option OrderIntentSet) (scalar : AllScalar (order_tolerance_props fill)) where
  abbrev props_of_fill : Props
  props_of_fill = fill_props number order_tolerance_props fill order_set

  abbrev pub FirstOf : Store → FillAttempt → Type 0
  FirstOf s a = IsFirst number injective s fill.idempotency_key props_of_fill false a

  abbrev pub writing : Store → Option (Result Node × Store)
  writing s = write_fill number order_tolerance_props fill order_set s

  -- A write is the merge of the first attempt.
  writing_first :
      (s : Store)
      → (a : FillAttempt) × (writing s ≡ some (merge_node "Fill" a.key a.props 1 s)) × FirstOf s a
  unfolding write_fill
  writing_first s =
      let (a, found, first) =
        select_fill_attempt-IsFirst number injective s fill.idempotency_key props_of_fill false
          (suc (length s.nodes)) (omega arith) in
      (a, rw found refl, first)

  attempt-IsClean : (s : Store) (a : FillAttempt) → FirstOf s a → IsClean a.props
  attempt-IsClean s a first =
      subst IsClean (sym (props_of number injective s fill.idempotency_key props_of_fill a first)) (
        with_attempt_props-IsClean props_of_fill fill.idempotency_key a.ordinal
          (fill_props-IsClean number order_tolerance_props fill order_set scalar))

  -- Every fill of the graph has the version that fills are written with.
  abbrev pub FillsHaveVersionOne : Store → Type 0
  FillsHaveVersionOne s =
      (key : String) (old : Node) → get ("Fill", key) s.nodes ≡ some old → old.schema_version ≡ 1

  -- Where ints have different texts, the fills of the graph have version 1 and the tolerance evidence
  -- is scalars, the write of a fill never raises: the first usable attempt, which exists, gets a node
  -- that holds all its props, and no other node and no edge changes. The same write again gives the
  -- same node and leaves the graph as it is.
  pub write_fill_idempotent :
      (graph : Store)
      → FillsHaveVersionOne graph
      → (a : FillAttempt) × (node : Node) × (s' : Store) × (writing graph ≡ some (ok node, s'))
        × (merge_node "Fill" a.key a.props 1 graph ≡ (ok node, s'))
        × FirstOf graph a
        × WrittenAt number injective graph fill.idempotency_key props_of_fill
            ("Fill", a.key)
            node
            s'
        × (s'.edges ≡ graph.edges)
        × Holds node.props a.props
        × (node_key node ≡ ("Fill", a.key))
        × (node.schema_version ≡ 1)
        × (writing s' ≡ some (ok node, s'))
  write_fill_idempotent graph versions =
      let (a, wrote, first) = writing_first graph in
      let clean = attempt-IsClean graph a first in
      let (node, s', merged, keyed, version) =
        merge_usable a.key a.props false graph clean.0 clean.1 (versions a.key)
          (usable_of number injective graph fill.idempotency_key props_of_fill a first) in
      let (after, edges, faults, held, kept) =
        merge_node_appends "Fill" a.key a.props 1 graph s' node clean.0 merged in
      let (b, again, first_b) = writing_first s' in
      let first_a =
        attempt_again number injective graph fill.idempotency_key props_of_fill a node s' first
          clean.1 after held in
      let same =
        same_attempt number injective s' fill.idempotency_key props_of_fill b a first_b first_a in
      (
        a,
        node,
        s',
        rw wrote (ap some merged),
        merged,
        first,
        after,
        edges,
        held,
        keyed,
        version,
        again
            ∙ ap some (
                ap (λ c. merge_node "Fill" c.key c.props 1 s') same
                ∙ merge_node_idempotent "Fill" a.key a.props 1 graph s' node clean.0 merged),
      )
