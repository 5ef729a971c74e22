-- ===== src/Execution/Deliberation/Unreviewed.antt =====
-- A PMRun that no deliberation has reviewed (agents/execution/deliberation_gate.py,
-- deliberation_posture.py, pm_execution.py).
use trading_agents.Prelude.{
  ℕ, ◌+◌, ◌≡◌, refl, sym, ap, ◌∙◌, String, true, false, ◌&&◌, Option, none, some, List, [], ◌∷◌,
  ◌==◌, ==_iff, ==_refl, subst, any, map, elem, length, arith, Bool-cases, inl, inr, ◌⊎◌, string_eq,
  nat_eq, pair_eq,
}
use trading_agents.Kernel.Graph.Store.{NodeKey, Node, Edge, node_key, Store, ok}
use trading_agents.Kernel.Graph.Edges.{IsValid}
use trading_agents.Kernel.Graph.Walk.{walk, descendants, edge_allowed}
use trading_agents.Kernel.Graph.Walk.Reach.{Distinct, leads}
use trading_agents.Kernel.Graph.Walk.Exact.{walk_exact, ReachedIn}
use trading_agents.Execution.Deliberation.Linked.{plan_linked}
use trading_agents.Execution.Deliberation.Posture.{others, apply_deliberation_posture_exact}
use trading_agents.Execution.Deliberation.{
  OrderIntentSet, DeliberationStatus, proceeded_unvetoed, DeliberationPosture, advisory, binding,
  answer, deliberated_edge, linked_deliberation, has_buy, is_degraded_run, is_grace_over, status_of,
  drop_by, PostureFilteredOrderSet, holds_buys, apply_deliberation_posture, Plan, plan,
}

-- No edge of the kind that links a deliberation leaves the node.
abbrev pub NoneLinked : Node → Store → Type 0
NoneLinked pm_run s =
    any (λ e. e.edge_type == deliberated_edge && e.parent == node_key pm_run) s.edges ≡ false

-- Then no arc leaves it.
no_arc :
    (s : Store) (start k : NodeKey) (edges : List Edge)
    → any (λ e. e.edge_type == deliberated_edge && e.parent == start) edges ≡ false
    → any (leads s (some (deliberated_edge ∷ [])) true start k) edges ≡ false
unfolding edge_allowed
no_arc s start k [] none_linked = refl
no_arc s start k (e ∷ edges) none_linked = ground (
  arith,
  no_arc s start k edges,
  none_linked,
  ==_iff e.edge_type deliberated_edge,
  ==_iff deliberated_edge e.edge_type,
)

free_advisory :
    (posture : DeliberationPosture)
    → holds_buys proceeded_unvetoed posture ≡ false
    → posture ≡ advisory
free_advisory advisory free = refl
free_advisory binding free = ground (arith, free)

module _ (pm_run : Node) (s : Store) (valid : IsValid s) (none_linked : NoneLinked pm_run s) where
  first_target :
      (n : Node) (ns : List Node)
      → Distinct (node_key pm_run ∷ map node_key (n ∷ ns))
      → ¬ (ReachedIn s (some (deliberated_edge ∷ [])) true (node_key pm_run) 1 (node_key n))
  first_target n ns distinct (inl same) =
      ground (arith, distinct.0, (==_iff (node_key n) (node_key pm_run)).1 (sym same))
  first_target n ns distinct (inr (j, same, arc)) = ground (
    arith,
    no_arc s (node_key pm_run) (node_key n) s.edges none_linked,
    subst (λ k. any (leads s (some (deliberated_edge ∷ [])) true k (node_key n)) s.edges ≡ true)
        (sym same) arc,
  )

  nothing_out :
      (out : List Node)
      → Distinct (node_key pm_run ∷ map node_key out)
      → ((n : Node)
          → elem (node_key n) (node_key pm_run ∷ map node_key out) ≡ true
          → ReachedIn s (some (deliberated_edge ∷ [])) true (node_key pm_run) 1 (node_key n))
      → out ≡ []
  nothing_out [] distinct found = refl
  nothing_out (n ∷ ns) distinct found =
      absurd (first_target n ns distinct (found n (ground (arith, ==_refl (node_key n)))))

  walk_nothing : walk s (some (deliberated_edge ∷ [])) true pm_run 1 ≡ ok []
  walk_nothing =
      let (out, runs, distinct, stored, found) =
        walk_exact s (some (deliberated_edge ∷ [])) true pm_run 1 valid in
      runs ∙ ap (λ nodes. ok nodes) (nothing_out out distinct (λ n. (found (node_key n)).0))

  links_nothing : linked_deliberation pm_run s ≡ (answer none, s)
  unfolding linked_deliberation descendants
  links_nothing = ground (arith, walk_nothing)

  module _ (read_time : String → Option ℕ) (now grace_seconds : ℕ) (posture : DeliberationPosture)
      (order_set : OrderIntentSet) where
    abbrev unreviewed_status : DeliberationStatus
    unreviewed_status = status_of read_time now grace_seconds none pm_run order_set s

    abbrev unreviewed_kept : PostureFilteredOrderSet
    unreviewed_kept = apply_deliberation_posture order_set unreviewed_status posture

    plan_runs : plan read_time now grace_seconds posture pm_run order_set s ≡ (
      answer (record { status = unreviewed_status; failed_open = []; filtered = unreviewed_kept }),
      s,
    )
    unfolding drop_by
    plan_runs =
        plan_linked pm_run order_set none s links_nothing read_time now grace_seconds posture

    -- A status that holds nothing back under the posture.
    submits_buys :
        has_buy order_set ≡ true
        → holds_buys unreviewed_status posture ≡ false
        → (is_degraded_run order_set s ≡ false)
          × ((posture ≡ advisory) ⊎ (is_grace_over read_time now grace_seconds pm_run ≡ false))
    unfolding status_of
    submits_buys some_buy free = elim (Bool-cases (is_degraded_run order_set s)) [
      | inl bad ↦ ground (arith, bad, some_buy, free)
      | inr fine ↦ elim (Bool-cases (is_grace_over read_time now grace_seconds pm_run)) [
        | inl over ↦
            (fine, inl (free_advisory posture (ground (arith, free, some_buy, fine, over))))
        | inr early ↦ (fine, inr early)
      ]
    ]

    -- In a valid store where no deliberation is linked to the PMRun, the head of `execute_pm_node`
    -- gives a plan and leaves the store alone. The plan keeps every intent that is not a buy and
    -- counts what it blocks. It has a buy only if the run is not degraded, and the posture is
    -- advisory or the grace is not over; then it is the whole approved set.
    pub unreviewed_plan :
        (p : Plan) × (plan read_time now grace_seconds posture pm_run order_set s ≡ (answer p, s))
        × (others p.filtered.order_set.approved ≡ others order_set.approved)
        × (length p.filtered.order_set.approved + p.filtered.blocked_count
            ≡ length order_set.approved)
        × (has_buy p.filtered.order_set ≡ true
            → (p.filtered.order_set ≡ order_set)
              × (is_degraded_run order_set s ≡ false)
              × ((posture ≡ advisory) ⊎ (is_grace_over read_time now grace_seconds pm_run ≡ false)))
    unreviewed_plan =
        let (same, counted, held, free) =
          apply_deliberation_posture_exact order_set unreviewed_status posture in
        (
          record { status = unreviewed_status; failed_open = []; filtered = unreviewed_kept },
          plan_runs,
          same,
          counted,
          λ some_buy. elim (Bool-cases (holds_buys unreviewed_status posture)) [
            | inl holds ↦ ground (arith, held holds, some_buy)
            | inr shut ↦
                let (fine, why) =
                  submits_buys (subst (λ o. has_buy o ≡ true) (free shut) some_buy) shut in
                (free shut, fine, why)
          ],
        )
