-- ===== src/Execution/Deliberation/Reviewed.antt =====
-- A PMRun that a deliberation has reviewed (agents/execution/deliberation_gate.py,
-- pm_execution.py).
use trading_agents.Prelude.{
  ℕ, ◌≡◌, refl, sym, ◌∙◌, ap, String, Bool, true, false, not, Option, some, List, [], ◌∷◌, filter,
  all, arith,
}
use trading_agents.Kernel.Graph.Value.{Items, nil, cons, has_item}
use trading_agents.Kernel.Graph.Store.{Node, Store}
use trading_agents.Execution.Deliberation.Linked.{plan_linked}
use trading_agents.Execution.Deliberation.{
  OrderIntent, OrderIntentSet, DeliberationStatus, applied, applied_failed_open,
  DeliberationPosture, answer, linked_deliberation, failed_open_of, status_of, vetoed_of, is_vetoed,
  drop_by, holds_buys, apply_deliberation_posture, Plan, plan,
}

-- No intent is of a vetoed ticker.
filter-all : (p : OrderIntent → Bool) (xs : List OrderIntent) → all p (filter p xs) ≡ true
filter-all p [] = refl
filter-all p (x ∷ xs) = ground (arith, filter-all p xs)

filter_nothing : (xs : List OrderIntent) → filter (λ i. not (is_vetoed nil i)) xs ≡ xs
unfolding has_item
filter_nothing [] = refl
filter_nothing (x ∷ xs) = ap (λ ys. x ∷ ys) (filter_nothing xs)

free_kept :
    (order_set : OrderIntentSet) (status : DeliberationStatus) (posture : DeliberationPosture)
    → holds_buys status posture ≡ false
    → apply_deliberation_posture order_set status posture
      ≡ record { order_set = order_set; blocked_count = 0 }
unfolding apply_deliberation_posture
free_kept order_set status posture free = ground (arith, free)

abbrev pub unvetoed : Items → OrderIntentSet → OrderIntentSet
unvetoed vetoed order_set = record order_set {
  approved = filter (λ i. not (is_vetoed vetoed i)) order_set.approved;
}

drops_vetoed :
    (delib : Node) (order_set : OrderIntentSet) (vetoed : Items)
    → vetoed_of delib ≡ some vetoed
    → drop_by (some delib) order_set ≡ answer (unvetoed vetoed order_set)
unfolding drop_by
drops_vetoed delib order_set nil h =
    rw (h, drop_by)
      (ap (λ xs. answer (record order_set { approved = xs }))
        (sym (filter_nothing order_set.approved)))
drops_vetoed delib order_set (cons x xs) h = rw (h, drop_by) refl

-- A status that a linked deliberation gives holds nothing back.
reviewed_free :
    (read_time : String → Option ℕ) (now grace_seconds : ℕ) (posture : DeliberationPosture)
    (pm_run delib : Node) (order_set : OrderIntentSet) (s : Store)
    → holds_buys (status_of read_time now grace_seconds (some delib) pm_run order_set s) posture
      ≡ false
unfolding status_of
reviewed_free read_time now grace_seconds posture pm_run delib order_set s =
    elim (failed_open_of delib)
      as (λ tickers.
        holds_buys (elim tickers [ [] ↦ applied | t ∷ ts ↦ applied_failed_open ]) posture ≡ false) [
          | [] ↦ refl
          | t ∷ ts ↦ refl
        ]

-- Where a deliberation is linked to the PMRun, and a set can be made of its vetoed tickers, the head
-- of `execute_pm_node` gives a plan: exactly the approved intents of no vetoed ticker, in their
-- order, with none counted as blocked.
pub reviewed_plan :
    (read_time : String → Option ℕ) (now grace_seconds : ℕ) (posture : DeliberationPosture)
    (pm_run delib : Node) (order_set : OrderIntentSet) (s : Store) (vetoed : Items)
    → linked_deliberation pm_run s ≡ (answer (some delib), s)
    → vetoed_of delib ≡ some vetoed
    → (p : Plan) × (plan read_time now grace_seconds posture pm_run order_set s ≡ (answer p, s))
      × (p.filtered.order_set ≡ unvetoed vetoed order_set)
      × (p.filtered.blocked_count ≡ 0)
      × (all (λ i. not (is_vetoed vetoed i)) p.filtered.order_set.approved ≡ true)
reviewed_plan read_time now grace_seconds posture pm_run delib order_set s vetoed link v =
    let status = status_of read_time now grace_seconds (some delib) pm_run order_set s in
    let kept = unvetoed vetoed order_set in
    (
      record {
        status = status;
        failed_open = failed_open_of delib;
        filtered = record { order_set = kept; blocked_count = 0 };
      },
      plan_linked pm_run order_set (some delib) s link read_time now grace_seconds posture
          ∙ (rw (drops_vetoed delib order_set vetoed v) (
              ap
                (λ f. (
                  answer (record {
                    status = status;
                    failed_open = failed_open_of delib;
                    filtered = f;
                  }),
                  s,
                ))
                (free_kept kept status posture
                  (reviewed_free read_time now grace_seconds posture pm_run delib order_set s)))),
      refl,
      refl,
      filter-all (λ i. not (is_vetoed vetoed i)) order_set.approved,
    )
