-- ===== src/Execution/Deliberation/Linked.antt =====
-- The plan, from the deliberation that is linked (agents/execution/pm_execution.py).
use trading_agents.Prelude.{ℕ, ◌≡◌, refl, String, Option, none, some, List, []}
use trading_agents.Kernel.Graph.Store.{Node, Store}
use trading_agents.Execution.Deliberation.{
  OrderIntentSet, DeliberationPosture, answer, and_then, linked_deliberation, failed_open_of,
  status_of, deliberation_status, drop_by, drop_vetoed, failed_open_tickers,
  apply_deliberation_posture, plan,
}

abbrev pub open_of : Option Node → List String
open_of delib = elim delib [ none ↦ [] | some node ↦ failed_open_of node ]

module _ (pm_run : Node) (order_set : OrderIntentSet) (delib : Option Node) (s : Store)
    (link : linked_deliberation pm_run s ≡ (answer delib, s)) where
  opens : failed_open_tickers pm_run s ≡ (answer (open_of delib), s)
  unfolding failed_open_tickers
  opens = rw link refl

  drops : drop_vetoed pm_run order_set s ≡ (drop_by delib order_set, s)
  unfolding drop_vetoed
  drops = rw link refl

  module _ (read_time : String → Option ℕ) (now grace_seconds : ℕ)
      (posture : DeliberationPosture) where
    judges :
        deliberation_status read_time now grace_seconds pm_run order_set s
        ≡ (answer (status_of read_time now grace_seconds delib pm_run order_set s), s)
    unfolding deliberation_status
    judges = rw link refl

    pub plan_linked :
        plan read_time now grace_seconds posture pm_run order_set s
        ≡ and_then
            (drop_by delib order_set, s)
            (λ kept t.
              let status = status_of read_time now grace_seconds delib pm_run order_set s in
              (
                answer (record {
                  status = status;
                  failed_open = open_of delib;
                  filtered = apply_deliberation_posture kept status posture;
                }),
                t,
              ))
    unfolding plan
    plan_linked = rw judges (rw opens (rw drops refl))
