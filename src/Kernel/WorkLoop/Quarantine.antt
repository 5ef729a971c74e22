-- ===== src/Kernel/WorkLoop/Quarantine.antt =====
-- kernel/work_loop_quarantine.py, `GraphQuarantineSink`: the quarantine that outlives the process.
use trading_agents.Prelude.{
  ℕ, ◌+◌, ◌≤◌, ◌≡◌, String, Bool, true, false, some, [], ◌∷◌, arith, fstring, if◌then◌else◌,
  Option-cases, inl, inr, string_eq, pair_eq,
}
use trading_agents.Prelude.Int.{pos}
use trading_agents.Prelude.Dict.{get, is_some, get-put_self}
use trading_agents.Kernel.Graph.Value.{num, str}
use trading_agents.Kernel.Graph.Store.{Props, Store, get_node, make_node, merge_at, merge_node}
use trading_agents.Kernel.WorkLoop.Policy.{WorkLoopPolicy}
use trading_agents.Kernel.WorkLoop.State.{
  QuarantineSink, WorkLoopState, fresh, attempts_of, is_quarantined, eligible_items, record_failure,
}

abbrev quarantine_label : String
quarantine_label = "WorkItemQuarantine"

abbrev quarantine_key : String → String → String
quarantine_key agent item_key = fstring ("work-quarantine:" ∷ agent ∷ ":" ∷ item_key ∷ [])

abbrev marker_props : String → String → ℕ → String → String → Props
marker_props agent item_key attempts reason quarantined_at =
    ("source_agent", str agent)
    ∷ ("item_key", str item_key)
    ∷ ("attempts", num (pos attempts))
    ∷ ("reason", str reason)
    ∷ ("status", str "quarantined")
    ∷ ("quarantined_at", str quarantined_at)
    ∷ []

unfoldable pub marked : String → String → Store → Bool
unfolding get_node
marked agent item_key s = is_some (get_node quarantine_label (quarantine_key agent item_key) s)

-- `quarantined_at` is the text of the clock's reading.
unfoldable pub mark : String → String → String → ℕ → String → Store → Bool × Store
unfolding marked
mark agent quarantined_at item_key attempts reason s =
    if marked agent item_key s then (false, s) else (
      true,
      (merge_node quarantine_label (quarantine_key agent item_key)
          (marker_props agent item_key attempts reason quarantined_at) 1 s).1,
    )

abbrev pub graph_quarantine_sink : String → String → QuarantineSink Store
graph_quarantine_sink agent quarantined_at = record {
  is_quarantined = marked agent;
  quarantine = mark agent quarantined_at;
}

module _ (agent quarantined_at : String) where
  mark-marked :
      (item_key : String) (attempts : ℕ) (reason : String) (s : Store)
      → marked agent item_key (mark agent quarantined_at item_key attempts reason s).1 ≡ true
  unfolding mark merge_node merge_at
  mark-marked item_key attempts reason s =
      elim (Option-cases (get (quarantine_label, quarantine_key agent item_key) s.nodes)) [
        | inl new ↦ rw new (
            ground (
              arith,
              get-put_self (quarantine_label, quarantine_key agent item_key)
                  (make_node quarantine_label (quarantine_key agent item_key)
                    (marker_props agent item_key attempts reason quarantined_at) 1)
                  s.nodes,
            ))
        | inr (node, old) ↦ ground (arith, old)
      ]

  -- The failure that reaches the cap leaves a marker in the graph, so that a new process with an
  -- empty ledger skips the item too, at any time and under any policy of its own.
  pub quarantine_survives :
      (policy : WorkLoopPolicy) (now later : ℕ) (key reason : String) (s : WorkLoopState)
      (g : Store)
      → is_quarantined (some (graph_quarantine_sink agent quarantined_at)) s g key ≡ false
      → policy.max_attempts_before_quarantine ≤ attempts_of (get key s.failures) + 1
      → let sink = some (graph_quarantine_sink agent quarantined_at) in
        let (verdict, s', g') = record_failure sink policy now key reason s g in
        (verdict.0 ≡ true)
        × (eligible_items sink {T = String} (λ k. k) fresh g' later (key ∷ []) ≡ ([], 1))
  unfolding record_failure eligible_items is_quarantined
  quarantine_survives policy now later key reason s g free cap =
      ground (arith, mark-marked key (attempts_of (get key s.failures) + 1) reason g)
