-- ===== src/Execution/Deliberation/Posture.antt =====
-- What the posture filter keeps (agents/execution/deliberation_posture.py).
use trading_agents.Prelude.{
  ◌+◌, ◌-◌, ◌≡◌, ◌≤◌, refl, true, false, not, List, [], ◌∷◌, ==_iff, filter, any, length, arith,
  nat_eq,
}
use trading_agents.Execution.Deliberation.{
  OrderIntent, OrderIntentSet, DeliberationStatus, DeliberationPosture, is_buy, has_buy,
  PostureFilteredOrderSet, holds_buys, apply_deliberation_posture,
}

-- The intents that open no exposure.
abbrev pub others : List OrderIntent → List OrderIntent
others = filter (λ i. not (is_buy i))

others_shorter : (xs : List OrderIntent) → length (others xs) ≤ length xs
others_shorter [] = omega arith
others_shorter (x ∷ xs) = ground (arith, others_shorter xs)

others_all : (xs : List OrderIntent) → length (others xs) ≡ length xs → any is_buy xs ≡ false
others_all [] h = refl
others_all (x ∷ xs) h = ground (arith, others_all xs, others_shorter xs, h)

others_no_buy : (xs : List OrderIntent) → any is_buy (others xs) ≡ false
others_no_buy [] = refl
others_no_buy (x ∷ xs) = ground (arith, others_no_buy xs)

others-others : (xs : List OrderIntent) → others (others xs) ≡ others xs
others-others [] = refl
others-others (x ∷ xs) = ground (arith, others-others xs)

module _ (order_set : OrderIntentSet) (status : DeliberationStatus)
    (posture : DeliberationPosture) where
  abbrev kept : PostureFilteredOrderSet
  kept = apply_deliberation_posture order_set status posture

  -- The posture filter keeps every intent that is not a buy, counts what it drops, and leaves no buy
  -- where the status and the posture hold buys; elsewhere it keeps the set as it is.
  pub apply_deliberation_posture_exact :
      (others kept.order_set.approved ≡ others order_set.approved)
      × (length kept.order_set.approved + kept.blocked_count ≡ length order_set.approved)
      × (holds_buys status posture ≡ true → has_buy kept.order_set ≡ false)
      × (holds_buys status posture ≡ false → kept.order_set ≡ order_set)
  unfolding apply_deliberation_posture
  apply_deliberation_posture_exact =
      let xs = order_set.approved in
      (
        ground (arith, others-others xs),
        ground (arith, others_shorter xs),
        λ holds. ground (
          arith,
          others_shorter xs,
          others_all xs,
          others_no_buy xs,
          holds,
          ==_iff (length xs - length (others xs)) 0,
        ),
        λ free. ground (arith, free),
      )
