-- ===== src/Execution/PaperBroker/Replacement.antt =====
-- The replacement of a resting stop (agents/execution/paper_broker_orders.py).
use trading_agents.Prelude.{
  ◌⊎◌, ap, ◌∙◌, ◌==◌, if◌then◌else◌, ℕ, ◌≡◌, refl, String, true, some, [], ◌∷◌, arith, Bool-cases,
  Option-cases, inl, inr, string_eq,
}
use trading_agents.Prelude.Dict.{Dict, get, put, get-put}
use trading_agents.Execution.Money.{cents}
use trading_agents.Execution.PaperBroker.{
  rejected, BrokerFill, Reply, done, raised, PaperBroker, order_id, is_open, is_pending, find_open,
  is_replaceable, moved_stop, replaced_stop, replace_stop,
}

-- An entry of the record of orders.
abbrev pub Listed : String → BrokerFill → Dict String BrokerFill → Type 0
Listed key old [] = ⊥
Listed key old ((j, fill) ∷ fills) = ((j ≡ key) × (fill ≡ old)) ⊎ Listed key old fills

find_open_lem :
    (broker_order_id : String) (fills : Dict String BrokerFill) (key : String) (old : BrokerFill)
    → find_open broker_order_id fills ≡ some (key, old)
    → Listed key old fills × (is_open broker_order_id old ≡ true)
unfolding find_open
find_open_lem broker_order_id [] key old h = ground (arith, h)
find_open_lem broker_order_id ((j, fill) ∷ fills) key old h =
    elim (Bool-cases (is_open broker_order_id fill)) [
      | inl here ↦ (inl (ground (arith, here, h)), ground (arith, here, h))
      | inr later ↦
          let (listed, open_) =
            find_open_lem broker_order_id fills key old (ground (arith, later, h)) in
          (inr listed, open_)
    ]

-- The order as it was placed, once it has been replaced.
abbrev pub IsRetired : BrokerFill → BrokerFill → Type 0
IsRetired old retired =
    (retired.status ≡ rejected)
    × (retired.reason ≡ some "replaced")
    × (retired.order_status ≡ some "replaced")
    × (retired.broker_order_id ≡ old.broker_order_id)
    × (retired.ticker ≡ old.ticker)
    × (retired.side ≡ old.side)
    × (retired.quantity ≡ old.quantity)
    × (retired.price ≡ old.price)

-- The same order at another price, which rests under another key.
abbrev pub IsMoved : String → ℕ → BrokerFill → BrokerFill → Type 0
IsMoved idempotency_key stop_price_cents old new =
    (is_pending new.status ≡ true)
    × (is_replaceable new ≡ true)
    × (new.broker_order_id ≡ order_id idempotency_key)
    × (new.price ≡ cents stop_price_cents "USD")
    × (new.ticker ≡ old.ticker)
    × (new.side ≡ old.side)
    × (new.quantity ≡ old.quantity)
    × (new.time_in_force ≡ old.time_in_force)

-- The broker as it was after an exception; else the old order is retired under its key, the new one
-- rests under its own, and every other key has what it had.
abbrev pub Replaces : String → String → ℕ → PaperBroker → Reply × PaperBroker → Type 0
Replaces broker_order_id idempotency_key stop_price_cents b (raised e, c) = c ≡ b
Replaces broker_order_id idempotency_key stop_price_cents b (done new, c) =
    (key : String) × (old : BrokerFill) × (retired : BrokerFill) × Listed key old b.fills
    × (is_open broker_order_id old ≡ true)
    × (is_replaceable old ≡ true)
    × IsMoved idempotency_key stop_price_cents old new
    × IsRetired old retired
    × ((k : String)
        → get k c.fills ≡ (
            if idempotency_key == k
            then some new
            else if key == k
            then some retired
            else get k b.fills))

-- A replacement that raises changes nothing. One that succeeds found a resting order of that id, still
-- replaceable: under its key it is now rejected as replaced, with its ticker, side, quantity and
-- price as they were. The new order of the same ticker, side and quantity rests under its own key, at
-- the new price, and again replaceable (it stands in the old one's place where the two keys are the
-- same). What stands under any other key is unchanged.
pub replace_stop-Replaces :
    (broker_order_id : String) (stop_price_cents : ℕ) (idempotency_key : String) (b : PaperBroker)
    → Replaces broker_order_id idempotency_key stop_price_cents b
        (replace_stop broker_order_id stop_price_cents idempotency_key b)
unfolding replace_stop
replace_stop-Replaces broker_order_id stop_price_cents idempotency_key b =
    elim (Option-cases (find_open broker_order_id b.fills)) [
      | inl nothing ↦ rw (nothing, replace_stop) refl
      | inr ((key, old), found) ↦ elim (Bool-cases (is_replaceable old)) [
        | inr no_longer ↦ rw (found, replace_stop, no_longer) refl
        | inl fresh ↦
            let (listed, open_) = find_open_lem broker_order_id b.fills key old found in
            let new = moved_stop idempotency_key stop_price_cents old in
            let retired = replaced_stop old in
            rw (found, replace_stop, fresh)
              (
                key,
                old,
                retired,
                listed,
                open_,
                fresh,
                (ground (arith, open_), fresh, refl, refl, refl, refl, refl, refl),
                (refl, refl, refl, refl, refl, refl, refl, refl),
                λ k.
                    get-put idempotency_key k new (put key retired b.fills)
                    ∙ ap (λ rest. if idempotency_key == k then some new else rest)
                        (get-put key k retired b.fills),
              )
      ]
    ]
