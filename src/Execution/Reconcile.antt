-- ===== src/Execution/Reconcile.antt =====
-- agents/execution/domain/reconcile.py: the recorded fills against those of the broker.
pub mod Keys
pub mod Agreement
use trading_agents.Prelude.{
  ℕ, suc, ◌*◌, ◌^◌, String, Bool, true, false, not, ◌&&◌, ◌==◌, Option, none, some, List, [], ◌∷◌,
  ◌++◌, map, filter, elem, if◌then◌else◌, fstring, string_eq, nat_eq,
}
use trading_agents.Prelude.Dict.{Dict, get, put, keys}
use trading_agents.Kernel.Graph.Store.{text_le}
use trading_agents.Execution.Money.{Side, buy, sell, Money}
use trading_agents.Execution.PaperBroker.{BrokerFill, Status, filled, partial, rejected, pending}

abbrev same_side : Side → Side → Bool
same_side buy buy = true
same_side sell sell = true
same_side _ _ = false

abbrev same_status : Status → Status → Bool
same_status filled filled = true
same_status partial partial = true
same_status rejected rejected = true
same_status pending pending = true
same_status _ _ = false

abbrev same_reason : Option String → Option String → Bool
same_reason none none = true
same_reason (some s) (some t) = s == t
same_reason _ _ = false

-- Decimals are equal by their values.
abbrev same_money : Money → Money → Bool
same_money a b =
    a.amount.coefficient * 10 ^ b.amount.scale == b.amount.coefficient * 10 ^ a.amount.scale
    && a.currency == b.currency

-- `_signature(a) == _signature(b)`
unfoldable pub same_signature : BrokerFill → BrokerFill → Bool
same_signature a b =
    a.ticker == b.ticker
    && (same_side a.side b.side
        && (a.quantity == b.quantity
            && (same_money a.price b.price
                && (a.broker_order_id == b.broker_order_id
                    && (same_status a.status b.status && same_reason a.reason b.reason)))))

-- `{fill.idempotency_key: fill for fill in fills}`, on top of a dict.
unfoldable pub by_key : List BrokerFill → Dict String BrokerFill → Dict String BrokerFill
by_key [] d = d
by_key (fill ∷ fills) d = by_key fills (put fill.idempotency_key fill d)

-- `sorted` of texts.
abbrev insert : String → List String → List String
insert key [] = key ∷ []
insert key (other ∷ rest) =
    let later = insert key rest in if text_le key other then key ∷ other ∷ rest else other ∷ later

unfoldable pub sorted : List String → List String
sorted [] = []
sorted (key ∷ rest) = insert key (sorted rest)

-- What is wrong with one recorded key, if anything. The key is one of the recorded dict's own, so that
-- its lookup succeeds.
unfoldable pub verdict : Option BrokerFill → Option BrokerFill → Option String
unfolding same_signature
verdict none broker_fill = none
verdict (some fill) none = some ": missing_broker_fill"
verdict (some fill) (some broker_fill) =
    if same_signature fill broker_fill then none else some ": broker_mismatch"

abbrev pub tally : String → Option String → ℕ × List String → ℕ × List String
tally key none (matched, rest) = (suc matched, rest)
tally key (some what) (matched, rest) = (matched, fstring (key ∷ what ∷ []) ∷ rest)

module _ (recorded_by_key broker_by_key : Dict String BrokerFill) where
  -- `for key in sorted(recorded_by_key):`
  unfoldable pub compare_recorded : List String → ℕ × List String
  unfolding verdict
  compare_recorded [] = (0, [])
  compare_recorded (key ∷ rest) =
      tally key (verdict (get key recorded_by_key) (get key broker_by_key)) (compare_recorded rest)

  -- `set(broker_by_key) - set(recorded_by_key)`
  abbrev pub unrecorded : List String
  unrecorded = filter (λ key. not (elem key (keys recorded_by_key))) (keys broker_by_key)

abbrev pub unrecorded_text : String → String
unrecorded_text key = fstring (key ∷ ": unrecorded_broker_fill" ∷ [])

unfoldable pub reconcile_fills : List BrokerFill → List BrokerFill → ℕ × List String
unfolding by_key sorted compare_recorded
reconcile_fills recorded broker =
    let recorded_by_key = by_key recorded [] in
    let broker_by_key = by_key broker [] in
    let (matched, discrepancies) =
      compare_recorded recorded_by_key broker_by_key (sorted (keys recorded_by_key)) in
    (
      matched,
      discrepancies ++ map unrecorded_text (sorted (unrecorded recorded_by_key broker_by_key)),
    )
