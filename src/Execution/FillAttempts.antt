-- ===== src/Execution/FillAttempts.antt =====
-- agents/execution/fill_attempts.py: the graph key under which one attempt of a broker order is
-- written. `number` is Python's text of an int. A store has finitely many nodes, and the search for an
-- attempt takes one step of fuel for each ordinal that it tries.
pub mod Selection
pub mod Chain
pub mod Written
use trading_agents.Prelude.{
  ℕ, zero, suc, ◌+◌, String, Bool, true, false, not, ◌&&◌, Option, none, some, List, [], ◌∷◌, ◌==◌,
  if◌then◌else◌, fstring, string_eq, nat_eq,
}
use trading_agents.Prelude.Int.{pos}
use trading_agents.Prelude.Dict.{get, put}
use trading_agents.Kernel.Graph.Value.{Value, num, str, value_eq}
use trading_agents.Kernel.Graph.Store.{Node, Props, Store, get_node}

-- The graph key and props of one attempt.
pub record FillAttempt : Type 0 where
  pub key : String
  pub ordinal : ℕ
  pub props : Props

abbrev base_attempt_ordinal : ℕ
base_attempt_ordinal = 0

abbrev pub agrees : Option Value → Value → Bool
agrees none value = true
agrees (some old) value = value_eq old value

-- `_props_compatible`
unfoldable pub props_compatible : Props → Props → Bool
props_compatible existing [] = true
props_compatible existing ((name, value) ∷ new_props) =
    agrees (get name existing) value && props_compatible existing new_props

-- `_with_attempt_props`
unfoldable pub with_attempt_props : Props → String → ℕ → Props
with_attempt_props props broker_idempotency_key ordinal =
    put "attempt_ordinal" (num (pos ordinal))
      (put "broker_idempotency_key" (str broker_idempotency_key) props)

-- The condition that ends the search.
unfoldable pub usable : Bool → Option Node → Props → Bool
unfolding props_compatible
usable force_new none attempt_props = true
usable force_new (some current) attempt_props =
    not force_new && props_compatible current.props attempt_props

module _ (number : ℕ → String) where
  unfoldable pub fill_attempt_key : String → ℕ → String
  fill_attempt_key broker_idempotency_key ordinal =
      if ordinal == base_attempt_ordinal
      then broker_idempotency_key
      else fstring (broker_idempotency_key ∷ "#" ∷ number ordinal ∷ [])

  module _ (graph : Store) (broker_idempotency_key : String) (props : Props)
      (force_new : Bool) where
    unfoldable pub attempt_at : ℕ → FillAttempt
    unfolding fill_attempt_key with_attempt_props
    attempt_at ordinal = record {
      key = fill_attempt_key broker_idempotency_key ordinal;
      ordinal = ordinal;
      props = with_attempt_props props broker_idempotency_key ordinal;
    }

    unfoldable pub usable_at : ℕ → Bool
    unfolding usable get_node
    usable_at ordinal =
        usable force_new (get_node "Fill" (attempt_at ordinal).key graph) (attempt_at ordinal).props

    -- `while True:` from an ordinal on; `none` is out of fuel.
    unfoldable pub select_from : ℕ → ℕ → Option FillAttempt
    unfolding attempt_at usable_at
    select_from zero ordinal = none
    select_from (suc fuel) ordinal =
        let later = select_from fuel (ordinal + 1) in
        if usable_at ordinal then some (attempt_at ordinal) else later

    unfoldable pub select_fill_attempt : ℕ → Option FillAttempt
    unfolding select_from
    select_fill_attempt fuel = select_from fuel base_attempt_ordinal
