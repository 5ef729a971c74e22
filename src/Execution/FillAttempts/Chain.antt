-- ===== src/Execution/FillAttempts/Chain.antt =====
-- The attempts of one broker key that are in the graph, in the order of their ordinals
-- (agents/execution/fill_attempts.py). `parse_digits` is Python's `int` of a text that `isdigit`.
use Prim.Native.String.{len, slice}
use text.Mathlib.Text.{starts_with}
use trading_agents.Prelude.{
  ℕ, String, Bool, true, false, ◌||◌, ◌==◌, ltb, Option, none, some, List, [], ◌∷◌, filter,
  if◌then◌else◌, string_eq,
}
use trading_agents.Prelude.Int.{ℤ, pos, negsuc}
use trading_agents.Prelude.Dict.{get, is_some}
use trading_agents.Kernel.Graph.Value.{Value, num}
use trading_agents.Kernel.Graph.Store.{Node, Store, list_nodes, has_text}

-- `key.removeprefix(prefix)`
abbrev remove_prefix : String → String → String
remove_prefix head key = if starts_with key head then slice key (len head) (len key) else key

abbrev int_lt : ℤ → ℤ → Bool
int_lt (pos m) (pos n) = ltb m n
int_lt (pos m) (negsuc n) = false
int_lt (negsuc m) (pos n) = true
int_lt (negsuc m) (negsuc n) = ltb n m

module _ (parse_digits : String → Option ℕ) where
  -- `suffix.startswith(ATTEMPT_SEPARATOR) and suffix[1:].isdigit()`
  abbrev suffix_ordinal : String → Option ℕ
  suffix_ordinal suffix =
      if starts_with suffix "#" then parse_digits (slice suffix 1 (len suffix)) else none

  abbrev or_base : Option ℕ → ℤ
  or_base none = pos 0
  or_base (some n) = pos n

  -- The ordinal that the props name, and otherwise the one of the key.
  abbrev ordinal_or : Option Value → String → ℤ
  ordinal_or (some (num n)) suffix = n
  ordinal_or _ suffix = or_base (suffix_ordinal suffix)

  unfoldable pub attempt_ordinal : Node → String → ℤ
  attempt_ordinal node broker_idempotency_key =
      ordinal_or (get "attempt_ordinal" node.props) (remove_prefix broker_idempotency_key node.key)

  -- `_belongs_to_chain`
  unfoldable pub belongs_to_chain : String → Node → Bool
  belongs_to_chain broker_idempotency_key node =
      has_text "broker_idempotency_key" broker_idempotency_key node.props
      || (node.key == broker_idempotency_key
          || is_some (suffix_ordinal (remove_prefix broker_idempotency_key node.key)))

  -- `sorted` with the ordinal as its key, which is stable.
  abbrev insert : String → Node → List Node → List Node
  unfolding attempt_ordinal
  insert key node [] = node ∷ []
  insert key node (other ∷ nodes) =
      let rest = insert key node nodes in
      if int_lt (attempt_ordinal node key) (attempt_ordinal other key)
      then node ∷ other ∷ nodes
      else other ∷ rest

  abbrev insert_all : String → List Node → List Node → List Node
  unfolding insert
  insert_all key [] sorted = sorted
  insert_all key (node ∷ nodes) sorted = insert_all key nodes (insert key node sorted)

  unfoldable pub fill_attempt_chain_in : List Node → String → List Node
  unfolding belongs_to_chain insert_all
  fill_attempt_chain_in fills key = insert_all key (filter (belongs_to_chain key) fills) []

  abbrev last_of : List Node → Option Node
  last_of [] = none
  last_of (node ∷ []) = some node
  last_of (node ∷ other ∷ nodes) = last_of (other ∷ nodes)

  unfoldable pub latest_fill_attempt : Store → String → Option Node
  unfolding fill_attempt_chain_in list_nodes
  latest_fill_attempt graph key = last_of (fill_attempt_chain_in (list_nodes "Fill" graph) key)
