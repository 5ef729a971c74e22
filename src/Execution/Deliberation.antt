-- ===== src/Execution/Deliberation.antt =====
-- The deliberation gate: agents/execution/deliberation_gate.py, deliberation_posture.py, the head
-- of `execute_pm_node` (agents/execution/pm_execution.py) and contracts/run_posture.py. A moment is
-- a number of microseconds, and `read_time` stands for `datetime.fromisoformat`: `none` for a text
-- that it refuses or that names no time zone.
pub mod Posture
pub mod Linked
pub mod Unreviewed
pub mod Reviewed
use trading_agents.Prelude.{
  ℕ, ◌+◌, ◌*◌, ◌-◌, String, Bool, true, false, not, ◌&&◌, ◌||◌, Option, none, some, List, [], ◌∷◌,
  ◌==◌, leb, if◌then◌else◌, filter, any, length, fstring, string_eq, nat_eq,
}
use trading_agents.Prelude.Dict.{get}
use trading_agents.Kernel.Graph.Value.{
  Value, null, num, str, list, tuple, set, frozenset, dict, proxy, Items, nil, cons, Fields, end,
  field, value_eq, has_item,
}
use trading_agents.Kernel.Graph.Chars.{chars}
use trading_agents.Kernel.Graph.Store.{
  Node, Props, Error, Store, Result, ok, raised, get_node, has_text,
}
use trading_agents.Kernel.Graph.Walk.{descendants}
use trading_agents.Execution.Money.{Money}

pub data Action : Type 0 where
  buy sell hold : Action

-- The fields of an intent that the gate reads, and what the broker is asked for.
pub record OrderIntent : Type 0 where
  pub ticker : String
  pub action : Action
  pub quantity : ℕ
  pub est_price : Money

pub record OrderIntentSet : Type 0 where
  pub run_id : String
  pub approved : List OrderIntent

pub data DeliberationStatus : Type 0 where
  applied applied_failed_open not_required waiting held_degraded proceeded_unvetoed :
      DeliberationStatus

pub data DeliberationPosture : Type 0 where
  advisory binding : DeliberationPosture

-- An answer, the store's exception, or the `TypeError` of a value that no set can be made of.
pub data Answer (A : Type 0) : Type 0 where
  answer : A → Answer A
  graph_raised : Error → Answer A
  type_error : Answer A

module _ {A B : Type 0} where
  abbrev pub and_then : Answer A × Store → (A → Store → Answer B × Store) → Answer B × Store
  and_then (answer a, s) f = f a s
  and_then (graph_raised e, s) f = (graph_raised e, s)
  and_then (type_error, s) f = (type_error, s)

abbrev pub first : List Node → Option Node
first [] = none
first (node ∷ nodes) = some node

abbrev pub deliberated_edge : String
deliberated_edge = "DELIBERATED_BY"

abbrev pub first_found : Result (List Node) × Store → Answer (Option Node) × Store
first_found (ok nodes, s) = (answer (first nodes), s)
first_found (raised e, s) = (graph_raised e, s)

unfoldable pub linked_deliberation : Node → Store → Answer (Option Node) × Store
linked_deliberation pm_run s = first_found (descendants pm_run 1 (some (deliberated_edge ∷ [])) s)

abbrev strings : Items → List String
strings nil = []
strings (cons (str text) xs) = text ∷ strings xs
strings (cons x xs) = strings xs

-- `isinstance(raw, (list, tuple, set))`: a frozenset is none of these.
abbrev strings_of : Option Value → List String
strings_of (some (list xs)) = strings xs
strings_of (some (tuple xs)) = strings xs
strings_of (some (set xs)) = strings xs
strings_of other = []

-- `_failed_open_tickers`.
unfoldable pub failed_open_of : Node → List String
failed_open_of delib = strings_of (get "failed_open_tickers" delib.props)

abbrev pub is_buy : OrderIntent → Bool
is_buy intent = elim intent.action [ buy ↦ true | sell ↦ false | hold ↦ false ]

abbrev pub has_buy : OrderIntentSet → Bool
has_buy order_set = any is_buy order_set.approved

pub data RunPosture : Type 0 where
  normal degraded : RunPosture

unfoldable pub run_posture : Option Props → RunPosture
run_posture none = normal
run_posture (some props) = if has_text "run_posture" "degraded" props then degraded else normal

unfoldable pub is_degraded_run : OrderIntentSet → Store → Bool
unfolding run_posture
is_degraded_run order_set s =
    let run = get_node "RunRequest" (fstring ("run-request:" ∷ order_set.run_id ∷ [])) s in
    elim (run_posture (elim run [ none ↦ none | some node ↦ some node.props ])) [
      | degraded ↦ true
      | normal ↦ false
    ]

abbrev pub second : ℕ
second = 1000000

module _ (read_time : String → Option ℕ) (now grace_seconds : ℕ) where
  -- `age is None or age >= grace_seconds`, for the age that `_age_seconds` computes.
  abbrev grace_over : Option Value → Bool
  grace_over (some (str raw)) = elim (read_time raw) [
    | none ↦ true
    | some created ↦ leb (created + grace_seconds * second) now
  ]
  grace_over other = true

  unfoldable pub is_grace_over : Node → Bool
  is_grace_over pm_run = grace_over (get "created_at" pm_run.props)

  unfoldable pub status_of : Option Node → Node → OrderIntentSet → Store → DeliberationStatus
  unfolding failed_open_of
  status_of (some delib) pm_run order_set s = elim (failed_open_of delib) [
    | [] ↦ applied
    | ticker ∷ tickers ↦ applied_failed_open
  ]
  status_of none pm_run order_set s =
      if not (has_buy order_set)
      then not_required
      else if is_degraded_run order_set s
      then held_degraded
      else if is_grace_over pm_run
      then proceeded_unvetoed
      else waiting

  unfoldable pub deliberation_status :
      Node → OrderIntentSet → Store → Answer DeliberationStatus × Store
  deliberation_status pm_run order_set s =
      and_then (linked_deliberation pm_run s)
        (λ delib s'. (answer (status_of delib pm_run order_set s'), s'))

-- `set(value)`: the items, where the value can be iterated and every item hashed.
abbrev names : Fields → Items
names end = nil
names (field k v fs) = cons (str k) (names fs)

unfoldable mutual
  pub is_hashable : Value → Bool
  is_hashable null = true
  is_hashable (num n) = true
  is_hashable (str text) = true
  is_hashable (list xs) = false
  is_hashable (tuple xs) = are_hashable xs
  is_hashable (set xs) = false
  is_hashable (frozenset xs) = true
  is_hashable (dict fs) = false
  is_hashable (proxy fs) = false

  pub are_hashable : Items → Bool
  are_hashable nil = true
  are_hashable (cons x xs) = is_hashable x && are_hashable xs

abbrev set_of : Items → Option Items
set_of xs = if are_hashable xs then some xs else none

abbrev as_set : Value → Option Items
as_set (list xs) = set_of xs
as_set (tuple xs) = set_of xs
as_set (set xs) = set_of xs
as_set (frozenset xs) = set_of xs
as_set (str text) = some (chars text)
as_set (dict fs) = some (names fs)
as_set (proxy fs) = some (names fs)
as_set other = none

-- `set(delib.props.get("vetoed_tickers", ()))`
unfoldable pub vetoed_of : Node → Option Items
vetoed_of delib = elim (get "vetoed_tickers" delib.props) [
  | none ↦ some nil
  | some value ↦ as_set value
]

abbrev pub is_vetoed : Items → OrderIntent → Bool
is_vetoed vetoed intent = has_item (value_eq (str intent.ticker)) vetoed

unfoldable pub drop_by : Option Node → OrderIntentSet → Answer OrderIntentSet
drop_by none order_set = answer order_set
drop_by (some delib) order_set = elim (vetoed_of delib) [
  | none ↦ type_error
  | some nil ↦ answer order_set
  | some (cons x xs) ↦ answer (record order_set {
    approved = filter (λ i. not (is_vetoed (cons x xs) i)) order_set.approved;
  })
]

unfoldable pub drop_vetoed : Node → OrderIntentSet → Store → Answer OrderIntentSet × Store
drop_vetoed pm_run order_set s =
    and_then (linked_deliberation pm_run s) (λ delib s'. (drop_by delib order_set, s'))

unfoldable pub failed_open_tickers : Node → Store → Answer (List String) × Store
failed_open_tickers pm_run s =
    and_then (linked_deliberation pm_run s)
      (λ delib s'. (answer (elim delib [ none ↦ [] | some node ↦ failed_open_of node ]), s'))

pub record PostureFilteredOrderSet : Type 0 where
  pub order_set : OrderIntentSet
  pub blocked_count : ℕ

-- `status != "held_degraded" and (posture != "binding" or status != "proceeded_unvetoed")`, negated.
abbrev pub holds_buys : DeliberationStatus → DeliberationPosture → Bool
holds_buys held_degraded posture = true
holds_buys proceeded_unvetoed binding = true
holds_buys status posture = false

unfoldable pub apply_deliberation_posture :
    OrderIntentSet → DeliberationStatus → DeliberationPosture → PostureFilteredOrderSet
apply_deliberation_posture order_set status posture =
    let survivors = filter (λ i. not (is_buy i)) order_set.approved in
    let blocked = length order_set.approved - length survivors in
    if not (holds_buys status posture) || blocked == 0
    then record { order_set = order_set; blocked_count = 0 }
    else record { order_set = record order_set { approved = survivors }; blocked_count = blocked }

-- What `execute_pm_node` has before it meets the broker.
pub record Plan : Type 0 where
  pub status : DeliberationStatus
  pub failed_open : List String
  pub filtered : PostureFilteredOrderSet

-- The head of `execute_pm_node`.
unfoldable pub plan :
    (String → Option ℕ)
    → ℕ
    → ℕ
    → DeliberationPosture
    → Node
    → OrderIntentSet
    → Store
    → Answer Plan × Store
plan read_time now grace_seconds posture pm_run order_set s =
    and_then (deliberation_status read_time now grace_seconds pm_run order_set s) (λ status s'.
      and_then (failed_open_tickers pm_run s') (λ failed_open s''.
        and_then (drop_vetoed pm_run order_set s'') (λ kept t. (
          answer (record {
            status = status;
            failed_open = failed_open;
            filtered = apply_deliberation_posture kept status posture;
          }),
          t,
        ))))
