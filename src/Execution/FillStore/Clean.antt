-- ===== src/Execution/FillStore/Clean.antt =====
-- The props of a fill name each key once and are scalars (agents/execution/store.py).
use trading_agents.Prelude.{
  ℕ, ◌≡◌, refl, ◌∙◌, String, false, Option, none, some, [], ◌∷◌, arith, elem, ◌==◌, ==_iff,
  string_eq, pair_eq, nat_eq, Bool-cases, inl, inr,
}
use trading_agents.Prelude.Dict.{put, keys}
use trading_agents.Kernel.Graph.Value.{Value, str}
use trading_agents.Kernel.Graph.Store.{Props}
use trading_agents.Kernel.Graph.Append.{IsUnique}
use trading_agents.Execution.PaperBroker.{BrokerFill}
use trading_agents.Execution.FillAttempts.{with_attempt_props}
use trading_agents.Execution.FillAttempts.Written.{IsScalar, AllScalar}
use trading_agents.Execution.FillStore.{OrderIntentSet, optional, put_some, update, fill_props}

elem-put :
    (name other : String) (v : Value) (props : Props)
    → (name == other) ≡ false
    → elem other (keys (put name v props)) ≡ elem other (keys props)
unfolding put
elem-put name other v [] apart = ground (arith, apart)
elem-put name other v ((k, u) ∷ props) apart =
    ground (arith, apart, elem-put name other v props apart, ==_iff k name)

put-IsUnique :
    (name : String) (v : Value) (props : Props) → IsUnique props → IsUnique (put name v props)
unfolding put
put-IsUnique name v [] unique = (refl, tt)
put-IsUnique name v ((k, u) ∷ props) unique = elim (Bool-cases (k == name)) [
  | inl same ↦ rw same unique
  | inr apart ↦ rw apart (
    elem-put name k v props (ground (arith, apart, ==_iff k name, ==_iff name k)) ∙ unique.0,
    put-IsUnique name v props unique.1,
  )
]

put-AllScalar :
    (name : String) (v : Value) (props : Props)
    → IsScalar v
    → AllScalar props
    → AllScalar (put name v props)
unfolding put
put-AllScalar name v [] scalar all = (scalar, tt)
put-AllScalar name v ((k, u) ∷ props) scalar all = elim (Bool-cases (k == name)) [
  | inl same ↦ rw same (scalar, all.1)
  | inr apart ↦ rw apart (all.0, put-AllScalar name v props scalar all.1)
]

-- What may be appended to a fill: each name once, and scalars.
abbrev pub IsClean : Props → Type 0
IsClean props = IsUnique props × AllScalar props

put-IsClean :
    (name : String) (v : Value) (props : Props)
    → IsScalar v
    → IsClean props
    → IsClean (put name v props)
put-IsClean name v props scalar clean =
    (put-IsUnique name v props clean.0, put-AllScalar name v props scalar clean.1)

put_some-IsClean :
    (name : String) (text : Option String) (props : Props)
    → IsClean props
    → IsClean (put_some name text props)
put_some-IsClean name none props clean = clean
put_some-IsClean name (some text) props clean = put-IsClean name (str text) props tt clean

update-IsClean :
    (props new_props : Props)
    → AllScalar new_props
    → IsClean props
    → IsClean (update props new_props)
update-IsClean props [] all clean = clean
update-IsClean props ((name, v) ∷ new_props) all clean =
    update-IsClean (put name v props) new_props all.1 (put-IsClean name v props all.0 clean)

optional-IsScalar : (text : Option String) → IsScalar (optional text)
optional-IsScalar none = tt
optional-IsScalar (some text) = tt

module _ (number : ℕ → String) (order_tolerance_props : BrokerFill → Props) where
  pub fill_props-IsClean :
      (fill : BrokerFill) (order_set : Option OrderIntentSet)
      → AllScalar (order_tolerance_props fill)
      → IsClean (fill_props number order_tolerance_props fill order_set)
  unfolding fill_props
  fill_props-IsClean fill order_set all = put_some-IsClean _ _ _ (
      update-IsClean _ (order_tolerance_props fill) all (
        put_some-IsClean _ fill.time_in_force _ (
          put_some-IsClean _ fill.order_type _ (
            put_some-IsClean _ fill.submitted_at _ (
              ground arith,
              (tt, (tt, (tt, (tt, (tt, (tt, (tt, (optional-IsScalar fill.reason, tt)))))))),
            )))))

pub with_attempt_props-IsClean :
    (props : Props) (key : String) (ordinal : ℕ)
    → IsClean props
    → IsClean (with_attempt_props props key ordinal)
unfolding with_attempt_props
with_attempt_props-IsClean props key ordinal clean =
    put-IsClean _ _ _ tt (put-IsClean _ _ _ tt clean)
