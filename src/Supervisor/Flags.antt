-- ===== src/Supervisor/Flags.antt =====
-- agents/supervisor/store.py: dispatcher messages, human-review flags and their resolutions. `now` is
-- the text of the clock's reading; `python_str` is Python's `str` of a value that is no text.
pub mod Resolved
use trading_agents.Prelude.{
  String, Bool, false, not, Option, none, some, List, [], ◌∷◌, ◌++◌, ◌==◌, if◌then◌else◌, fstring,
  string_eq,
}
use trading_agents.Prelude.Dict.{get, is_some}
use trading_agents.Kernel.Graph.Value.{Value, str}
use trading_agents.Kernel.Graph.Store.{
  Node, Props, Store, Result, ok, raised, has_text, merge_node, get_node, list_nodes, add_edge,
}

module _ {A B : Type 0} where
  abbrev pub and_then : Result A × Store → (A → Store → Result B × Store) → Result B × Store
  and_then (ok a, s) f = f a s
  and_then (raised e, s) f = (raised e, s)

abbrev pub flag_key : String → String → String
flag_key subject_ref severity = fstring ("flag:" ∷ subject_ref ∷ ":" ∷ severity ∷ [])

abbrev pub resolution_key : String → String → String
resolution_key subject_ref severity = fstring ("resolution:" ∷ flag_key subject_ref severity ∷ [])

abbrev pub message_key : String → String → String
message_key run_id step_name = fstring (run_id ∷ ":" ∷ step_name ∷ [])

unfoldable pub write_message : String → String → String → String → Store → Result Node × Store
write_message now run_id step_name status s =
    let props = ("run_id", str run_id) ∷ ("step", str step_name) ∷ ("status", str status) ∷ [] in
    let key = message_key run_id step_name in
    let dated = props ++ ("created_at", str now) ∷ [] in
    merge_node "Message" key (if is_some (get_node "Message" key s) then props else dated) 1 s

unfoldable pub write_flag : String → String → String → String → String → Store → Result Node × Store
write_flag now subject_ref severity reason status s =
    let props =
      ("subject_ref", str subject_ref)
      ∷ ("severity", str severity)
      ∷ ("reason", str reason)
      ∷ ("status", str status)
      ∷ ("created_at", str now)
      ∷ [] in
    elim (get_node "Flag" (flag_key subject_ref severity) s) [
      | some current ↦ (ok current, s)
      | none ↦ merge_node "Flag" (flag_key subject_ref severity) props 1 s
    ]

-- `resolve_flag` where the flag is there and its resolution is not.
unfoldable pub add_resolution :
    String → String → String → Node → Store → Result (Option Node) × Store
add_resolution now subject_ref severity flag_node s =
    let props =
      ("subject_ref", str subject_ref)
      ∷ ("severity", str severity)
      ∷ ("resolved_at", str now)
      ∷ [] in
    and_then (merge_node "FlagResolution" (resolution_key subject_ref severity) props 1 s)
      (λ resolution s'.
        and_then (add_edge resolution flag_node "RESOLVES" [] s')
          (λ done s''. (ok (some resolution), s'')))

unfoldable pub resolve_flag : String → String → String → Store → Result (Option Node) × Store
unfolding add_resolution
resolve_flag now subject_ref severity s = elim (get_node "Flag" (flag_key subject_ref severity) s) [
  | none ↦ (ok none, s)
  | some flag_node ↦ elim (get_node "FlagResolution" (resolution_key subject_ref severity) s) [
    | some current ↦ (ok (some current), s)
    | none ↦ add_resolution now subject_ref severity flag_node s
  ]
]

-- `str(props.get("severity", "critical"))`
abbrev severity_of : (Value → String) → Props → String
severity_of python_str props = elim (get "severity" props) [
  | none ↦ "critical"
  | some (str severity) ↦ severity
  | some value ↦ python_str value
]

-- The severity of the first unresolved flag of the subject.
unfoldable pub first_unresolved : (Value → String) → String → List Node → Store → Option String
first_unresolved python_str subject_ref [] s = none
first_unresolved python_str subject_ref (flag_node ∷ nodes) s =
    let severity = severity_of python_str flag_node.props in
    let rest = first_unresolved python_str subject_ref nodes s in
    if not (has_text "subject_ref" subject_ref flag_node.props)
    then rest
    else if is_some (get_node "FlagResolution" (resolution_key subject_ref severity) s)
    then rest
    else some severity

unfoldable pub resolve_flag_by_subject :
    (Value → String) → String → String → Store → Result Bool × Store
unfolding first_unresolved
resolve_flag_by_subject python_str now subject_ref s =
    if subject_ref == ""
    then (ok false, s)
    else elim (first_unresolved python_str subject_ref (list_nodes "Flag" s) s) [
      | none ↦ (ok false, s)
      | some severity ↦
          and_then (resolve_flag now subject_ref severity s)
            (λ resolution s'. (ok (is_some resolution), s'))
    ]
