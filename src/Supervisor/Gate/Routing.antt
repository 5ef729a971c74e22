-- ===== src/Supervisor/Gate/Routing.antt =====
-- What the gate lets through (agents/supervisor/domain/gate.py, hard_no.py, matrix.py).
use trading_agents.Prelude.{
  ◌≡◌, refl, String, Bool, true, false, not, ◌&&◌, ◌||◌, Option, none, some, [], ◌∷◌, elem, fstring,
  if◌then◌else◌, arith, Bool-cases, inl, inr, string_eq,
}
use trading_agents.Prelude.Dict.{get}
use trading_agents.Kernel.Graph.Value.{Value}
use trading_agents.Kernel.Graph.Store.{Store, Result, ok, raised}
use trading_agents.Supervisor.Flags.{and_then}
use trading_agents.Supervisor.Intent.{
  IntentFamily, status, explain, approve, reject, modify, run, mode, stage, pause, resume,
  TypedIntent, DispatchResult, is_family, is_hard_no, capability_matrix, routed_to,
  not_available_reason, is_param,
}
use trading_agents.Supervisor.Gate.{
  StageReply, stage_error, stage_result, ResumeReply, resume_error, resume_placed, Bus, refuse,
  confirmation_reason, needs_confirmation, param_or, text_or_empty, valid_stages, resume_stages,
  resume_stage, note_dispatched, stage_answer, resume_answer, dispatch_stage, dispatch_resume,
  dispatch_routed, dispatch_available, dispatch_intent,
}

-- An answer, where there is one, that accepts only what passes, and routes it as the matrix says.
abbrev pub Routes : Bool → TypedIntent → Result DispatchResult × Store → Type 0
Routes passes intent (raised e, s) = Unit
Routes passes intent (ok r, s) =
    r.accepted ≡ true
    → (passes ≡ true)
      × ((capability_matrix intent.family).available ≡ true)
      × (r.routed_to ≡ routed_to (capability_matrix intent.family))

module _ {A : Type 0} where
  and_then-Routes :
      (passes : Bool) (intent : TypedIntent) (out : Result A × Store)
      (f : A → Store → Result DispatchResult × Store)
      → ((a : A) (s : Store) → Routes passes intent (f a s))
      → Routes passes intent (and_then out f)
  and_then-Routes passes intent (ok a, s) f h = h a s
  and_then-Routes passes intent (raised e, s) f h = tt

stage_only : (family : IntentFamily) → is_family family stage ≡ true → family ≡ stage
stage_only stage h = refl
stage_only status h = ground (arith, h)
stage_only explain h = ground (arith, h)
stage_only approve h = ground (arith, h)
stage_only reject h = ground (arith, h)
stage_only modify h = ground (arith, h)
stage_only run h = ground (arith, h)
stage_only mode h = ground (arith, h)
stage_only pause h = ground (arith, h)
stage_only resume h = ground (arith, h)

resume_only : (family : IntentFamily) → is_family family resume ≡ true → family ≡ resume
resume_only resume h = refl
resume_only status h = ground (arith, h)
resume_only explain h = ground (arith, h)
resume_only approve h = ground (arith, h)
resume_only reject h = ground (arith, h)
resume_only modify h = ground (arith, h)
resume_only run h = ground (arith, h)
resume_only mode h = ground (arith, h)
resume_only stage h = ground (arith, h)
resume_only pause h = ground (arith, h)

module _ (python_str : Value → String) (now : String) (intent : TypedIntent) (passes : Bool)
    (passing : passes ≡ true) where
  stage_answer-Routes :
      (bus : Option Bus)
      → intent.family ≡ stage
      → (out : StageReply × Store)
      → Routes passes intent (stage_answer python_str now bus intent out)
  stage_answer-Routes bus at_stage (stage_error message, s) = λ h. absurd (ground (arith, h))
  stage_answer-Routes bus at_stage (stage_result true reason provenance, s) =
      λ h. (passing, rw at_stage refl, rw at_stage refl)
  stage_answer-Routes bus at_stage (stage_result false reason provenance, s) =
      λ h. absurd (ground (arith, h))

  dispatch_stage-Routes :
      (bus : Option Bus)
      → intent.family ≡ stage
      → (s : Store) → Routes passes intent (dispatch_stage python_str now bus intent s)
  unfolding dispatch_stage
  dispatch_stage-Routes none at_stage s = λ h. absurd (ground (arith, h))
  dispatch_stage-Routes (some b) at_stage s =
      let target = param_or "stage" "target" intent in
      let reason = fstring ("operator stage request via " ∷ intent.provenance.source_agent ∷ []) in
      elim (Bool-cases (elem target valid_stages)) [
        | inl known ↦ rw known (
            stage_answer-Routes (some b) at_stage
              (b.promote_stage target reason (is_param "confirmed" "true" intent) s))
        | inr unknown ↦ rw unknown (λ h. absurd (ground (arith, h)))
      ]

  resume_answer-Routes :
      (bus : Option Bus)
      → intent.family ≡ resume
      → (out : ResumeReply × Store)
      → Routes passes intent (resume_answer python_str now bus intent out)
  resume_answer-Routes bus at_resume (resume_error message, s) = λ h. absurd (ground (arith, h))
  resume_answer-Routes bus at_resume (resume_placed child node_key, s) =
      and_then-Routes passes intent (note_dispatched python_str now bus intent s) _
        (λ node s' h. (passing, rw at_resume refl, rw at_resume refl))

  dispatch_resume-Routes :
      (bus : Option Bus)
      → intent.family ≡ resume
      → (s : Store) → Routes passes intent (dispatch_resume python_str now bus intent s)
  unfolding dispatch_resume
  dispatch_resume-Routes none at_resume s = λ h. absurd (ground (arith, h))
  dispatch_resume-Routes (some b) at_resume s =
      let from = resume_stage intent in
      let source = text_or_empty (get "run_id" intent.parameters) in
      elim (Bool-cases (elem from resume_stages)) [
        | inl known ↦
            rw known (resume_answer-Routes (some b) at_resume (b.resume_run source from s))
        | inr unknown ↦ rw unknown (λ h. absurd (ground (arith, h)))
      ]

  dispatch_routed-Routes :
      (bus : Option Bus)
      → (capability_matrix intent.family).available ≡ true
      → (s : Store) → Routes passes intent (dispatch_routed python_str now bus intent s)
  unfolding dispatch_routed
  dispatch_routed-Routes bus open_ s =
      and_then-Routes passes intent (note_dispatched python_str now bus intent s) _
        (λ node s' h. (passing, open_, refl))

  unavailable-Routes :
      (bus : Option Bus) (s : Store)
      → Routes passes intent (elim (not_available_reason intent.family) [
        | ok reason ↦ refuse python_str now bus intent reason s
        | raised e ↦ (raised e, s)
      ])
  unavailable-Routes bus s =
      elim (not_available_reason intent.family)
        as (λ answer. Routes passes intent (elim answer [
          | ok reason ↦ refuse python_str now bus intent reason s
          | raised e ↦ (raised e, s)
        ])) [ ok reason ↦ λ h. absurd (ground (arith, h)) | raised e ↦ tt ]

  dispatch_available-Routes :
      (bus : Option Bus) (s : Store)
      → Routes passes intent (dispatch_available python_str now bus intent s)
  unfolding dispatch_available
  dispatch_available-Routes bus s = elim (Bool-cases (capability_matrix intent.family).available) [
    | inr shut ↦ rw shut (unavailable-Routes bus s)
    | inl open_ ↦ rw open_ (
        and_then-Routes passes intent _
          (λ done s'.
            if is_family intent.family resume
            then dispatch_resume python_str now bus intent s'
            else dispatch_routed python_str now bus intent s')
          (λ done s'. elim (Bool-cases (is_family intent.family resume)) [
            | inl at_resume ↦
                rw at_resume (dispatch_resume-Routes bus (resume_only intent.family at_resume) s')
            | inr elsewhere ↦ rw elsewhere (dispatch_routed-Routes bus open_ s')
          ]))
  ]

-- Whatever the bus answers, an intent that the gate accepts is no hard NO, is confirmed where that is
-- needed (the stage family leaves its confirmation to the execution agent), is of a family that is
-- available, and is routed to the target that the capability matrix names for its family.
pub dispatch_intent-Routes :
    (python_str : Value → String) (now : String) (bus : Option Bus) (intent : TypedIntent)
    (s : Store)
    → Routes
        (not (is_hard_no intent).0
          && (is_family intent.family stage || not (needs_confirmation intent)))
        intent
        (dispatch_intent python_str now bus intent s)
unfolding dispatch_intent
dispatch_intent-Routes python_str now bus intent s = elim (Bool-cases (is_hard_no intent).0) [
  | inl blocked ↦ rw blocked (λ h. absurd (ground (arith, h)))
  | inr fine ↦ elim (Bool-cases (is_family intent.family stage)) [
    | inl at_stage ↦
        rw (fine, at_stage)
          (dispatch_stage-Routes python_str now intent true refl bus
            (stage_only intent.family at_stage) s)
    | inr elsewhere ↦ elim (Bool-cases (needs_confirmation intent)) [
      | inl asks ↦
          rw (fine, elsewhere, asks)
            (and_then-Routes false intent _
              (λ node s'. refuse python_str now bus intent (confirmation_reason intent) s')
              (λ node s'. λ h. absurd (ground (arith, h))))
      | inr confirmed ↦
          rw (fine, elsewhere, confirmed)
            (and_then-Routes true intent _ _
              (λ done s'. dispatch_available-Routes python_str now intent true refl bus s'))
    ]
  ]
]
