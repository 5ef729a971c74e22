-- ===== src/Kernel/EhloRetry/Attempts.antt =====
-- The attempts that one EHLO makes (kernel/ehlo_retry.py).
use native.Mathlib.Decide.{dec_le}
use mathlib.Core.List.{append_assoc}
use trading_agents.Prelude.{
  ℕ, zero, suc, ◌+◌, ◌≡◌, ◌≤◌, ◌<◌, All, ◌⊎◌, sym, subst, refl, Bool, Bool-cases, inl, inr, ◌∙◌, ap,
  String, true, false, Option, some, List, [], ◌∷◌, ◌++◌, length, arith, max,
}
use trading_agents.Kernel.EhloRetry.{
  Failure, EhloSettings, is_transient, Sent, returned, raised, Ended, propagated, RetryHooks, Pass,
  ends, again, attempt_timeout, spent_after, raise_or_sleep, after_failure, backoff_delay, judge,
  attempt_once, continue, send_from, send_with_retry,
}
use trading_agents.Kernel.EhloRetry.Trace.{
  Attempt, elapsed_at, delay_at, recording, beside, Passes, replies, is_final, is_spent, is_resent,
  Ends, last, resend,
}

module _ (type_name : Failure → String) (str_of : Failure → String) (seconds : ℕ → String)
    (number : ℕ → String) {V R B : Type 0} (send : String → B → ℕ → V → Sent R × V) (url : String)
    (body : B) (settings : EhloSettings) (hooks : RetryHooks V) where
  abbrev W : Type 0
  W = List (Attempt V R B) × V

  -- The same request, for no longer than the tunable allows.
  abbrev pub IsOfCall : Attempt V R B → Type 0
  IsOfCall a = (a.url ≡ url) × (a.body ≡ body) × (a.timeout ≤ settings.ehlo_attempt_timeout)

  abbrev pass : ℕ → ℕ → W → Pass R × W
  pass started k w =
      attempt_once type_name str_of seconds number (recording send) url body settings (beside hooks)
        started k w

  abbrev made : Attempt V R B → W → V → W
  made a w v = (w.0 ++ a ∷ [], v)

  abbrev decide : ℕ → ℕ → ℕ → Failure → Bool → W → Pass R × W
  decide k elapsed delay e b w =
      raise_or_sleep type_name str_of seconds number (recording send) url body settings
        (beside hooks) k elapsed delay e b w

  abbrev Now : ℕ → ℕ → V → Sent R → Pass R → Type 0
  Now started k v outcome p = Passes hooks url settings started k v outcome p

  spent_why :
      (k elapsed delay : ℕ)
      → spent_after settings k elapsed delay ≡ true
      → (settings.ehlo_max_attempts ≤ k) ⊎ (settings.ehlo_budget ≤ elapsed + delay)
  unfolding spent_after
  spent_why k elapsed delay h = elim (dec_le settings.ehlo_max_attempts k) [
    | yes full ↦ inl full
    | no more ↦ inr (ground (arith, h, more))
  ]

  -- A failed attempt never touches the list of the sends.
  decided :
      (started k : ℕ) (e : Failure) (v : V) (w : W)
      → is_transient e ≡ true
      → (b : Bool)
      → spent_after settings k (elapsed_at hooks started v) (delay_at hooks started settings k v)
        ≡ b
      → (p : Pass R) × (v' : V) × (decide k
            (elapsed_at hooks started v)
            (delay_at hooks started settings k v)
            e
            b
            w
          ≡ (p, (w.0, v')))
        × Now started k v (raised e) p
  unfolding spent_after
  decided started k e v w transient true h = (_, _, refl, is_spent e transient (spent_why k _ _ h))
  decided started k e v w transient false h =
      (again, _, refl, is_resent e transient (ground arith) (ground arith))

  after_transient :
      (started k : ℕ) (e : Failure) (w : W)
      → is_transient e ≡ true
      → (p : Pass R) × (v : V) × (after_failure type_name str_of seconds number
            (recording send)
            url
            body
            settings
            (beside hooks)
            started
            k
            e
            w
          ≡ (p, (w.0, v)))
        × Now started k w.1 (raised e) p
  unfolding after_failure backoff_delay
  after_transient started k e w transient = decided started k e w.1 _ transient _ refl

  judged :
      (started k : ℕ) (outcome : Sent R) (w : W)
      → (p : Pass R) × (v : V) × (judge type_name str_of seconds number
            (recording send)
            url
            body
            settings
            (beside hooks)
            started
            k
            (outcome, w)
          ≡ (p, (w.0, v)))
        × Now started k w.1 outcome p
  unfolding judge
  judged started k (returned reply) w = (_, _, refl, replies reply)
  judged started k (raised e) w = elim (Bool-cases (is_transient e)) [
    | inl transient ↦
        let (p, v, ran, passes) = after_transient started k e w transient in
        (p, v, rw transient ran, passes)
    | inr final ↦ (ends (propagated e), w.1, rw final refl, is_final e final)
  ]

  attempted :
      (started k : ℕ) (w : W)
      → (p : Pass R) × (a : Attempt V R B) × (v : V) × (pass started k w ≡ (p, made a w v))
        × IsOfCall a
        × Now started k a.after a.outcome p
  unfolding attempt_once attempt_timeout
  attempted started k w =
      let (p, v, ran, passes) = judged started k _ _ in
      (
        p,
        record { url = url; body = body; timeout = _; outcome = _; after = _ },
        v,
        ran,
        (refl, refl, omega arith),
        passes,
      )

  abbrev keep_on : (W → Option (Ended R × W)) → Pass R × W → Option (Ended R × W)
  keep_on loop done =
      continue type_name str_of seconds number (recording send) url body settings (beside hooks)
        loop done

  abbrev sending : ℕ → ℕ → ℕ → W → Option (Ended R × W)
  sending fuel started k w =
      send_from type_name str_of seconds number (recording send) url body settings (beside hooks)
        fuel started k w

  -- The loop from its attempt `k` on, with fuel for what is left of the attempts.
  abbrev Sends : ℕ → ℕ → W → Option (Ended R × W) → Type 0
  Sends started k w out =
      (ended : Ended R) × (new : List (Attempt V R B)) × (v : V) × (out
        ≡ some (ended, (w.0 ++ new, v)))
      × All IsOfCall new
      × Ends hooks url settings started k new ended
      × (length new + k ≤ max 1 settings.ehlo_max_attempts + 1)

  continued :
      (fuel started k : ℕ) (w : W) (a : Attempt V R B) (v : V) (p : Pass R)
      → IsOfCall a
      → Now started k a.after a.outcome p
      → k ≤ max 1 settings.ehlo_max_attempts
      → (settings.ehlo_max_attempts ≤ k
          ⊎ Sends started (k + 1) (made a w v) (sending fuel started (k + 1) (made a w v)))
      → Sends started k w (keep_on (sending fuel started (k + 1)) (p, made a w v))
  continued fuel started k w a v (ends ended) of_call passes small rest =
      (ended, a ∷ [], v, refl, (of_call, tt), last a passes, omega arith)
  continued fuel started k w a v again of_call (is_resent e transient more cheap) small (inl full) =
      absurd (omega arith)
  continued fuel started k w a v again of_call passes small
        (inr (ended, new, v', ran, all, run, bound)) =
      (
        ended,
        a ∷ new,
        v',
        ran ∙ ap (λ sent. some (ended, (sent, v'))) (append_assoc w.0 (a ∷ []) new),
        (of_call, all),
        resend a passes run,
        omega (arith, bound),
      )

  sends_next :
      (fuel started k : ℕ) (w : W) (done : Pass R × W)
      → pass started k w ≡ done
      → sending (suc fuel) started k w ≡ keep_on (sending fuel started (k + 1)) done
  unfolding send_from
  sends_next fuel started k w done ran = ap (keep_on (sending fuel started (k + 1))) ran

  send_from-Sends :
      (fuel started k : ℕ) (w : W)
      → max 1 settings.ehlo_max_attempts < fuel + k
      → k ≤ max 1 settings.ehlo_max_attempts
      → Sends started k w (sending fuel started k w)
  send_from-Sends zero started k w enough small = absurd (omega arith)
  send_from-Sends (suc fuel) started k w enough small =
      let (p, a, v, ran, of_call, passes) = attempted started k w in
      let rest : settings.ehlo_max_attempts ≤ k
          ⊎ Sends started (k + 1) (made a w v) (sending fuel started (k + 1) (made a w v)) =
        elim (dec_le settings.ehlo_max_attempts k) [
          | yes full ↦ inl full
          | no more ↦
              inr (send_from-Sends fuel started (k + 1) (made a w v) (omega arith) (omega arith))
        ] in
      subst (λ out. Sends started k w out) (sym (sends_next fuel started k w (p, made a w v) ran))
        (continued fuel started k w a v p of_call passes small rest)

  -- With fuel for each attempt that the tunable allows, the call ends. Every send carried the same
  -- address and the same body, for no longer than an attempt may take, and there is at least one and
  -- at most the allowed number (one where that is zero). All but the last failed transiently, with
  -- attempts left and the time by the clock since the start plus the drawn delay below the budget. The
  -- call returns the last one's reply, propagates its failure where that is final, or is exhausted, with
  -- the number of the sends and that time, after a transient failure with no attempt left or with that
  -- time plus the drawn delay at the budget or above.
  pub send_with_retry-Ends :
      (fuel : ℕ) (v : V)
      → max 1 settings.ehlo_max_attempts ≤ fuel
      → (ended : Ended R) × (new : List (Attempt V R B)) × (v' : V) × (send_with_retry type_name
            str_of seconds number
            (recording send)
            url
            body
            settings
            (beside hooks)
            fuel
            ([], v)
          ≡ some (ended, (new, v')))
        × All IsOfCall new
        × Ends hooks url settings (hooks.clock v).0 1 new ended
        × (length new ≤ max 1 settings.ehlo_max_attempts)
  unfolding send_with_retry
  send_with_retry-Ends fuel v enough =
      let (ended, new, v', ran, all, run, bound) =
        send_from-Sends fuel (hooks.clock v).0 1 ([], (hooks.clock v).1) (omega arith)
          (omega arith) in
      (ended, new, v', ran, all, run, omega (arith, bound))
