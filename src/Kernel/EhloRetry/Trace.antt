-- ===== src/Kernel/EhloRetry/Trace.antt =====
-- The sends of one call, beside the world, and how they end (kernel/ehlo_retry.py).
use trading_agents.Prelude.{
  ℕ, ◌+◌, ◌≡◌, ◌≤◌, ◌<◌, ◌-◌, ◌⊎◌, String, true, false, List, [], ◌∷◌, ◌++◌,
}
use trading_agents.Kernel.EhloRetry.{
  Failure, EhloSettings, is_transient, Sent, returned, raised, Ended, answered, propagated,
  exhausted, RetryHooks, Pass, ends, again, backoff_ceiling,
}

-- One send: what was sent, for how long, what it came to, and the world after it.
pub record Attempt (V R B : Type 0) : Type 0 where
  pub url : String
  pub body : B
  pub timeout : ℕ
  pub outcome : Sent R
  pub after : V

module _ {V R B : Type 0} where
  -- The sender and the hooks, beside the list of the sends so far.
  abbrev pub recording :
      (String → B → ℕ → V → Sent R × V)
      → String
      → B
      → ℕ
      → List (Attempt V R B) × V
      → Sent R × (List (Attempt V R B) × V)
  recording send url body timeout (sent, v) =
      let (outcome, v') = send url body timeout v in
      (
        outcome,
        (
          sent
              ++ record { url = url; body = body; timeout = timeout; outcome = outcome; after = v' }
                ∷ [],
          v',
        ),
      )

  abbrev pub beside : RetryHooks V → RetryHooks (List (Attempt V R B) × V)
  beside hooks = record {
    clock = λ w. ((hooks.clock w.1).0, (w.0, (hooks.clock w.1).1));
    sleep = λ delay w. (w.0, hooks.sleep delay w.1);
    jitter = λ ceiling w. ((hooks.jitter ceiling w.1).0, (w.0, (hooks.jitter ceiling w.1).1));
    log = λ text w. (w.0, hooks.log text w.1);
  }

module _ {V : Type 0} (hooks : RetryHooks V) (started : ℕ) where
  -- The time that the call has taken when a send is over.
  abbrev pub elapsed_at : V → ℕ
  elapsed_at v = (hooks.clock v).0 - started

  -- The delay that is drawn after the attempt with ordinal `k`.
  abbrev pub delay_at : EhloSettings → ℕ → V → ℕ
  delay_at settings k v = (hooks.jitter (backoff_ceiling k settings) (hooks.clock v).1).0

-- What one pass of the loop makes of an attempt, by its ordinal and the world after its send.
pub data Passes {V R : Type 0} (hooks : RetryHooks V) (url : String) (settings : EhloSettings)
    (started k : ℕ) (v : V) : Sent R → Pass R → Type 0 where
  replies :
      (reply : R) → Passes hooks url settings started k v (returned reply) (ends (answered reply))
  is_final :
      (e : Failure)
      → is_transient e ≡ false
      → Passes hooks url settings started k v (raised e) (ends (propagated e))
  is_spent :
      (e : Failure)
      → is_transient e ≡ true
      → (settings.ehlo_max_attempts ≤ k)
        ⊎ (settings.ehlo_budget ≤ elapsed_at hooks started v + delay_at hooks started settings k v)
      → Passes hooks url settings started k v (raised e) (
          ends (
            exhausted (record {
              url = url;
              attempts = k;
              elapsed = elapsed_at hooks started v;
              last_cause = e;
            })))
  is_resent :
      (e : Failure)
      → is_transient e ≡ true
      → k + 1 ≤ settings.ehlo_max_attempts
      → elapsed_at hooks started v + delay_at hooks started settings k v < settings.ehlo_budget
      → Passes hooks url settings started k v (raised e) again

-- The attempts from the one with ordinal `k` on: every one but the last failed transiently, and the
-- last one is what the call ends with.
pub data Ends {V R B : Type 0} (hooks : RetryHooks V) (url : String) (settings : EhloSettings)
    (started : ℕ) : ℕ → List (Attempt V R B) → Ended R → Type 0 where
  last :
      {k : ℕ} {ended : Ended R} (a : Attempt V R B)
      → Passes hooks url settings started k a.after a.outcome (ends ended)
      → Ends hooks url settings started k (a ∷ []) ended
  resend :
      {k : ℕ} {ended : Ended R} {rest : List (Attempt V R B)} (a : Attempt V R B)
      → Passes hooks url settings started k a.after a.outcome again
      → Ends hooks url settings started (k + 1) rest ended
      → Ends hooks url settings started k (a ∷ rest) ended
