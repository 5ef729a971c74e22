-- ===== src/Kernel/EhloRetry.antt =====
-- kernel/ehlo_retry.py, with the tunables of kernel/ehlo_settings.py that it reads. Times are whole
-- microseconds, and the clock never goes back, as the one of the code. The settings allow at most 20
-- attempts, so the power of the backoff stays small. The sender and the hooks act on a world of any type; `jitter` is the hook `rand`,
-- applied to the ceiling that its draw is multiplied by. `type_name`, `str_of` and `seconds` are
-- Python's texts of an exception's type, of an exception and of a time with one decimal.
pub mod Trace
pub mod Attempts
use trading_agents.Prelude.{
  ℕ, zero, suc, ◌+◌, ◌-◌, ◌*◌, ◌^◌, min, max, String, Bool, true, false, ◌||◌, Option, none, some,
  List, [], ◌∷◌, leb, elem, if◌then◌else◌, fstring, nat_eq,
}

-- What a send may raise. The reason of a `URLError` is an exception or a text.
pub data Failure : Type 0 where
  http_error : ℕ → String → Failure
  url_error : Failure → Failure
  url_error_text : String → Failure
  timeout_error connection_refused_error connection_reset_error : String → Failure
  connection_aborted_error remote_disconnected : String → Failure
  other_error : String → String → Failure

pub record EhloSettings : Type 0 where
  pub ehlo_attempt_timeout : ℕ
  pub ehlo_max_attempts : ℕ
  pub ehlo_budget : ℕ
  pub ehlo_backoff_base : ℕ
  pub ehlo_backoff_cap : ℕ

abbrev pub default_ehlo_settings : EhloSettings
default_ehlo_settings = record {
  ehlo_attempt_timeout = 30000000;
  ehlo_max_attempts = 6;
  ehlo_budget = 300000000;
  ehlo_backoff_base = 1000000;
  ehlo_backoff_cap = 30000000;
}

abbrev transient_statuses : List ℕ
transient_statuses = 502 ∷ 503 ∷ 504 ∷ []

-- `_MIN_ATTEMPT_TIMEOUT_SECONDS`
abbrev min_attempt_timeout : ℕ
min_attempt_timeout = 1000000

unfoldable pub is_transient : Failure → Bool
is_transient (http_error code text) = elem code transient_statuses
is_transient (url_error reason) = is_transient reason
is_transient (url_error_text reason) = false
is_transient (timeout_error text) = true
is_transient (connection_refused_error text) = true
is_transient (connection_reset_error text) = true
is_transient (connection_aborted_error text) = true
is_transient (remote_disconnected text) = true
is_transient (other_error name text) = false

-- `EhloBudgetExhaustedError`
pub record EhloBudgetExhausted : Type 0 where
  pub url : String
  pub attempts : ℕ
  pub elapsed : ℕ
  pub last_cause : Failure

-- What a send returns or raises.
pub data Sent (R : Type 0) : Type 0 where
  returned : R → Sent R
  raised : Failure → Sent R

-- How the call ends: a reply, a failure that propagates, or a budget that is spent.
pub data Ended (R : Type 0) : Type 0 where
  answered : R → Ended R
  propagated : Failure → Ended R
  exhausted : EhloBudgetExhausted → Ended R

pub record RetryHooks (W : Type 0) : Type 0 where
  pub clock : W → ℕ × W
  pub sleep : ℕ → W → W
  pub jitter : ℕ → W → ℕ × W
  pub log : String → W → W

-- What one pass of the loop comes to.
pub data Pass (R : Type 0) : Type 0 where
  ends : Ended R → Pass R
  again : Pass R

unfoldable pub backoff_ceiling : ℕ → EhloSettings → ℕ
backoff_ceiling attempt settings =
    min settings.ehlo_backoff_cap (settings.ehlo_backoff_base * 2 ^ (attempt - 1))

unfoldable pub attempt_timeout : ℕ → EhloSettings → ℕ
attempt_timeout elapsed settings =
    min settings.ehlo_attempt_timeout (max (settings.ehlo_budget - elapsed) min_attempt_timeout)

unfoldable pub spent_after : EhloSettings → ℕ → ℕ → ℕ → Bool
spent_after settings attempt elapsed delay =
    leb settings.ehlo_max_attempts attempt || leb settings.ehlo_budget (elapsed + delay)

module _ (type_name : Failure → String) (str_of : Failure → String) (seconds : ℕ → String)
    (number : ℕ → String) where
  unfoldable pub describe : Failure → String
  describe exc = fstring (type_name exc ∷ ": " ∷ str_of exc ∷ [])

  module _ {W R B : Type 0} (send : String → B → ℕ → W → Sent R × W) (url : String) (body : B)
      (settings : EhloSettings) (hooks : RetryHooks W) where
    unfoldable pub backoff_delay : ℕ → W → ℕ × W
    unfolding backoff_ceiling
    backoff_delay attempt w = hooks.jitter (backoff_ceiling attempt settings) w

    -- The line of a failed attempt.
    unfoldable pub line : ℕ → ℕ → ℕ → Failure → Bool → String
    unfolding describe
    line attempt elapsed delay cause spent = fstring (
        "[ehlo] attempt "
        ∷ number attempt
        ∷ "/"
        ∷ number settings.ehlo_max_attempts
        ∷ " to "
        ∷ url
        ∷ " failed after "
        ∷ seconds elapsed
        ∷ "s: "
        ∷ describe cause
        ∷ "; "
        ∷ (if spent then "budget spent" else fstring ("resending in " ∷ seconds delay ∷ "s" ∷ []))
        ∷ [])

    -- `if spent: raise ... hooks.sleep(delay)`
    abbrev pub raise_or_sleep : ℕ → ℕ → ℕ → Failure → Bool → W → Pass R × W
    raise_or_sleep attempt elapsed delay cause true w = (
      ends (
          exhausted
            (record { url = url; attempts = attempt; elapsed = elapsed; last_cause = cause })),
      w,
    )
    raise_or_sleep attempt elapsed delay cause false w = (again, hooks.sleep delay w)

    -- A transient failure: the clock, the delay, the line, and the end or the sleep.
    unfoldable pub after_failure : ℕ → ℕ → Failure → W → Pass R × W
    unfolding backoff_delay line spent_after
    after_failure started attempt cause w =
        let (now, w1) = hooks.clock w in
        let (delay, w2) = backoff_delay attempt w1 in
        let elapsed = now - started in
        let spent = spent_after settings attempt elapsed delay in
        raise_or_sleep attempt elapsed delay cause spent
          (hooks.log (line attempt elapsed delay cause spent) w2)

    -- `except Exception as exc: if not is_transient(exc): raise`
    abbrev pub failed : ℕ → ℕ → Failure → Bool → W → Pass R × W
    failed started attempt exc false w = (ends (propagated exc), w)
    failed started attempt exc true w = after_failure started attempt exc w

    abbrev pub judge : ℕ → ℕ → Sent R × W → Pass R × W
    unfolding is_transient
    judge started attempt (returned reply, w) = (ends (answered reply), w)
    judge started attempt (raised exc, w) = failed started attempt exc (is_transient exc) w

    -- One pass of `while True`.
    unfoldable pub attempt_once : ℕ → ℕ → W → Pass R × W
    unfolding attempt_timeout after_failure
    attempt_once started attempt w =
        let (now, w1) = hooks.clock w in
        judge started attempt (send url body (attempt_timeout (now - started) settings) w1)

    abbrev pub continue : (W → Option (Ended R × W)) → Pass R × W → Option (Ended R × W)
    continue loop (ends ended, w) = some (ended, w)
    continue loop (again, w) = loop w

    -- `none` is out of fuel.
    unfoldable pub send_from : ℕ → ℕ → ℕ → W → Option (Ended R × W)
    unfolding attempt_once
    send_from zero started attempt w = none
    send_from (suc fuel) started attempt w =
        continue (send_from fuel started (attempt + 1)) (attempt_once started attempt w)

    unfoldable pub send_with_retry : ℕ → W → Option (Ended R × W)
    unfolding send_from
    send_with_retry fuel w = let (started, w1) = hooks.clock w in send_from fuel started 1 w1
