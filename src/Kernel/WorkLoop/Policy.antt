-- ===== src/Kernel/WorkLoop/Policy.antt =====
-- kernel/work_loop_policy.py: the retry envelope, its validation, and the delay it gives.
use trading_agents.Prelude.{
  ℕ, ◌-◌, ◌*◌, ◌^◌, min, Bool, ◌&&◌, String, Option, none, some, ltb, leb, string_eq,
}
use trading_agents.Prelude.Dict.{Dict, get}

pub record WorkLoopPolicy : Type 0 where
  pub poll_interval_seconds : ℕ
  pub backoff_base_seconds : ℕ
  pub backoff_multiplier : ℕ
  pub backoff_ceiling_seconds : ℕ
  pub max_attempts_before_quarantine : ℕ

-- The field bounds, and the validator `_ceiling_must_cover_base`.
unfoldable pub accepts : WorkLoopPolicy → Bool
accepts p =
    ltb 0 p.poll_interval_seconds
    && ltb 0 p.backoff_base_seconds
    && ltb 1 p.backoff_multiplier
    && ltb 0 p.backoff_ceiling_seconds
    && leb 1 p.max_attempts_before_quarantine
    && leb p.backoff_base_seconds p.backoff_ceiling_seconds

abbrev pub default_work_loop_policy : WorkLoopPolicy
default_work_loop_policy = record {
  poll_interval_seconds = 60;
  backoff_base_seconds = 60;
  backoff_multiplier = 2;
  backoff_ceiling_seconds = 900;
  max_attempts_before_quarantine = 5;
}

-- `environ` holds the parsed numbers: `float(raw)` is the caller's.
unfoldable pub poll_interval_from_env : String → WorkLoopPolicy → Dict String ℕ → ℕ
poll_interval_from_env name policy environ = elim (get name environ) [
  | none ↦ policy.poll_interval_seconds
  | some raw ↦ raw
]

-- `_resolve_policy` of kernel/work_loop.py.
unfoldable pub resolve_policy : WorkLoopPolicy → Option ℕ → WorkLoopPolicy
resolve_policy policy none = policy
resolve_policy policy (some interval) = record policy { poll_interval_seconds = interval }

-- `_backoff_delay` of kernel/work_loop_state.py, for a whole multiplier. The power has no bound here;
-- Python's float power raises OverflowError above the largest float.
unfoldable pub backoff_delay : WorkLoopPolicy → ℕ → ℕ
backoff_delay policy attempts =
    min (policy.backoff_base_seconds * policy.backoff_multiplier ^ (attempts - 1))
      policy.backoff_ceiling_seconds
