-- ===== src/Kernel/WorkLoop/Delay.antt =====
-- How long an idle loop sleeps (kernel/work_loop_state.py `next_ready_delay`, kernel/work_loop.py
-- `_sleep_duration`).
use trading_agents.Prelude.{
  ℕ, ◌+◌, ◌-◌, ◌≤◌, ◌<◌, ◌≡◌, refl, min, String, true, false, Option, none, some, List, [], ◌∷◌,
  arith, All, All-mono, sym, subst, ltb, string_eq, ◌⊎◌, inl, inr,
}
use native.Mathlib.Decide.{dec_le, dec_lt}
use trading_agents.Prelude.Dict.{get}
use trading_agents.Kernel.WorkLoop.State.{
  FailureRecord, WorkLoopState, is_waiting, next_ready_delay,
}

module _ {T : Type 0} (item_key : T → String) (s : WorkLoopState) (now : ℕ) where
  abbrev Waits : T → Type 0
  Waits item = is_waiting now (get (item_key item) s.failures) ≡ true

  -- No waiting item is ready before the delay is over.
  abbrev NoneBefore : ℕ → List T → Type 0
  NoneBefore d items =
      All
        (λ item.
          (t : ℕ)
          → t < d
          → Waits item
          → is_waiting (now + t) (get (item_key item) s.failures) ≡ true)
        items

  -- Some item is waiting now and ready when the delay is over.
  abbrev SomeAt : ℕ → List T → Type 0
  SomeAt d [] = ⊥
  SomeAt d (item ∷ items) =
      (Waits item × (is_waiting (now + d) (get (item_key item) s.failures) ≡ false))
      ⊎ SomeAt d items

  -- What the delay says of the items.
  abbrev pub DelayIsExact : List T → Option ℕ → Type 0
  DelayIsExact items none =
      All (λ item. is_waiting now (get (item_key item) s.failures) ≡ false) items
  DelayIsExact items (some d) = (0 < d) × NoneBefore d items × SomeAt d items

  NoneBefore-mono : (d e : ℕ) (items : List T) → e ≤ d → NoneBefore d items → NoneBefore e items
  NoneBefore-mono d e items h none_before =
      All-mono _ _ (λ item f t lt. f t (omega arith)) items none_before

  NoneBefore-idle :
      (d : ℕ) (items : List T)
      → All (λ item. is_waiting now (get (item_key item) s.failures) ≡ false) items
      → NoneBefore d items
  NoneBefore-idle d items idle = All-mono _ _ (λ item e t lt waits. cc) items idle

  with_delay : ℕ → Option ℕ → Option ℕ
  with_delay d none = some d
  with_delay d (some m) = some (min d m)

  DelayIsExact-idle :
      (item : T) (items : List T) (o : Option ℕ)
      → is_waiting now (get (item_key item) s.failures) ≡ false
      → DelayIsExact items o
      → DelayIsExact (item ∷ items) o
  DelayIsExact-idle item items none h ih = (h, ih)
  DelayIsExact-idle item items (some d) h ih = (ih.0, (λ t lt waits. cc, ih.1), inr ih.2)

  DelayIsExact-waiting :
      (item : T) (items : List T) (at : ℕ) (o : Option ℕ)
      → ((t : ℕ) → is_waiting t (get (item_key item) s.failures) ≡ ltb t at)
      → now < at
      → DelayIsExact items o
      → DelayIsExact (item ∷ items) (with_delay (at - now) o)
  unfolding with_delay
  DelayIsExact-waiting item items at none key_waits later ih = (
    omega arith,
    (λ t lt waits. ground (arith, key_waits (now + t)), NoneBefore-idle (at - now) items ih),
    inl (ground (arith, key_waits now), ground (arith, key_waits (now + (at - now)))),
  )
  DelayIsExact-waiting item items at (some m) key_waits later ih = (
    omega (arith, ih.0),
    (
      λ t lt waits. ground (arith, key_waits (now + t), lt),
      NoneBefore-mono m (min (at - now) m) items (omega arith) ih.1,
    ),
    elim (dec_le (at - now) m) [
      | yes le ↦
          let same : min (at - now) m ≡ at - now = omega arith in
          rw same
            (inl (ground (arith, key_waits now), ground (arith, key_waits (now + (at - now)))))
      | no gt ↦
          let same : min (at - now) m ≡ m = omega arith in
          inr (subst (λ d. SomeAt d items) (sym same) ih.2)
    ],
  )

  next_ready_delay-idle :
      (item : T) (items : List T)
      → is_waiting now (get (item_key item) s.failures) ≡ false
      → next_ready_delay item_key s now (item ∷ items) ≡ next_ready_delay item_key s now items
  unfolding next_ready_delay
  next_ready_delay-idle item items h = ground arith

  next_ready_delay-waiting :
      (item : T) (items : List T) (r : FailureRecord)
      → get (item_key item) s.failures ≡ some r
      → now < r.next_retry_at
      → next_ready_delay item_key s now (item ∷ items)
        ≡ with_delay (r.next_retry_at - now) (next_ready_delay item_key s now items)
  unfolding next_ready_delay with_delay
  next_ready_delay-waiting item items r e h = ground arith

  with_item :
      (item : T) (items : List T) (o : Option FailureRecord)
      → get (item_key item) s.failures ≡ o
      → DelayIsExact items (next_ready_delay item_key s now items)
      → DelayIsExact (item ∷ items) (next_ready_delay item_key s now (item ∷ items))
  with_item item items none e ih =
      let idle : is_waiting now (get (item_key item) s.failures) ≡ false = rw e in
      subst (DelayIsExact (item ∷ items)) (sym (next_ready_delay-idle item items idle))
        (DelayIsExact-idle item items _ idle ih)
  with_item item items (some r) e ih = elim (dec_lt now r.next_retry_at) [
    | yes later ↦
        subst (DelayIsExact (item ∷ items)) (sym (next_ready_delay-waiting item items r e later))
          (DelayIsExact-waiting item items r.next_retry_at _ (λ t. rw e) later ih)
    | no ready ↦
        let idle : is_waiting now (get (item_key item) s.failures) ≡ false =
          rw e (ground (arith, ready)) in
        subst (DelayIsExact (item ∷ items)) (sym (next_ready_delay-idle item items idle))
          (DelayIsExact-idle item items _ idle ih)
  ]

  -- With no waiting item there is no delay. Otherwise the delay is positive, up to its end every
  -- waiting item still waits, and at its end one of them is ready.
  pub next_ready_delay_exact :
      (items : List T) → DelayIsExact items (next_ready_delay item_key s now items)
  unfolding next_ready_delay
  next_ready_delay_exact [] = tt
  next_ready_delay_exact (item ∷ items) =
      with_item item items (get (item_key item) s.failures) refl (next_ready_delay_exact items)
