-- ===== src/Execution/FillAttempts/Selection.antt =====
-- The search for an attempt ends (agents/execution/fill_attempts.py).
use Prim.Native.String.{count}
use Prim.Native.String.{◌++◌ as str_append}
use native.Mathlib.Decide.{dec_lt}
use text.Mathlib.TextLemmas.{append_cancel_left, length-append}
use trading_agents.Prelude.{
  ℕ, zero, suc, ◌+◌, ◌≡◌, ◌≤◌, ◌<◌, ◌≢◌, ◌⊎◌, sym, refl, ◌∙◌, ap, String, Bool, Bool-cases, inl,
  inr, true, false, some, [], ◌∷◌, length, arith, ==_iff, string_eq, pair_eq, nat_eq, Eq,
}
use trading_agents.Prelude.Dict.{Dict, get, pop, is_some, get-pop}
use trading_agents.Kernel.Graph.Store.{Props, Store}
use trading_agents.Execution.FillAttempts.{
  FillAttempt, fill_attempt_key, attempt_at, usable_at, select_from, select_fill_attempt,
}

module _ {K V : Type 0} ⦃e : Eq K⦄ where
  length-pop_le : (k : K) (d : Dict K V) → length (pop k d) ≤ length d
  unfolding pop
  length-pop_le k [] = omega arith
  length-pop_le k ((j, v) ∷ d) = ground (arith, length-pop_le k d)

  length-pop : (k : K) (d : Dict K V) → is_some (get k d) ≡ true → length (pop k d) + 1 ≤ length d
  unfolding get pop
  length-pop k [] h = absurd (ground arith)
  length-pop k ((j, v) ∷ d) h = ground (arith, length-pop k d, length-pop_le k d)

  -- As many different known keys, as many entries at least.
  pub known_keys :
      (f : ℕ → K) (n : ℕ) (d : Dict K V)
      → ((i j : ℕ) → f i ≡ f j → i ≡ j)
      → ((i : ℕ) → i < n → is_some (get (f i) d) ≡ true)
      → n ≤ length d
  known_keys f zero d injective known = omega arith
  known_keys f (suc n) d injective known =
      let fewer = known_keys f n (pop (f n) d) injective (λ i small.
        ground (
          arith,
          get-pop (f n) (f i) d,
          known i (omega arith),
          ==_iff (f n) (f i),
          injective n i,
        )) in
      omega (arith, fewer, length-pop (f n) d (known n (omega arith)))

longer : (s t : String) → s ≢ str_append s (str_append "#" t)
longer s t same =
    let counts = ap count same in
    omega (arith, counts, length-append s (str_append "#" t), length-append "#" t)

module _ (number : ℕ → String) (injective : (i j : ℕ) → number i ≡ number j → i ≡ j) where
  base_key : (key : String) → fill_attempt_key number key 0 ≡ key
  unfolding fill_attempt_key
  base_key key = refl

  later_key :
      (key : String) (i : ℕ)
      → 0 < i
      → fill_attempt_key number key i ≡ str_append key (str_append "#" (number i))
  unfolding fill_attempt_key
  later_key key i later = ground (arith, later)

  base_is : {key : String} (i : ℕ) → ¬ (0 < i) → fill_attempt_key number key i ≡ key
  base_is {key} i zero_ =
      let i0 : i ≡ 0 = omega arith in ap (fill_attempt_key number key) i0 ∙ base_key key

  -- Two ordinals of one order never share a key.
  pub fill_attempt_key_injective :
      (key : String) (i j : ℕ)
      → fill_attempt_key number key i ≡ fill_attempt_key number key j
      → i ≡ j
  fill_attempt_key_injective key i j same = elim (dec_lt 0 i) [
    | yes ip ↦ elim (dec_lt 0 j) [
      | yes jp ↦ injective i j (
          append_cancel_left "#" (number i) (number j) (
            append_cancel_left key (str_append "#" (number i)) (str_append "#" (number j))
              (sym (later_key key i ip) ∙ (same ∙ later_key key j jp))))
      | no j0 ↦
          absurd (longer key (number i) (sym (base_is j j0) ∙ (sym same ∙ later_key key i ip)))
    ]
    | no i0 ↦ elim (dec_lt 0 j) [
      | yes jp ↦ absurd (longer key (number j) (sym (base_is i i0) ∙ (same ∙ later_key key j jp)))
      | no j0 ↦ omega arith
    ]
  ]

  module _ (graph : Store) (key : String) (props : Props) (force_new : Bool) where
    -- The attempt of the first ordinal that may be used.
    abbrev pub IsFirst : FillAttempt → Type 0
    IsFirst a =
        (a ≡ attempt_at number graph key props force_new a.ordinal)
        × (usable_at number graph key props force_new a.ordinal ≡ true)
        × ((i : ℕ) → i < a.ordinal → usable_at number graph key props force_new i ≡ false)

    abbrev NoneBelow : ℕ → Type 0
    NoneBelow n = (i : ℕ) → i < n → usable_at number graph key props force_new i ≡ false

    no_use_below :
        (k : ℕ)
        → NoneBelow k
        → usable_at number graph key props force_new k ≡ false
        → NoneBelow (k + 1)
    no_use_below k below here i small = elim (dec_lt i k) [
      | yes less ↦ below i less
      | no last ↦
          let same : i ≡ k = omega arith in
          ap (usable_at number graph key props force_new) same ∙ here
    ]

    occupied :
        (i : ℕ)
        → usable_at number graph key props force_new i ≡ false
        → is_some (get ("Fill", fill_attempt_key number key i) graph.nodes) ≡ true
    unfolding usable_at attempt_at
    occupied i used = ground (arith, used)

    searched :
        (fuel k : ℕ)
        → NoneBelow k
        → ((a : FillAttempt) × (select_from number graph key props force_new fuel k ≡ some a)
            × IsFirst a)
          ⊎ NoneBelow (fuel + k)
    unfolding select_from
    searched zero k below = inr (λ i small. below i (omega arith))
    searched (suc fuel) k below = elim (Bool-cases (usable_at number graph key props force_new k)) [
      | inl free ↦
          inl (attempt_at number graph key props force_new k, rw free refl, (refl, free, below))
      | inr used ↦ elim (searched fuel (k + 1) (no_use_below k below used)) [
        | inl (a, found, first) ↦ inl (a, rw used found, first)
        | inr none_ ↦ inr (λ i small. none_ i (omega arith))
      ]
    ]

    -- Where ints have different texts, the search ends for any fuel above the number of the nodes,
    -- with the attempt of the first ordinal whose key is free or, where a new one is not forced,
    -- holds a fill with compatible props.
    pub select_fill_attempt-IsFirst :
        (fuel : ℕ)
        → length graph.nodes < fuel
        → (a : FillAttempt) × (select_fill_attempt number graph key props force_new fuel ≡ some a)
          × IsFirst a
    unfolding select_fill_attempt
    select_fill_attempt-IsFirst fuel enough =
        elim (searched fuel 0 (λ i small. absurd (omega arith))) [
          | inl found ↦ found
          | inr none_ ↦
              let full =
                known_keys (λ i. ("Fill", fill_attempt_key number key i)) fuel graph.nodes
                  (λ i j same. fill_attempt_key_injective key i j (ap (λ k. k.1) same))
                  (λ i small. occupied i (none_ i (omega arith))) in
              absurd (omega (arith, full))
        ]
