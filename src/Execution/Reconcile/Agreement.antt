-- ===== src/Execution/Reconcile/Agreement.antt =====
-- Two books without a discrepancy are the same (agents/execution/domain/reconcile.py).
use trading_agents.Prelude.{
  ℕ, suc, ◌+◌, ◌≡◌, ◌↔◌, refl, sym, ap, ◌∙◌, String, true, false, not, ◌==◌, ==_iff, Option,
  Bool-cases, inl, inr, none, some, List, [], ◌∷◌, ◌++◌, map, length, length-append, elem, arith,
  string_eq,
}
use trading_agents.Prelude.Dict.{Dict, get, keys, is_some}
use trading_agents.Execution.PaperBroker.{BrokerFill}
use trading_agents.Execution.Reconcile.{
  same_signature, by_key, sorted, verdict, tally, compare_recorded, unrecorded, unrecorded_text,
  reconcile_fills,
}
use trading_agents.Execution.Reconcile.Keys.{
  elem-keys, elem-sorted, length-sorted, length-map, elem-filter_of, not_empty, append_empty,
  map_empty, filter_empty,
}

tally_clean :
    (key : String) (v : Option String) (out : ℕ × List String)
    → (tally key v out).1 ≡ []
    → (v ≡ none) × (out.1 ≡ [])
tally_clean key none (matched, rest) h = (refl, h)
tally_clean key (some what) (matched, rest) h = absurd (ground (arith, h))

keeps_clean :
    (key : String) (v : Option String) (out : ℕ × List String)
    → v ≡ none
    → (tally key v out).1 ≡ out.1
keeps_clean key none (matched, rest) h = refl
keeps_clean key (some what) (matched, rest) h = absurd (ground (arith, h))

tally-count :
    (key : String) (v : Option String) (out : ℕ × List String)
    → (tally key v out).0 + length (tally key v out).1 ≡ suc (out.0 + length out.1)
tally-count key none (matched, rest) = omega arith
tally-count key (some what) (matched, rest) = omega arith

-- Two books at one key: neither knows it, or both do, with the same signature.
abbrev pub Agree : Option BrokerFill → Option BrokerFill → Type 0
Agree none none = Unit
Agree (some a) (some b) = same_signature a b ≡ true
Agree _ _ = ⊥

module _ (recorded broker : Dict String BrokerFill) where
  abbrev verdict_at : String → Option String
  unfolding verdict
  verdict_at k = verdict (get k recorded) (get k broker)

  -- No discrepancy among some keys.
  compared_clean :
      (l : List String)
      → (compare_recorded recorded broker l).1 ≡ []
      → (k : String) → elem k l ≡ true
      → verdict (get k recorded) (get k broker) ≡ none
  unfolding compare_recorded
  compared_clean [] h k at = absurd (ground (arith, at))
  compared_clean (key ∷ rest) h k at =
      let (here, later) = tally_clean key _ _ h in
      elim (Bool-cases (key == k)) [
        | inl same ↦
            ap (λ j. verdict (get j recorded) (get j broker)) (sym ((==_iff key k).0 same)) ∙ here
        | inr other ↦ compared_clean rest later k (ground (arith, at, other))
      ]

  clean_compared :
      (l : List String)
      → ((k : String) → verdict (get k recorded) (get k broker) ≡ none)
      → (compare_recorded recorded broker l).1 ≡ []
  unfolding compare_recorded
  clean_compared [] fine = refl
  clean_compared (key ∷ rest) fine = keeps_clean key _ _ (fine key) ∙ clean_compared rest fine

  compared-count :
      (l : List String)
      → (compare_recorded recorded broker l).0 + length (compare_recorded recorded broker l).1
        ≡ length l
  unfolding compare_recorded
  compared-count [] = omega arith
  compared-count (key ∷ rest) = omega (
    arith,
    tally-count key (verdict (get key recorded) (get key broker))
        (compare_recorded recorded broker rest),
    compared-count rest,
  )

verdict_agrees :
    (a b : Option BrokerFill)
    → verdict a b ≡ none
    → (is_some b ≡ true → is_some a ≡ true)
    → Agree a b
unfolding verdict
verdict_agrees none none h known = tt
verdict_agrees none (some b) h known = absurd (ground (arith, known refl))
verdict_agrees (some a) none h known = absurd (ground (arith, h))
verdict_agrees (some a) (some b) h known = ground (arith, h)

agrees_verdict :
    (a b : Option BrokerFill) → Agree a b → (verdict a b ≡ none) × (is_some b ≡ is_some a)
unfolding verdict
agrees_verdict none none h = (refl, refl)
agrees_verdict none (some b) h = absurd h
agrees_verdict (some a) none h = absurd h
agrees_verdict (some a) (some b) h = (rw h refl, refl)

module _ (recorded broker : Dict String BrokerFill) where
  unrecorded_empty :
      ((k : String) → is_some (get k broker) ≡ true → is_some (get k recorded) ≡ true)
      → unrecorded recorded broker ≡ []
  unrecorded_empty known =
      filter_empty (λ key. not (elem key (keys recorded))) (keys broker)
        (λ k at. ground (arith, elem-keys k recorded, known k (sym (elem-keys k broker) ∙ at)))

  none_unrecorded :
      sorted (unrecorded recorded broker) ≡ []
      → (k : String) → is_some (get k broker) ≡ true
      → is_some (get k recorded) ≡ true
  none_unrecorded h k there = elim (Bool-cases (elem k (keys recorded))) [
    | inl known ↦ sym (elem-keys k recorded) ∙ known
    | inr new ↦ absurd (
        not_empty k (sorted (unrecorded recorded broker))
          (elem-sorted k (unrecorded recorded broker)
            ∙ elem-filter_of (λ key. not (elem key (keys recorded))) k (keys broker)
                (elem-keys k broker ∙ there) (rw new refl))
          h)
  ]

verdict_absent : (a b : Option BrokerFill) → is_some a ≡ false → verdict a b ≡ none
unfolding verdict
verdict_absent none b h = refl
verdict_absent (some a) b h = absurd (ground (arith, h))

module _ (recorded broker : Dict String BrokerFill) where
  no_verdict :
      (compare_recorded recorded broker (sorted (keys recorded))).1 ≡ []
      → (k : String) → verdict (get k recorded) (get k broker) ≡ none
  no_verdict same k = elim (Bool-cases (is_some (get k recorded))) [
    | inl known ↦
        compared_clean recorded broker (sorted (keys recorded)) same k
          (elem-sorted k (keys recorded) ∙ (elem-keys k recorded ∙ known))
    | inr absent ↦ verdict_absent (get k recorded) (get k broker) absent
  ]

  counted :
      (compare_recorded recorded broker (sorted (keys recorded))).0
        + length (
            (compare_recorded recorded broker (sorted (keys recorded))).1
            ++ map unrecorded_text (sorted (unrecorded recorded broker)))
      ≡ length (keys recorded) + length (unrecorded recorded broker)
  counted = omega (
    arith,
    compared-count recorded broker (sorted (keys recorded)),
    length-sorted (keys recorded),
    length-sorted (unrecorded recorded broker),
    length-map unrecorded_text (sorted (unrecorded recorded broker)),
    length-append (compare_recorded recorded broker (sorted (keys recorded))).1
        (map unrecorded_text (sorted (unrecorded recorded broker))),
  )

-- A reconciliation finds no discrepancy exactly where the two books agree under every key: neither
-- has a fill there, or both have one, with the same signature. Every recorded key, and every
-- broker's key that is not recorded, counts as a match or as one discrepancy.
pub reconcile_fills-Agree :
    (recorded broker : List BrokerFill)
    → let rec = by_key recorded [] in
      let brk = by_key broker [] in
      (((reconcile_fills recorded broker).1 ≡ []) ↔ ((k : String) → Agree (get k rec) (get k brk)))
      × ((reconcile_fills recorded broker).0 + length (reconcile_fills recorded broker).1
          ≡ length (keys rec) + length (unrecorded rec brk))
unfolding reconcile_fills
reconcile_fills-Agree recorded broker =
    let rec = by_key recorded [] in
    let brk = by_key broker [] in
    let extra = sorted (unrecorded rec brk) in
    (
      (
        λ empty k.
            let (same, no_extra) =
              append_empty (compare_recorded rec brk (sorted (keys rec))).1
                (map unrecorded_text extra) empty in
            verdict_agrees (get k rec) (get k brk) (no_verdict rec brk same k)
              (none_unrecorded rec brk (map_empty unrecorded_text extra no_extra) k),
        λ agree.
            rw
              (
                clean_compared rec brk (sorted (keys rec))
                    (λ k. (agrees_verdict (get k rec) (get k brk) (agree k)).0),
                unrecorded_empty rec brk
                    (λ k there. sym (agrees_verdict (get k rec) (get k brk) (agree k)).1 ∙ there),
              )
              refl,
      ),
      counted rec brk,
    )
