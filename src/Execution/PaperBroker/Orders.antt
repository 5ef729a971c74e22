-- ===== src/Execution/PaperBroker/Orders.antt =====
-- The order records of the paper broker: what each call may change of them
-- (agents/execution/paper_broker.py, paper_broker_orders.py).
use trading_agents.Prelude.{
  ℕ, ◌≡◌, refl, String, false, Option, none, some, [], ◌∷◌, arith, elem, ==_iff, Bool-cases,
  Option-cases, inl, inr, ◌⊎◌, string_eq,
}
use trading_agents.Prelude.Dict.{Dict, get, put, get-put}
use trading_agents.Execution.Money.{Side, Money, paper_price, within_tolerance}
use trading_agents.Execution.PaperBroker.{
  filled, rejected, pending, BrokerFill, PaperBroker, order_id, day_limit, reject_order,
  tolerance_of, submit_new, submit, submit_stop, is_open, is_pending, cancel_fill, cancel_fills,
  cancel,
}

-- Every outcome stands under its own idempotency key, with the order id made of that key.
pub record IsKeyed (b : PaperBroker) : Type 0 where
  pub at_key :
      (key : String) (fill : BrokerFill)
      → get key b.fills ≡ some fill
      → (fill.idempotency_key ≡ key) × (fill.broker_order_id ≡ order_id key)

-- A settled outcome stays as it is.
abbrev pub KeepsSettled : PaperBroker → PaperBroker → Type 0
KeepsSettled b c =
    (key : String) (fill : BrokerFill)
    → get key b.fills ≡ some fill
    → is_pending fill.status ≡ false
    → get key c.fills ≡ some fill

-- A new outcome under a new key.
put-IsKeyed :
    (b : PaperBroker) (key : String) (fill : BrokerFill)
    → fill.idempotency_key ≡ key
    → fill.broker_order_id ≡ order_id key
    → IsKeyed b
    → IsKeyed (record b { fills = put key fill b.fills })
put-IsKeyed b key fill k i v = record {
  at_key = λ j f h. ground (arith, get-put key j fill b.fills, ==_iff key j, h, k, i, v.at_key j f);
}

put-KeepsSettled :
    (b : PaperBroker) (key : String) (fill : BrokerFill)
    → get key b.fills ≡ none
    → KeepsSettled b (record b { fills = put key fill b.fills })
put-KeepsSettled b key fill new j f h s =
    ground (arith, get-put key j fill b.fills, ==_iff key j, h, new)

module _ (key ticker : String) (side : Side) (quantity : ℕ) (b : PaperBroker) where
  -- What a call may leave: the broker as it was, or with one new outcome under the key.
  abbrev pub Adds : PaperBroker → Type 0
  Adds c =
      (c ≡ b)
      ⊎ ((fill : BrokerFill) × (get key b.fills ≡ none)
          × (fill.idempotency_key ≡ key)
          × (fill.broker_order_id ≡ order_id key)
          × (c ≡ record b { fills = put key fill b.fills }))

  Adds-safe : (c : PaperBroker) → Adds c → IsKeyed b → IsKeyed c × KeepsSettled b c
  Adds-safe c (inl same) v = rw same (v, λ key fill h s. h)
  Adds-safe c (inr (fill, new, k, i, e)) v =
      rw e (put-IsKeyed b key fill k i v, put-KeepsSettled b key fill new)

  added :
      (fill : BrokerFill) (c : PaperBroker)
      → get key b.fills ≡ none
      → fill.idempotency_key ≡ key
      → fill.broker_order_id ≡ order_id key
      → c ≡ record b { fills = put key fill b.fills }
      → Adds c
  added fill c new k i e = inr (fill, new, k, i, e)

  pub submit-Adds :
      (limit_price : Money) (tolerance_bps : Option ℕ)
      → Adds (submit key ticker side quantity limit_price tolerance_bps b).1
  unfolding submit submit_new reject_order
  submit-Adds limit_price tolerance_bps =
      let price = paper_price limit_price side b.slippage_bps in
      let inside = within_tolerance limit_price price side (tolerance_of tolerance_bps b) in
      let after = (submit key ticker side quantity limit_price tolerance_bps b).1 in
      let fill = day_limit key ticker side quantity in
      elim (Option-cases (get key b.fills)) [
        | inr (old, known) ↦ inl (ground (arith, known))
        | inl new ↦ elim (Bool-cases (elem ticker b.reject_tickers)) [
          | inl bad ↦
              added (fill limit_price rejected (some "paper_broker_rejected")) after new refl refl
                (ground (arith, new, bad))
          | inr fine ↦ elim (Bool-cases inside) [
            | inl near ↦
                added (fill price filled none) after new refl refl (ground (arith, new, fine, near))
            | inr far ↦
                added (fill limit_price pending (some "outside_order_price_tolerance")) after new
                  refl refl (ground (arith, new, fine, far))
          ]
        ]
      ]

  pub submit_stop-Adds :
      (stop_price : Money) (tif : String)
      → Adds (submit_stop key ticker side quantity stop_price tif b).1
  unfolding submit_stop reject_order
  submit_stop-Adds stop_price tif =
      let after = (submit_stop key ticker side quantity stop_price tif b).1 in
      let fill = day_limit key ticker side quantity stop_price in
      let resting = record (fill pending none) {
        order_type = some "stop";
        time_in_force = some tif;
        order_status = some b.stop_order_status;
      } in
      elim (Option-cases (get key b.fills)) [
        | inr (old, known) ↦ inl (ground (arith, known))
        | inl new ↦ elim (Bool-cases (elem ticker b.reject_tickers)) [
          | inl bad ↦
              added (fill rejected (some "paper_broker_rejected")) after new refl refl
                (ground (arith, new, bad))
          | inr fine ↦ added resting after new refl refl (ground (arith, new, fine))
        ]
      ]

  -- On a broker whose outcomes stand under their own keys, a submission leaves such a broker and
  -- every settled outcome, whichever branch it takes.
  pub submit_keeps :
      (limit_price : Money) (tolerance_bps : Option ℕ)
      → IsKeyed b
      → let after = (submit key ticker side quantity limit_price tolerance_bps b).1 in
        IsKeyed after × KeepsSettled b after
  submit_keeps limit_price tolerance_bps =
      Adds-safe (submit key ticker side quantity limit_price tolerance_bps b).1
        (submit-Adds limit_price tolerance_bps)

  -- On a broker whose outcomes stand under their own keys, the submission of a stop leaves such a
  -- broker and every settled outcome, whichever branch it takes.
  pub submit_stop_keeps :
      (stop_price : Money) (tif : String)
      → IsKeyed b
      → let after = (submit_stop key ticker side quantity stop_price tif b).1 in
        IsKeyed after × KeepsSettled b after
  submit_stop_keeps stop_price tif =
      Adds-safe (submit_stop key ticker side quantity stop_price tif b).1
        (submit_stop-Adds stop_price tif)

-- What a lookup finds after a cancellation.
get-cancel_fills :
    (broker_order_id key : String) (fills : Dict String BrokerFill)
    → get key (cancel_fills broker_order_id fills)
      ≡ elim (get key fills) [ none ↦ none | some fill ↦ some (cancel_fill broker_order_id fill) ]
unfolding cancel_fills get
get-cancel_fills broker_order_id key [] = refl
get-cancel_fills broker_order_id key ((j, fill) ∷ fills) =
    let rest = get-cancel_fills broker_order_id key fills in ground (arith, rest)

-- After a cancellation no order with that id rests; every settled outcome, and every order with
-- another id, stays as it was.
pub cancel_exact :
    (broker_order_id key : String) (fill : BrokerFill) (b : PaperBroker)
    → get key b.fills ≡ some fill
    → (fill' : BrokerFill) × (get key (cancel broker_order_id b).fills ≡ some fill')
      × (is_open broker_order_id fill' ≡ false)
      × (is_open broker_order_id fill ≡ false → fill' ≡ fill)
unfolding cancel
cancel_exact broker_order_id key fill b h =
    let found = get-cancel_fills broker_order_id key b.fills in
    elim (Bool-cases (is_open broker_order_id fill)) [
      | inl rests ↦ (
        cancel_fill broker_order_id fill,
        ground (arith, found, h),
        ground (arith, rests),
        λ shut. ground (arith, rests, shut),
      )
      | inr shut ↦ (fill, ground (arith, found, h, shut), shut, λ same. refl)
    ]
