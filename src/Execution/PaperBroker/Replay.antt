-- ===== src/Execution/PaperBroker/Replay.antt =====
-- One outcome for one idempotency key (agents/execution/paper_broker.py, paper_broker_orders.py).
use trading_agents.Prelude.{
  ap, ◌∙◌, List, [], ◌∷◌, ==_iff, ℕ, ◌≡◌, refl, String, Option, some, arith, elem, Bool-cases,
  Option-cases, inl, inr, string_eq,
}
use trading_agents.Prelude.Dict.{get, get-put, get-put_self}
use trading_agents.Execution.Money.{Side, Money, paper_price, within_tolerance}
use trading_agents.Execution.PaperBroker.{
  BrokerFill, Reply, PaperBroker, replay_order, tolerance_of, submit_new, submit, submit_stop,
}
use trading_agents.Execution.PaperBroker.Orders.{Adds, submit-Adds, submit_stop-Adds}

-- Under the key stands a fill that replays as the reply.
abbrev pub Answers : String → Reply × PaperBroker → Type 0
Answers key (reply, b) =
    (fill : BrokerFill) × (get key b.fills ≡ some fill) × (replay_order fill ≡ reply)

submit_new-Answers :
    (key ticker : String) (side : Side) (quantity : ℕ) (limit_price : Money)
    (tolerance_bps : Option ℕ) (b : PaperBroker)
    → Answers key (submit_new key ticker side quantity limit_price tolerance_bps b)
unfolding submit_new replay_order
submit_new-Answers key ticker side quantity limit_price tolerance_bps b =
    let price = paper_price limit_price side b.slippage_bps in
    elim (Bool-cases (elem ticker b.reject_tickers)) [
      | inl bad ↦ rw bad (_, get-put_self key _ b.fills, refl)
      | inr fine ↦
          elim (Bool-cases
            (within_tolerance limit_price price side (tolerance_of tolerance_bps b))) [
              | inl inside ↦ rw (fine, inside) (_, get-put_self key _ b.fills, refl)
              | inr outside ↦ rw (fine, outside) (_, get-put_self key _ b.fills, refl)
            ]
    ]

pub submit-Answers :
    (key ticker : String) (side : Side) (quantity : ℕ) (limit_price : Money)
    (tolerance_bps : Option ℕ) (b : PaperBroker)
    → Answers key (submit key ticker side quantity limit_price tolerance_bps b)
unfolding submit
submit-Answers key ticker side quantity limit_price tolerance_bps b =
    elim (Option-cases (get key b.fills)) [
      | inl new ↦
          rw (new, submit) (submit_new-Answers key ticker side quantity limit_price tolerance_bps b)
      | inr (fill, known) ↦ rw (known, submit) (fill, known, refl)
    ]

pub submit_stop-Answers :
    (key ticker : String) (side : Side) (quantity : ℕ) (stop_price : Money) (tif : String)
    (b : PaperBroker)
    → Answers key (submit_stop key ticker side quantity stop_price tif b)
unfolding submit_stop replay_order
submit_stop-Answers key ticker side quantity stop_price tif b =
    elim (Option-cases (get key b.fills)) [
      | inr (fill, known) ↦ rw (known, submit_stop) (fill, known, refl)
      | inl new ↦ elim (Bool-cases (elem ticker b.reject_tickers)) [
        | inl bad ↦ rw (new, submit_stop, bad) (_, get-put_self key _ b.fills, refl)
        | inr fine ↦ rw (new, submit_stop, fine) (_, get-put_self key _ b.fills, refl)
      ]
    ]

-- A call of `submit` or of `submit_stop`, with its arguments.
pub data Call : Type 0 where
  order : String → String → Side → ℕ → Money → Option ℕ → Call
  stop : String → String → Side → ℕ → Money → String → Call

abbrev pub place_call : Call → PaperBroker → Reply × PaperBroker
place_call (order key ticker side quantity limit_price tolerance_bps) b =
    submit key ticker side quantity limit_price tolerance_bps b
place_call (stop key ticker side quantity stop_price tif) b =
    submit_stop key ticker side quantity stop_price tif b

abbrev pub key_of : Call → String
key_of (order key ticker side quantity limit_price tolerance_bps) = key
key_of (stop key ticker side quantity stop_price tif) = key

-- The broker after further calls, whatever each of them returned or raised.
abbrev pub after_calls : List Call → PaperBroker → PaperBroker
after_calls [] b = b
after_calls (call ∷ calls) b = after_calls calls (place_call call b).1

call-Answers : (call : Call) (b : PaperBroker) → Answers (key_of call) (place_call call b)
call-Answers (order key ticker side quantity limit_price tolerance_bps) b =
    submit-Answers key ticker side quantity limit_price tolerance_bps b
call-Answers (stop key ticker side quantity stop_price tif) b =
    submit_stop-Answers key ticker side quantity stop_price tif b

-- What stands under a key stays there, whatever is submitted.
added_after :
    (key ticker : String) (side : Side) (quantity : ℕ) (b c : PaperBroker) (old : String)
    (fill : BrokerFill)
    → Adds key ticker side quantity b c
    → get old b.fills ≡ some fill
    → get old c.fills ≡ some fill
added_after key ticker side quantity b c old fill (inl same) known = rw same known
added_after key ticker side quantity b c old fill (inr (new, free, k, i, e)) known =
    rw e (ground (arith, get-put key old new b.fills, ==_iff key old, free, known))

kept_by_call :
    (call : Call) (key : String) (fill : BrokerFill) (b : PaperBroker)
    → get key b.fills ≡ some fill
    → get key (place_call call b).1.fills ≡ some fill
kept_by_call (order key ticker side quantity limit_price tolerance_bps) old fill b known =
    added_after key ticker side quantity b
      (submit key ticker side quantity limit_price tolerance_bps b).1 old fill
      (submit-Adds key ticker side quantity b limit_price tolerance_bps) known
kept_by_call (stop key ticker side quantity stop_price tif) old fill b known =
    added_after key ticker side quantity b (submit_stop key ticker side quantity stop_price tif b).1
      old fill (submit_stop-Adds key ticker side quantity b stop_price tif) known

kept_by_calls :
    (calls : List Call) (key : String) (fill : BrokerFill) (b : PaperBroker)
    → get key b.fills ≡ some fill
    → get key (after_calls calls b).fills ≡ some fill
kept_by_calls [] key fill b known = known
kept_by_calls (call ∷ calls) key fill b known =
    kept_by_calls calls key fill (place_call call b).1 (kept_by_call call key fill b known)

replayed :
    (call : Call) (fill : BrokerFill) (b : PaperBroker)
    → get (key_of call) b.fills ≡ some fill
    → place_call call b ≡ (replay_order fill, b)
unfolding submit submit_stop
replayed (order key ticker side quantity limit_price tolerance_bps) fill b known =
    ground (arith, known)
replayed (stop key ticker side quantity stop_price tif) fill b known = ground (arith, known)

-- Once a submission, of an order or of a stop, has answered under its key, with a fill or with a
-- rejection, and after any further submissions under any keys, with no cancellation or replacement
-- among them: any submission under that key, of whatever order and of either kind, gives the first
-- answer again and changes nothing.
pub submit_idempotent :
    (first again : Call) (between : List Call) (b : PaperBroker)
    → key_of again ≡ key_of first
    → let (reply, b1) = place_call first b in
      let c = after_calls between b1 in place_call again c ≡ (reply, c)
submit_idempotent first again between b same_key =
    let (fill, known, same) = call-Answers first b in
    let c = after_calls between (place_call first b).1 in
    let still = kept_by_calls between (key_of first) fill (place_call first b).1 known in
    replayed again fill c (rw same_key still) ∙ ap (λ reply. (reply, c)) same
