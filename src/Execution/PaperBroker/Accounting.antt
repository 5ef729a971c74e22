-- ===== src/Execution/PaperBroker/Accounting.antt =====
-- What a submission does to the book and the account (agents/execution/paper_broker.py,
-- paper_broker_math.py).
use trading_agents.Prelude.{
  ℕ, ◌≡◌, refl, sym, ◌∙◌, ap, String, false, Option, none, some, List, [], ◌∷◌, ◌++◌, arith, inl,
  inr, string_eq,
}
use trading_agents.Prelude.Int.{ℤ, pos}
use trading_agents.Prelude.Dict.{Dict, get, put, values, get-put_self, values-put_new}
use trading_agents.Execution.Money.{Side, Money}
use trading_agents.Execution.PaperBroker.{
  pending, BrokerFill, Reply, done, raised, PaperBroker, replay_order, submit, submit_stop,
}
use trading_agents.Execution.PaperBroker.Book.{
  Holding, counts, book_fill, book_fills, positions_from_fills, cash_fill, cash_fills,
  account_from_fills, positions, account,
}
use trading_agents.Execution.PaperBroker.Replay.{Answers, submit-Answers, submit_stop-Answers}
use trading_agents.Execution.PaperBroker.Orders.{Adds, submit-Adds, submit_stop-Adds}

-- A fill that did not execute changes neither the book nor the cash.
book_fills_idle :
    (xs : List BrokerFill) (fill : BrokerFill) (book : Dict String Holding)
    → counts fill ≡ false
    → book_fills (xs ++ fill ∷ []) book ≡ book_fills xs book
unfolding book_fills book_fill
book_fills_idle [] fill book idle = rw idle refl
book_fills_idle (x ∷ xs) fill book idle = book_fills_idle xs fill (book_fill x book) idle

cash_fills_idle :
    (xs : List BrokerFill) (fill : BrokerFill) (cash : ℤ)
    → counts fill ≡ false
    → cash_fills (xs ++ fill ∷ []) cash ≡ cash_fills xs cash
unfolding cash_fills cash_fill
cash_fills_idle [] fill cash idle = rw idle refl
cash_fills_idle (x ∷ xs) fill cash idle = cash_fills_idle xs fill (cash_fill x cash) idle

positions_idle :
    (xs : List BrokerFill) (fill : BrokerFill)
    → counts fill ≡ false
    → positions_from_fills (xs ++ fill ∷ []) ≡ positions_from_fills xs
unfolding positions_from_fills
positions_idle xs fill idle = rw (book_fills_idle xs fill [] idle) refl

account_idle :
    (xs : List BrokerFill) (fill : BrokerFill) (initial_cash_cents : ℕ)
    → counts fill ≡ false
    → account_from_fills (xs ++ fill ∷ []) initial_cash_cents
      ≡ account_from_fills xs initial_cash_cents
unfolding account_from_fills
account_idle xs fill initial_cash_cents idle =
    rw (cash_fills_idle xs fill (pos initial_cash_cents) idle, positions_idle xs fill idle) refl

-- A reply by which nothing is traded: an exception, or an order that rests.
abbrev pub IsUntraded : Reply → Type 0
IsUntraded (done fill) = fill.status ≡ pending
IsUntraded (raised e) = Unit {0}

-- The book and the account as they were.
abbrev pub KeepsBook : PaperBroker → PaperBroker → Type 0
KeepsBook b c = (positions c ≡ positions b) × (account c ≡ account b)

-- Neither a rejected fill nor a resting one counts.
replay_idle :
    (fill : BrokerFill) (reply : Reply)
    → replay_order fill ≡ reply
    → IsUntraded reply
    → counts fill ≡ false
unfolding replay_order
replay_idle fill reply same idle = ground (arith, same, idle)

abbrev fill_or : BrokerFill → Option BrokerFill → BrokerFill
fill_or fill none = fill
fill_or fill (some other) = other

added_keeps :
    (key : String) (fill : BrokerFill) (b : PaperBroker)
    → get key b.fills ≡ none
    → counts fill ≡ false
    → KeepsBook b (record b { fills = put key fill b.fills })
unfolding positions account
added_keeps key fill b new idle =
    let added = values-put_new key fill b.fills new in
    (
      rw added (positions_idle (values b.fills) fill idle),
      rw added (account_idle (values b.fills) fill b.initial_cash_cents idle),
    )

same_fill : (f g : BrokerFill) → some f ≡ some g → f ≡ g
same_fill f g h = ap (λ o. fill_or f o) h

answer_keeps :
    (key ticker : String) (side : Side) (quantity : ℕ) (b : PaperBroker) (reply : Reply)
    (c : PaperBroker)
    → Adds key ticker side quantity b c
    → Answers key (reply, c)
    → IsUntraded reply
    → KeepsBook b c
answer_keeps key ticker side quantity b reply c (inl same) answers idle =
    (ap (λ x. positions x) same, ap (λ x. account x) same)
answer_keeps key ticker side quantity b reply c (inr (fill, new, k, i, e)) (found, at_key, same)
      idle =
    let is_it =
      same_fill fill found
        (sym (get-put_self key fill b.fills) ∙ (sym (ap (λ x. get key x.fills) e) ∙ at_key)) in
    let quiet = replay_idle found reply same idle in
    rw e (added_keeps key fill b new (ap counts is_it ∙ quiet))

-- A submission, of a new key or a known one, that raises (a rejection) or gives a pending fill (an
-- order that rests) leaves the positions and the account as they were.
pub submit_unexecuted :
    (key ticker : String) (side : Side) (quantity : ℕ) (limit_price : Money)
    (tolerance_bps : Option ℕ) (b : PaperBroker)
    → IsUntraded (submit key ticker side quantity limit_price tolerance_bps b).0
    → KeepsBook b (submit key ticker side quantity limit_price tolerance_bps b).1
submit_unexecuted key ticker side quantity limit_price tolerance_bps b =
    let out = submit key ticker side quantity limit_price tolerance_bps b in
    answer_keeps key ticker side quantity b out.0 out.1
      (submit-Adds key ticker side quantity b limit_price tolerance_bps)
      (submit-Answers key ticker side quantity limit_price tolerance_bps b)

-- The submission of a stop, of a new key or a known one, that raises or gives a pending fill leaves
-- the positions and the account as they were.
pub submit_stop_unexecuted :
    (key ticker : String) (side : Side) (quantity : ℕ) (stop_price : Money) (tif : String)
    (b : PaperBroker)
    → IsUntraded (submit_stop key ticker side quantity stop_price tif b).0
    → KeepsBook b (submit_stop key ticker side quantity stop_price tif b).1
submit_stop_unexecuted key ticker side quantity stop_price tif b =
    let out = submit_stop key ticker side quantity stop_price tif b in
    answer_keeps key ticker side quantity b out.0 out.1
      (submit_stop-Adds key ticker side quantity b stop_price tif)
      (submit_stop-Answers key ticker side quantity stop_price tif b)
