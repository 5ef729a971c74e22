-- ===== src/Execution/PaperBroker/Book.antt =====
-- agents/execution/paper_broker_math.py: the book and the account that the fills imply. Cash and the
-- cost of a holding are signed.
use Prim.Native.Nat.{Ordering}
use Prim.Native.String.{compare as compare_text}
use trading_agents.Prelude.{
  ℕ, ◌+◌, ◌-◌, ◌*◌, String, Bool, true, false, ◌&&◌, ◌||◌, Option, none, some, List, [], ◌∷◌, ltb,
  leb, if◌then◌else◌, string_eq,
}
use trading_agents.Prelude.Int.{ℤ, pos, negsuc, sub_ℕ, ◌+ℤ◌, ◌-ℤ◌, pos_part}
use trading_agents.Prelude.Dict.{Dict, get, put, pop, values}
use trading_agents.Execution.Money.{Side, buy, sell, money_to_cents, round_ℤ}
use trading_agents.Execution.PaperBroker.{Status, filled, partial, BrokerFill, PaperBroker}

-- A holding: its quantity and its cost in cents.
abbrev pub Holding : Type 0
Holding = ℕ × ℤ

pub record BrokerPosition : Type 0 where
  pub ticker : String
  pub quantity : ℕ
  pub avg_entry_cents : ℤ
  pub market_value_cents : ℤ

pub record BrokerAccount : Type 0 where
  pub cash_cents : ℤ
  pub equity_cents : ℤ
  pub buying_power_cents : ℕ

abbrev executes : Status → Bool
executes filled = true
executes partial = true
executes _ = false

-- The complement of the `continue` of both loops.
abbrev pub counts : BrokerFill → Bool
counts fill = executes fill.status && ltb 0 fill.quantity

-- The product of a quantity and a signed amount.
unfoldable pub times : ℕ → ℤ → ℤ
times n (pos m) = pos (n * m)
times n (negsuc m) = sub_ℕ 0 (n * (m + 1))

-- `_sell_from_book`.
unfoldable pub sell_from_book : ℕ → ℤ → ℕ → Holding
unfolding times
sell_from_book qty cost_cents sold =
    if leb qty sold || leb qty 0
    then (0, pos 0)
    else (qty - sold, cost_cents -ℤ times sold (round_ℤ cost_cents qty))

abbrev pub holding_of : Option Holding → Holding
holding_of none = (0, pos 0)
holding_of (some h) = h

unfoldable pub trade : BrokerFill → Holding → Side → Holding
unfolding sell_from_book
trade fill (qty, cost_cents) buy =
    (qty + fill.quantity, cost_cents +ℤ pos (fill.quantity * money_to_cents fill.price))
trade fill (qty, cost_cents) sell = sell_from_book qty cost_cents fill.quantity

-- `if qty > 0: book[ticker] = ... else: book.pop(ticker, None)`
unfoldable pub keep_holding : String → Holding → Dict String Holding → Dict String Holding
keep_holding ticker h book = if ltb 0 h.0 then put ticker h book else pop ticker book

unfoldable pub book_fill : BrokerFill → Dict String Holding → Dict String Holding
unfolding trade keep_holding
book_fill fill book =
    if counts fill
    then keep_holding fill.ticker (trade fill (holding_of (get fill.ticker book)) fill.side) book
    else book

unfoldable pub book_fills : List BrokerFill → Dict String Holding → Dict String Holding
unfolding book_fill
book_fills [] book = book
book_fills (fill ∷ fills) book = book_fills fills (book_fill fill book)

abbrev pub position_of : String → Holding → BrokerPosition
position_of ticker (qty, cost_cents) = record {
  ticker = ticker;
  quantity = qty;
  avg_entry_cents = round_ℤ cost_cents qty;
  market_value_cents = cost_cents;
}

-- `sorted(book.items())`: tickers are compared by code point.
abbrev pub text_le : String → String → Bool
text_le s t = elim (compare_text s t) [ Ordering.gt ↦ false | _ ↦ true ]

insert_position : BrokerPosition → List BrokerPosition → List BrokerPosition
insert_position p [] = p ∷ []
insert_position p (q ∷ qs) =
    if text_le p.ticker q.ticker then p ∷ q ∷ qs else q ∷ insert_position p qs

sorted_positions : Dict String Holding → List BrokerPosition
unfolding insert_position
sorted_positions [] = []
sorted_positions ((ticker, h) ∷ book) =
    insert_position (position_of ticker h) (sorted_positions book)

unfoldable pub positions_from_fills : List BrokerFill → List BrokerPosition
unfolding book_fills sorted_positions
positions_from_fills fills = sorted_positions (book_fills fills [])

abbrev cash_delta : BrokerFill → Side → ℤ → ℤ
cash_delta fill sell cash = cash +ℤ pos (money_to_cents fill.price * fill.quantity)
cash_delta fill buy cash = cash -ℤ pos (money_to_cents fill.price * fill.quantity)

unfoldable pub cash_fill : BrokerFill → ℤ → ℤ
cash_fill fill cash = if counts fill then cash_delta fill fill.side cash else cash

unfoldable pub cash_fills : List BrokerFill → ℤ → ℤ
unfolding cash_fill
cash_fills [] cash = cash
cash_fills (fill ∷ fills) cash = cash_fills fills (cash_fill fill cash)

unfoldable pub market_value : List BrokerPosition → ℤ
market_value [] = pos 0
market_value (p ∷ ps) = p.market_value_cents +ℤ market_value ps

unfoldable pub account_from_fills : List BrokerFill → ℕ → BrokerAccount
unfolding cash_fills market_value positions_from_fills
account_from_fills fills initial_cash_cents =
    let cash = cash_fills fills (pos initial_cash_cents) in
    record {
      cash_cents = cash;
      equity_cents = cash +ℤ market_value (positions_from_fills fills);
      buying_power_cents = pos_part cash;
    }

-- `PaperBroker.positions` and `PaperBroker.account`.
unfoldable pub positions : PaperBroker → List BrokerPosition
unfolding positions_from_fills
positions b = positions_from_fills (values b.fills)

unfoldable pub account : PaperBroker → BrokerAccount
unfolding account_from_fills
account b = account_from_fills (values b.fills) b.initial_cash_cents
