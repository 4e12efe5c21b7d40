-- ===== src/Lib.antt =====
-- The core of tv-zerodha-bot, a trading bot for options at Zerodha, checked against its code.
--
-- Alerts and voice commands become orders at the broker (app/orders.py), each protected by a pair
-- of stop and target (a GTT OCO). A manager moves the stop behind the price (app/trailing.py). In
-- paper mode the rows of the same tables (app/storage.py) are closed by a simulation
-- (app/paper_trading.py). A job closes part of a position that has run far enough
-- (app/partial_booking.py). A watcher of the ticker's order updates hands on each fill
-- (app/watcher.py). The results of closed trades limit new entries (app/risk.py). An option is
-- traded in the nearest expiry that is far enough (app/expiry_resolver.py). What the operator sets
-- at run time is kept in a file (app/state.py). The hedges of the delta engines go out as limit
-- orders, and at the market when they wait too long (app/hedge_core.py). A straddle may be entered
-- behind a pair of bought wings (app/entry_wings.py). A guard may veto what the agents recommend
-- (app/commodity_agents/risk_guard.py). A spoken order waits in a store until it is confirmed
-- (app/voice/pending.py).
--
-- Orders models app/orders.py: Orders/Broker the client and the module's state, Orders/Backoff
--   `backoff_call`, Orders/Throttle `throttled_quote_call`, Orders/Entry `place_entry`, Orders/Gtt
--   the brackets, Orders/SquareOff `is_position_open` and `square_off`.
-- Trailing models app/trailing.py: Trailing/Tick `_TrailPos` and `_evaluate`, Trailing/Manager the
--   positions by token, `register`, `unregister`, `on_ticks` and the excursions, Trailing/Update the
--   thread of an update.
-- Paper models app/paper_trading.py: Paper/Exits the rules of an exit, Paper/Monitor the job.
-- Partial models app/partial_booking.py: Partial/Slice the sizes, Partial/Rows what is read and
--   written, Partial/Booking `book_partial`, Partial/Job the query and the job.
-- Risk models app/risk.py: Risk/Sizing the quantities, Risk/Gates the gates, Risk/Results
--   `record_trade_result`.
-- State models app/state.py: State the variables and their file, State/Settings, State/Switches
--   and State/Lists the getters, setters and toggles.
-- Expiry models app/expiry_resolver.py: Expiry/Dates the ordered dates, Expiry/Resolve the choice.
-- Guard models app/commodity_agents/risk_guard.py: Guard/Verdict `evaluate`.
-- Hedge models a part of app/hedge_core.py and app/hedge_tunables.py: Hedge/Escalate
--   `_limit_then_market`, Hedge/Band the band and the lots, Hedge/Tunables the thresholds.
-- Wings models a part of app/entry_wings.py: Wings/Place the buying of the wings.
-- Watcher models app/watcher.py: Watcher/Orders the state and every operation, Watcher/Runs the runs
--   of them.
-- Voice models app/voice/pending.py: Voice/Pending has every method of `PendingOrderStore`.
-- Storage has the rows of app/storage.py, Numbers the floats and decimals, Prelude the helpers.
--
-- Modelling. The broker's client is a record of functions on a world (`Broker`), which may answer
-- or raise anything at any call; the laws that a theorem needs of it are named hypotheses
-- (`Ticks`). An exception is a value, and a function that may raise returns a `Result` with the
-- next state. Times are natural numbers of nanoseconds, read from the client's clock or passed in.
-- Prices are the type of an interface (`Numbers`), so that a theorem about prices holds for every
-- rounding; where order is needed it is the hypothesis `IsOrdered`, and Numbers/Fixed is an exact
-- instance with four decimal places. The sides BUY and SELL are a data type, in capitals in the
-- program too. A set is a list without repeats. A section under a lock is one step, a method with
-- two sections has two, and a run of several callers is a sequence of steps. The tables are lists,
-- a query a function of the list. The retry loop runs on the rounds that `range` gives it, one
-- more than the retries, so no fuel is chosen; the wait for the fill of a hedge runs on fuel, a
-- round for every two seconds of it and one more, which is proved to be enough.
--
-- Not modelled: the log, the HTTP routes, the scheduler, the strategies, the language-model agents
-- and the analysis of market data; the per-underlying loop of the hedges; the other tables.
pub mod Prelude
pub mod Numbers
pub mod Orders
pub mod Storage
pub mod Trailing
pub mod Paper
pub mod Partial
pub mod Risk
pub mod State
pub mod Expiry
pub mod Guard
pub mod Hedge
pub mod Wings
pub mod Watcher
pub mod Voice
