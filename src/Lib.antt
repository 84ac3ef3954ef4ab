-- ===== src/Lib.antt =====
-- Verification library of the Polymarket toolkit: the strategies, the backtester, the rewards
-- simulator, the transpiler and the command line of pmstrat, and the two scanners, the clients of the
-- exchange and the scripts for trades and redemptions of pmtrader.
--
-- A strategy is called on every tick with a context, the market state that it may read, and
-- returns signals. The backtester feeds it the ticks of a history: it keeps the latest book of
-- each token, builds the context, executes the signals against the books with slippage, settles
-- the markets whose mid price has reached 0 or 1, and reports the profit. The rewards simulator
-- scores resting orders by their distance from the mid price and shares out a market's pool.
-- The transpiler reads the source of a strategy, refuses what it does not support, and writes a Rust
-- module. Apart from these, one scanner looks for a sudden rise of dollar volume among the asks of
-- a book, and the other for near-certain outcomes of markets that end soon. The client of the exchange
-- reads its books, and from the contracts of the chain the balances, positions and resolutions; the
-- redemption asks it for the positions on resolved markets, and the trading script sends orders by it.
-- The proxy wants a token, which its authentication keeps until it expires. The command line runs the
-- validator or the transpiler over the modules of strategies, and writes the generated code, its tests
-- and the registry of strategies.
--
-- Which file models what, with `D` the `Decimal` numbers and `F` the `float` ones:
--   Signal           pmstrat/pmstrat/signal.py
--   Context          pmstrat/pmstrat/context.py: the snapshots, positions, markets, the context
--   Backtest         pmstrat/pmstrat/backtest.py: the state of `Backtester`, `_execute_signal` as
--                    `execute_signal`, with a function for each part of its branches,
--                    `_update_position` as `update_position`, `_check_resolutions` as
--                    `check_resolutions`, a position at a time by `check_resolution` and `settle`
--   Backtest/Pnl     `_realized_pnl`, `_unrealized_pnl`, `_estimate_rewards`, `_is_winning_fill`
--   Backtest/Run     `run`: `step` is one round of its loop, `finish` the statistics
--   Backtest/Positions, Total, Safety    the sizes of positions, and how a run ends
--   Backtest/Ledger  the cash and the positions together
--   Backtest/Outcomes   what a buy and a sell do
--   Rewards          pmstrat/pmstrat/rewards.py: `score_order`, `calculate_epoch_rewards`,
--                    `estimate_daily_rewards`, `estimate_annual_yield`
--   Rewards/Scores, Epoch   scores of orders, and rewards of an epoch
--   Strategies       pmstrat/pmstrat/strategies: MarketMaker, DynamicMarketMaker, SpreadWatcher
--                    and SureBets are the `on_tick` of the file of that name; Quoting has what
--                    the two market makers compute alike, Words the operations on text,
--                    SureBets/Opportunities `scan_opportunities`
--   Scanner          pmtrader/strategies/scanner.py: `analyze_order_book` and
--                    `find_volume_cliff_opportunities`, with the data of
--                    pmtrader/polymarket/models.py; Scanner/Continuous is `scan_continuous`
--   Expiring         pmtrader/strategies/expiring.py: `find_expiring_opportunities`, a batch of
--                    events at a time by `scan_batches`, and `calculate_max_return`
--   Transpile        pmstrat/pmstrat/transpile.py, over the trees of Python's `ast` (Syntax):
--                    Validator and Reports are `StrategyValidator`, Driver is `transpile`, and
--                    the others are `RustCodeGen`: Expressions, with Terms, Operators and Calls,
--                    is `_gen_expr`, Statements, with Bindings, `_gen_stmt`, Scan the two scans,
--                    Options `_preprocess_option_patterns`, Params `param_to_rust`, Module
--                    `generate`; Strategy is pmstrat/pmstrat/dsl.py
--   Transpile        TestGenerator, with TestTexts, is `RustTestGenerator`, and Registry is
--                    `scan_strategy_file` and `generate_mod_rs`
--   Cli              pmstrat/pmstrat/cli.py: Args the arguments, Live `run_scan`, Transpiling
--                    `run_transpile`, Linting `run_lint`
--   Clob             pmtrader/polymarket/clob.py: Rpc is `_rpc_call`, Chain what reads a contract,
--                    Hex its words, Holdings `positions`, Books the books and the markets, Orders
--                    what sends and cancels orders, Session the state of the requests, Account
--                    `create_authenticated_clob` and `_rpc_call` with its headers
--   Cognito          pmtrader/polymarket/cognito.py: `CognitoAuth`; Cache its tokens
--   Redeem           pmtrader/redeem.py: Resolved `get_resolved_positions`, Calls `redeem_position`
--   Trade            pmtrader/trade.py: the dialogues, and Guards the calls that they make
--   Numeric          the numbers: an interface of operations, its laws, and the rational numbers
--   Dict             Python's dict, an association list in the order of insertion
--   Sort             Python's list.sort, as an insertion sort with the key's order
--   Prelude          the names and lemmas that the other modules share
--   Tests            concrete runs over the rational numbers
--
-- Numbers. `Numeric` has the operations of the `decimal` module that the source uses. The laws of
-- `IsOrdered` (Numeric/Order) are those that rounding keeps: the order is total, operations are
-- monotone and keep signs. Those of `IsExact` (Numeric/Exact) are the laws of a ring, which decimal
-- arithmetic meets as long as no result needs more than 28 digits. The rational numbers meet both.
-- `divide` gives `none` on a division by zero, where `decimal` raises, and a function that can
-- raise returns an Option; a division by a literal, or after a test that excludes zero, is `/`.
-- Binary floats meet neither. What is stated of floats alone uses `IsLinear`, which they meet where none
-- is NaN, as a sort needs it, or `KeepsSigns`, which they meet with all their rounding.
--
-- State. An operation that changes the backtester takes it and returns the new one. A strategy is a
-- function of its own state and the context. The backtester's position objects are shared with the
-- contexts that it hands out; no strategy here writes to them, and they are copies in the model. A
-- time is a number of microseconds. The clock (`now`, `hours`) and the length of a period in days
-- are parameters. Loops are structural recursion over a list, or over the number of rounds that the
-- source gives. Two run on fuel, which is enough: the requests for batches in `scan_batches`, on the
-- largest number of events, and the digits of a number in `hex_digits`, on one more than it.
--
-- Servers. A server is a function that gives the response to a request as the n-th of a session,
-- so that it may answer the same request differently later; a session of the client counts the
-- requests to the node of the chain and the time that is slept, and neither the requests that
-- py_clob_client makes for the trades nor those for a token. The authentication at the proxy
-- counts its own requests and its readings of the clock. What a user types, and what happens in
-- each round of a loop without end, is an argument. Files are a dictionary from paths to texts.
-- A float of a text is a parameter; the numbers have no NaN, except for those that the trading
-- script reads (`Float` of Trade). A text that Python's `int` reads has no white space, sign or
-- underscore but a leading minus sign, and no digits but those of ASCII.
--
-- Transpiler. The tree of a module, or its syntax error, is what `ast.parse` gives for the source. A
-- generator takes the variables that are declared and those that hold texts, the sets that the
-- class keeps, and returns them with its text; `none` stands for an exception. The sets
-- `option_vars` and `unwrapped_vars`, which nothing reads, are left out. `print_nat` is Python's
-- `str` of a number.
--
-- Not modelled: in the transpiler, the assignment to something other than a name that takes up a test
-- for None, where the code raises AttributeError; the body of `run_backtest` in the command line; the
-- readers and generators of ticks; the text of summaries and reasons, and what is printed or drawn;
-- the queries that the client passes on to py_clob_client and whose answer it returns; the requests
-- of pmtrader/polymarket/gamma.py; pmtrader/scan.py and the pages under pmtrader/ui, which read
-- arguments and show tables; pmengine and pmproxy, which are written in Rust.
pub mod Prelude
pub mod Numeric
pub mod Dict
pub mod Sort
pub mod Signal
pub mod Context
pub mod Backtest
pub mod Rewards
pub mod Strategies
pub mod Scanner
pub mod Expiring
pub mod Clob
pub mod Cognito
pub mod Redeem
pub mod Trade
pub mod Cli
pub mod Transpile
pub mod Tests
