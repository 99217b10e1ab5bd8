-- ===== src/Lib.antt =====
-- TradeEdge, a trading system: orders, accounts, market data, the broker session, the operator's
-- controls, and backtests.
--
-- The program. A strategy's intents become orders; the broker reports on each of them, and
-- internal/execution/model moves the order through its states. Each fill then goes to the accounts,
-- where internal/accounting/engine moves a position through it and records the application.
-- internal/session holds the broker's access token, which all calls to the broker need. An operator
-- stops new exposure and closes the day by internal/operations/control. Market events, their tokens
-- mapped to instruments by internal/instrumentmaster, pass through the reordering buffer of
-- internal/marketdata/ingest. internal/research replays recorded observations through a strategy and
-- simulated fills. Money and quantities are those of internal/domain.
--
-- The files.
--   Prelude and its children: shared names, integers, 64-bit words and their division, results,
--     strings, lists, maps.
--   Domain: internal/domain/primitives.go and the sides of internal/domain/contracts.go.
--   Domain/Instrument: internal/domain/instrument.go. Domain/Traded: what `NewInstrument` returns.
--   Execution/State: the states, report types, reasons and transition tables of
--     internal/execution/model/order.go (`legalTransition`, `staleTransition`, `reportTarget`).
--   Execution/Order: `newOrderValue` and `ApplyExecutionReport` of the same file. Its guards are
--     functions of their own, in the order in which the code takes them. Children: Validity (what
--     the constructor checks), Apply (one report), Moves (which state a report leads to, by the phases
--     of an order), Lifecycle (states), History (sequences).
--   Execution/Reports: `NewOrder`, `NewExecutionReport` and `NewFill` of the same file.
--   Execution/Health: `Aggregate` of internal/execution/health/model.go.
--   Accounting/Transition: `transition` of internal/accounting/engine/engine.go and the checked
--     operations below it. Children: Checked, Books, DoubleEntry, Entries, Ranges.
--   Accounting/Position and Accounting/Fill: `NewPositionSnapshot`, `NewAccountingFill`,
--     `FillOrderingKey` and `NewFillApplication` of internal/accounting/model.
--   Accounting/Ingestion: internal/accounting/model/ingestion.go.
--   Accounting/Engine: `Apply` of internal/accounting/engine/engine.go. Children: Books (what one
--     posting writes), Conservation (the balance over a fill).
--   Session: `NewService`, `Status` and `Exchange` of internal/session/service.go, the latter in its
--     two critical sections, between which other goroutines run. Children: Invariant (each section),
--     Flights (all interleavings).
--   Control: `New`, `command`, `runEOD`, `persistLocked`, `finalize` and `load` of
--     internal/operations/control/controller.go, a critical section each, with what the file holds.
--     Children: Latch (what blocks new exposure), Requests (refused commands), Handler (`ServeHTTP`
--     once the path and the body are read).
--   Instruments: internal/instrumentmaster/master.go, which maps the tokens of a broker to
--     instruments over time. Children: Lookup (one list of mappings), Made (masters of `New`).
--   MarketData/Event: the quotes, the candles and `EventLess` of internal/marketdata/model.
--     MarketData/Order: `EventLess` as an order.
--   MarketData/Ordering: the buffer of internal/marketdata/ingest/ordering.go, which puts late events
--     in order before the strategies see them. Children: Buffer, Push (one call), Stream (a run).
--   MarketData/Latest: internal/marketdata/latest/store.go. Children: Tracks (one event), Runs.
--   Portfolio: the sizing of internal/portfolio/allocation/engine.go. Children: Exact (its amounts over
--     integers without bounds), Least (the loop over the caps), Bounded (what is approved).
--     Portfolio/Controls: internal/portfolio/model/controls.go.
--   Research/Arithmetic and Research/Rounding: internal/research/model/arithmetic.go.
--   Research/Cost: internal/research/cost/cost.go. Children: Balance (one charge), Total.
--   Research/Observation and Research/Features: internal/research/model/model.go up to
--     `ObservationLess`, and internal/research/features/features.go. Features/Past: what a view holds.
--   Research/Backtest: internal/research/backtest. Children: Filling (fill.go), Ledger (the money of
--     engine.go), Engine and Rounds (`Run`; its interfaces are the functions of `Parts`), Steps and
--     Decisions (a round as a relation), Coherent and Exits (positions and waiting orders), Amounts
--     and Books (trades and profit), Chronology (runs over more observations), Baseline (the
--     baseline fills are what `Run` needs of fills).
--
-- The model. An int64 is an integer, and an operation that can overflow has its wrap-around written
-- out by `wrap64`; a uint64 is a natural number under `wrap_u64`. A product of `big.Int` is exact.
-- An identifier, a checksum or a token's digest is the number that its bytes write, 0 for the zero
-- value. What SHA-256 derives is a parameter (`Digests`, `EngineDigests`, `IdDigests`,
-- `IngestionDigests`, `digest`, `seal`). A time is the number of nanoseconds since the zero time,
-- so that `IsZero` is 0; `UTC` changes no instant. An error is its sentinel value. Strings are
-- lists of bytes, and `TrimSpace` and `ToUpper` are read on ASCII. No definition runs on fuel: each
-- is a composition without loops, or recursion on a list. A Go map is the list of its entries, and a
-- loop over the map takes them in the order of the list.
--
-- Not modelled: the canonical JSON that values cache, which no operation reads; contexts of
-- goroutines that wait, and the nil arguments that constructors refuse; the adapters' stores,
-- the other HTTP handlers, the rest of market data, strategies, risk, the exposures
-- of an allocation, derivatives, and the import of research datasets.
pub mod Prelude
pub mod Domain
pub mod Execution
pub mod Accounting
pub mod Session
pub mod Control
pub mod Instruments
pub mod Portfolio
pub mod Research
pub mod MarketData
