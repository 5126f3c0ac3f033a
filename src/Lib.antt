-- ===== src/Lib.antt =====
-- verdict-machine: backtests of a momentum strategy on Indian equities, priced by the contract note.
--
-- The program, as far as it is modelled here, is six packages.
--
--   * internal/cost prices a trade the way a contract note does (cost.go), by a table of dated rates
--     (schedule.go). Trade prices one order; Day prices a session's orders, and adds the depository's
--     charge once for each scrip sold.
--   * internal/risk stands between the strategy's intents and the orders. Gate.Check decides a batch
--     in order against a working book. Its floor on a position's size is configured, or found by
--     MinNotional, which asks internal/cost for the price of a round trip.
--   * internal/engine keeps the book. Portfolio.Apply moves cash and shares for a fill, whose charges
--     are those of internal/cost; Paper.Execute turns a batch of orders into
--     fills at the opens, priced by Day; Mark, Equity, Held and ApplyAdjustments value and adjust
--     the book. Engine.Run steps the sessions: the pending orders meet the opens, the book is marked
--     at the close, the strategy decides, and the gate's verdict is pending for the next session.
--   * internal/strategy is the strategy of a run: Selector asks a market filter whether to be
--     invested, a ranker for an order of the universe, and trades the book towards the first names.
--   * internal/market answers the engine's and the strategy's questions from the archive. Modelled are
--     the return fence (series.go), which prices a window, refuses it or says why it is absent, and
--     the share actions (adjustments.go) that it counts.
--   * internal/market/entities says which ISINs are one company. propose.go pairs the symbols of the
--     store and measures the gates of each pair; roster.go checks a roster and its lines, and keeps the
--     hand-written lines of an old roster in a new one (manual.go adds one); canonical.go writes a JSON
--     tree in its canonical form, which the digest is taken over; apply.go writes the links of a
--     roster to the store and retracts them; isin.go has the parts of an ISIN.
--
-- Files
--
--   * Base and Base/*: what the components share. Int has signed integers over the native naturals
--     and the wrap-around of int64; Text has Go strings as lists of bytes; Map has Go maps as
--     association lists, in any order of the keys, which stands for any order of a range; Sort has
--     sort.Slice as an insertion sort (Go leaves the order of equal elements open); Result has the
--     pair of a value and an error as a sum; Format has the decimal text of an integer.
--   * Float: float64 is a type with the operations that the source uses, an instance argument of all
--     definitions. No law of it is assumed but where a theorem names one as a hypothesis.
--     Float/Fixed is an instance in units of 10^-12, by which the tests run the definitions.
--   * Time: an instant in UTC as a day and the nanoseconds of the day.
--   * Cost/Product, Side, Component, Broker, Basis: the string types and their constants.
--     Cost/Model: Trade, Charges, round2, and the errors. Cost/Schedule: the rates and rateFor.
--     Cost/Statutory: statutory() and NewSchedule. Cost/Trade: Schedule.Trade. Cost/Day:
--     Schedule.Day and DayCharges.Total. Proofs: Cost/Selection, Coverage, Unverified, Depository.
--   * Risk/Rule, Risk/Model: the rules, Limits, Intent, Book, Decision, NewGate. Risk/Floor:
--     RoundTripCost and MinNotional. Risk/Gate: Gate.Check. Proofs: Risk/Verdicts, Capacity, Search.
--   * Engine/Model: Order, Fill, Position, Portfolio. Engine/Portfolio: the methods of Portfolio.
--     Engine/Close: the parts of a session of Engine.Run that call no other component.
--     Engine/Broker: the paper broker. Engine/Seams: the interfaces Market, Broker and Strategy, and
--     Paper as a Broker. Engine/StoreMarket: the returns and the
--     volatilities of the store-backed market. Engine/Steps and
--     Run: Engine.Run. Proofs: Engine/Kept, Purchases, Sales, Holdings, Actions, Fills, Marks; of a run,
--     Pace, Clearing, Settlement, Discipline, Shortfall, Funding, PaperBroker.
--   * Strategy/Filter, Rankers: filter.go and rankers.go. Strategy/Selector, Decide: momentum.go.
--     Proofs: Strategy/Ties, Held, Trades, Decisions, Sight; Reasons and Fences (the texts of the
--     reasons why a member has no rank).
--   * Market/Actions: adjustments.go. Market/Fence: firstRefusal, uniqueSorted, and EntityBoundary of
--     entity.go. Market/Sources: the rows of the queries and the maps built from them. Market/Returns:
--     EntityReturns and Accounted. Market/Closes, Volatility: EntityCloses, EntityVolatility.
--     Market/Texts: the texts of a refusal and of the other reasons for no volatility.
--     Proofs: Market/Detection, Windows, Seen, Accounts, Fenced, Unbroken, Covered.
--   * Entities/Isin: isin.go. Entities/Link, Lines, Graph: the lines of a roster and Roster.Validate.
--     Entities/Candidate, Gating, Proposing: propose.go and unlinked.go over the rows of the queries.
--     Entities/Rosters: AdoptManual and AppendManual. Entities/Plan, Apply, Retract: apply.go.
--     Entities/Canonical: canonical.go. Proofs: Entities/CheckDigits; Claims, Trails, Walks and Paths
--     (of Roster.Validate); Counting, Admission, Generated and Proposed (of Propose); Adoption; Ids, Roots,
--     Planned (the rows of a plan), Written, Flatness, Repeats, Applied, Again and Ends (of Apply);
--     Dissolved (of Retract); Quoted.
--   * The modules Tests, Entities/Samples, Entities/Stores, Engine/Sessions, Engine/Runs, Market/Samples
--     and Strategy/Splits run the definitions at concrete inputs.
--
-- Conventions
--
--   * A pointer receiver that is changed is a value passed in and returned; on an error the caller
--     keeps the old one, since the source changes nothing before it returns an error.
--   * An error carries the values that its message prints; the texts of messages, the Detail of a
--     rejection and the Source of a rate are left out, since nothing branches on them. The texts of
--     EntityVolatility's reasons, which the volatility ranker searches, are modelled.
--   * A loop over a slice or a map is recursion on the list. The loop of MinNotional runs on fuel:
--     20,001 rounds, one for each of the 20,000 multiples of 100 up to its cap of 2,000,000, and one
--     to leave. The source has no such bound; out_of_fuel is an error of the model alone.
--   * An interface is a record of its operations, whose errors are of a type E; a strategy's own
--     state is passed in and returned. The context of a call is left out.
--   * int64 sums and differences wrap around. A count held in an int is a natural number.
--   * The checks of a line of a roster stand in lists, in the order of the early returns of validateLink.
--     parse_day reads the years 1 to 9999, and a Duration saturates at 106,751 whole days. The walks of
--     validateGraph run on as many rounds as there are lines, those of plan on one more: a walk meets
--     each line once at most.
--   * Apply and Retract take the tables symbols and symbol_links as values and return the new
--     symbol_links; the constraints and triggers of the database are left out. The evidence of a line is kept as it
--     is in the roster; the error of json.Marshal, of a ratio that is not finite, is left out of plan.
--
-- Not modelled: the SQL queries of internal/market, which are operations of a record (Store) whose
-- answers are any rows; its importers and its universe; the digest of a roster, the reading and
-- writing of its file, and the counts of Propose; and whatever is HTTP, files or printing
-- (internal/db, internal/report, cmd, scripts).
pub mod Base
pub mod Float
pub mod Time
pub mod Cost
pub mod Risk
pub mod Engine
pub mod Strategy
pub mod Market
pub mod Entities
