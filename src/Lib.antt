-- ===== src/Lib.antt =====
-- Models of the arbitrage backend: a server that keeps the order books of several exchanges in step
-- with their web sockets, watches pairs of a spot and a futures market, and computes the orders of an
-- arbitrage. Paths are from the repository's root, whose crate stands in src/.
--
-- The parts, from the messages of an exchange to the notices that the server sends:
--   Std, Base        what the program uses of Rust's library: BTreeMap as its sorted list of
--                    entries, HashMap and HashSet as association lists with laws that do not show
--                    their order, and texts; numbers of 64 and 32 bits wrap where Rust's do.
--   Decimal          the interface of the crate rust_decimal, a parameter of everything else: an
--                    order with laws, and operations without any.
--   OrderBook        src/base/exchange/order.rs: OrderBook, OrderBookUpdate, apply_update; and
--                    get_price of src/utils/exchange.rs (OrderBook/Best).
--   Symbol           normalize_symbol of src/exchange/gate/utils.rs and
--                    src/exchange/binance/utils.rs, and the names made in src/worker/monitor.rs.
--   SubClient        src/base/exchange/sub_client.rs: one web socket that many tasks share. watch is
--                    connect_begin, connect_end, register and subscribe_answer; unwatch is
--                    unwatch_begin and unwatch_finish: each is what runs between two awaits. Step
--                    of SubClient/Tasks lists these pieces in any order, except that, while an
--                    unwatch waits for its closure, no watch of its symbol runs and the socket does
--                    not fail; SubClient/Calls has calls that overlap.
--   Feed             the handlers of messages of src/exchange/gate/public/sub_client.rs (Feed/Gate)
--                    and src/exchange/binance/public/sub_client.rs (Feed/Binance), and their
--                    requests for snapshots (Feed/Depth) and texts of subscriptions
--                    (Feed/Subscribe). handle_message ends at its first await, on_snapshot
--                    and look go on from there. They change the books that SubClient shares.
--   WatchPool        src/exchange/gate/public/watch.rs and src/exchange/binance/public/watch.rs: the
--                    clients of an exchange, of which one is chosen for each symbol.
--   Monitor          detect_arbitrage of src/worker/monitor.rs: it merges the best prices of a book
--                    into the snapshot of a pair; start_monitor keeps the tasks (Monitor/Tasks).
--   Arbitrage        src/arbitrage: find_max_price and the loops of the two matchers.
--   Account          src/base/exchange/account.rs: the orders of 30 seconds and the balances.
--   OrderCatch       src/exchange/catch.rs, with the task of catch_orders in
--                    src/exchange/mexc/private/watch.rs that numbers the orders.
--   Workers          src/main.rs and src/worker/state.rs: which worker a symbol goes to, and which
--                    pairs of a spot and a future are watched (Workers/Crossing);
--                    cross_assets_all_exchanges as a whole (Workers/Watched); setup_exchanges of
--                    src/utils/exchange.rs and worker_loop of src/worker/mod.rs
--                    (Workers/Setup); the JSON of src/worker/commands.rs (Workers/Commands);
--                    pages (Workers/Pages) and the frames of ws_service (Workers/Frames).
--   Socket           src/base/ws/client.rs: the connection below SubClient. connect is connect_begin and
--                    connect_end, cut at the handshake; Socket/Loop is the select! of its task, one
--                    event a turn; Socket/Life lists what can happen to a connection, in any order.
--   Mexc             src/exchange/mexc: the public client (Mexc), the pool of the clients
--                    (Mexc/Pool), signed requests (Mexc/Request) and the last orders (Mexc/Orders),
--                    the orders of the private socket (Mexc/Private) and its listen key
--                    (Mexc/Listen), the clock (Mexc/Start) and the list of symbols (Mexc/Symbols).
--   Http             src/base/http: the client over ntex, and the builder of requests.
--   Requests         src/base/exchange/error.rs, and what an HTTP request comes to.
--   Startup          src/exchange/gate/public/constructor.rs and
--                    src/exchange/binance/public/constructor.rs: the clock, the lists of assets and
--                    what the threads share of them.
--   Tests            decimals in hundredths, floats as natural numbers, and the theorems at inputs.
--
-- Bounds and fuel. The loop of process_gate_depth has its own bound of five requests. The loop of
-- process_binance_depth has none: it has fuel, and two rounds more than there are old snapshots are
-- enough. The loops of the matchers have fuel: two rounds more than there are levels are enough,
-- where a contract is one unit, and for the entry matcher where buying at a price for an amount
-- leaves nothing of it but a residue. The reading of a body in src/main.rs has fuel, and no fuel is
-- enough for a body that arrives whole.
--
-- Not modelled: JSON, HTTP, protobuf, TLS and the HMAC, whose answers are arguments; the limiters,
-- which only delay; f64 and its conversions, a parameter (Arbitrage.Float); an overflow or a division
-- by zero of a decimal; the pages of a fixed text, the routes and the set-up of
-- the server in src/main.rs; the libraries copied into dependencies/, and the copy of a channel
-- in src/base/utils.
pub mod Base
pub mod Std
pub mod Decimal
pub mod OrderBook
pub mod Symbol
pub mod Arbitrage
pub mod Monitor
pub mod Account
pub mod OrderCatch
pub mod Workers
pub mod Socket
pub mod SubClient
pub mod Feed
pub mod WatchPool
pub mod Mexc
pub mod Startup
pub mod Requests
pub mod Http
pub mod Tests
