-- ===== src/Lib.antt =====
-- A model of the trading engine, a paper-trading bot for Coinbase: a network thread parses market
-- data and queues events; a strategy thread applies them to an order book, derives signals from
-- it, checks and simulates orders, and keeps account of profit and loss.
--
-- Files and the code they model:
--   Core/Types                 include/trading/core/types.hpp
--   Core/Error                 include/trading/core/error.hpp, include/trading/core/result.hpp
--   Core/Logger                include/trading/core/logger.hpp, src/core/logger.cpp
--   Core/Double                the arithmetic on `double` that all parts use
--   Util/Words                 the 64-bit words and builtins of the book's bitmap index
--   Util/SpscQueue             include/trading/util/spsc_queue.hpp
--   Util/HdrHistogram          include/trading/util/hdr_histogram.hpp
--   Md/Bitmap                  include/trading/md/bounded_book.hpp: Bitmap, setBit, clearBit, highestSet, lowestSet
--   Md/BoundedBook             include/trading/md/bounded_book.hpp: class BoundedBook
--   Md/Messages                include/trading/md/coinbase_messages.hpp
--   Md/Parser                  src/md/coinbase_parser.cpp
--   Md/Auth                    include/trading/md/coinbase_auth.hpp, src/md/coinbase_auth.cpp
--   Md/WsClient                include/trading/md/coinbase_ws_client.hpp, src/md/coinbase_ws_client.cpp
--   Exec/OrderTypes            include/trading/exec/order_types.hpp
--   Exec/CircuitBreaker        include/trading/exec/circuit_breaker.hpp
--   Exec/RiskManager           include/trading/exec/risk_manager.hpp
--   Exec/ExecutionEngine       include/trading/exec/execution_engine.hpp
--   Strategy/Signals           include/trading/strategy/signal.hpp
--   Strategy/PnlTracker        include/trading/strategy/pnl_tracker.hpp
--   Strategy/OrderSizer        include/trading/strategy/order_sizer.hpp
--   Strategy/ImbalanceStrategy include/trading/strategy/imbalance_strategy.hpp, src/strategy/imbalance_strategy.cpp
--   Runtime/State              include/trading/core/runtime.hpp, include/trading/core/metrics.hpp: members, events, counters
--   Runtime/Settings           src/main.cpp: loadConfig, the reads of the settings
--   Runtime/Config             src/main.cpp: loadConfig, its stages and checks
--   Runtime/Network            src/core/runtime.cpp: onCoinbaseMessage and the callbacks
--   Runtime/Orders             src/core/runtime.cpp: the constructor, dispatchOrder, publishPnl
--   Runtime/Client             src/core/runtime.cpp: the callbacks that the constructor gives the client
--   Runtime/Main               src/main.cpp: main
--   Runtime/Trading            src/core/runtime.cpp: processEvent, strategyLoop
--
-- Names are those of the code in snake_case. A class is a record of its fields, and a method that
-- changes state returns the new record. A `std::array` is a function of the index; the invariant
-- of each class shows that the indexes in use lie below the array's size. A `double` is a value of
-- a type `D` with the operations of `Double D`, and theorems that need laws of floating-point
-- arithmetic take them as the record `IsDouble D` or as a named premise; `Milli`, decimals in
-- thousandths, is the concrete arithmetic on which examples run. An `int64_t` whose overflow would
-- be undefined is a mathematical integer; unsigned counters wrap at 2^64.
--
-- The template parameter `Capacity` is the variable `cap`, with `IsCapacity cap` for its
-- `static_assert`s: whole words of 64 slots, from one to 64 of them.
--
-- The two threads of the queue take their steps in any order: a list says whose step is next. The
-- queue's capacity is 2 ^ k, with k at most 63, since its counters have 64 bits.
--
-- The threads of the logger take their steps in any order too, each an access of a shared variable
-- that all threads see at once. Its state keeps, besides the members of the class, the lines that
-- claimed a position, which only theorems read.
--
-- In the runtime a call of one thread is one step, and the two threads' calls come in any order.
-- The readings of the clock are arguments, and so is what the strategy thread takes off the queue
-- while the network thread waits to push a snapshot again. A fill can exceed its order by
-- rounding. The chunks of a large update are split on fuel, one unit for each change, which is
-- enough since a chunk has at least one.
--
-- The libraries for JSON are parameters, as records of the calls that the code makes of them, and
-- so are OpenSSL's functions, `strtod`, the environment and the file system; hypotheses such as
-- `IsReader` state what they document. What an uninitialised variable holds is an argument. The
-- network is an argument too: a list of attempts to connect, each with what is read on the
-- connection. The sleep between attempts runs on fuel, one unit for each millisecond, which is
-- enough since a slice has at least one.
--
-- Not modelled: the set-up of a connection, the start and stop of threads and their cores, and the
-- texts of the printed reports.
pub mod Prelude
pub mod Util
pub mod Core
pub mod Md
pub mod Exec
pub mod Strategy
pub mod Runtime
