-- ===== src/Lib.antt =====
-- A verification library of an electronic market: an exchange that matches orders and broadcasts
-- what happened, a market data handler that restores the order of the packets, and a strategy that
-- keeps its own book and quotes on it. Paths are from the root of the repository.
--
-- The program's parts, and the modules that model them:
--
-- Base: shared tests on numbers, lists measured by native numbers, arrays as functions, and words
--   with their wrap-around written out.
-- Order: order.hpp in includes/order-book. A price, an int32_t, is held by its distance from
--   INT32_MIN, so that numbers compare as prices do.
-- Ring: the ring buffers between the threads, in includes/utils. Ring.Shared is ring-buffer.hpp,
--   Ring.Lazy lazy-ring-buffer.hpp, whose two threads are a step relation in Ring.Lazy.Steps, and
--   Ring.SingleThread single-thread-ring-buffer.hpp. Ring.Queue is what they promise, and
--   Ring.Window the list of the items between two cursors.
-- Wire: what is sent. Wire.Event is binary-protocol.cpp, Wire.Message encoded-message.cpp and
--   protocol.cpp, Wire.Sequencer sequencer.hpp, and Wire.Request the request of tcp-retransmit.cpp,
--   in src/exchange and includes/exchange.
-- Book: the order book that the exchange and the strategy share, in includes/order-book and
--   src/order-book. Book.HashMap is closed-hash-map.hpp, Book.OrderPool order-pool.hpp, Book.PriceSet
--   the two std::set members, and Book.State book-state.cpp. Book.State.Events holds the invariant of
--   the book and what each event does to it.
-- Net: send_range and recv_range of network-utils.cpp in src/utils, with what a socket answers.
-- Exchange: Exchange.Clob is clob.cpp in src/exchange, which matches requests against a book and
--   publishes events; Exchange.Cache is circular-cache.hpp and Exchange.RandomContainer
--   random-container.hpp, in includes/utils. Exchange.Connection is tcp-connection.hpp and
--   Exchange.Retransmit the server of tcp-retransmit.cpp for one client: the request comes in, and its
--   packets go out from the cache, over as many events as the socket needs. Exchange.Generator is
--   order-generator.cpp, up to the posting of a request. Exchange.Simulator is the loop of
--   exchange-simulator.cpp, from the events to the cache and the broadcast.
-- Handler: Handler.Gap is gap-detector.cpp in src/market-data-handler, Handler.Reorder
--   reorder-buffer.hpp in includes/utils, and Handler.Publisher handler.cpp and the loop of
--   publisher.hpp, in src/market-data-handler and includes/market-data-handler. Handler.Client is
--   tcp-client.cpp there, which asks the server for packets and writes them to the reorder buffer.
-- SeqLock: seq-lock.hpp in includes/utils.
-- Strategy: Strategy.Quotes and Strategy.MarketMaker are market-maker.cpp in src/strategy-oms, and
--   Strategy.Risk is evaluate_risk of trader.hpp in includes/strategy-oms, Strategy.Trader the rest of
--   it for any strategy, of which the market maker is one, and Strategy.Engine is engine.cpp.
--
-- A component's state is a record with the source's members, and an operation a function from a
-- state to what is returned and the next state. A failed assertion, a read through an empty
-- optional, a signed overflow and an allocation from an exhausted order pool give `none`. Other
-- indexes of arrays are not checked: an array is a function of all indexes, and the theorems on the
-- order pool take indexes in range and room in it as hypotheses. What is not in the repository is
-- an argument: the hash functions, the draws of a random generator, the contents of fresh storage,
-- the answers of a stop token, and what the system answers to the calls on a socket.
--
-- The loop over the trades of an order (Exchange.Clob.match_order) runs on fuel; as much fuel as
-- the order has quantity is enough while the orders that it meets rest on the book with a quantity,
-- and Exchange.Clob.Settling says what else may happen. The probes of the hash map are counted by
-- its capacity, as in the source. The loops over the packets of a request run on as much fuel as
-- the request has packets. The loop over the orders of a strategy runs on fuel that covers the
-- orders waiting and those that the strategy can still add.
--
-- Not modelled: the set-up of sockets and of the event queue, threads and their start, logging, the
-- choice among the generator's requests, and the memory orders of atomics.
pub mod Base
pub mod Ring
pub mod Order
pub mod Wire
pub mod Book
pub mod Net
pub mod Exchange
pub mod Handler
pub mod Strategy
pub mod SeqLock
