-- ===== src/Lib.antt =====
-- The verification library of the order processing system, the Go service under internal/: customers
-- place orders over HTTP, an order reserves its stock in one transaction, a pool of workers charges
-- its payment, and the outcome confirms the order, or cancels it and gives the stock back.
--
-- How the parts interact: internal/services/order.go writes an order with its items and its payment
-- (internal/repository/order.go, CreateOrder) and queues its id. A worker runs Fulfill of
-- internal/services/fulfillment.go on that id: it reads the pending payment, charges it at the gateway
-- (internal/payment) with retries and backoff, and calls MarkPaidAndConfirm or FailCancelAndRestock.
-- The worker that made the transition has a notification stored and pushed to the order's subscribers
-- (internal/services/notification.go). A sweeper queues again what stayed pending.
--
-- The files:
--   Base: tests, lists, Go's integers and texts, over the native numbers.
--   Models: internal/models and internal/apperrors, records and data types with the source's names.
--   Database: the tables of migrations/ behind gorm; a query is a function of the database that
--     returns a result or an error. Laws, Frame and Success have what every chain of queries keeps,
--     undoes and reaches.
--   Repository/Order: internal/repository/order.go, one function per method. Its statements
--     are in Statements. Stock, Create and Finalize show what the methods do; Ledger, Agreement
--     and Conservation hold the invariant; World, Current, Changes, History and Finality are about
--     sequences of calls by any number of workers; Settles and Progress are about calls that do not fail,
--     and Verdict about the rows before and after the calls that settle a payment.
--   Repository/Product: internal/repository/product.go, with the writes in Writes.
--   Repository/User: internal/repository/user.go.
--   Idempotency: the interface of internal/idempotency/store.go and its contract, and in Redis the store of
--     internal/idempotency/redis_store.go.
--   Auth: internal/auth/token.go.
--   Api: internal/api. Middleware is middleware/auth.go, Handlers the handlers of users, products and orders,
--     Subscribe handlers/ws_handler.go, and Routes the routes with their middleware, as one function on calls.
--     Bearer, Login, Ownership, Replay, Access and Placing are about them, and each Frame about what is left
--     alone.
--   Ws/Hub: the event loop of internal/ws/hub.go with the queues of internal/ws/client.go. Sound,
--     Events and Delivery are about it.
--   Workers/Pool: internal/workers/pool.go and `reclaim` of internal/workers/sweeper.go, with Queue on
--     what the queue holds and Drain on a worker's loop.
--   Repository/Notification: internal/repository/notification.go.
--   Payment: internal/payment, Gateway the interface and Fake its in-memory implementation, with Replays on
--     many calls.
--   Config: internal/config/config.go, the WorkerConfig and, in Load, the rest of it.
--   Services/Fulfillment: `fulfill`, `charge` and `backoff` of internal/services/fulfillment.go. Backoff,
--     Charge, Sleeps, Safety, Whole, Settles and Progress are about them.
--   Services/Order: CreateOrder of internal/services/order.go. Lines, Place, Outcome, Key, Claim and
--     Reading are about it.
--   Services/Product: internal/services/product.go, with Pages on the pagination and RoundTrip on a new product.
--   Services/User: internal/services/user.go, with Session on a login, Update on UpdateUser and
--     Signup on CreateUser.
--   Services/Notification: Send of internal/services/notification.go.
--
-- Conventions. Ids, quantities and times are natural numbers, since the identity columns start at 1
-- and a quantity is bound positive; durations and counts of the configuration are Go's signed
-- integers, and the shift of the backoff wraps at 64 bits. A float64 is its bit pattern, so that its
-- arithmetic and order can be parameters. A string is its list of code points.
--
-- The database. PostgreSQL and gorm are not modelled from their sources. A statement is its row update
-- with its count of rows, a transaction is one atomic step whose error restores the tables, and a
-- sequence never goes back. The parameter Engine says for each call whether it fails, which stands for
-- lost connections, expired contexts and failed commits, what the clock reads, and what a column
-- NUMERIC(12,2) holds for a number. That rounding is applied to the prices of products; the amounts of an
-- order, its items and its payment are stored as the service computed them. Each table lies in the order
-- of its primary key, which is how ORDER BY id reads it. The unique keys, the foreign keys and the enum of
-- the roles are the schema's and are checked by the statements.
--
-- Goroutines that share state do so in steps: calls of the repository one after the other, and the
-- events of the hub in the order in which its loop takes them, for every such order.
--
-- Loops are structural: the retry loop runs on the attempts that are left, which are MaxRetries at the
-- start, and the loops over items on the list. The loop of a worker runs on the turns that it is given; to
-- drain the queue it needs one more than there are orders in it. It is one worker's loop: the pool starts
-- Count of them on the channel, and a step of the pool is one whole fulfillment by one of them.
--
-- Libraries. golang-jwt, go-redis and viper are records of the operations that are used, with what they
-- document of them as laws; sha256, uuid, float64 arithmetic and the upgrade of a connection are
-- parameters. gin matches a path, binds and checks a body and writes JSON: a call of the API is a matched
-- route with its bound values.
--
-- Not modelled: the assembly of the server and the order of its shutdown, the ticker around the sweep, the
-- rest of the WebSocket client's pump, metrics and logging, which are wiring or I/O, and the connections to
-- PostgreSQL and Redis; a second request that runs between two statements of a handler; the hand-over
-- of an id to a waiting worker through a queue of size zero, over which `process` drops every id; a
-- negative product id in the body of an order, which no row of the products has; the time that a call
-- takes, except as the context's end at the gateway.
pub mod Base
pub mod Models
pub mod Database
pub mod Repository
pub mod Payment
pub mod Config
pub mod Idempotency
pub mod Auth
pub mod Services
pub mod Workers
pub mod Ws
pub mod Api
