-- ===== src/Lib.antt =====
-- BidLane: a bid reaches the engine through a Redis stream, is validated, and is recorded in a
-- PostgreSQL ledger, which numbers the bids of each auction, extends the auction when a bid comes
-- late, and announces each bid through a transactional outbox.
--
-- internal/engine/bid_validation.go is Engine.Validation: EvaluateBid is evaluate_bid, with its
-- three groups of checks in auction_checks and price_checks, and BidValidator is in
-- Engine.Validation.Sink, over an event sink whose state and failures are arguments. Prices are
-- int64: Go.Int64 has their arithmetic, which wraps around. Times are instants counted in
-- nanoseconds (Go.Time).
--
-- migrations/ and internal/store/postgres/ are below Postgres. Schema has the tables, as lists of
-- rows in the order of insertion. Statements has each SQL statement of anti_snipe.go, ledger.go and
-- outbox_event.go as a function on the tables, with the constraints that it can violate.
-- Transaction has the bracket of BeginTx, Commit and the deferred Rollback: PostgreSQL and pgx are
-- not part of the program, so an argument Service tells which calls fail and how a commit ends,
-- also with a commit whose answer is lost, and every theorem is for any such argument unless it
-- says otherwise. AntiSnipe is AppendBidIdempotentWithAntiSnipe (append_body, append_new,
-- insert_new and finish_new are its parts in their order) and RowLock is
-- AppendBidIdempotentRowLock. Numbering has what both do to the numbers of an auction. History is any sequence of calls of the two, one
-- behind the other. Locks has calls of AppendBidIdempotentWithAntiSnipe that overlap: SELECT ...
-- FOR UPDATE locks the auction's row until the transaction ends, a second call for the auction
-- waits there, and what a call sees of other auctions may be old. A call is its lock and its end,
-- as what is between works on its auction's rows alone (Isolation: the rows of one auction, and
-- what each statement does to them). Ids of events are new, being made by gen_random_uuid. A call
-- that ends before it has the lock, and AppendBidIdempotentRowLock among the calls, are not in
-- Locks. AuctionLog is what the ledger promises of one auction without tables and numbers: a log of
-- its accepted bids, and a function submit on it. NativeSequence is the benchmark path of
-- ledger.go: NativeDb has the tables and what each native sequence has handed out, which a rollback
-- does not take back. Connections is postgres.go, over a record of the calls of pgx.
--
-- internal/store/redis/ is below Redis: StreamId is stream_time.go, Message has parseMessage and
-- the fields that AppendBid sends, and Streams the operations of streams.go and recovery.go.
-- go-redis and the server are not part of the program: Redis.Client is a record of the calls on a
-- state of any type, and a parameter of every operation. Go.Strconv has ParseInt, ParseUint and the
-- decimals that FormatInt prints.
--
-- internal/engine/ledger_consumer.go is Engine.LedgerConsumer: process_batch reads a batch by the
-- stream store, process_entries runs process_entry for each entry up to the first error, and
-- persist_entry calls the anti-snipe transaction of Postgres.AntiSnipe. The Redis client,
-- uuid.Parse, what the service does in each transaction, and the callbacks of the configuration
-- with their state are parameters. Entry is one round of the loop (Entry.Round); Safety and
-- Delivery are any number of them; Redelivery is an entry that comes again after a crash. Loops has
-- ProcessExactly, RecoverPending and Run. Redis ends these loops, so each takes a number of rounds
-- and tells whether it has returned by then; Recovery and Returns have what Redis must do, and how
-- many rounds are then enough. Engine.Service is service.go, over Redis.Streams, and
-- Engine.Consumer is consumer.go, the first consumer, which keeps nothing in a database.
-- Engine.Pipeline puts the parts together, from a reservation by the service to the tables behind
-- the consumer and, in Engine.Pipeline.Published, to the receivers of the relay.
--
-- internal/store/postgres/outbox.go is Postgres.Outbox, PublishNext being publish_next, and
-- internal/relay/outbox_relay.go is Relay: new_outbox_relay, process_one, process_batch, the inner
-- loop of Run, and run_relay, Run for a number of rounds. The publisher with its state,
-- json.Marshal, the cancellation and the wait between two polls, and what the service does in each
-- transaction are parameters; rows that other transactions hold are skipped. Postgres.Outbox.Queue
-- has the waiting events in their order, which is what Relay.Queue compares the relay with.
-- Redis.PubSub is internal/store/redis/pubsub.go, and Relay.Channel the relay over it. Programs has
-- both mains of cmd/, from the environment to the exit. A context is a test on the state, whether
-- it is cancelled there, where the code asks for it; what a call does whose context is cancelled is
-- the failure of that call.
--
-- UUIDs are numbers, intervals are numbers of nanoseconds (an INTERVAL with months is not
-- modelled), and ids and times that the server makes are arguments. Loops are over lists, at most
-- as long as a batch, or take a number of rounds, as above; only the digits of a number are printed
-- on fuel, n + 1 for n, which is enough as n / 10 < n.
--
-- Not modelled: the roles and grants of the migrations and the trigger that refuses UPDATE and
-- DELETE on bids, which no statement of the program meets; logging; the wording of errors, which
-- are constructors with the error that they wrap; go-redis, pgx, google/uuid and encoding/json,
-- which are parameters where the code calls them.
pub mod Prelude
pub mod Go
pub mod Engine
pub mod Postgres
pub mod Redis
pub mod Relay
pub mod Programs
