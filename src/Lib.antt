-- ===== src/Lib.antt =====
-- RG Agent Engine: the parts that decide what an autonomous agent may do, and what it may spend.
--
-- The engine runs agents in one of two modes. In the UNBOUNDED mode an agent acts freely; in the
-- GOVERNED mode every action passes limits and approvals.
--
-- Autonomy.antt models shared/agent/autonomy_mode.py. `AutonomyModeManager` keeps the mode of
-- each agent, who may switch to the unbounded mode, and the log of transitions. Autonomy/Config
-- has the modes and the two configuration classes with their defaults, Autonomy/Access is about
-- who can switch, Autonomy/Replay about the log.
--
-- Gate.antt models shared/agent/execution_gate.py. `ExecutionGate` decides on a request under the
-- mode that the manager gives, counts the day's spending of each agent, and records each
-- decision. Gate/State has the counters and the daily reset, Gate/Evaluate the two evaluations,
-- Gate/Calls the queries, approvals and runs of calls. The proofs are in Gate/Budget (the daily
-- budget), Gate/Decisions (what is decided), Gate/Records (what is recorded) and Gate/Approval.
--
-- Wallet.antt models shared/agent/wallet.py. `AgentWalletSystem` keeps wallets and transactions;
-- a method is a function from the state to a result, which may be an exception, and the state
-- that is left. Wallet/State has the state and the private helpers, Wallet/Spend `spend`,
-- Wallet/Move `transfer`, Wallet/Manage the other methods. Wallet/Effect and Wallet/Invariant say
-- what a spending does on every path, Wallet/Money and Wallet/Transfer where the money goes,
-- Wallet/Limits what a spending has passed, Wallet/Approve the pending transactions,
-- Wallet/Lifecycle, Wallet/Flow and Wallet/Reach the well-formedness of the tables under every
-- call, Wallet/Solvency and Wallet/Debt the sign of the balances.
--
-- Negotiation.antt models shared/agent/negotiation.py. `NegotiationEngine` keeps auctions, bids
-- and contracts, asks the mode manager whether a contract needs approval, and pays through the
-- wallet system, which is a part of its state here. Negotiation/Auction has auctions, trades and
-- bids, Negotiation/Award `accept_bid`, Negotiation/Contract what becomes of a contract, and
-- Negotiation/Reach the calls as steps. The proofs are in Negotiation/Accept (an acceptance),
-- Negotiation/Approval and Negotiation/Gated (contracts that wait for approval),
-- Negotiation/Bids, Negotiation/Offers and Negotiation/Invited (which bids are stored), and
-- Negotiation/Payment.
--
-- Circuit.antt models shared/resilience/circuit_breaker.py. Circuit/Breaker has the two sections
-- of `call` that the lock protects, the whole call, and the registry; Circuit/Traffic interleaves
-- the sections of overlapping calls; Circuit/Opening and Circuit/Recovery are about runs of
-- calls.
--
-- RateLimit.antt models app/rate_limiter.py. RateLimit/Limiter has the tables and methods,
-- RateLimit/Window the sliding window, RateLimit/Creation the limit on new agents.
--
-- Ordering.antt models shared/messaging/ordering.py. Ordering/Tracker has `SequenceTracker`,
-- Ordering/Channel the channel and the manager of conversations, Ordering/Gaps and
-- Ordering/Delivery the proofs. The loop of `_flush_buffer` runs on fuel, one more than the
-- messages in the buffer, which is enough since each turn takes one out.
--
-- Retry.antt models shared/resilience/retry.py. Retry/Policy has the delay and the loop of
-- retries, Retry/Attempts what a run makes and gives back. The loop is structural on the retries
-- left.
--
-- Audit.antt models shared/security/merkle_audit.py. `MerkleAccumulator` chains the hashes of its
-- entries and keeps their Merkle tree. Audit/Hashing has the entries and what is taken from the
-- platform (SHA-256, json.dumps, the text of an id), Audit/Tree the tree and the proofs of
-- inclusion, Audit/Log the methods. Audit/Inclusion, Audit/Forgery and Audit/Binding are about what
-- a proof and a root bind, Audit/Keeping about runs of calls, Audit/Backup about export and import.
-- The loops over the levels of the tree run on fuel, the number of leaves, which is enough since
-- each level is shorter. A collision of SHA-256 is a value here, two texts with one digest, so that
-- nothing is assumed of the hash but the length of its digests.
--
-- Concurrency.antt models shared/agent/concurrency.py. Concurrency/Graph has `TaskGraph` with its
-- operations, Concurrency/Cycle `validate` and `_has_cycle`, Concurrency/Manager one graph in
-- execution by `ConcurrencyManager`, as steps between the awaits of its coroutines: the loop of
-- `execute_graph`, the begin and the end of each task, and the semaphore as a count of permits. The
-- proofs are in Concurrency/Links, Concurrency/Soundness and Concurrency/Execution (the order of
-- tasks), Concurrency/Permits (how many run), Concurrency/Blocking, Concurrency/Settling and
-- Concurrency/Failure (what a failure blocks), Concurrency/Acyclic and Concurrency/Growth (the
-- search for a cycle), Concurrency/Collecting (what is ready) and Concurrency/Stuck. The recursion
-- of `_block_dependents` and of `dfs` runs on fuel, one more than the tasks of the graph: a nested
-- call of the first has blocked one more pending task, and a path of the second has no repetition.
--
-- Credits.antt models `AtomicCreditManager` of shared/security/idempotency.py. Credits/Store is the
-- interface of the Redis store, its commands with their laws, and the model is given such a store;
-- Credits/Tests has one, made of functions. Credits/Manager has the methods, the Lua scripts
-- included, Credits/Sections the commands of many calls in any order, and Credits/Spending and
-- Credits/Reserving are about deductions and reservations. Credits/Lasting and Credits/Once are about
-- a transaction through later calls. The store has a clock, which advances between calls, and keys
-- expire by it; the clocks of Redis and of the processes are taken to be one.
--
-- Idempotency.antt models `IdempotencyManager` of the same file, on a store with records and locks
-- (Idempotency/Store), which expire by the clock of the store. Idempotency/Manager has the methods,
-- Idempotency/Records is about the record of a key, Idempotency/Requests about requests with one key
-- and Idempotency/Waiting about those that wait. The time of a sleep passes by a change of the store
-- that advances its clock; json is two functions that are given. `check_and_start` calls itself after each wait and has no bound in the source: it
-- runs on fuel, with none for a call that still waits, and each sleep is given what other processes
-- do meanwhile.
--
-- Backpressure.antt models shared/messaging/backpressure.py. Backpressure/Flow has `FlowControl`,
-- Backpressure/Controller the connections with their queues, Backpressure/Bounds is about the size
-- of the queues, Backpressure/Drain about what a drain does with the messages, in the terms of
-- Backpressure/Drained.
--
-- Scheduler.antt models shared/agent/scheduler.py. Scheduler/Tasks has the tasks, their sort keys and
-- the interface of heapq, Scheduler/Queue the scheduler with its policies and the parts of
-- `_execute_task`, Scheduler/Events the coroutines that run tasks, as events in any order.
-- Scheduler/Order is about the order of the tasks, Scheduler/Fairness about the fair policy,
-- Scheduler/Choice about what every choice keeps, and Scheduler/Tries and Scheduler/Attempts about
-- the tries of a task. Scheduler/Select has a queue that fulfils the interface. The semaphore and
-- the times of sleeps and time-outs are not modelled.
--
-- Base.antt has what the parts share: Boolean tests, signed integers and limits (Base/Int), lists
-- (Base/Lists), Python's dict as a list of items (Base/Dict), methods that may raise (Base/Exec),
-- and items that expire (Base/Expiring).
--
-- How the source is read. An amount of money is a float in the source and a whole number of a
-- smallest unit here, so that rounding is not modelled; `float('inf')` is the limit `infinite`. A
-- text that is only compared is a number, the empty text being 0. The clock, the current date and
-- the ids that `uuid4` makes are arguments. An object that the source shares by reference is
-- written back to the table that holds it. An optional callback is an argument, and may raise.
-- The ten percent of a price that a contract sets as a penalty is a function that the acceptance
-- is given, since the product is rounded.
--
-- An async method is one step here, so that calls that interleave at an await inside a method,
-- such as that of an approval callback or of a message handler, are not covered. The circuit
-- breaker and the execution of a task graph are the exceptions: the calls of the first interleave
-- between the sections that its lock protects, the coroutines of the second between their awaits.
--
-- Not modelled: log messages, statistics, the global singletons, the asyncio tasks that repeat a
-- loop, the HTTP routers, the database models, the executor with its calls of language models,
-- and the tools.
pub mod Base
pub mod Autonomy
pub mod Gate
pub mod Wallet
pub mod Negotiation
pub mod Circuit
pub mod RateLimit
pub mod Ordering
pub mod Retry
pub mod Audit
pub mod Concurrency
pub mod Credits
pub mod Idempotency
pub mod Backpressure
pub mod Scheduler
