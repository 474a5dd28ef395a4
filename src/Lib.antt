-- ===== src/Lib.antt =====
-- Amazon AI Product Image Studio: the core of its Go services.
--
-- The studio's API writes image tasks to MySQL and puts their ids into a queue in Redis. Workers
-- claim ids from the queue, ask for a lease from a concurrency limiter in Redis, run the task
-- against an AI provider and store the images, whose bytes count against a storage quota of the
-- tenant. Modelled are the queue and the limiter (backend/internal/queue), the life of a task and
-- the worker (backend/internal/task), the quota and the concurrency policy
-- (backend/internal/settings), and the estimate of costs (backend/internal/usagecost).
--
-- Base and its modules hold what all parts share: Boolean tests and equality (Base/Tests), list
-- functions over the native numbers (Base/Lists), lists in order (Base/Sorting), integers
-- (Base/Int) and strings.TrimSpace of Go (Base/Text).
--
-- Redis is the server as an interface: the contents that the code uses, the effect of each
-- command, and a call of the client, which can run, be lost before it takes effect, or take
-- effect and lose its reply. A Lua script is one step, as the server runs it. Redis/Memory is a
-- server in memory with given outages.
--
-- Queue has the errors of the package and the actions on a store. Queue/Reliable is
-- backend/internal/queue/reliable_queue.go: the keys made by newRedisReliableTaskQueueWithClient
-- and the eight Lua scripts; Queue/Reliable/Operations has the methods EnqueueTask, Claim, Ack,
-- Retry, DeadLetter, RecoverStale, PromoteDue and EnsureDelivery, named enqueue_task, claim, ack
-- and so on. Below it, Places counts the copies of a task and Guarantees states what the methods
-- promise together. Queue/Concurrency is backend/internal/queue/concurrency.go: acquire, release,
-- renew and reap_stale. Queue/Depth is Inspect of backend/internal/queue/depth_inspector.go, and
-- Queue/Enqueuer is the API's RedisTaskEnqueuer of backend/internal/queue/enqueuer.go.
--
-- Database is MySQL behind GORM as an interface: a transaction runs its body on the tables that
-- it locks, and commits all or nothing; its failure may hide a commit. Database/Memory is one in
-- memory. Settings/Quota is backend/internal/settings/quota.go with the columns of
-- backend/internal/database/models.go that it uses: each transaction's body is a function on the
-- tables (reserve_body and so on), and the operations run it.
--
-- Task is the life of a task row: find_task and update_task are FindTask and UpdateTask of
-- backend/internal/task/repository.go, whose WHERE clause names the statuses that a transition
-- may leave; claim_running, complete_task, fail_task, timeout_task and schedule_retry are the
-- worker's methods in worker.go, and cancel_task, reopen_task (the transaction of retryTask) and
-- mark_queue_failure those of service.go. Task/Evolution is the graph of states, Task/Bodies
-- relates each transaction to it, Task/Graph has the statuses between which each single
-- transaction moves its task (over Task/Moves and Task/BodyMoves), Task/Histories follows a task
-- through any history, and Task/Settled follows the tasks that wait for a worker no more.
--
-- Action has the actions of a program that uses both stores, and how a fact about their states is
-- carried along their steps. Worker is backend/internal/task/worker.go: its options, the rows
-- that it reads and the checks that it makes. Worker/Process has Process, cut at its early
-- returns (process, process_loaded, process_leased, run_leased, run_claimed, settle_execution,
-- settle_result and so on), the answer to the queue (apply_result) and one pass of the processing
-- loop (work). Worker/Recovery has Recover with its parts; the two queries of repository.go that
-- it reads filter and order the rows of the table as their WHERE and ORDER BY do, where the list
-- of all rows and the order of the id column come from the database as arguments. The executor,
-- recordAPICall, persistSuccessfulResult and the checks of a task's inputs and parameters are
-- fields of a record, Runtime. A pass of the worker runs on its own: other workers and users are
-- not interleaved with it.
--
-- Settings/TaskConcurrency is the task concurrency policy of
-- backend/internal/settings/service.go, types.go and repository.go:
-- load_task_concurrency_with_defaults, apply_task_concurrency_patch and update_task_concurrency.
-- UsageCost is backend/internal/usagecost/cost.go: parse_non_negative_amount, format_decimal8,
-- sum_decimal8 and divide_decimal8 on texts of code points, with the amounts as whole numbers of
-- 10^-64; UsageCost/Estimates is Estimate. What encoding/json decodes is an argument of both.
--
-- Requests is retryTask of service.go with the enqueuing after its transaction, by the enqueuer
-- of Queue/Enqueuer. Auth/LoginRateLimiter is backend/internal/auth/login_rate_limiter.go, over
-- counters with an expiry, which are the keys that its scripts use. Provider/Ssrf is
-- backend/internal/provider/ssrf.go: validate_parsed is ValidateParsed, and blocked_ip is
-- blockedIP. Sse/Broker is backend/internal/sse/broker.go: publish_task_event is
-- PublishTaskEvent, and subscribe and unsubscribe are Subscribe and the function that it returns.
--
-- Times are milliseconds and durations are integers of milliseconds. Loops are over lists that a
-- call has read, so no fuel is used; only the writing of a number in decimal has fuel, the number
-- itself, which is enough. The delivery counters and the byte columns are natural numbers; a
-- column that would overflow is an error of the server, which the interface allows at any
-- transaction. Clocks, generated ids and the configured quota are arguments. Not modelled: a nil
-- client, database or context, cancellation of a context, the lists that RecoverStale returns
-- beside an error, the count of released reservations in the result of a reconciliation, the
-- payloads of events, the audit record that a user's transaction adds, the goroutines and tickers
-- of the worker's loops, the creation of tasks. The answer of the project's authorizer is an
-- argument. A setting's JSON column gives back the text that was stored; MySQL may write the same
-- value another way.
pub mod Action
pub mod Auth
pub mod Base
pub mod Database
pub mod Provider
pub mod Queue
pub mod Redis
pub mod Requests
pub mod Settings
pub mod Sse
pub mod Task
pub mod UsageCost
pub mod Worker
