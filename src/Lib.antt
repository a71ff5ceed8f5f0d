-- ===== src/Lib.antt =====
-- nodestack, a backend in one process: its message queues, its maintenance gate,
-- the rules of its records, their filters and tables, and its flows.
--
-- A queue is a record of the table `_queues`, and a message a row of `_queue_messages`. The driver
-- (src/queue/drivers/SqliteQueueDriver.ts) is the only code that touches the two tables. The service
-- (src/queue/QueueService.ts) puts it to work: its calls go to the driver, and wake the queues where
-- there may be work; a queue that was woken is drained, which claims messages and runs them; and the
-- outcome of each goes back to the driver. The handlers and functions that run a message are outside.
-- The gate (src/core/maintenance/MaintenanceGate.ts) holds back the requests of the HTTP server while
-- a snapshot is restored. The pool (src/flows/utils/ConcurrencyPool.ts) maps an array by a few calls at
-- a time, for the Map states of flows. A flow is a state machine: the engine (src/flows/FlowEngine.ts)
-- runs the handler of a state, retries or catches what it throws, and goes on to the next state.
--
-- Files:
--   Prelude      tests, lists, sets of names, exceptions, keys, texts with the LIKE of SQL, integers
--   Json, Time   the values of payloads with their JSON texts, and times with the order of their ISO
--                texts
--   Sql          UPDATE, DELETE, ORDER BY and the count of changed rows, with their laws
--   Queue/Types  src/queue/types.ts and the two tables
--   Queue/Driver the driver, a file for each group of its methods: Registry (upsertQueue, getQueue,
--                getAllQueues, deleteQueue), Insert (send, sendBatch, insertMessageSync), Claim (claim),
--                Lease (touch, complete, defer), Fail (fail, forceDeadLetter), Retry (retryMessage,
--                retryDeadLetterMessages), Reclaim (reclaimOrphaned), Remove (cancel, cleanup, purge),
--                Reads (the methods that only read), Conditions (what several statements share)
--   Queue/Lifecycle, Fencing, Claiming, Failing, Sending, Reclaiming, Retention, Settings, Lookup
--                what is proved of the driver
--   Queue/Moves  the state machine of a message, and that the driver keeps to it
--   Queue/Service
--                the service: Wakes (wakeWorker, the ends of drainQueue, scheduleDelayedAt, dispose),
--                Calls and Forwards (the public calls, the sweepers), Workers (registerWorker and the
--                like), Drains (drainQueue, executeClaimedMessage), Start (start, resetAfterRestore),
--                Requests (all of these, one after another); Asked (which calls of the driver each
--                request is for, a specification); the other children are what is proved of it
--   Maintenance  the gate: Gate is the code, Opening and Exclusion are what is proved of it
--   Flows        src/flows: Pool (utils/ConcurrencyPool.ts), Types (types.ts), Paths and Payload
--                (utils/FlowPathMapper.ts), Choices (runtime/ChoiceEvaluator.ts), Handlers
--                (runtime/StateHandlers.ts), Errors, Retries, Runs and Engine (FlowEngine.ts: the
--                policies, executeWithRetry, the variables of `execute`, and its loop), Validator
--                with Validator/References and Validator/Triggers (FlowValidator.ts), Recovery
--                (FlowService.ts: resolveResumeState); the other children are what is proved of them
--   Rules        src/rules/RuleEngine.ts: Values (resolveValue, and the comparison of two values) and
--                Engine (evaluate, buildListFilter); Agreement, Soundness and Filters are what is proved of
--                them, the last together with the parser of filters
--   Records      src/records: Codec (FilterCodec), Csv with Csv/Objects (CsvHelper), Filter with
--                Filter/Scan, Filter/Literals and Filter/Sort (QueryFilterParser), Scope (RecordService:
--                how getList and exportRecords join two filters); the other children are what is
--                proved of them
--
-- How the code is modelled. A method of the driver is a function of the clock (`now`, which is read
-- once for each call), of the ids and tokens that it generates (`fresh`, `ids k`, `tokens k`), of its
-- arguments and of the database, with the names of the source in snake_case. It gives its result and
-- the new database, in an `Outcome` where the call can throw. A call that throws leaves the database
-- as it was, since the methods that write more than once run in a transaction. A table is the list of
-- its rows in the order of their rowids, and that order decides where a statement names none. A column
-- that holds JSON holds the value, and LIKE looks at its text. A time is a number of milliseconds since
-- the epoch that stands for its ISO text; SQL compares the texts, which is the order of the numbers up
-- to the year 9999 only. Numbers that the source passes through `Math.floor` are integers here, and
-- times are not before 1970. A call of the driver is one step, upsertQueue too,
-- which awaits its own reads. The callbacks of the driver give the list of the names that they are
-- called with. What happens between two `await`s of the service is one step; `setImmediate` callbacks
-- are a list, oldest first, and `available` is what the database service says when it is asked.
--
-- A text of the records is a list of code points. What `String` makes of a number that a filter names
-- is a parameter. The recursion of the filter parser takes fuel, one more than the text is long, which is
-- enough since each call is about a shorter text. The retries of a state take fuel too, one more than
-- the most attempts that its policies allow. The other loops run over lists, so that no fuel is needed.
--
-- An access rule (src/rules/RuleEngine.ts) decides whether a request may see a record, and gives the
-- filter for a list of records, which the filter parser reads. Its two recursions take a rule apart by
-- the same tests, so that one function with a parameter for each place is both; the fuel is one more
-- than the rule is long, as for the filter parser. Numbers are integers, and what `Number` makes of a
-- text is a parameter.
--
-- A payload of a flow is a JSON value or undefined, which is `none`. Numbers of choice rules are
-- integers, and what `Number` makes of a text, an array or an object is a parameter. One round of the
-- engine's loop is a function of what it meets, a `Turn`: the clock, the signal, the calls of the
-- function service, the results of sub-flows, the timer of the step and the callback. An execution is a
-- list of rounds. A step whose timer ends the race leaves no trace of its handler here, though the
-- handler may go on and raise a loop counter. A validated definition is one of the types of
-- src/flows/types.ts, and the first `throw` of the validator is a value.
--
-- Not modelled: the tables' creation and `init` (only statements with IF NOT EXISTS); rows of a
-- version that has left a `maxAttempts` of NULL; a queue with an empty name in a callback; an id of a
-- payload that is a number, which is taken to be no id of the table; the timers of the two sweepers,
-- whose rounds are modelled; an `extensionSeconds` of `touch` that is negative or not whole, and a
-- `delaySeconds` that is not whole; the promises that join concurrent starts of the service; the
-- durations and ids of executions of flows, and what `abortExecution` stores; properties
-- that a payload inherits; what the validator deletes from Succeed and Fail states, which their handlers do not read; and the rest of the program: the other code of the
-- records, the rule builder, the other calls of the flow service,
-- functions, webhooks, files, auth, apps, HTTP, plugins and the admin interface.
pub mod Prelude
pub mod Json
pub mod Time
pub mod Sql
pub mod Queue
pub mod Flows
pub mod Maintenance
pub mod Records
pub mod Rules
