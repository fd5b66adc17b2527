-- ===== src/Lib.antt =====
-- OpenBlogAgent writes blog articles with language models and publishes them. This library models
-- its core and proves what makes it correct.
--
-- The parts and the files that model them:
--   RunQueue   apps/server/src/run-queue.ts: the bounded queue that runs jobs of the server.
--   Types      packages/types/src/brief.ts, packages/graph/src/usage.ts,
--              packages/publishers/src/types.ts and the schemas of the workflow: the data that the
--              parts exchange.
--   Storage    packages/storage/src/memory/service.ts and packages/storage/src/repositories: the
--              store of runs, articles, steps, topics, prompts and decisions.
--   Workflow   packages/graph/src/workflows/article-generation-workflow.ts: the graph of nodes that
--              produces an article, with begin, run, resume, approve, reject and revise.
--   Budget     packages/graph/src/usage.ts: the counters of a run and when it must stop.
--   Agents     packages/agents/src/structured-output.ts: asking a model for JSON until it fits.
--   Research   packages/research/src/ip.ts and packages/research/src/fetcher.ts: reading a page, and
--              the addresses that the fetcher must not connect to.
--   Backlog    packages/storage/src/backlog/store.ts: the topic candidates that runs start from.
--   Scheduler  packages/storage/src/scheduler/store.ts and packages/app/src/scheduler.ts: the lock, the
--              limits and the round that picks a candidate and runs it.
--   Tests      concrete data and the theorems at concrete inputs.
-- The server hands a run of the workflow to the queue; the workflow reads and writes the store, calls
-- the agents and sends to the publisher. A round of the scheduler takes the lock, picks the best
-- accepted candidate of the backlog, marks it as used and executes a run of the workflow for it.
--
-- How code becomes a definition. A function keeps its name in snake case; the methods of a class take
-- the state and return it. A file named for a module holds its definitions, the files below it or
-- beside it named for a property (Bounds, Order, Drain, Duplicates, Recovery, RoundTrips, Attempts,
-- Unrolling, Frames, Sending, Termination, Guards, Endings, Resuming, Finality, Failures,
-- Publications, Ranges, Reading, Lookup, Sorting, Unique, Keys, Stored, Again, Getting, Following,
-- Lifecycle, Exclusion, Marking, Starting, Rounds,
-- Permits, Containment, Approvable, Finished, Allowance, Deciding, Accounting, Overshoot) hold proofs.
--   * The event loop of the queue is a list of events: calls of reserve, run, release and close, and
--     settlements of jobs, in any order.
--   * A table is the list of its rows in the order of their row ids. A query keeps the rows of its
--     WHERE and sorts them by its ORDER BY, stably. A transaction is one function on the database.
--     The database returns no error.
--   * Asynchronous code of the workflow is a function from a world to a result and a world
--     (Workflow.Exec). The world holds the database, the number of calls made, the usage of the run,
--     what was given to the publisher and the notifications. A thrown error keeps what changed.
--   * What the workflow calls are ports: functions of the number of calls made before, so that they
--     may answer the same question differently each time, and throw. The agents, the quality gate,
--     the choice of links, the publisher, the taxonomy, the source reader, the time, random ids,
--     `trim`, and the normalization of topics are ports.
--   * Time is in milliseconds, cost in 1e-9 USD, marks in hundredths of a point, all natural numbers.
--   * The redirect loop of the fetcher recurses on the redirects that may still be followed, so it
--     needs no fuel.
--   * The graph library runs one node after the other and gives up after a number of them, which is
--     `recursion_limit` of the options and the fuel of `run_from`. Eleven nodes and six more for each
--     regeneration are enough.
--   * Errors of approve, reject, revise and resume keep their code; the code stands for the message.
--
-- Where the documents and the code differ, the code is modelled: which runs make a new one a duplicate
-- of its topic follows the query of findFirstPublishedByTopic, not docs/memory.md, ADR-014 and ADR-033
-- of docs/DECISIONS.md, which name other runs.
--
-- Not modelled: log lines and the context of the log, the rows that only listings read, the parsing
-- of stored JSON (a stored output is what the step returned), the agents themselves, publishers, the
-- collection of topics, configuration, the routes of the server and the command line.
pub mod Prelude
pub mod RunQueue
pub mod Types
pub mod Storage
pub mod Workflow
pub mod Research
pub mod Backlog
pub mod Scheduler
pub mod Budget
pub mod Agents
pub mod Tests
