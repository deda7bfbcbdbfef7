-- ===== src/Lib.antt =====
-- The agent of geoji-yaho/geoji-agent (src/geoji_ai): workers that take jobs from a table of the
-- database, prepare evidence, call language models under a budget and write verdicts. This library
-- models the parts that carry its promises: the job queue with its leases, the routes that fill it,
-- the ledger that reserves and settles the cost of a model call, the error classes and the backoff,
-- the vendor's health, the gateway through which every model call goes, the worker's loops and
-- shutdown, the time budgets of a case, the alerts, the evidence of a case, the graph that prepares a
-- dossier and the store of dossiers, the graph that writes a verdict, the rules on its texts and on
-- the evaluator's reports, and the vote of the demo juror.
--
-- How the parts interact: scripts/enqueue_job.py (as the backend does) inserts a row from a route of
-- workers/dispatch.py; a worker claims it and holds a lease; its handler calls
-- LLMGateway.scoped_call, which asks the vendor's health, the stored outputs and the ledger before it
-- calls the vendor, and closes the ledger's row afterwards; the worker completes, fails or releases
-- the job, and a reaper takes back what has lapsed. The handler of a verdict runs the graph of
-- graphs/sentencing.py: it begins a generation at the backend, gets a dossier and a sentence, has the
-- texts written, puts them under the text rules, has them evaluated, and sends them to the backend.
-- Before that, the handler of a preparation runs graphs/preparation.py: it recalls and resolves the
-- sources of a case, builds its evidence, has a model add facts and banter to it, and saves both, for
-- the graph of the verdict to load. The handler of a vote runs graphs/jury_vote.py.
--
-- Files and code (paths under src/geoji_ai unless they start with scripts or database):
--   Base            shared lists, tests, rows of a table, integers
--   Jobs            adapters/postgres_jobs.py, contracts/jobs.py: one function for each statement
--                   (CLAIM_SQL is `claim`, OWNERSHIP_WHERE `owned`, REAPER_SQL `reap`), `run` for a
--                   history of statements by any workers at any times
--   Dispatch        workers/dispatch.py (JOB_ROUTES, SLOT_KINDS) and scripts/enqueue_job.py (_insert)
--                   on the table of database/migrations/001_ai_jobs.sql, with its checks and keys
--   Ledger          adapters/postgres_call_ledger.py: `reserve`, `settle`, `fail`, `mark_unknown`;
--                   Ledger/Sweep is `sweep_unknown`, Ledger/Cache the stored outputs, Ledger/Costs
--                   the amounts of ports/llm.py and domain/budget.py
--   Retry           domain/retries.py
--   Vendor          domain/vendor_health.py
--   Gateway         application/llm_gateway.py, `scoped_call`
--   Worker          workers/heartbeat.py and the slot loop, the jobs in flight and the shutdown of
--                   workers/main.py
--   Budget          domain/budget.py: the deadlines of the nodes and the reserved amount
--   Alerts          telemetry/alerts.py
--   Evidence        application/build_evidence.py, domain/visibility.py, domain/privacy.py and
--                   domain/aggregation.py
--   Texts           contracts/writer.py, contracts/sentencing.py, domain/intensity.py and
--                   domain/lexicon.py: the texts, the limits of a card and the searches for words
--   Rules           domain/validation.py: `apply_text_rules` and what it is made of
--   Report          contracts/evaluation.py, `validate_evaluation` of domain/validation.py, and the
--                   merging and forgiving of entries in graphs/sentencing.py
--   Sentencing      graphs/sentencing.py: Start, Decision, Drafts, Assembly, Judge, Weighing, Loop and
--                   Finish have the nodes, under their names in the source, Run the edges and a run of
--                   the graph; Rounds, Invariant, Steps, Writing, Checks and Judging lead to the
--                   theorems on a run in Ends, and Sentence is about the sentence
--   Preparation     graphs/preparation.py: the file and Candidates have the pure functions, Graph and
--                   Run the nodes, the edges, a run and the handler of application/prepare_case.py;
--                   Store and Loading are adapters/postgres_preparation.py. Narrow, Cited
--                   and Inferred lead to Merged; Clean, Shown, Kept and Unwritten to the theorem
--                   on a run in Ends; Complete, Keyed, Loaded, Sources, Saved, Completed and
--                   Stored are about the store
--   Jury            graphs/jury_vote.py, contracts/juror.py and the handler of
--                   application/jury_vote_case.py; Amounts is domain/juror_amounts.py
--   Handling        application/backend_errors.py and the handlers of application/sentence_case.py:
--                   a run of the graph, or an exception, answered by one statement of the queue;
--                   Others is about the three handlers together
--
-- A table is a list of rows, a transaction one function on it; what SQL leaves to the database (a row
-- locked by another transaction, a fresh uuid, `now()`) is an argument. NULL is `none`, and a
-- comparison with NULL is not true. Times are microseconds and amounts micro-USD, both natural
-- numbers; the reserved amount of a budget is an integer, because nothing in the table keeps it from
-- falling below zero. An exception is a `none` or a constructor of the result.
--
-- The loop of `scoped_call` runs on fuel; two turns are enough, as a second failure is never retried.
-- A run of the graph takes fuel, one for each node: eleven, and four for each repair that the settings
-- allow, are enough. Its text rules run twice and its evaluator three times, as in the source. All
-- other recursion is on lists.
--
-- In the sentencing graph the answers of the vendor, the backend and the database, and the readings of
-- the clock, are inputs of each node; the word lists, the regular expressions, the fixture of
-- templates, the hash of a draft and the parsing of a report are parameters.
--
-- In the graphs of the preparation and of the vote the recall, the answers and the exceptions of the
-- ports are inputs too; the hashes of domain/input_hash.py, the matching of rules and the regular
-- expressions that find amounts are parameters. A uuid that the code draws is an argument.
--
-- Not modelled: log output, metrics, the prompts, the approved examples of banter, the network
-- adapters, the intake graph, the memory store with application/retain_memory.py, the measuring
-- scripts, the database driver and the third-party libraries.
pub mod Alerts
pub mod Base
pub mod Budget
pub mod Dispatch
pub mod Evidence
pub mod Gateway
pub mod Handling
pub mod Jobs
pub mod Jury
pub mod Ledger
pub mod Preparation
pub mod Report
pub mod Retry
pub mod Rules
pub mod Sentencing
pub mod Texts
pub mod Vendor
pub mod Worker
