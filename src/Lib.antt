-- ===== src/Lib.antt =====
-- Models of the Python program: the game's mutation leases, the API server that training talks to,
-- the retries of the combat search, and the workers of a whole run.
--
-- How the parts interact. A TCP stream (API/tcp_server.py) is bound to one client session and hands
-- its requests to the API server (API/server.py). The server validates a request
-- (API/validation.py), looks up the session's ledger (API/identifiers.py), and executes a new request
-- on the instance that the session owns. Instances number their decisions, branches and random
-- hypotheses by the registries of API/identifiers.py. Every mutation of the one game of a process
-- goes through a lease of game_access.py. A whole run drives sessions on worker processes
-- (Run/worker_pool.py) and drains trivial rewards (Run/reward_auto_progress.py) between the actions
-- that an external decision or a picker chose (Run/execution_mode.py, Run/whole_run_session.py,
-- Run/room_progression_driver.py). The combat search sends work items to its own pool, classifies
-- the faults and retries (Combat/search/fault_taxonomy.py, Combat/search/search_coordinator.py); its
-- branches and their leases are kept by Combat/search/branch_manager.py over the pool of
-- Combat/search/branch_worker_pool.py. What training sees of a state is masked (API/masking.py),
-- with the pending choices normalized (API/choice_card_semantics.py).
--
-- Which file models what:
--   GameAccess           game_access.py; the calls as steps and what holds after any of them are
--                        in GameAccess/Invariant, Transfer and History
--   Api/Value            JSON values; Api/Decimal the decimal texts of f-strings
--   HandOff, HandOff/Phases
--                        the lease methods of Run/whole_run_session.py and
--                        Combat/live_combat_session.py, and `enter_combat_phase` and
--                        `leave_combat_phase` of API/instance_whole_run.py
--   Api/EventRng         the registry of API/whole_run_event_rng.py
--   Api/Dto, Api/Faults  API/dto.py and API/faults.py
--   Api/Rejected, Api/Require, Api/Validation
--                        API/validation.py; what an accepted request is like is in
--                        Validation/Contents, Validation/Fields,
--                        Validation/Options/Accepted and Validation/BatchItems/Accepted
--   Api/Identifiers      API/identifiers.py: Ledger, Branches, Decisions, Hypotheses
--   Api/Server           API/server.py: `Server` is the state of RLApiServer and `handle_request` its
--                        entry; Server/Dispatch has the instances. Server/Dispatch/Contract and
--                        Server/Effect say what a request may change, and Replay, Sessions, Status
--                        and Correlation follow from them
--   Api/Tcp              API/tcp_server.py: `handle_client` over the list of what the reader gives
--   Api/Masking          API/masking.py: `scrub` is `_scrub`; Masking/Keys has the forbidden keys,
--                        Masking/Cards the multisets, Masking/Choice and Masking/Pending
--                        API/choice_card_semantics.py
--   Combat/Pool          the leases, the routing and the workers of
--                        Combat/search/branch_worker_pool.py
--   Combat/Branches      Combat/search/branch_manager.py: the table of records with submitting,
--                        finishing and reading; Branches/Cancel, Branches/Release and
--                        Branches/Poll the operations of those names, and Branches/Dispatch
--                        the giving out of branches to the free workers
--   Combat/Faults        Combat/search/fault_taxonomy.py up to the depth cap
--   Combat/Aggregation   the aggregations and the commit decision of
--                        Combat/search/fault_taxonomy.py; Aggregation/Rounds has the one over
--                        hypotheses, and Aggregation/Samples what it counts
--   Combat/Coordinator   `_dispatch_work_items_until_final` of Combat/search/search_coordinator.py
--   Run/Drain            Run/reward_auto_progress.py
--   Run/Picks            the pickers, selectors and external decisions of the three Run files above
--   Run/Leases           leases and routing of Run/worker_pool.py; Run/Leases/Dispatch its
--                        `dispatch_choice_work_items`
--   Prelude              shared helpers: Python's dict and set, integers, tests, results
--   the Examples files   concrete runs
--
-- State is passed explicitly and an exception is a value of `Result`; a method that raises before
-- its first write gives no state with the error. Message texts of rejections are data, and the text
-- of an exception is given by what raises it. Code outside the repository is a parameter: the game
-- and its factory, the hash of a payload or a card, the parsing of JSON, and the arithmetic of
-- floats and their conversions to integers. So are the instances behind the server, the worker pool
-- behind the retry loop and the session behind the pickers, of which only the calls are known there. An
-- instance behind the server is a value with a state of its own; that all of them share the one game of
-- the process is not in the server's model.
--
-- Loops. The drain and the retry loop recurse on the cap that the source itself has
-- (`max_auto_actions`, `max_retries` + 2 rounds); the rollback of hypotheses on the number of entries
-- to take back; a stream and the wait for results on the list of what arrives. The decimal text of
-- a number recurses on the number plus one, and each digit divides it by ten.
-- The scrub recurses on fuel, and a value needs as much as it is deep, with some more where a pending
-- choice is normalized before it is scrubbed again. Cancelling has a round for every id that is asked
-- for and for every child of a record, and the pruning of links one for every record with a parent.
-- Giving out branches has a round for each that waits, and a poll takes what its result queue gives as
-- a list: where the list ends before the poll does, the answer is that it waits.
--
-- Not modelled: asyncio's tasks, the CLR bridge and the emulator, the worker processes themselves,
-- the instances of combat and, but for the two phases, of the whole run, the search's
-- candidate pipeline, and the evaluation and endurance programs.
mod Prelude
pub mod GameAccess
pub mod Api
pub mod HandOff
pub mod Combat
pub mod Run
