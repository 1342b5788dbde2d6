-- ===== src/Lib.antt =====
-- NexGuard Sentinel: a model in antt of the Python code, with the theorems that make it correct.
--
-- The repository holds three programs. The sentinel (sentinel/) is the durable core of an on-chain
-- incident response: it stores events, reserves them for an intent, and follows the intent's
-- transaction to an outcome. The controller (services/nexguard-controller/) watches the health of
-- an IoT gateway, and the gateway simulator (services/gateway-simulator/) is what it watches. The
-- script contracts/deploy.py deploys the contracts that the sentinel works with.
--
-- Files.
--   Prelude: shared names, tests, equality, lists, integers.
--   Python: what the program uses of Python. `Exec` is a method that mutates an object and may
--     raise, `transaction` commits or rolls back; `Text` and `Number` are `str` and `int`, with the
--     Unicode spaces and digits, the underscores, signs and prefixes that `int` accepts, and the
--     limit of 4300 digits; `Words` is `split` and `join`, `Environ` the environment, `Pathlib` what
--     `Path` makes of a text. `Gives` and `Outcome` have the rules by which a proof follows a `do`
--     block. Recursion of `decimal` is on fuel n + 1, which is more than the digits of n:
--     Python.Number.RoundTrip.
--   Sql: the SQLite statements on a table held as a list of rows, newest first, with primary keys,
--     foreign keys, row counts, upserts, row ids and the width of an INTEGER column.
--   Store: sentinel/store.py. `Rows` is `SCHEMA`; `Intake` is `ingest` and `cursor`; `Reserve` is
--     `reserve` and `_audit`; `Lifecycle` is `prepare`, `broadcast`, `finish`, `intent` and
--     `is_latched`. Each method is a function from its arguments, the readings of the clock among
--     them, to a transaction on the database. `Opening` is the constructor, and files that are opened
--     again. `Calls` is any sequence of calls, and the steps that they take; `Guarantees` is what
--     holds after any of them; its `Sending` and `Broadcasting` are about `prepare` and `broadcast`
--     by themselves.
--   Disk: the calls of the operating system on a table of files, each of which may fail.
--   Sentinel: `Settings.from_env` of sentinel/config.py; `Fields` is about its helpers for one
--     variable, `Valid` about the whole.
--   Contracts: contracts/deploy.py. `Web3` is the parameter for web3, eth_account and json, over an
--     unknown world; `Deploy` has the functions below `main`, `Main` has `atomic_write_json` and
--     `main`. `Artifacts`, `Created` and `Verified` say what the artifacts, a deployment and its
--     verification stand for.
--   Controller: services/nexguard-controller/app/. `Models` is models.py. `Health` is
--     health_monitor.py, over a parameter for the HTTP client, the clocks and `sleep`. `Incident`
--     is incident.py: the manager's counter, its open incident and its metrics. `Docker` is
--     docker_manager.py over a parameter for the Docker client and the clock. `Backup` is backup.py
--     (`Backup.Create` is `create_backup`) and `restore_backup` of recovery.py; `Backup.Written` is
--     about the pair of files that it writes, `Backup.Retention` about those that it removes, and
--     `Backup.Survival` about what becomes of the pair; `Backup.Listing` is about `list_backups`,
--     whichever of its calls fail, and `Backup.Quiet` about a disk of which none does;
--     `Backup.Manager` is `BackupManager`.
--     `Config` is config_checker.py, with YAML and pydantic as parameters. `Recovery` is
--     `RecoveryManager` of recovery.py: `attempt_recovery` is its guards, then `recover`, in one
--     function for each `await` or `try` of the source. `Runtime` is `handle_health_result` of
--     main.py, which joins them; `Runtime.Rounds` and `Runtime.Tracked` are about any sequence of
--     its calls. `Notifier` is notifier.py. `Settings` is the settings of main.py, over a parameter
--     for `float`; `Service` is how main.py puts the parts together (`Service.Assembly` is
--     `ControllerRuntime.__init__`), and the supervision loop: one world stands behind all of its
--     parameters. `Application` is the `lifespan` of main.py with the tasks of the notifications, and
--     the answer to a health request.
--   Gateway: services/gateway-simulator/app/, with the parameters of Controller.Config.
--
-- Loops and fuel. The loop of `wait_for_running` and the wait for the health check after a restart
-- run on fuel that is one more than the ticks of the timeout, since each round sleeps for at least a
-- tick; that this is enough is proved. Times are whole ticks, where the source has floats; the
-- settings that the constructors test may be negative.
--
-- What is not modelled of sentinel/store.py: the pragmas of `_connection`, which change nothing that
-- is stored; JSON text, for which its value stands; times, which are opaque texts; failures of SQLite
-- itself (a full disk, a locked file), after which a transaction is rolled back. A state file of
-- another program is one with another `user_version`.
--
-- What is not modelled of the controller: metrics.py (the runtime's fields have the metrics that
-- it writes and the messages that it hands to the notifier), the answer to a metrics request, and the
-- histogram of the recoveries' durations. The log of the monitor is in two fields of the service,
-- one for the loop and one for the recovery's checks. Nobody else writes to the disk while a method
-- runs.
--
-- What is not modelled of the deployment: the command line and `load_dotenv`, for whose results the
-- arguments of `main` stand; the mode of a new file is a parameter. Not modelled at all: the
-- contracts in Solidity, and the subgraph.
pub mod Prelude
pub mod Python
pub mod Sql
pub mod Store
pub mod Disk
pub mod Controller
pub mod Gateway
pub mod Sentinel
pub mod Contracts
