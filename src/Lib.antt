-- ===== src/Lib.antt =====
-- Verification library of health-go, a Go library that runs health checks in a service, tells
-- notifiers when the status of a check changes, runs actions, and answers an HTTP endpoint.
--
-- The parts and how they interact. `Register` gives each check a StatusUpdater and starts its loop.
-- Each run of a check function ends in `StatusUpdater.update`: it counts results against
-- thresholds, and when a threshold is reached it asks the shared EventTracker for the event ID of the
-- incident, sends a notification through the shared Notifications, and calls the check's
-- ActionRunner, which may start a shell command. `Status` merges the statuses of all checks for
-- the endpoint. The states of the tracker, the updaters and the runners can be saved and restored.
--
-- Which file models which part:
--   Types           types.go (statuses, constants, Action, CheckNotification), persister.go (the
--                   saved states)
--   Events          events.go: EventTracker; handleMaintenanceCheck, handleRegularCheck and the
--                   others are functions from a tracker to a result and a tracker
--   Notifications   notifications.go: the sender; the buffered channel is a list with a capacity
--   Actions         actions.go: ActionRunner; Success, Failure, Warning and Timeout are `success`,
--                   `failure`, `warn` and `time_out`, which share the halves `unlock` and `start`
--   StatusUpdater   status.go: StatusUpdater, with `update` split as the code's branches are;
--                   Steps: `update` a step at a time, interleaved with those of other checks
--   Check           check.go and CheckConfig of types.go: one run, Start, Pause, the jitter; Loop:
--                   runCheckWithChan in time, the select of a run and its deadline
--   Health          health.go: Register, the merge of Status, the code of HandlerFunc; Container:
--                   New with the options of options.go, SaveState; Service: a container at work,
--                   by lists of events; Interleaved: with runs that overlap; Endpoint: the
--                   answer of Status, HandlerFunc
--   Persister       persister.go: the interface; persister_noop.go
--   Sqlite          persister/sqlite/sqlite.go: New, the pending batch, flush, loads and Close; Table:
--                   the rows; Schema: the tables, and what the statements bind and scan; Steps:
--                   flushes and Close by their critical sections, interleaved
--   FilePersister   _examples/custom_persister.go: a persister of files
--   Server          _examples/server_with_persistence.go: its start and shutdown on SQLite
--   Examples        _examples: the checks that main of each program registers, with what their
--                   functions do (Simple: server.go; Persistent: the two others), and the turns of
--                   a program that serves
--   Maintenance     checks/maintenance/check.go: the file, the directive, one run of the check
--   Checkers        the other packages of checks/, a module each: sequences of client calls with
--                   early returns and deferred calls; Sql has mysql, postgres, pgx4 and pgx5
--   Base            maps, integers, texts and lists that the parts share
--   Witnesses       the theorems applied to concrete values
--
-- State. A Go method with a pointer receiver is a function that takes the state and returns the new
-- one. A method of the tracker, the sender, an updater or a runner holds its lock from its first to
-- its last statement, so it is one step; the interleavings of checks are lists of such steps
-- (Events/Operations, StatusUpdater/Incident). `update` calls the tracker several times and holds
-- only its own lock in between. It is modelled twice: as one function from a state to a state, and
-- in StatusUpdater/Steps as the sequence of its accesses to shared state, each one step, which
-- interleave with those of the other checks. The tracker and the sender are shared by pointer: they stand in the record World,
-- which each operation takes and returns. In Health/Service a run of a check is one step: what its
-- theorems say holds between runs. Health/Interleaved starts from such a container, and lets the
-- runs overlap step by step. A goroutine that an action starts is a Job in the world; `finish` is
-- its last step. The SQLite persister has two locks: Sqlite/Steps has its flushes and Close as their
-- critical sections under the one or the other, and Sqlite/Steps/Kept lets them interleave; elsewhere a
-- flush and a Close are one step each. SaveState reads the tracker first and then each check, while the
-- checks run: the tracker that it read is its own argument, and each check of the container that it
-- takes is as it was when it was read.
--
-- Numbers. `int` and `time.Duration` are integers whose increment wraps as on 64 bits; where a
-- counter must not wrap, the theorem says so by a bound of 2^63 - 1 results. `time.Time` is the
-- number of nanoseconds since the zero time, `Sub` stops at the ends of Duration. One operation
-- reads the clock once and draws at most one UUID: both are its argument Env.
--
-- Time in Check/Loop. A timer fires at its time or later, never earlier; starting a goroutine takes no
-- time. What the loop sees, and when, is an argument: a list of wakeups.
--
-- Recursion is over lists and texts. The one definition on fuel prints a number in decimal
-- (Base/Text): its fuel is one more than the number, which has no more digits than that. A nil map is
-- `none` in a saved state.
--
-- What is a parameter: the shell (from a command, its deadline and environment to an output and an
-- error), the user's check functions (the outcome of a run, or its duration in Check/Loop; in Examples they
-- are those of the programs, which find their Surroundings), the
-- random number of the jitter, `json.Marshal` and what package runtime reports, the client libraries
-- of the ready-made checks (an answer to each call, which may depend on all calls before),
-- `os.Hostname`, `redis.ParseURL`, `%q`, `encoding/json` for what is saved (Base/Json), a directory
-- in FilePersister, `uuid.New` (sixteen bytes), and the persister: a record of operations over a store. The theorems
-- on a restart assume of it what its interface documents (IsReliable in Persister); those on SQLite
-- assume of the database that its statements do what they say (IsReliable in Sqlite/Batches), and of
-- JSON that the maps of the tracker are decoded as they were encoded.
--
-- Not modelled: the calls of the tracer, and what the example servers do with signals and HTTP.
-- Log lines are left out. A nil eventTracker is modelled in the
-- updater alone, since New always makes one.
pub mod Base
pub mod Types
pub mod Events
pub mod Examples
pub mod Notifications
pub mod Actions
pub mod StatusUpdater
pub mod Check
pub mod Checkers
pub mod Persister
pub mod Server
pub mod Sqlite
pub mod FilePersister
pub mod Health
pub mod Maintenance
pub mod Witnesses
