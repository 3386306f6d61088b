-- ===== src/Lib.antt =====
-- ubuntu-auto-update: the backend that updates a fleet of Ubuntu hosts over SSH (backend/).
--
-- The program keeps hosts, runs, playbooks and schedules in PostgreSQL and acts on the hosts over
-- SSH. A request or a schedule asks the coordinator for a bulk run; the coordinator creates one row
-- per host in update_runs, then works through the hosts in waves under a semaphore; each host is
-- dialed, its commands are run, and its row is closed. Output is appended to the row as it comes.
--
--   Base       booleans, lists, text as lists of code points, errors; no code of its own
--   Runs       backend/pkg/db/runs.go, backend/pkg/models/update_run.go: the table update_runs as a
--              list of rows with a sequence (`Runs`), one function per statement (CreateRunFull is
--              `create_run_full`, AppendRunOutput `append_run_output`, FinishRun `finish_run`)
--   Playbooks  backend/pkg/playbooks/playbooks.go (CompileSteps) and cleanSteps of
--              backend/cmd/api/playbooks.go, and the table playbooks (Store); Shell holds the
--              reading of a POSIX shell against which the quoting is checked, Requests the handlers
--   Updater    backend/pkg/updater/bulk.go: Options the clamps, Command one remote command with its
--              pumps, Reboot the reboot and its poll loop, Host runOne, Wave runWave, Rollout
--              Coordinator.run, Start Coordinator.Start, Bulk the two together, Requests the
--              handler of backend/cmd/api/playbooks.go in front of them, Direct those of updates
--              and reboots, Overlap two requests at once
--   Scheduler  backend/pkg/scheduler/scheduler.go and the handlers of backend/cmd/api/schedules.go:
--              Defs the table, the maintenance window and Tick, Request the checks of a new schedule
--   Accounts   backend/pkg/users/users.go (Users, Lockout), backend/pkg/session/session.go (Roles,
--              Sessions, Lifetime, Revocation), backend/pkg/middleware/auth.go and csrf.go (Gates,
--              Passage), the login, enrolment and logout of backend/cmd/api/main.go (Entry,
--              Admission, Enrolment) and backend/cmd/api/users.go (Manage): bcrypt and SHA-256 are
--              functions that the definitions take
--   Tokens     backend/pkg/apitokens/apitokens.go and backend/cmd/api/tokens.go: Defs the table and
--              its handlers, Access what a token opens
--   Limits     backend/pkg/middleware/ratelimit.go: Defs the token bucket, Bound what it admits,
--              Address the client's address and the address list, over package net
--   Hosts      backend/pkg/db/db.go on hosts and ssh_keys (Defs, Keys) and their handlers in
--              backend/cmd/api/main.go (Requests); Spec holds the specification by hostname that
--              Refine is about, Offline the sweep, Atomic the key change, Created the creation of a host
--   Ssh        backend/pkg/ssh/bootstrap.go, host_keys.go and client.go: Defs the scripts on
--              authorized_keys, Rotate RotateKey with handleRotateKey of
--              backend/cmd/api/hosts_extra.go, Bootstrap the enrolment, Sudo its sudo
--              command, HostKeys the known keys
--   Events     backend/pkg/events/broker.go and listener.go: the fan-out and the reconnecting loop
--   Webhooks   backend/pkg/webhook: the check of an address, one delivery and its retries
--
-- SSH, the remote hosts, the database driver and the clock are outside: a statement takes the fault
-- that the driver reports for it, a host takes a record of what its session does (`HostWorld`), and
-- a wave takes the list of the moves that the scheduler, the context and the hosts choose (`Move`),
-- so that the theorems hold for every interleaving. A goroutine of a wave is one move, taken when it
-- ends: it writes to its own row alone.
--
-- Text is a list of code points: PostgreSQL counts characters in `length` and `LEFT`, and Go counts
-- bytes in `len`, which is `byte_length`. Integers are Go's ints where a sign is tested (`ℤ`) and
-- numbers elsewhere; keys are the numbers of the sequence. A poll loop is a list of probes that ends
-- with its context, so no fuel is needed anywhere: every function is total.
--
-- Hosts are enrolled, listed and reported under their hostname; a login or an enrolment passes the
-- limiter and makes a session, which the gates look up on each request; a rotation works on the
-- remote file through its scripts, each of which may stop before or after its write, and then on
-- the key table. The limiter counts in nanoseconds of refill, so a token is 12 * 10^9.
--
-- Not modelled: the SSH transport and the terminal sessions, which only call golang.org/x/crypto
-- and gorilla/websocket; the HTTP layer's decoding and rendering; the crypto package, whose ciphers
-- are the standard library's; metrics, CORS, security headers and the audit log, which nothing
-- reads back; the single-host run handlers, bulk enrolment and the CSV reports, which are left for
-- later; and everything outside backend/ (the Rust agent, the web and the mobile client, the
-- deployment files).
pub mod Base
pub mod Runs
pub mod Playbooks
pub mod Updater
pub mod Accounts
pub mod Events
pub mod Hosts
pub mod Limits
pub mod Scheduler
pub mod Ssh
pub mod Tokens
pub mod Webhooks
