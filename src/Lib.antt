-- ===== src/Lib.antt =====
-- ComposeCockpit: the server that finds compose projects, runs operations on them through
-- Docker, and guards them by roles and grants.
--
-- A request passes the guards of its route (internal/auth, internal/api/handlers), becomes an
-- operation that the executor runs at once or that waits in a queue (internal/orchestrator),
-- takes the lock of its project, and calls the Docker operations
-- (internal/docker/operations.go), which call the daemon.
--
-- Files: Base holds lists, Go maps as association lists (Dict), results with errors and Boolean
-- tests. Domain holds the records of internal/domain and the error codes of pkg/apierr.
-- Docker/Client has the data of internal/docker/client.go and the daemon as a parameter: each
-- answer is a function of the history of calls, so that any daemon, also one that others use at
-- the same time, is covered. Docker/History has the calls as steps on the history, and the
-- ledger: what a history created, started, stopped and removed. Docker/Resolve, Conflicts,
-- Rollback, Sort, Up and Lifecycle are internal/docker/operations.go: the helpers, the checks
-- (checkPortConflicts and the like), the rollbacks, topologicalSort, Up by its phases
-- (Up/Networks, Up/Volumes, Up/Services), and Down, Stop, Start, Restart and GetProjectStatus.
-- Resolve/Names compares the names that containers are given with those that Up creates.
-- Auth/Permissions is internal/auth/rbac.go, and Auth/Access the guards of internal/auth and
-- internal/api/handlers/acl_middleware.go, composed as in internal/api/router.go.
-- Orchestrator/Lock is inMemoryLocker of internal/orchestrator/lock.go and
-- Orchestrator/Exclusion the interleavings of its calls as a step relation. Orchestrator/Heap is
-- the interface to Go's container/heap, with the laws that its documentation states, and
-- Orchestrator/Queue is PriorityQueue of internal/orchestrator/queue.go over it.
-- Orchestrator/Record (state, history, dispatch) and Orchestrator/Executor are
-- internal/orchestrator/executor.go: one operation from Submit or Execute to its record in the
-- history; Orchestrator/Executor/Interleaved has several runs at the same time as a step
-- relation. Discovery is internal/discovery: Value the values that the YAML decoder gives,
-- Readers, Ports, EnvFile and Expand the functions of parser.go on single fields, env files and
-- references to variables, Compose the types of a compose file with their merging, Parser the
-- files, includes and extends, and Parser/Parse the whole of Parse; Scanner and Scanner/Walk are
-- scanner.go. Auth/Tokens is internal/auth/jwt.go with Middleware, and Docker/Streamer the log
-- demultiplexer and the events of internal/docker/streamer.go, with its statistics in
-- Docker/Streamer/Stats. Docker/Sdk is internal/docker/sdk_client.go: what it asks of the Docker
-- SDK, and in its children what it makes of the answers. Api/Projects and Api/Operations are
-- project_handler.go and operation_handler.go of internal/api/handlers, with Api/Reply for the
-- answers, Api/Accounts and Api/Users auth_handler.go, user_handler.go and acl_handler.go, and
-- Api/Pages the bounds of a page. Api/Router is the table of routes of internal/api/router.go
-- with the guards before each, and Api/Router/Reach who reaches which of them. Store/Migrations
-- is internal/store/migrate.go and Store/Audits internal/store/audit_repo.go, Store/Users
-- internal/store/user_repo.go and Store/Grants internal/store/acl_repo.go. Httputil is
-- internal/httputil: Response how answers are written and Middleware what stands around every
-- handler. Cockpit is cmd/cockpit/main.go, from the configuration to the shutdown. Api/Health
-- and Api/AuditLists are health_handler.go and audit_handler.go, and Api/Streams is
-- events_handler.go of internal/api/handlers with Sse/Stream, internal/sse/handler.go. Config is
-- internal/config/config.go. Sse/Broker is internal/sse/broker.go: the map of subscribers, with
-- each channel as its list of waiting events, and Sse/Broker/Delivery what it delivers. Tests
-- runs the models on a small project; Tests/Scan gives a heap that has the laws.
--
-- Conventions: a Go map is visited in the order of its association list, and the order in which
-- a map of services is visited in topologicalSort is an answer of the surroundings. A method
-- with several early returns is cut where it calls the daemon: each continuation is a function
-- by clauses on the answer. Times of the operations other than those that order the queue are
-- left out, and so are the log lines of the components. An error message is kept as its format
-- with its arguments. Numbers such as priorities are natural numbers, which is what the handlers
-- set. That a history stopped or removed something means that the call was made: the code
-- ignores what the daemon answers to it in a rollback.
--
-- Fuel: `visit` of Docker/Sort takes fuel, two more than the number of services.
-- Docker/Sort/Once is about the services that come out, and Docker/Sort/Dependencies about their
-- order where ranks fall along the dependencies; a rank is the length of the longest chain of
-- dependencies, which without a cycle is at most the number of services, a last name that is no
-- service included. The includes and extends of Discovery/Parser and the walk of
-- Discovery/Scanner count down the levels that the code's own limits on the depth leave. `demux`
-- of Docker/Streamer takes one pass more than there are bytes; each pass reads eight.
--
-- Not modelled: the calls of the Docker SDK that only pass arguments on, the relay of its events
-- and the SQL of the store. The YAML decoder, the JWT library, the Docker SDK, the database,
-- floating-point numbers, the file system, SHA-256 and encoding/json are parameters. The locker,
-- the queue and the interleaved runs are followed by their critical sections.
pub mod Base
pub mod Domain
pub mod Docker
pub mod Auth
pub mod Orchestrator
pub mod Sse
pub mod Config
pub mod Discovery
pub mod Httputil
pub mod Api
pub mod Store
pub mod Cockpit
pub mod Tests
