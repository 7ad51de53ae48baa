-- ===== src/Lib.antt =====
-- Kyvik runs AI agents for teams. This library models the parts of its Go code that decide what an
-- agent may do, that stop an agent which misbehaves, and that keep its messages and its budget.
--
-- The parts and how they interact. A message for an agent is stored in the queue and delivered through
-- a channel in memory (Queue). The agent answers it by calls of tools. Each call is put to the gate of
-- the tool protocol (Ktp), which knows the tools by their declarations and the agent by its tier, its
-- grants and its host paths. The older gate (Permissions) keeps the overrides of agents and decides by
-- them and by templates; its capabilities are matched by the same rules. What the calls, costs and
-- answers of an agent amount to is recorded in its breaker (Breaker), which trips when a limit is passed.
-- Budgets bound what an agent may spend (Spending) and quiet hours when scheduled messages come (Quiet).
-- The router selects the model that answers a message (Router), the prompt is put together within a budget
-- of tokens, and long conversations are compressed (Context). Agents start, stop and recover by the rules
-- of the core, which asks the router whether their slots can be resolved (Lifecycle), and roles say what a
-- user of the web interface may do (Auth).
--
-- The files.
-- Base and its children: Booleans, equality tests, lists, sets and maps as lists, texts as lists of bytes,
--   and signed integers, under Go's or the library's names.
-- Ktp: internal/ktp. Tier is `TierLevel` and `TierAtLeast`, Match is `Capability.Matches`, Path is
--   `filepath.Clean` as `normalizeHostFSResource` uses it, Caps is `defaultCapabilities`, Gate is
--   `PermissionGate.Check`, Registry is registry.go, Convert is convert.go, Schema is schema.go,
--   whose children say what a schema means. Paths are cleaned by the rules that Go documents.
-- Permissions: internal/permissions/store_gate.go and the table of overrides in
--   internal/store/postgres/postgres.go, whose rows are a list.
-- Breaker: internal/circuitbreaker. State is a breaker, Config its thresholds, Manager the map of
--   breakers; Window and Loop say what a breaker counts.
-- Queue: internal/queue/postgres_queue.go. State is the table, the channels and the counters, Deliver
--   and Settle are the operations, Requests puts them in one step function.
-- Router: internal/router. Slots, Prefix, Classifier and Stats are the files of these names, Route is
--   router.go with vision.go and registry.go; Decision, Routed and Counted say what a decision is.
-- Context: internal/ctxbudget, with internal/compression/compressor.go and the messages of
--   internal/history/store.go. Message repairs calls of tools, Convert reads stored messages, Trim and Build
--   are `buildHistory`, Memories is `buildMemoryBlock`, Assemble is `Assemble`, Compress is `TryCompress`.
-- Lifecycle: internal/core/lifecycle.go, vacation.go and the operations of agent.go that start, stop and
--   recover agents; Requests puts them in one step function, with the restart of the program,
--   which is `New`, and its recovery, which is `Reconcile`: requests may come between the two.
-- Auth: internal/auth/permissions.go. Quiet: internal/scheduler/quiethours.go. Spending: the budget of
--   internal/spending/store_tracker.go.
--
-- How code corresponds to definitions. An operation has the source's name in lower case; it takes the
-- state and returns the new one with its result. A mutex makes each operation one step, so histories are
-- lists of requests. Errors are `none`, `false` or a constructor; the texts of messages are left out.
-- Loops are over lists, but for two on fuel: the loop that drops memories takes one round for each memory
-- and one more, and the recursion of `buildHistory` ends within two rounds once the compressor has stopped
-- stalling; what other goroutines do between its rounds is a parameter. Integers that may be negative are
-- ℤ; the digits of a quiet hour wrap around at 2 ^ 64; counters are unbounded. Times are numbers since an
-- epoch, and the windows of a breaker are shorter than the 290 years that a `time.Duration` holds.
--
-- Parameters. `TextOps` is Go's lower-casing and trimming, `Float` and `Amount` are the numbers of costs
-- with the operations used of them, `hash` is SHA-256, `parse` is what JSON leaves in a configuration,
-- `local_in` is a clock in a time zone, and a fresh token or the time of a step is an argument. `Json` and
-- `RoutingJson` are what JSON leaves of messages and slots, `Surroundings` is the model services, and `Host`
-- the cluster and whether a runner ends in time. `Checks` is the order of numbers and the regular
-- expressions that schemas use. Scores of memories count by their order only.
--
-- Not modelled: failing statements of the database, logging and notifications, the order in which Go
-- walks a map, and the parts of the program that are input and output: tools, sandboxes, model services,
-- chat channels, the web interface and most of the stores. Nor are the loop of a running agent, teams,
-- workflows, clusters, security checks and the network proxy. Operations of Lifecycle are steps, one after
-- the other: what happens between the test of a flag and the start of a runner is not modelled, nor are the
-- calls of channels, queue and breaker in them.
pub mod Base
pub mod Ktp
pub mod Permissions
pub mod Breaker
pub mod Queue
pub mod Auth
pub mod Quiet
pub mod Spending
pub mod Router
pub mod Context
pub mod Lifecycle
