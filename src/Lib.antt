-- ===== src/Lib.antt =====
-- A verification of fracta's core: how missions are proposed, admitted, queued and claimed, how
-- agents move through their lifecycle, how their recent events are kept, and which tools of which MCP
-- servers an agent may call.
--
-- The parts, and the files that model them:
--   Objective.antt, Objective/Store, Objective/Lifecycle: objectives with their limits
--     (internal/objective/objective.go) and their store (internal/objective/pgstore.go). The lifecycle is
--     a relation, `Transition`, that `can_transition` (`CanTransition`) decides.
--   Proposal.antt, Proposal/Store: proposals (internal/proposal/proposal.go, pgstore.go).
--   Queue.antt, Queue/Postgres: missions and the queue (internal/queue/queue.go, postgres.go): `enqueue`
--     is `Enqueue`, `try_claim` is `tryClaim`, `reclaim_stuck` is `reclaimStuck`, and so on.
--   Queue/Memory: the queue in memory (internal/queue/memory.go), a channel of numbers and the missions.
--   Mailbox.antt, Mailbox/Store: messages (internal/mailbox/mailbox.go,
--     internal/state/pgstore/mailbox.go).
--   Admission/Reader, Admission/Policy, Admission/Controller: internal/admission. The controller reads
--     the pending proposals, asks the policy about each (`evaluate` is `Evaluate`), and approves one by
--     enqueueing a child mission, rejects it, or freezes its objective; then it closes the objectives
--     that are done. `tick` is one such round.
--   Model.antt, Agents/Store, Agents/Snapshot: agents (internal/model/model.go) and their table
--     (internal/state/pgstore/pgstore.go): one statement per method, and `with_lock` for `WithLock`, which
--     writes the difference between two states.
--   Agents/Writer: the transitions of an agent and the events they emit
--     (internal/agentlifecycle/writer.go).
--   Reaper.antt, Reaper/Round, Reaper/Limit: the reaper (internal/controlplane/reaper.go): `reap` is one
--     round, `reap_agents` its loop over the agents, and `check_spawn_allowed` is `CheckSpawnAllowed`.
--   Events.antt, Events/Ring, Events/Store: the last events of each agent (internal/events/ring.go,
--     ringsink.go).
--   Authz.antt: roles and what they may do (internal/authz): `authorize` is `Authorize`.
--   Registry.antt, Registry/Store, Registry/Sync, Registry/Service: MCP servers and their tools
--     (internal/registry): the PostgreSQL store, the servers of the configuration file
--     (`sync_config_servers` is `SyncConfigServers`), and the service, which asks an authorizer, an argument
--     of its functions, and logs (`remove_server` is `DeleteServer`, `enable_or_disable` is
--     `SetToolEnabled`).
--   Gateway.antt, Gateway/Policy, Gateway/Visibility, Gateway/Visibility/Agents, Gateway/Catalog: the
--     tools that the gateway offers (internal/gateway): the policies of servers, the visible set, which
--     is built from the policies and the registry, the scopes of agents, and the catalog.
--   World.antt: the database that these parts share. Common and its children: lists, tables, signed
--     and 64-bit integers, texts. Samples: data for the tests.
--
-- How the code is modelled:
--   A method that calls the database is a function of the `World`: one list of rows per table, the
--   sequences of identifiers, the number of calls made, and two functions that the environment
--   chooses: whether the call with a number fails, and the time at it. A statement is one step; a
--   transaction is one step that is rolled back as a whole, its sequences excepted. A call that fails
--   changes nothing; a commit whose outcome is unknown is not modelled. Theorems hold for every
--   environment unless they say that no call fails.
--   A result and an error are an `Outcome`. The sentinel errors that the code tests are told apart, the
--   wrapped texts are not. Errors that the code logs and swallows are swallowed; logs are left out.
--   Numbers: Go's int and durations are signed integers that wrap at 64 bits where the code computes
--   (`add_int`, `mul_int`, `time_sub`); row identifiers are natural numbers; INT columns end at 2^31 - 1.
--   Times are nanoseconds since Go's zero time. Texts that are only printed are kept as a format with its
--   arguments (`Note`, `Content`). A name is cut at 64 bytes without the half of a character.
--   Raw JSON is what its decoder gives: a payload, or `malformed`.
--   ORDER BY is a stable sort; rows that it does not tell apart stay in the order of the table. The rows
--   that other workers lock in `tryClaim` are an argument.
--   An UPDATE by a primary key changes the first row that matches. Maps are association lists; a mutex
--   makes a method one step.
--   The MCP server of another package, on which the gateway registers tools, is a record of operations
--   (`McpServer`) and of the laws relied on (`McpServerLaws`). `BuildVisibleSet` gives up its lock while it
--   reads the registry, so that it is a beginning and an end. JSON columns are compared as texts, and
--   texts are ordered by their characters. The JSON of a configured server is given with it.
--   What a runtime answers when the reaper asks it to kill an agent is an argument (`Killed`), and so are
--   the pods that its sweep of failed streams finds. Which case of a `select` is taken, where several
--   are ready, is an argument, of `Enqueue` and of each round of `Dequeue`; a `Dequeue` on an empty channel
--   ends with its context or with the closing of the queue, and its errors are not told apart.
--   Every loop is a recursion on the list or on the count that it walks. The digits of a number are
--   taken with the number plus one as fuel, and more fuel makes no difference.
--
-- Not modelled: the polling loops and timers around `tick`, `Claim`, the reclaimer and the reaper; the
-- SQLite backends; the event bus, its other sinks and the subscribers; the calls that the gateway
-- proxies, and the reconciler that calls the gateway; HTTP, the MCP protocol, OAuth, Kubernetes, git and
-- processes; configuration, strategies and the command line.
pub mod Common
pub mod Model
pub mod Objective
pub mod Proposal
pub mod Queue
pub mod Mailbox
pub mod Events
pub mod World
pub mod Agents
pub mod Reaper
pub mod Admission
pub mod Authz
pub mod Registry
pub mod Gateway
pub mod Samples
