-- ===== src/Lib.antt =====
-- A verification library for Puff, a Rust runtime that runs services and AI agents beside Python.
--
-- The parts and how they interact. The supervisor runtime keeps a tree of nodes (services, teams of
-- agents, agents) and restarts services. Each supervised agent has a task that serves its mailbox
-- and keeps a conversation. An agent may do what its capabilities and its budget allow,
-- and holds database connections within a quota. The GraphQL server answers through a query cache, and the
-- pub/sub client passes messages of Redis to its subscribers.
--
-- Which file models what (paths are from the repository's root):
-- Supervision: src/supervision.rs. Node has the types and the functions on values; Core the reads and
--   writes of the node map, one function for each method of `SupervisorRuntime`; Spawn the methods that
--   add nodes; Control `stop_node`, `restart_node` and `collect_descendants`; Service the task that
--   `spawn_service_task` spawns. History puts the methods in sequence. Tree, Invariant, Descendants,
--   Stopping and Reads carry the proofs. The lock is held for one function of Core at a time, and a method is taken
--   to run as a whole but in Race, which puts two spawns side by side; events and commands that were sent are lists in the state.
-- Capabilities: src/agents/capabilities.rs. Types, Serde (the hand-written serialisers), Scope
--   (`scope_matches`), Paths (`Path::starts_with`) and Checks (the methods `check_*`).
-- Errors: src/agents/error.rs, the errors that the modelled parts return.
-- Budget: src/agents/budget.rs; Budget/Tasks adds the tasks that share one agent, whose check and
--   count src/agents/agent.rs makes at two places.
-- Quota: src/agents/quota.rs, over tokio's semaphores as a parameter with its documented laws.
-- QueryCache: src/graphql/query_cache.rs, over the GraphQL schema, serde_json and the hashes as a
--   parameter. QueryCache/Calls puts requests in sequence.
-- PubSub: src/databases/pubsub.rs, over a connection to Redis as a parameter. Channels has what events do
--   to the subscriber maps, Sync and Listener the agreement with Redis.
-- Conversation: src/agents/conversation.rs, with the messages of src/agents/llm.rs. Boundary has the
--   character boundaries, Compaction what `compact` keeps.
-- Mailbox: the task that `spawn_supervised_agent_mailbox` of src/agents/mailbox.rs spawns, over the
--   supervision tree and a conversation; a turn of the agent is a parameter.
-- Orchestration: src/agents/orchestration.rs, the router, the chain and the handoff; the calls of the
--   language model and the turns of a chain's agents are parameters. Delegation is the supervisor, whose
--   workers run the turns of Turns. Numerals has how the router reads an answer, and Routes what it returns. Parallel runs the tasks of its agents one after the other.
-- Streaming: src/agents/streaming.rs, the parser of server-sent events, over bytes. Delimiter has where an
--   event ends, Chunks the independence of the chunks, Frames one frame.
-- Tools: src/agents/tool.rs, the registry and the command line of a call (Render), and
--   `execute_registered_tool` (Execute) over the executors as parameters.
-- Sandbox: src/agents/sandbox.rs and `execute_cli_argv` of src/agents/tool.rs over the operating system as
--   a parameter. Options reads the arguments as the manual of bwrap says.
-- Agents: the construction of an agent, the checks of a tool call and the requests of src/agents/agent.rs.
-- Turns: both loops of a turn of src/agents/agent.rs. Rule has what a turn keeps, Limits what it uses up,
--   Rounds and Transcript what it asks and adds, round by round, Window what compaction leaves of the tool calls.
-- Llm: src/agents/llm.rs, the response that the chunks of a stream make; Calls has what becomes of its tool
--   calls, Shapes the streams that providers send. Client is the attempts, retries and fallbacks over the
--   providers as parameters, with the parser of Streaming; Retries has how often it asks, Chat a whole call.
--   Providers is the parsing of the events in src/agents/provider.rs; Usage has the last of them.
-- Registry: src/agents/registry.rs, the registry of agents of one process, with the tasks that it spawns as a
--   list. Entries has the registry as a map from keys, Bridges the bridges to Redis that a history starts;
--   Counts and Steps have what one operation does to them. Remote has the queues and replies over Redis as a
--   parameter, with the laws relied on in Laws: Recovery, and Kept, what becomes of requests when calls are
--   interleaved; Bridge the rounds of the two bridges, Order what a mailbox is sent; Replies the waits.
--   Leases has the leases of named agents, with Redis as a parameter that keeps time, where the GET and the
--   EXPIRE of a renewal are one instant: Exclusive shows what they are for.
--   Messages finds what a name stands for, here or in Redis, Targets sends messages and controls to it, and
--   Stopping has what a stopped target leaves. The scans of Redis run on fuel, and what is shown of a target
--   of this process is shown for any fuel.
-- Skills: src/agents/skill.rs. Glob has the search for the parts of a pattern, Meaning what a pattern matches;
--   Loading how a skill is read and becomes tools, with files, paths, TOML and Python modules as a parameter.
-- TaskQueue: src/tasks/mod.rs over Redis as a parameter; Redis has the laws relied on. Claims has what each
--   operation does to the lock and the count of an item, Scans a pass, History sequences of operations.
--   A pass is one round of the loop of `next_task`, not interleaved with other workers. The loop over its
--   pages runs on fuel, and what is shown of it is shown for any fuel.
-- Common: lists, options, results, maps as association lists and as sorted ones, JSON values and strings as lists of
--   code points. Examples: the concrete inputs.
--
-- Numbers are natural numbers. Counters that wrap (`u64`) have their modulus written out. Times are
-- arguments, in milliseconds. The loop of `collect_descendants` runs on fuel, one unit for each node of
-- the map; a tree has no more nodes to pop, so it is enough. The loop of
-- `find_char_boundary` has one unit for each byte after its index. The service loop, the listener of the
-- pub/sub client and the task of a mailbox take their inputs as a list. The loop of `feed` has one unit
-- for each byte of the buffer, and the rendering of a template one for each character. A turn of an agent and
-- a run of the supervisor have their ten rounds, and a call of the model its attempts. The loop of
-- `recover_processing_queue` has one round more than there are requests, and the wait for a reply 1201 looks, one
-- for each 50 ms of its 60 seconds and one after.
--
-- Not modelled: what only formats, logs or calls other libraries (the web servers, the Python and
-- WebAssembly bindings, the database pools, the requests of the providers), what the registry's tasks write
-- to the hash of its entries in Redis and the queues that they delete, poisoned locks, and real time.
pub mod Common
pub mod Supervision
pub mod Capabilities
pub mod Errors
pub mod Budget
pub mod Quota
pub mod QueryCache
pub mod PubSub
pub mod Conversation
pub mod Mailbox
pub mod Orchestration
pub mod Streaming
pub mod Sandbox
pub mod Tools
pub mod Agents
pub mod Turns
pub mod Llm
pub mod Registry
pub mod Skills
pub mod TaskQueue
pub mod Examples
