-- ===== src/Lib.antt =====
-- NebulaFlow: a service that runs workflows of LLM, tool and approval nodes. A task is queued, a
-- worker's scheduler takes it, builds the graph of its workflow, runs the nodes in dependency
-- order through the LLM gateway and the tools, stores their states and pushes events to the
-- browsers that watch the task. This library models the parts below, each from its Go file.
--
-- Model/Retry: internal/model/retry.go, the priorities and the delays of retries. The floating-point
--   sum of an exponential delay and its jitter is a parameter. Model holds the types of
--   internal/model/model.go that the others use.
-- Queue: internal/queue. Its interface is a record of operations; Queue/Memory is InMemoryQueue of
--   queue.go, and Queue/Priority is PriorityQueue of priority.go over any three sub-queues. What a
--   `select` picks is an argument, timers are entries that fire in any order, and what others do to
--   the sub-queues while Dequeue waits is an argument.
-- Ratelimit: internal/ratelimit/limiter.go, the limiter in memory, and that on Redis over a record of
--   the commands it sends.
-- Scheduler/Dag: internal/scheduler/dag.go, BuildDAG with its validation and its sort, ReadyNodes and
--   InputsOf. The loop of the sort runs on fuel, one more than the nodes.
-- Scheduler/WorkflowLock: internal/scheduler/wflock.go, both locks. Redis is a record of commands
--   with the laws it documents; its script runs as one step.
-- Scheduler/Completion: internal/scheduler/scheduler.go, how a run of a task ends (finish, failTask,
--   requeueAfterEngineError, classifyAbort), its output and the inputs of its nodes.
-- Scheduler/Policy: the retry policy that a node's settings carry, in 64-bit milliseconds.
-- Scheduler/Run: the loop of executeTask, its submissions, results, timers, resumption, approvals
--   and endings, as steps on the state of a run; what a worker answers and which timer fires when
--   are arguments. What a run finds in the store is IsCheckpoint's condition, which the code does not
--   see to where a pool shut down, a workflow was edited or a node was approved that did not wait. A timer's callback is one step. The loop of skipDownstream runs on fuel
--   `skip_fuel`, one round for each path below the failed node, counted on the sorted graph.
-- Scheduler/Node: internal/scheduler/executor.go, ExecuteNode and what it publishes; LlmNode is
--   runLLMNode, a recursion over the attempts that are left, and Prompt its messages. Whether it runs
--   in agent mode is that of agent.go; what the agent loop comes to is an argument.
-- Scheduler/Execute: executeTask around that loop, one round of a consumer, the registry of Cancel,
--   requeueForLock, consumerCount, recoverCount and ApproveNode; the answers of the store, the lock
--   and the queue are arguments.
-- Task/Hub: internal/task/hub.go, subscriptions with their limits and the replays.
-- Task/Service: internal/task/service.go over the store in memory and any queue.
-- Store/Tasks: internal/store/memory_tasks.go, tasks, their nodes and logs in memory.
-- Cache: internal/cache/cache.go, the cache in memory and that on Redis, behind a record of operations
--   with its laws. Store/Workflows is the workflow repository of internal/store/memory.go, and
--   Store/CachedWorkflows the one of internal/store/cached_workflows.go over any such cache. A key's
--   text is the pair that it is printed from, and the JSON of an entry is a pair of functions, of which
--   nothing is taken for granted: encoding/json may give numbers back as floats.
-- Llm/Breaker and Llm/Registry: internal/llm/circuitbreaker.go, one breaker and the breakers by
--   name. Llm/Gateway: internal/llm/gateway.go, Chat and Stream with failover; a provider is given
--   with its answer and the times at which it is asked and has answered, and a caller with the number
--   of chunks after which its context ends.
-- Memory: internal/memory/memory_store.go, the short-term memory of a session.
-- Prelude: Go's maps as association lists with one entry for each key, its int as integers, sorting
--   of strings, results with early returns, and counts of occurrences, by which membership and
--   permutations are stated.
--
-- A Go method under a mutex is one step from state to state, and the time of a call is an argument.
-- Numbers that the code never makes negative are natural numbers; where a difference could be, it is
-- written out or an integer. Loops are recursions over the lists they range over, so that only the
-- sort and the loop of skipDownstream need fuel. Logs, metrics and traces are left out.
--
-- Not modelled: the other nodes of executor.go and the agent loop of agent.go, the Redis stream
-- queue, the other repositories in memory, the worker pool, the other memories, retrieval, the SQL
-- stores, the services that call networks (providers, embeddings, tools, MCP, agents), the
-- HTTP interface, authentication, configuration, and the frontends.
pub mod Prelude
pub mod Model
pub mod Queue
pub mod Ratelimit
pub mod Scheduler
pub mod Store
pub mod Cache
pub mod Task
pub mod Llm
pub mod Memory
