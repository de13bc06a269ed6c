-- ===== src/Lib.antt =====
-- assertoor runs tests of Ethereum networks. A test is a list of tasks; a scheduler executes them, a
-- queue runs the tests, and clients of the network are watched for the tasks. This library models
-- those parts of pkg/coordinator, and proves properties of the models. Go objects that are shared
-- are named by numbers (tasks by their index, scopes by their address on a heap, channels and
-- subscriptions by the order in which they were made); a critical section or a piece of code
-- between two points where goroutines can interfere is one function; interleavings are sequences of
-- steps.
--
-- Vars: pkg/coordinator/vars/variables.go and pkg/coordinator/vars/scope_filter.go. `lookup_var` is
--   LookupVar, `set_var` SetVar, `get_vars_map` GetVarsMap, and so on. Lookups follow parents on
--   fuel; a parent is older than its child, so that fuel above the address of a scope is enough.
-- Types: pkg/coordinator/types/task.go.
-- Logger: MemBuf is pkg/coordinator/logger/membuf.go. `fire` is Fire and `get_log_entries`
--   GetLogEntries; indices are uint64, with the wrap-around written out. DbWriter is
--   pkg/coordinator/logger/dbwriter.go, with Flush of logscope.go there and the statements of
--   pkg/coordinator/db/task_logs.go; DbReader is dbreader.go, which reads its rows.
-- Scheduler: pkg/coordinator/scheduler and pkg/coordinator/db/task_states.go. State holds the data;
--   Database is updateTaskState with UpdateTaskStateStatus, and Sync compares record and row;
--   Execution is ExecuteTask cut into `begin_task`, `init_task`, `load_task` and `complete_task`,
--   with setTaskResult (`set_task_result`) and GetTaskResultUpdateChan; Results, Lifecycle and Watch
--   are about single executions, their interleavings (in which two calls of GetTaskResultUpdateChan do
--   not overlap) and the watchers; Watch.Overlap is about two such calls that do; Tasks and Running are
--   newTaskState, AddRootTask, AddCleanupTask and RunTasks, and Order says which tasks run. TaskOrder
--   is sortTaskList, whose loop is on fuel: more than the ancestors of both tasks is enough.
-- Flow: the tasks that run tasks. Sequential is pkg/coordinator/tasks/run_tasks, Limits the result
--   loops of pkg/coordinator/tasks/run_tasks_concurrent and pkg/coordinator/tasks/run_task_matrix,
--   Chain the goroutines of a matrix that is not concurrent, Options
--   pkg/coordinator/tasks/run_task_options, Background pkg/coordinator/tasks/run_task_background. A
--   child is seen by the error that ExecuteTask returns for it, or by the updates of its result.
-- Runner: TestRun is pkg/coordinator/test/test.go, Queue the queue of pkg/coordinator/testrunner.go
--   with its execution loop.
-- Wallet: pkg/coordinator/wallet. Account is a wallet of wallet.go, Sending its SendTransaction and
--   loadTransactionReceipt, Manager processBlockTransactions of manager.go, Pool walletpool.go, Blob
--   blobtx/blob_encode.go. A call on a wallet and the end of a synchronisation are one step each,
--   although the program does not lock a wallet for all of them; such an end falls between two calls
--   or between two transactions of a block. Balances are integers; the nonces of accounts stay below
--   2^64 - 1, so that adding 1 does not wrap around. Receipts are loaded on fuel, of which six is
--   enough.
-- Clients: pkg/coordinator/clients/execution. Dispatcher is subscriptions.go there, BlockCache
--   blockcache.go and block.go, Pool forks.go and pool.go, Execution client.go and clientlogic.go
--   with the lists in block.go of the clients that have seen a block. The loop of GetBlockDistance is
--   on fuel: two more than the number of the head is enough where numbers fall along the parents.
-- Checks: the tasks that watch the consensus chain. Attestations is
--   pkg/coordinator/tasks/check_consensus_attestation_stats, Proposals
--   pkg/coordinator/tasks/check_consensus_block_proposals, Ranges
--   pkg/coordinator/tasks/check_consensus_slot_range and
--   pkg/coordinator/tasks/check_consensus_finality, SyncStatus
--   pkg/coordinator/tasks/check_consensus_sync_status. Sums of balances wrap around as in uint64.
-- Registry: pkg/coordinator/testregistry.go and LoadTestDescriptors of
--   pkg/coordinator/test/descriptor.go.
-- Prelude: tests, lists, association lists and integers that the parts share.
--
-- Parameters stand for code that is not here: the YAML encoders, the placeholder resolver and the
-- task registry (`Env`), sort.Slice, the outcome of a task's own LoadConfig and Execute, the answers
-- of RPC clients, the commitments of blobs, and floating-point percentages, regular expressions and
-- bitfields.
-- Not modelled: the web interface, the database apart from the rows of tasks, logs and tests,
-- consensus clients, RPC, the other tasks that check something and those that generate something;
-- they are input and output, or are left for an extension of this library.
pub mod Prelude
pub mod Vars
pub mod Types
pub mod Logger
pub mod Scheduler
pub mod Flow
pub mod Runner
pub mod Wallet
pub mod Clients
pub mod Checks
pub mod Registry
