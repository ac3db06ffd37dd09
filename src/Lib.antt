-- ===== src/Lib.antt =====
-- The correctness of the looplet agent loop: the decisions that stand between a language model and
-- the tools that it calls.
--
-- The program (src/looplet) runs a model step by step. Each step may call tools; around every call
-- the loop asks its hooks, and a hook may deny the call, change it, answer it or stop the run. The
-- parts and their files:
--   Prelude          shared names, tests, lists and dictionaries
--   Value            the Python values that are exchanged, and `_same_action_value`
--   Lifecycle        types.py and loop.py: run status and phase, and their single writer
--   Types            types.py and events.py: tool calls, results, errors, policy records, events
--   HookDecision     hook_decision.py: the return value of a hook, its normalization and slots, and
--                    its wire form
--   Permission       permissions.py: the rule engine, and the hook that remembers one approval
--   Loop             loop.py: `_intercept_tool_calls`, `_run_post_dispatch_hooks`,
--                    `_post_step_stop_reason`, the calls of one turn and its terminal call, which
--                    hold the other parts together
--   Limits           limits.py: the budget of calls and the limits per tool
--   Stagnation       stagnation.py: the nudge after repeated steps
--   Parse            parse.py: the tool calls that a model's answer holds
--   Projection       result_projection.py: views of results that fit a limit
--   Admission        assistant_turns.py: which calls of the model are admitted
--   Checkpoint       checkpoint.py: the checkpoint that a run resumes from, who owns a file, and the
--                    components whose state is saved and restored together
--   DiskList         _storage.py: a list of records on disk with one live record, and its changes
--                    since a cursor
--   DiskDict         _storage.py: a dictionary on disk, with transactions
--   SessionTree      session_tree.py: the branching history of runs, and its paths
--   Registry         tools.py and capabilities.py: one dispatch of a call, its checks and its errors
--   Validation       validation.py: schemas, and the registry that validates a call first
--   Dispatch         tools.py: batches of calls, and the order of their results
--   AgentState       types.py and loop.py: the budget of steps and the calls that a turn admits
--   Conversation     conversation.py: truncating and compacting the message thread
--   SessionLog       session.py: recording steps and compacting old ones
--   Budget           budget.py: the tiers of a token estimate and the trigger of a compaction
--   Steering         steering.py and approval.py: the operator's messages and approvals
--   Recovery         recovery.py: recipes for failures, with their attempt limits
--   RecoveryChain    loop.py: the strategies for a prompt that is too long
--   Resilient        resilient.py: a backend that retries
--
-- State is passed explicitly. A definition has the name of the function it translates, in this
-- language's spelling; a class is a record of its attributes. Code of the host (argument
-- matchers, approval handlers, hook methods, the code of a tool, recovery handlers, the summarizer
-- of a thread, a call of the model, the thread pool) is a parameter: it gets the world and answers
-- with the world afterwards. So are texts that no decision reads, the clock, and the functions of
-- Python's library on texts. A raise is a value: `none`, or a constructor that says so. Object
-- identity, where the code reads `id`, is a number. All recursion is on a list, a value or the attempts left, but for the walk to the root of a session
-- tree, the bisections and the batch of result views. The walk has one turn for each node as fuel,
-- which is enough for a tree that appends have grown; a bisection has its upper bound, and the batch a
-- turn for each character and each result, which are enough for every input.
--
-- Not modelled: the content of model calls, prompts, the JSON form and the documents of checkpoints
-- and the loading of one by its key, the rendering of delivered messages, servers and the
-- command line; log lines; floats and host objects inside argument dictionaries; a deep copy that
-- fails; a hook that yields several decisions at one gate; slices and sorting of a list on disk; the
-- async copies of the loop's functions.
pub mod Admission
pub mod AgentState
pub mod Budget
pub mod Checkpoint
pub mod Conversation
pub mod DiskDict
pub mod DiskList
pub mod Dispatch
pub mod HookDecision
pub mod Lifecycle
pub mod Limits
pub mod Loop
pub mod Parse
pub mod Permission
pub mod Prelude
pub mod Projection
pub mod Recovery
pub mod RecoveryChain
pub mod Registry
pub mod Resilient
pub mod SessionLog
pub mod SessionTree
pub mod Stagnation
pub mod Steering
pub mod Types
pub mod Validation
pub mod Value
