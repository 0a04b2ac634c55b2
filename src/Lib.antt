-- ===== src/Lib.antt =====
-- A model of four parts of the server: the execution kernel, the access to an account, the
-- approval of tool calls, and the sessions of the bots. The kernel runs a user's command in an
-- isolated workspace: jobs, their statuses, their leases, their event log, and the worker that
-- takes them from the queue to their end. The access to an account is its members with their
-- permissions, its second factor, its mobile logins and its rate limits. An approval lets a run
-- of the model make one call of a tool. A session keeps what a user is doing in a conversation
-- with a bot. All paths below start at the root of the repository.
--
-- The parts, and the file that models each:
--   Execution/Status, Transition   src/lib/execution/states.ts: the transition table, the guarded
--                                  update `transitionExecutionStatus`, and the evidence that
--                                  completion needs
--   Execution/Errors               src/lib/execution/errors.ts
--   Execution/Schema, Db           src/db/execution-schema.ts and contracts.ts: the tables, and the
--                                  queries and statements on them
--   Execution/Leases               the leases of src/lib/execution/repository.ts
--   Execution/Events               src/lib/execution/event-service.ts
--   Execution/Cancellation         src/lib/execution/cancellation-service.ts
--   Execution/Network              src/lib/execution/network-policy-service.ts
--   Execution/Grants               src/lib/execution/credential-grant-service.ts
--   Execution/Validation           src/lib/execution/validation.ts
--   Execution/Creation             src/lib/execution/service.ts
--   Execution/Quota, Settings      src/lib/execution/quota-service.ts, and the settings that the
--                                  kernel reads from its environment
--   Execution/ToolRuns             what the runs of tools write in the tables of the kernel:
--                                  src/lib/tools/runtime-service.ts, operational-tool-runtime.ts
--   Execution/Records              the other single statements of the worker and the repository
--   Execution/Worker               src/lib/execution/worker-runtime.ts, with the functions that it
--                                  calls in artifact-service.ts and runner-registry.ts
--   Execution/History, Moves       what every statement does to the jobs and the event logs
--   Execution/Interleave, Machine  statements of other processes, and the worker's programs
--   Security/RateLimit             src/lib/security/rate-limit.ts
--   Security/Base32, Totp          src/lib/security/totp.ts: the secret as a text, and the codes
--   Api                            the errors of src/lib/http/api.ts
--   Auth/Permissions               src/lib/auth/permissions.ts
--   Auth/Members                   src/lib/auth/membership-access.ts, custom-permissions.ts,
--                                  user-authorization.ts and authorization.ts
--   Auth/Mfa, Mfa/Enrollment       src/lib/auth/mfa.ts: the check at a login, and the rest
--   Auth/Mobile                    src/lib/auth/mobile.ts, and how src/lib/auth/api-key.ts looks an
--                                  access token up
--   Auth/Challenge                 src/lib/auth/mobile-mfa.ts
--   AiSdk/Runs                     src/lib/ai-sdk/run-steps.ts, run-events.ts and checkpoints.ts
--   AiSdk/Approvals                src/lib/ai-sdk/approvals.ts and external-approvals.ts
--   AiSdk/ApprovalPolicy           src/lib/ai-sdk/approval-policy.ts
--   ChannelClient/Sessions         src/lib/channel-client/session-service.ts
--   Prelude                        shared tests, lists and texts
--
-- A table is the list of its rows. A transaction is a function from the database to a result with
-- the new database; one that throws is rolled back, so it leaves the database as it was. The
-- worker's tasks are programs of a monad (Execution/Machine): between any two of its statements any
-- list of statements of other processes runs, and the clock, the source of random numbers, the
-- runner and the object storage answer anew at each step. These, SHA-256, `TextDecoder`, DNS, the
-- parsing of URLs and ipaddr.js are parameters, which no theorem restricts: the runner may fail, or
-- answer anything, at each call. The queue is the sequence of tasks, which may repeat and come in
-- any order.
--
-- A row of the table of jobs is a job of the kernel or runs a tool (Schema.JobKind), and the
-- operations of both are statements that other processes run. The task of a tool has the id of the
-- job that was inserted with it, so that it writes no job of the kernel (Interleave.on_tool); the id
-- of a new job is random, so that no event has it yet (Interleave.on_new).
--
-- Mfa takes its codes from Totp, Mobile and the sessions of Members ask for an active member
-- first, and Challenge calls Mfa and Mobile in one transaction; Approvals writes the steps and
-- the events of a run. Sequences of calls of these are lists of operations (Mfa/Rows,
-- Mobile/Calls, Challenge/Limits, Approvals/Ops, Sessions/Versions), each one transaction, in any
-- order. HMAC, the hash of a token and the random bytes of secrets and tokens are parameters or
-- inputs, and so is the answer of the check of a password. A column that the code encrypts holds
-- the secret itself. The select and the update of an enrollment are one step.
--
-- Ids, tokens and hashes are numbers; a time is a number of milliseconds; texts that are computed
-- with are lists of UTF-16 code units. Lower case is that of the ASCII letters. A number that the
-- source takes from its environment is one of four cases (Settings.Setting). Every loop is
-- structural recursion on the rows or chunks that it visits, so no fuel is used.
--
-- Not modelled: of the kernel, the payloads of events and what only decorates them, messages of
-- errors, telemetry, the media type and the name of a stored artifact, the read-only listings of
-- jobs and artifacts, the proxy that spends credential grants, the adapters of the runners, and
-- what a tool does while it runs, with the table `tool_runs`. Of the rest, the messages of a
-- checkpoint and the arguments of a call that a row only carries, web sessions and the scopes of
-- API keys. Nor are the other channels, the runtimes of chat and agents, the sandbox, the
-- platform's administration and the user interface.
pub mod Prelude
pub mod Execution
pub mod Security
pub mod Auth
pub mod AiSdk
pub mod Api
pub mod ChannelClient
