-- ===== src/Lib.antt =====
-- A model of the identity kernel and the passport-governed MCP gateway of this repository.
--
-- The program. A gateway puts an agent behind a passport. The identity kernel
-- (packages/identity-kernel/src/index.ts) gives verdicts on prompts, context, tool calls and outputs.
-- The gate (services/gateway/src/identity-kernel-gate.ts) runs a turn of a model under those
-- verdicts. The MCP gateway (services/gateway/src/mcp-base.ts) executes tools for a passport session:
-- a call passes the kernel, then the passport's capability grants, and a governed tool runs only from
-- a human approval that the approval store (services/gateway/src/bankr-approval-store.ts) holds; the
-- store lets each approval be reserved, and then released or consumed. The Bankr adapter
-- (services/gateway/src/bankr-adapter.ts) is the runtime that turns an executed tool into requests. The
-- passport of a session is resolved from the registry and a document
-- (services/gateway/src/identity-kernel-passport-resolver.ts), and another module writes that document
-- (services/gateway/src/identity-kernel-passport-grant-update.ts). Around these stand the public
-- gateway's session tokens and free prompts (services/gateway/src/chat/freebies.ts), its rate limiter
-- (services/gateway/src/security.ts), the chat agent (services/gateway/src/chat), the intake of
-- requests (services/gateway/src/intake.ts) and the hosted agent of each wallet
-- (services/gateway/src/agents/runner.ts), whose spending packages/shared/src/index.ts guards.
--
-- The files.
--   Prelude: Boolean tests, options and lists over the native numbers, shared lemmas.
--   Js: the parts of JavaScript that the program uses. Text is a list of code units, Number the
--     doubles as whole multiples of 2 ^ -1074 with NaN and the infinities, Json the values, Pattern
--     the regular expressions, Host what the runtime offers and the repository does not hold (number
--     and date conversion, digests), a parameter everywhere.
--   Kernel: Types, Patterns (the two lists of patterns), Authority (toolPermissionFromScope,
--     activeConstraints, withReceipt), Evaluate (the evaluators); Tools and Prompt are about them.
--   Gate: Turn is runIdentityKernelGatedTurn, with the model, the tools and the evaluators as
--     arguments; a Turn holds the calls that leave it, in order, and its result, none after an
--     exception. Context, Events, Release and Kernel are about it.
--   Approval: Types, Canonical (the hashed text and the signature), Parse (parseApproval), Lookup (the
--     getApproved methods), Usage (reserve, release, consume); Own, Sealed and Replay are about them.
--   Mcp: Tools, Session (envelopeFor), Args (the fields of a call), Approved (the validators of stored
--     approvals), Store (the interface of the store and the file-backed one), Resolve, Grant
--     (findGrant), Verdict (receipts and replies), Execution (the runtime), Call (callBaseMcpTool), Rpc
--     (handleBaseMcpRequest); Policy, Authorised, Raw, Binding, Lifecycle, Files and Requests are
--     about them.
--   Tokens: Types and Store (the tokens of services/gateway/src/mcp-tokens.ts); Single and Verify are
--     about them.
--   Bankr: Http and Adapter (the configuration and the requests), Writes, Payments and Runtime (the
--     methods of the runtime); Governed is about them, with the validators and the call of Mcp, and
--     Submitted, with the lookup in the approvals file.
--   Access: Session (createSessionToken, verifySessionToken), FreePrompts (freeRemaining, consumeFree),
--     RateLimit (rateLimit); Holder, Metering, Hits and Window are about them.
--   Chat: History (validHistory, clampHistory, splitForCompaction), Tools (dispatchFreeTool), Agent (the
--     loop), Run (runChatTurn with the summary); Compaction and Turn are about them.
--   Passport: Fields and Document (resolveErc8004Passport), Update (buildReadOnlyGrantDocument),
--     Plan (summarizeGrantUpdatePlan and the guard); Owner, Updated and Execution are about them.
--   Intake: Requests (publicSafeRequest), Ledger (createIntakeRequest, listIntakeRequests); Listing and
--     Created are about them.
--   Agents: Spend (assertAutonomousSpendAllowed), Runner (provisionAgent, promptAgent, agentStatus);
--     Gating is about them.
--   Fixtures and the Tests modules: runs at fixed inputs.
--
-- Choices. The usage files of the store are the sets of keys that have a file; each call of the store
-- is given which of its file operations fail, so a statement about all calls covers every failure.
-- Calls are atomic: the reservation's exclusive creation of its file is one step, and calls of
-- different requests come in any order as a history. Time is an argument of each operation. A remote
-- service is a function of the requests made so far, the model of the chat a function of the messages,
-- and every answer of them may be an error. All loops are structural recursion: that of the chat is on
-- the answers that are left, four as in the source, so no fuel is used. The two zeros of doubles are
-- one number. Lower case and blanks are those of ASCII. A lookup of the store returns no value rather
-- than throwing.
--
-- Not modelled: the schemas and descriptions of the tools, the fixed texts of the initialize reply,
-- reading the environment, HTTP routes, the label and default expiry of a new token, the lock around a
-- wallet's intake ledger, the redacted difference of an updated document, the allowed origins, saved
-- conversations, the directories and subprocesses of hosted agents, evaluations, the council, readiness reports, the remote services, the contracts and
-- the web app: glue, data, or parts still to come.
pub mod Prelude
pub mod Js
pub mod Kernel
pub mod Fixtures
pub mod Gate
pub mod Approval
pub mod Mcp
pub mod Tokens
pub mod Bankr
pub mod Access
pub mod Chat
pub mod Passport
pub mod Intake
pub mod Agents
