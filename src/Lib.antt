-- ===== src/Lib.antt =====
-- Models of manifest-mcp-mono, a TypeScript monorepo of MCP servers for the Manifest Network: an agent
-- reads the chain, signs and broadcasts transactions, and deploys applications on leases.
--
-- How the parts act together. A tool parses its arguments (Args) and resolves a SKU (SkuResolution); the
-- deployment flow asks for a readiness verdict (Readiness). A transaction gets its gas limit and fee
-- (Gas), runs under an execution that turns an abort into a truthful error (TxExecution), and, where it
-- does not wait for its block, signs with a tracked sequence (TxSequence). What fails is classified, and
-- tried again only where that is safe (Retry). A provider's address is checked before any connection to
-- it (Ssrf); whether its deployment is ready is found out by polling (LeaseWait) or over its event stream
-- (LeaseWatch); the failure that a provider reports is brought to one form (FredFailure). What a
-- deployment (DeployManifest) returned or threw is classified, and the host asked how to go on
-- (DeployOutcome). An app that runs is updated with a merged manifest (AppManifest), and its lease
-- ended whatever its state (StopApp). Amounts are shown in their denomination's symbol (Denoms). What is
-- logged, or shown to a callback, is redacted first (Redaction).
--
-- Which file models what; paths are from the repository's root.
--   Common         shared names; maps as association lists, texts as lists of UTF-16 units, signed
--                  integers and the outcome of code that throws
--   Args           packages/core/src/transactions/utils.ts: extractFlag, extractRepeatedFlag,
--                  extractBooleanFlag, filterConsumedArgs, validateArgsLength and requireArgs. In
--                  Args/Values: parseColonPair, parseLeaseItem and parseAmount, with parseUint64 of
--                  packages/core/src/internals/protobuf-integers.ts
--   Gas            the same file: resolveGasCeiling, parseExplicitFeeGas, assertExplicitFeeWithinCeiling,
--                  resolveBroadcastGasOptions, buildGasFee, resolveTxFeeAndMemo and validateMemo
--   TxExecution    packages/core/src/internals/tx-confirmation.ts: withTxExecution, its checkpoint,
--                  markBroadcast and onAccepted, guardTxClient and withTxConfirmation
--   TxSequence     packages/core/src/internals/tx-sequence.ts: sequencedSigningClient, managedBroadcast
--                  and managedSimulate over the map of cached sequences
--   Retry          packages/core/src/retry.ts and internals/error-chain.ts beside it. Retry/Message:
--                  isTransientErrorMessage; Retry/Chain: errorChain; Retry/Verdict: isPermanentError,
--                  classifyRetryable and isRetryableError; Retry/Loop: calculateBackoff and withRetry
--   Ssrf           packages/core/src/internals/ssrf-classify.ts: isBlocked and isIpLiteral
--   SkuResolution  packages/core/src/sku-resolution.ts: listSkuCandidates and resolveSku
--   Readiness      packages/agent-core/src/internals/evaluate-readiness.ts: evaluateReadiness, with
--                  summarizeRecurringCosts of recurring-costs.ts in Readiness/Costs
--   DeployManifest packages/fred/src/tools/deployManifest.ts: deployManifest, its checks in
--                  DeployManifest/Preflight, its catch with deployFailure in DeployManifest/Failure.
--                  DeployManifest/Creation: extractLeaseUuid of createLease.ts beside it;
--                  DeployManifest/Compatibility: resolveFredCompatibility of packages/fred/src/compatibility.ts
--   FredFailure    packages/fred/src/failure-reason.ts: describeFredFailure, failureDetail and
--                  sanitizeFailureFields
--   LeaseWait      packages/fred/src/readiness/poll-lease-readiness.ts: pollLeaseReadiness, with
--                  isTransientProviderError of packages/fred/src/http/provider.ts
--   LeaseWatch     packages/fred/src/tools/waitForLeaseStatus.ts: classifyTerminal, parseFredWsEvent,
--                  mapWsEventToStatus and runWsConnection. In LeaseWatch/Driver: waitViaPoll, waitViaWs and
--                  waitForLeaseStatus
--   Redaction      packages/core/src/server-utils.ts: isSensitiveKey and sanitizeForLogging, and
--                  packages/agent-core/src/internals/secret-denylist.ts: stripDenylist. In
--                  Redaction/Mnemonic: redactText of packages/core/src/internals/redact-mnemonic.ts, with
--                  stripTextControls of text-controls.ts beside it. In Redaction/Display:
--                  sanitizeForModelText and sanitizeForDisplay of server-utils.ts
--   AppManifest    packages/fred/src/manifest.ts: mergeManifest, isStackManifest and getServiceNames. In
--                  AppManifest/Payload and AppManifest/Literals: assertManifestFitsUpdateRequest and
--                  integerLiteralFitsInt64 of packages/fred/src/tools/validateManifestPayload.ts
--   StopApp        packages/core/src/tools/stopApp.ts: stopApp with its reconciliation
--   Denoms         packages/agent-core/src/internals/humanize-denom.ts: _fmtScaledAmount, humanizeCoin,
--                  humanizeBalances, denomToSymbol and the map of loadChainDenomMap
--   DeployOutcome  packages/agent-core/src/internals/: classifyDeployError of classify-deploy-error.ts. In
--                  DeployOutcome/Response: classifyDeployResponse of classify-deploy-response.ts, with
--                  decode and isTerminal of lease-state.ts and extractRunningEndpoints,
--                  hasRunningInstances and normalizeFredUrl of connection.ts. In DeployOutcome/Recovery:
--                  verifyAndRecover of verify-recover.ts
--
-- State and effects. A cache is passed in and out. Calls of one signer are serialised by the caller, as
-- the source demands; calls of several signers come in any order. An execution is a record that a step
-- function changes, over events in any order. An error is an object of a heap, where `cause` is a
-- reference that may lead back and a property may throw when it is read. A loop that retries runs over
-- the outcomes of the operation, the random draws, what the callback `onRetry` throws and the state of
-- the signal at each await; a poll runs over a record of answers for each of its rounds, with the time
-- that passes; a connection is a record that its frames, the answers to its reads, its timers and the
-- signal change in any order. A deployment is a list of what it asked of its environment, and how it
-- ended, from the answers it got. Code that
-- throws has an error as its value; an error's wording is left out, its kind and details are kept.
--
-- Descriptions. Where a theorem says when a test of the program holds, what the test decides is written a
-- second time, without the program's own tests: Readiness/Usable and Readiness/Verdict for the costs and
-- the verdict; DeployOutcome/Envelope, DeployOutcome/Prefix, DeployOutcome/Uuid, DeployOutcome/States and
-- DeployOutcome/Running for the envelope and the flags of an error, the form of an id, and the states and
-- instances of an answer; TxExecution/History for the events of an execution.
--
-- Bounds and fuel. A poll has fuel, and one more than a burst of tolerated failures for each
-- millisecond of its timeout suffices. The walk along `cause` has fuel of one more than the size of
-- the heap, which suffices since it enters no object twice. The retry loop recurses on the retries
-- that are left. The backoff is computed exactly, in units of the random draw, where the source uses
-- floating point. Amounts are unbounded, as `bigint` is; a quantity or a gas limit that the source
-- takes as a number is bounded by Number.MAX_SAFE_INTEGER where the source tests that.
--
-- Parameters. Code that is not of the repository is an argument of what uses it: the CosmJS client's
-- answers and its calculateFee, the parser and the range tables of ipaddr.js, the chain's list of
-- active SKUs, and of the JavaScript runtime toLowerCase, trim, Number, BigInt, normalize, floating-
-- point arithmetic and the Unicode classes of regular expressions.
--
-- Not modelled: the wording of messages, sockets, DNS and HTTP, the registration of MCP tools, terminals
-- and key files, generated code, and the routes that fill in one generated message type each. The validator
-- of app manifests, maintenance operations, the flows of closing a lease and of changing its domain, and the
-- agent's flow around the deployment are not modelled either.
pub mod Common
pub mod AppManifest
pub mod Args
pub mod Denoms
pub mod DeployManifest
pub mod DeployOutcome
pub mod FredFailure
pub mod Gas
pub mod LeaseWait
pub mod LeaseWatch
pub mod Readiness
pub mod Redaction
pub mod Retry
pub mod SkuResolution
pub mod Ssrf
pub mod StopApp
pub mod TxExecution
pub mod TxSequence
