-- ===== src/Lib.antt =====
-- Reclose: runtime assurance for autonomous protocols. A verification library for the program's
-- JavaScript and TypeScript packages.
--
-- The program. A protocol registers with an on-chain AssuranceKernel under a policy. Clients author
-- the policy and compile it to contract calls; a Sentinel watches public sources and submits an
-- incident when one shows a candidate; a tracker follows each transaction and the child
-- transactions that it triggers; the fees of such a chain are allocated beforehand as a tree. The
-- packages meet in data: the policy compiler emits the ordered calls that the contracts receive,
-- the Sentinel submits through a reporter and follows its transactions through the tracker, and
-- the tracker and the Sentinel read the same lifecycle of a raw transaction. A client reads the
-- contracts' views into typed records and prepares the writes that a wallet signs; a report carries
-- an evidence package, whose identity is the hash of its canonical JSON.
--
-- The files, and what they model.
--   Prelude and its children: what the modules share. Tests, lists, errors as values (Throws), the
--     tests on texts (Text) and objects used as maps (Keyed).
--   Async, Async/Leads: an async method over a state, which returns or rejects and in both cases
--     leaves what it wrote; and a rule for each way to build one.
--   Keccak, Json: packages/protocol-sdk/src/canonical.ts. `keccak256Hex` is keccak256_hex,
--     `jcsCanonicalize` is canonicalize, `canonicalKeccak256` is canonical_keccak256; stringify is
--     what JSON.stringify gives. Json/Total has the values that have a canonical text.
--   Evidence: packages/protocol-sdk/src/evidence.ts. The tests of URLs and identifiers are in
--     Evidence; `validateEap`, `buildEapObject`, `buildEap` and `verifyEapArtifact` are
--     validate_eap, build_eap_object, build_eap and verify_eap_artifact of Evidence/Build.
--   Client: packages/protocol-sdk/src/client.ts, with networkGuard.ts in Client itself. A method is
--     an action on the session: the checked flag and the requests sent so far. Client/Values reads
--     the cells of a view, Client/Records has the records and the tables of ordinals of types.ts
--     and client.ts, Client/Identity the action, incident and bond ids. The reads are in
--     Client/Reads, Client/Incidents and Client/Status, the prepared writes in Client/Drafts,
--     Client/Reports, Client/Submissions and Client/Owner, the lookups of transactions in
--     Client/Tracking, and the manifests in Client/Apm, Client/Extract, Client/Diff,
--     Client/Manifests and Client/Activation. Client/Kernel is the classification of a policy change
--     in contracts/assurance_kernel.py, with which the diff is compared.
--   Lifecycle: packages/protocol-sdk/src/lifecycle.ts, with the statuses of types.ts.
--     `mapRawTransaction` is map_raw_transaction, `isSafeToResubmit` is is_safe_to_resubmit.
--   Fees: packages/protocol-sdk/src/feeAllocation.ts. `buildNestedMessageAllocationTree` is
--     build_nested_message_allocation_tree, `rollUpNestedBudgets` is roll_up_nested_budgets; an
--     iteration of its loop is fold_into_parent.
--   Tracker: packages/transaction-tracker/src/tracker.ts and store.ts. `track`, `poll` and
--     `pollGraph` are track, poll and poll_graph over any transaction store; Tracker/InMemory is
--     the store of `InMemoryTransactionStore`.
--   Policy: packages/policy-compiler/src/compile.ts, with the types of types.ts in Policy/Manifest.
--     `compilePolicyManifest` is compile_policy_manifest; its checks are validate_resources,
--     validate_rules and validate_effects, and its calls are emit_calls.
--     Policy/Receiver reads the calls back.
--   Sentinel: packages/sentinel/src/runner.ts, with monitor.ts in Sentinel/Monitor. `runOnce` is
--     run_once, and its steps are resume_pending, monitor_run_once, submit_triggered and
--     submit_and_persist. Sentinel/Candidate is candidateEap.ts, whose build_candidate_report is what
--     the parameter of run_once of that name stands for.
--   Throttle: scripts/studio-dev-rpc-throttle.mjs. The operation that `serialized` queues is
--     throttled_fetch, its loop is attempts, and the queue is serve.
--   The files called Tests have concrete inputs; the others hold proofs and are named for their
--     subject.
--
-- The outside world. A request, a fetch, a poll or the clock is a function of the number of the call,
-- so that two calls with the same arguments may be answered differently, or fail. Nothing is
-- assumed of these answers but what a theorem says. An exception is a value, and what was written
-- before it stays written. Sources that are fetched concurrently are fetched one after the other.
--
-- Bounds. Amounts and counts are natural numbers: the program keeps amounts in bigint and its counts
-- are lengths. A text has code points, and where the program counts UTF-16 units the model counts
-- those (utf16_length). The recursion of `pollGraph` follows the children that the client reports,
-- which nothing bounds, so poll_graph runs on fuel. The program's own bound is its visited set:
-- one more than the number of distinct transactions that can be reached is enough.
--
-- Keccak's padding takes 136 bytes a block, so the length of the input is more than enough fuel. A
-- JavaScript number that is read from a bigint is the nearest double, found by halving: 1024 rounds
-- are enough for every finite double.
--
-- What is not modelled. The parsers of URLs and dates, `Number` and `slice` of a text, whether
-- `encodeURIComponent` takes a text (it throws on a lone surrogate), the clock and the transport of
-- the client are third party or part of the language's runtime: parameters. Reads that
-- the client issues at once are sent one after the other. A message of an error is a constructor
-- with its data, and the descriptions and the version numbers of a policy diff are left out. The
-- Sentinel's run takes the two functions of the evidence packages as parameters: a theorem about it
-- holds for any. The policy readback, the trace, the command line, the frontend and the other
-- scripts have no model. Of the contracts, which are Python, only the classification of a policy change
-- is modelled. A description that only reports progress is left
-- out of a compiled call. A policy manifest is a JSON value: a field that is explicitly undefined,
-- on which its hash throws, is left out. The tracker's store does not reject: fileStore.ts, which
-- reads and writes a file and uses a plain object as a map, is not modelled.
pub mod Async
pub mod Client
pub mod Evidence
pub mod Fees
pub mod Json
pub mod Keccak
pub mod Lifecycle
pub mod Policy
pub mod Prelude
pub mod Sentinel
pub mod Throttle
pub mod Tracker
