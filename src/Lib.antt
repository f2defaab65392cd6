-- ===== src/Lib.antt =====
-- The core of Veyronis: escrow agreements whose release may depend on a transaction on another
-- chain. Paths are from the repository's root.
--
-- The parts, and how they interact:
--   * packages/shared has the terms of agreements and policies, and their validation;
--   * backend/src/agreements/agreement-service.ts turns a draft into a stored agreement and deploys
--     its escrow contract, contracts/src/VeyronisEscrow.sol;
--   * agreement-condition-service.ts lets the seller submit a transaction hash. It claims the
--     attempt in agreement-condition-repository.ts and asks the verifier of backend/src/attestcoin,
--     which proves the transaction by the proof service, evaluates it by the policy, submits the
--     claim to the registry, and then reads the escrow back;
--   * work-evidence-service.ts takes the seller's evidence for a deliverable and the buyer's
--     review of it; backend/src/auth/wallet-auth.ts gives a session to a wallet that signs;
--   * dashboard-service.ts shows a participant the agreement, reconciled with its contract by
--     reconciliation-service.ts, and the actions that are open;
--   * frontend/app leads the participants through these: its flows create, deploy and fund an
--     agreement over the backend's calls and the wallet.
--
-- The files:
--   * Prelude: names passed on, tests on numbers, array methods (Lists), sorting (Sort), texts
--     (Text), BigInt, and code that fails early (Flow) or does so over a state (Flow/Run);
--   * Ethers: the functions of the ethers package, a parameter; Samples: values for the tests;
--   * Shared: packages/shared/src/index.ts. Policy has evidencePolicySchema and the external
--     condition, Agreement the agreements and agreementLifecycleMode, Agreement/Draft
--     validateAgreementDraft, Escrow the states, the roles and canWithdrawEscrowFunds, Chain the
--     snapshots and the status of a condition;
--   * Attestcoin: backend/src/attestcoin. Evaluator is source-transaction-interpreter.ts,
--     Commitment the hashes, Verifier is AttestcoinVerifier.verifyAndSubmit over the interfaces of
--     verifier-types.ts (Verifier/Interfaces), its checks in Verifier/Checks. Proof is the proof
--     service: attestcoin-service.ts over its providers (Proof/Service), the decoder of
--     attested-transaction-decoder.ts (Proof/Leaf) and proof-provider.ts (Proof/Inclusion);
--     Proof/Composed puts it below the verifier;
--   * Auth: wallet-auth.ts, with Session, Cookie and Challenges, and Login for all its requests;
--   * Condition: Repository is the repository in memory of agreement-condition-repository.ts,
--     Admission the checks of agreement-condition-service.ts and its proof request, Service its
--     verify;
--   * WorkEvidence: work-evidence-service.ts and the repository in memory;
--   * Creation: the repository in memory of agreement-repository.ts, Preparation the normalised
--     draft and Service the two operations of agreement-service.ts. Commitment is the canonical
--     JSON and the commitments of packages/shared/src/index.ts;
--   * Contract: VeyronisEscrow.sol, with the invariant of its Ether in Contract/Funds;
--   * Dashboard: actionsFor, Snapshot, Service the details and Listing the list of
--     dashboard-service.ts, Reconciliation reconciliation-service.ts, and Actions the actions
--     beside the contract;
--   * Frontend: frontend/app. Wizard is escrow/wizard-flow.ts, Status agreement-status.ts, Executor
--     transaction-executor.ts, Funding escrow/escrow-funding.ts with the network guard,
--     DeployAndFund escrow/deploy-and-fund-flow.ts, and Nim wallet/nim-amount.ts.
--
-- How the code is read. Strings are native strings, and lower case is that of ASCII letters, the
-- only letters of the texts that are lowered. Amounts and block numbers are decimal texts, as in
-- the source, read by big_int; a number that a schema wants to be whole is a natural number, and
-- at most 2^53 - 1 where the schema says so (zod's int takes safe integers). Dates are
-- milliseconds, given to an operation as arguments, as are new ids. A thrown error is a value:
-- `failed` with the message or the program's own error, `threw` or `none` for an exception of a
-- library. Maps are lists of their values in the order of insertion. The shape of unknown input
-- is its type; the tests of the schemas on values are definitions. External services answer in
-- any way: the verifier's as functions of the calls made so far, those of the proof service and
-- of the frontend as functions that change a world of any type, and those of the condition
-- service as functions of the store. The dashboard's reader of contracts is two functions without
-- a world: a request makes each of the two calls at most once for an agreement. The deployer,
-- which is called once, is a function too, and what the work evidence service reads of the
-- agreements is a value. Clocks, nonces and new ids are arguments, and so are functions of the
-- platform (crypto, Buffer, JSON, localeCompare). The two loops of the wizard run on the number
-- of steps that are left in their direction, after which their condition is false; every other
-- loop is structural.
--
-- Not modelled: log lines and callbacks that are only told; the SQL repositories; the zod package's
-- test of a UUID, a parameter; the HTTP server, its shutdown and its configuration; the gateways
-- that implement the interfaces by ethers, and the events that the read layer shows; the service
-- fee, the wallet of Nimiq Pay, the HTTP client and the React components of the frontend.
pub mod Prelude
pub mod Ethers
pub mod Shared
pub mod Auth
pub mod WorkEvidence
pub mod Samples
pub mod Attestcoin
pub mod Condition
pub mod Contract
pub mod Creation
pub mod Dashboard
pub mod Frontend
