-- ===== src/Lib.antt =====
-- The InterCooperative Network. Its economy: participatory budgets, authorizations, tokens,
-- regenerating mana and federation policies of crates/runtime/icn-economics, and the amounts,
-- payments and contracts of crates/mesh/mesh-escrow. Its government: quorum proofs and trust bundles
-- of crates/runtime/icn-identity and icn-federation, and the governance kernel of
-- crates/runtime/icn-governance-kernel with its interpreter of CCL documents. The policy of the mesh
-- and the reputation of its peers in crates/mesh/mesh-types and mesh-reputation. The in-memory storages
-- of crates/runtime/icn-storage, and the metering of crates/runtime/icn-core-vm.
--
-- The parts meet in few places. The quorum of a federation makes proofs that icn-identity verifies,
-- which also signs the role credentials of the governance kernel. The kernel stores what the trait
-- StorageBackend of icn-models offers; its configurations are what the interpreter makes of a CCL
-- document. Budgets store their authorizations, and the core VM charges what it does for a caller and
-- stores its DAG nodes in a storage of icn-storage.
--
-- Parts and files
--   Prelude            Boolean tests on native numbers, lists, results, and a library of association
--                      lists for HashMap (Prelude/Map), a state monad (Prelude/State), signed
--                      numbers (Prelude/Int), the interfaces of f64 and f32 (Prelude/Floats) and of
--                      serde_json (Prelude/Serde).
--   Economics/Types    src/lib.rs of icn-economics: resource types, tokens, authorizations, errors;
--                      IdentityScope of crates/runtime/icn-identity/src/lib.rs.
--   Economics/Storage  src/token_storage.rs: the traits TokenStorage and AuthorizationStorage as
--                      records of operations, the laws a client relies on, and the in-memory
--                      storages.
--   Economics/Authorization, Economics/Tokens
--                      src/lib.rs: create_, validate_ and consume_authorization, and token_ops
--                      (mint, transfer, burn), each over any storage. Spending and Ownership hold
--                      the theorems.
--   Economics/Budget   src/budget_ops.rs. Types has the records, Store the storage interface with
--                      load_budget and save_budget, Tally the counting of votes and the decision,
--                      Steps the pure parts of the operations on a loaded budget, Outcome what a
--                      decision makes of it; Budget itself has the operations over the storage, under
--                      the names of the source. Theorems: Counting, Voting, Spending, Lifecycle,
--                      Execution and Overspending.
--   Economics/Mana     src/resources.rs: ManaPool and ResourceManager. Theorems: Invariant, Reserve.
--   Economics/Policy   src/policy.rs: FederationPolicy (Policy) and PolicyEnforcer (Enforcer).
--                      Theorems: Checks, Window.
--   Escrow/Token       crates/mesh/mesh-escrow/src/lib.rs: TokenAmount and RewardSettings.
--                      Theorems: Laws.
--   Escrow/Payments    crates/mesh/mesh-escrow/src/payments.rs: SimplePaymentSystem. Theorems:
--                      Conservation, Behaviour.
--   Escrow/Contracts   crates/mesh/mesh-escrow/src/contracts.rs: EscrowSystem, under the names of its
--                      methods, and Rewards, the sums of distribute_rewards. Theorems: Locking, States.
--   Identity           crates/runtime/icn-identity/src: KeyPair of keypair.rs, and of lib.rs signatures,
--                      QuorumConfig and QuorumProof. Bundle has TrustBundle. Theorems: Counting,
--                      Majority, Bundle/Guarantees.
--   Federation/Quorum  crates/runtime/icn-federation/src/quorum.rs: SignerQuorumConfig, and the making
--                      and verifying of proofs. Theorems: Decisions.
--   Governance         crates/runtime/icn-governance-kernel/src: Config has the records of config.rs,
--                      Types those of lib.rs and the events of events.rs, Kernel the state, the guard
--                      of the storage and the events, Credentials the signing and checking of a role
--                      credential, Roles and Proposals the methods of GovernanceKernel under their
--                      names. Theorems: Credentials/Lists, Kernel/Laws, Roles/Keys,
--                      Roles/Assignment, Roles/Reading, Roles/Verified, Roles/Permission,
--                      Proposals/Guards, Proposals/Blocking.
--   Governance/Ccl     CclInterpreter of src/lib.rs over the values of ast.rs: Reading has the loops and
--                      tests that the sections share, Sections and Membership the extract_ methods,
--                      Interpret interpret_ccl and validate_required_fields. Theorems: Checks, Typing,
--                      Accepted; Described, with the declarative reading of each section, and
--                      Described/Config.
--   Storage            crates/runtime/icn-storage/src: Memory has MemoryStorageManager and Joined
--                      AsyncInMemoryStorage of lib.rs, Cached InMemoryStorageManager of memory.rs, over
--                      the DagNode of icn-models (Types). Theorems: Memory/Laws, Memory/Keeping,
--                      Cached/Coherence, Cached/Sharing, Joined/Separation.
--   Mesh/Policy        crates/mesh/mesh-types/src/lib.rs: MeshPolicy, its fragments, and in Update
--                      apply_update. Theorems: Bounds, Shares, Refusal.
--   Mesh/Reputation    crates/mesh/mesh-reputation/src/lib.rs: ReputationSystem. Theorems: Record.
--   Vm                 crates/runtime/icn-core-vm/src: the counters of resources.rs and lib.rs, and in
--                      HostCalls the host calls on DAG nodes and tokens. Theorems: Metering,
--                      HostCalls/Charges, and HostCalls/Stored over the storage in memory.
-- Files named Tests hold concrete data, runs of the definitions and the theorems at that data.
--
-- How the code is read
--   An operation that reads and writes a storage is a function from the storage to a result and the
--   storage it leaves, also when it fails: what was written before the error stays written. A function
--   that only reads takes the storage and returns a result. Fresh Uuids and the time are arguments;
--   `finalize_budget_proposal` takes a supply of fresh identifiers, one per authorization. An error
--   keeps its variant and its data, and a message text is a constructor (TokenFault, BudgetFault,
--   PaymentError). u64 sums wrap at 2 ^ 64 as a release build computes them (add64, sub64), except
--   where the source checks. A HashMap is an association list in the order of an iteration; inserting
--   keeps the place of a key that is there. All loops are structural recursions. Fuel is spent by
--   `decimal`, which prints a u16 and has at most five digits, and by `get_contract_state`, which
--   spends one for each call of itself. The mutex on the escrow contracts is a flag, and a method that takes it while it holds it ends
--   in `deadlock`, for the wait or the panic of std::sync::Mutex. The mutex on the storage of the
--   governance kernel is a flag in the same way, and there a method that takes it twice waits for
--   ever. A key of that storage is the text the source formats. u32 counters wrap at 2 ^ 32, and i64
--   times at 64 bits (add_i64, mul_i64), and a sum of u8 percentages at 256. The loop of the
--   interpreter over a section is a fold whose state holds the loop's variables.
--
-- Parameters
--   serde_json (Serde and the accessors of Platform), the text of a Uuid, the CID of a key, and f64
--   (Floats) are arguments. Hypotheses on them are named where a theorem needs them: ReadsBack (what
--   serializes is read back), WritesAll (a storage that takes every write), LawfulTokens,
--   LawfulAuthorizations, LawfulBudgets and LawfulBackend, Reliable (what the role credentials rely on:
--   JSON and base64 are undone, keys do not collide), WritesEvents, LawfulCodec (what is encoded is
--   decoded, and a CID is known by its text), and IsShare (a percentage of a total, rounded up, is
--   at most the total, for totals up to 2 ^ 24, which f32 holds exactly). SHA-256, base64, CIDs, CBOR and the storages of the kernel and of the
--   DAG are parameters, and so is the parser of CCL, which a grammar generates. The tests instantiate them all.
--
-- Not modelled
--   Logging, locks of async mutexes that each method takes one after the other, the list of CIDs of
--   the in-memory storages, the storages over icn-storage, OperationCosts, parsing of policies,
--   ExternalPaymentAdapter, the anchoring of escrow events in a DAG, the grammar of CCL, the blobs of
--   AsyncInMemoryStorage, whose store_blob panics, and the RocksDB storage, most of which is not
--   implemented, the channel and the checkpoints of the reputation system, BudgetConfig, verifiable credentials and key storage, the recovery and the roles of a federation,
--   the creation of sub-entities and the WebAssembly engine, and the other crates of the repository.
pub mod Prelude
pub mod Economics
pub mod Escrow
pub mod Identity
pub mod Federation
pub mod Governance
pub mod Vm
pub mod Storage
pub mod Mesh
