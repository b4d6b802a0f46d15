-- ===== src/Lib.antt =====
-- go-nitro: nitro state channels off chain, in Go. This library models the channels themselves:
-- what a state pays out, what a signature on it means, how a directly funded channel and a running
-- ledger channel move from one state to the next, and how objectives fund and close channels,
-- direct and virtual ones.
--
-- Parts and files, by the paths from the repository's root:
--   Base       helpers: lists, integers (`big.Int`), maps, sorted keys, errors as values.
--   Types      types/destination.go (Types/Destination: `is_external`, `to_address`,
--              `address_to_destination`) and types/funds.go (Types/Funds: `sum`, `can_afford`,
--              `equal`, `clone`; laws in Types/Funds/Laws).
--   Outcome    channel/state/outcome: allocation.go (Outcome/Allocation: `total`, `affords`,
--              `divert_to_guarantee`), exit.go and deposit-safety.go (Outcome/Exit), transfer.go
--              (Outcome/Transfer: `ComputeTransferEffectsAndInteractions` is `compute_transfer`).
--   State      crypto/signatures.go, crypto/keys.go and channel/state/state.go: signatures
--              (State/Signature, State/Signing), states (State/Data), identifiers, hashes and
--              signing (State/Hashing); channel/state/signedstate.go (State/Signed: `add_signature`,
--              `merge`; who signed in State/Signed/Signers, what a merge leaves in
--              State/Signed/Merging).
--   Channel    channel/channel.go, constants.go and virtual.go: the record and its queries
--              (Channel), `new`, `clone`, `add_signed_state`, `sign_and_add_state` (Channel/Updates),
--              the invariant (Channel/Support), what is not checked (Channel/Unchecked), what an
--              update keeps (Channel/Kept), and the JSON codec (Channel/Serde).
--   Consensus  channel/consensus_channel: guarantees, ledger outcomes, proposals, `Vars`, the
--              channel (consensus_channel.go) and the operations of leader and follower
--              (Consensus/Updates, for leader_channel.go and follower_channel.go): `propose`,
--              `leader_receive`, `follower_receive`, `sign_next_proposal`, `receive`; serde.go is
--              Consensus/Serde. Proofs:
--              Vars/Funds and Vars/RoundTrip on balances, Updates/Inversion on what a call has
--              checked, Updates/Invariant and Updates/History on one channel, Updates/Session
--              on both copies of it, Support on its signed state, Support/Copies on clones and on
--              a ledger that moves by these operations.
--   Protocols  protocols/interfaces.go and messages.go (Protocols, Protocols/Messages: identifiers,
--              statuses, effects, messages, chain events); directfund/directfund.go
--              (Protocols/DirectFund: the objective and its updates, `create_consensus_channel`;
--              Protocols/DirectFund/Crank: `crank` stage by stage) and
--              directdefund/directdefund.go (Protocols/DirectDefund, in the same way). Proofs:
--              Safety (one crank) and History (any sequence of calls) of each, over
--              Protocols/Lives; DirectFund/Ledger. virtualfund/virtualfund.go is
--              Protocols/VirtualFund, with connections in VirtualFund/Ledgers and `crank` in
--              VirtualFund/Crank (proofs: Invariant, Safety, History);
--              virtualdefund/virtualdefund.go is Protocols/VirtualDefund and VirtualDefund/Crank
--              (proofs: Received and Signed on updates, Safety and Defunding on one crank, History,
--              Payment on the final outcome).
--   Store      client/engine/store/memstore.go: the store in memory, `set_objective` and the reads
--              (Store), over what serde.go of each protocol keeps of an objective (Store/Serde), the
--              codec in channel/channel.go (Channel/Serde) and channel/consensus_channel/serde.go
--              (Consensus/Serde). A JSON text stands as the record that it spells.
--              Proofs: Store/Reading and Store/RoundTrip, Store/Ownership.
--   Engine     client/engine/engine.go and policy_maker.go: the handlers of the engine (Engine),
--              over the calls of an objective of any protocol (Engine/Objectives). Proofs:
--              Engine/Progress, Engine/Admission, Engine/Handling.
--   Tests      runs on concrete inputs, with a toy library.
--
-- How they interact: a ledger channel turns its `Vars` into a state (`as_state`), whose hash is
-- signed and recovered by State; a queue of proposals leads from the consensus state to the latest
-- one. A channel stores signed states by turn number and merges what it receives into them. A
-- direct funding objective drives such a channel to its postfund state and makes a ledger channel
-- of it. A virtual funding objective puts a guarantee into the ledger channels on its two sides,
-- by their proposals, and a virtual defunding objective takes it out. All stand on exits, which
-- stand on allocations and funds.
-- The engine reads or makes the objective that an event concerns, updates it, cranks it with the
-- key of the store, stores it, and sends and submits what the crank says.
--
-- Conventions. Addresses and destinations are the numbers that their bytes spell, big-endian. A Go
-- map is an association list in some order of iteration, with `IsMap` saying that its keys differ.
-- `big.Int` is an unbounded integer; a pointer that some code tests for nil, or that the code
-- follows where it can be nil, is an option, and following nil is the error `panicked`. Turn
-- numbers are 64-bit: raising one wraps around, modulo 2 ^ 64. A method that changes its receiver
-- returns the new value; where it fails it leaves the receiver as it was, except for
-- `SignedState.Merge`, whose model gives the receiver afterwards in each case. An error that wraps
-- another is the wrapped one. All loops are structural recursion over lists; the one fuel, in
-- `decimal`, is the number itself plus one, which its count of digits never passes.
--
-- Parameters: go-ethereum's hash, curve and ABI codec are the record `Library`, and `CurveLaws`
-- says what a theorem takes from the curve: lengths, recovery ids, and that recovery finds the key
-- that signed.
--
-- Not modelled: the characters of JSON texts (encoding/json), the codec of messages, `String` methods
-- and log texts; the client and the go channels of the engine; chain and message
-- services, which are I/O; generated contract bindings; the contracts in nitro-protocol.
-- Sharing between Go maps is modelled within a call: a signed state that `AddSignedState` stores
-- under a new turn number shares its map with the caller's, which later merges then change too.
-- A handler of the engine that fails stops the engine, so that its error has no state after it; a
-- send to the channel for proposals, which is never made, is the error `blocked`.
-- A virtual defunding objective shares its ledgers with its copies: `crank` returns them as they
-- are afterwards also where it fails.
pub mod Base
pub mod Types
pub mod Outcome
pub mod State
pub mod Channel
pub mod Consensus
pub mod Protocols
pub mod Store
pub mod Engine
pub mod Tests
