-- ===== src/Lib.antt =====
-- The Sommelier chain's own modules, modelled and verified: x/auction,
-- x/cellarfees, x/cork, x/axelarcork, x/incentives
-- and x/pubsub.
--
-- The chain is a set of Cosmos SDK modules. Fees that cellars send over the bridge are counted by
-- x/cellarfees, which in its BeginBlocker lets x/auction sell a denom once enough
-- has come in, and hands out the usomm that the sales bring as rewards. x/auction sells by a price
-- that falls with the blocks (EndBlocker), takes bids (SubmitBid) and reads token prices that
-- governance sets. x/cork collects the validators' votes on calls of cellar contracts and tallies
-- them in its EndBlocker. x/axelarcork does the
-- same for calls on other chains, and checks the packets that go to Axelar. x/incentives pays
-- rewards from the community pool. x/pubsub keeps what publishers offer and who subscribes to it.
--
-- Base: shared helpers. Base/Exec is the state passing of a Go method with its error or panic,
--   Base/Table a prefix of a KVStore as a table that ascends by its keys, Base/Int and Base/Word the
--   integers and the 64-bit words with their wrap-around.
--   Base/Check is the stateless checks, Base/Keeping what methods keep, Base/Rising lists of heights that
--   climb.
-- Sdk: the Cosmos SDK's decimals, coins, addresses and bank as an interface; Sdk/Scaled is one way
--   to meet it, for tests and witnesses.
-- Auction: x/auction. Types (proto/auction/v1, errors), Store (the accessors of keeper.go), Validate
--   (types/auction.go, msgs.go), Params, Begin (BeginAuction), Finish (FinishAuction), Bidding
--   (SubmitBid of msg_server.go), EndBlock (EndBlocker of abci.go), Prices (proposal.go and
--   proposal_handler.go), Genesis. Begin/Opening, Finish/Closing, Bidding/Outcome, EndBlock/Pruning,
--   EndBlock/Pricing, Prices/Stored, Genesis/Roundtrip and Invariant hold the proofs; Invariant/Chain
--   has the step relation of the whole module.
-- CellarFees: x/cellarfees. Counters (types/cellarfees.go), Emission (GetEmission), Blocks
--   (beginAuction and BeginBlocker), Hooks (AfterSendToCosmosEvent), Params (types/params.go), Genesis
--   (genesis.go of both packages, GetAPY). Counters/Map, Emission/Bounds, Blocks/Starting, Blocks/Keeping,
--   Hooks/Counting and Genesis/Roundtrip hold the proofs.
-- Cellars: the loops over the ids of managed cellars that x/cork and x/axelarcork share;
--   Cellars/Members says what they leave.
-- Cork: x/cork. Types (the store of keeper.go), Tally (GetApprovedScheduledCorks and EndBlocker),
--   Scheduling (ScheduleCork), Cellars (the proposals that add and remove cellars), Validate (params.go,
--   the checks of cork.go, genesis.go and proposal.go), Reading (the getters of keeper.go and
--   query_server.go), Genesis (keeper/genesis.go). Tally/Clearing, Tally/Powers, Tally/Counting,
--   Tally/Approval, Scheduling/Effects, Cellars/Managed, Reading/Heights, Genesis/Roundtrip and Invariant
--   hold the proofs; Invariant/Chain has the step relation of the module.
-- AxelarCork: x/axelarcork. Types (the accessors of keeper.go and chain_config.go), Tally
--   (GetApprovedScheduledAxelarCorks and EndBlocker of abci.go), Packet (ValidateAxelarPacket of packet.go),
--   Messages (ScheduleCork and the proposals), Relay (RelayCork, RelayProxyUpgrade, BumpCorkGas), Cellars
--   and Spend (the proposals on cellars and on the community pool), Validate (params.go, the checks of
--   axelarcork.go, axelar_proxy.go and genesis.go) with Validate/Requests (msgs.go, proposal.go), Genesis
--   (keeper/genesis.go), Handler (handler.go, SendPacket of ibc_middleware.go), Reading (the getters of
--   keeper.go and query_server.go). Tally/Winning,
--   Tally/Expiry, Packet/Consuming, Messages/Scheduling, Relay/Sending, Cellars/Managed, Spend/Spending,
--   Genesis/Exporting, Handler/Replay and Invariant hold the proofs; Invariant/Chain has the step relation
--   of the module.
-- Incentives: x/incentives (EndBlocker, GetAPY, params.go, genesis.go). Incentives/Paying holds the proof.
-- PubSub: x/pubsub. Types (types/keys.go, proto/pubsub/v1), Store (the accessors of keeper.go with the
--   deletions that cascade), Validate (types/pubsub.go), Messages (msg_server.go), Proposals
--   (proposal_handler.go), Handler (handler.go), Genesis (genesis.go of both packages, msgs.go and
--   proposal.go). Removal, Messages/Effects, Linked and the modules below Genesis hold the proofs;
--   Linked/Reach has the step relation of the module.
-- Queries: the shape of the gRPC queries; Reading of each module has its answers (query_server.go).
--
-- A height is a natural number, as the uint64 that the code makes of it. A uint64 that the code adds
-- to or subtracts from wraps around at 2 ^ 64 and a uint32 at 2 ^ 32. Nothing runs on fuel: the loops
-- are over lists. A `math.Int` is an integer without the SDK's limit of 256 bits.
--
-- In x/pubsub a value is found exactly if its key is set. The source also takes a value without bytes,
-- a message with every field empty, for missing, and validation refuses such messages. An iteration over
-- the prefix of an address meets that address alone, as addresses are taken to be of one length. In the
-- subspaces of the parameters a value that does not validate is a panic.
--
-- Not modelled: events and logs, key bytes, the codec and the CLI, which compute nothing that the
-- operations read; the paging of queries, which is a parameter; the two
-- queries of x/incentives, which answer the parameters and GetAPY; the migration of an old version of
-- x/cork; generated code; the wiring of the modules in app and its upgrades; the Cosmos SDK, the gravity
-- bridge and go-ethereum, which are parameters.
pub mod Auction
pub mod AxelarCork
pub mod Base
pub mod CellarFees
pub mod Cellars
pub mod Cork
pub mod Incentives
pub mod PubSub
pub mod Queries
pub mod Sdk
