-- ===== src/Lib.antt =====
-- The token factory module (x/tokenfactory): any account may create denoms `factory/{creator}/{subdenom}`
-- and, as their admin, mint, burn and move their coins, set their metadata, or pass them on.
--
-- The parts, and the code that each file is about:
--   Base        byte strings (package strings), outcomes of Go calls: a value, an error or a panic
--   Env         the code outside the repository that the module itself calls: the key-value store,
--               bech32 addresses, coins, and the keepers of types/expected_keepers.go. `Env` is a
--               parameter of every definition that calls it; `StoreLaws`, `AddressLaws`, `DenomLaws`
--               and `BankLaws` are what the theorems rely on, and are hypotheses where they do. The
--               import of a genesis relies on `ImportLaws` too (Keeper.Genesis.Valid), and what is said
--               of supplies and balances on `LedgerLaws` (Ledger), which are what the bank's calls do
--               when they return. That a Mint can be burnt again relies on `FundsLaws`: what is
--               not locked can be paid, and the module's account, registered to burn, can burn what it
--               holds. Each of the other parameters
--               below has its own record of laws.
--   Types       types/keys.go (Keys), types/denoms.go (Denoms), types/params.go (Params),
--               types/authorityMetadata.go (Authority), types/events.go (Events), types/msgs.go
--               (Messages), types/genesis.go (Genesis)
--   Codec       types/authorityMetadata.pb.go: varints (Varint), unknown fields (Skip), the message
--               (Authority). Fields is what the generator writes for each kind of field and around
--               them; over it types/tx.pb.go (Messages, and Any for all six), types/query.pb.go
--               (Queries), types/params.pb.go and types/genesis.pb.go (Genesis). `Wire` stands for the
--               codecs of the SDK's coins and metadata.
--   Keeper      keeper/*.go, a file for each: State (keeper.go), Params, Admins, Creators, BankActions,
--               CreateDenom, MsgServer, Query (grpc_query.go), Genesis and Export (genesis.go). Exec is
--               the monad of calls that work on a state and may fail. Keeper.Genesis.Import,
--               RoundTrip and Onwards say what a genesis brings in, that the export gives it back,
--               and how the chain goes on from it.
--   Keeper.Invariant   the invariant of the module's state, and its theorems
--   Keeper.Registry    what the keeper promises: a registry of admins and of creators' denoms, without
--               keys, bytes or order, which the handlers refine; Listed is about its lists, Supply
--               is the account of its coins
--   Keeper.Make the wiring of a keeper (NewKeeper, SetContractKeeper)
--   Client      client/cli: what each command checks, builds and sends. `Cli` stands for cobra and the
--               SDK's client package.
--   Gateway     types/query.pb.gw.go: the requests behind the routes, their handlers, and the two
--               registrations. `Runtime` stands for the grpc-gateway runtime, `Connections` (Endpoint) for
--               gRPC, `Mux` (Laws) for the mux; Served puts the keeper behind the gateway.
--   Module      types/codec.go (Registration) and module.go (App, Basic, Assembly), over the codecs and
--               the registry of the SDK
--   Simulation  simulation/sim_msgs.go: the random choices (Random, Accounts), the operations
--               (Messages), how often each is drawn (Weights). `Simulator` stands for the source of
--               randomness, the bank's balances and coins; an operation ends with what it would hand to
--               GenAndDeliverTxWithRandFees.
--   Examples    a chain in memory that satisfies the laws of the store, of addresses and of imports, a
--               bank that counts coins and satisfies those of the ledger (Vault), and the theorems at
--               concrete inputs
--
-- A message comes in at `validate_basic`, and then at `handle`, which routes it to its handler. The
-- handlers call the keeper's functions, those call the store and the other keepers through `Env`.
-- Function names are the source's, in another spelling: `setAuthorityMetadata` is
-- `set_authority_metadata`, `msgServer.Mint` is `handle_mint`.
--
-- Strings and addresses are lists of byte values. A handler that fails keeps what it has written so
-- far; to undo that is the business of the application, which runs a message on a branch of the store.
-- A varint has ten groups at most, so its loops run on ten rounds. The loops of Unmarshal and of the
-- skipping of unknown fields run on fuel, the number of bytes left: each round takes a byte at least,
-- and Codec.Laws.Total, MessagesTotal and GenesisTotal show that the fuel is enough. `|` on numbers
-- whose bits are disjoint is `+`.
--
-- Not modelled: the gas that store accesses cost, and so the panics of a store that runs out of it; the
-- text of errors; the generated messages without fields, gRPC stubs and reflection glue; the SDK's
-- registries and its JSON; simapp, which wires modules of the SDK together for tests.
pub mod Base
pub mod Env
pub mod Types
pub mod Codec
pub mod Keeper
pub mod Client
pub mod Simulation
pub mod Module
pub mod Gateway
mod Examples
