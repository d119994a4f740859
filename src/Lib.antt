-- ===== src/Lib.antt =====
-- A verification library for EGG-Chain, a proof-of-work block chain in Rust.
--
-- The program, by its crates (paths from the repository's root):
--   * EGG-Chain/crates/egg-types: the data of the chain and its canonical byte encoding. Types has the
--     structs, Bytes and Cursor the byte strings and the reader, Canonical the encoders and decoders.
--     A `u8`, `u32`, `u64` or `usize` is a number, and a predicate says which ones the type holds; an
--     `i64` is an integer with its two's complement written out in Prelude/Int.
--   * EGG-Chain/crates/egg-crypto: domain-separated hashes, proof of work and the Merkle root, in
--     Crypto. The crate `blake3` is the parameter `Blake3`, a function to arrays of 32 bytes of which
--     nothing else is assumed; safety against two inputs with one digest is stated as a disjunction.
--   * EGG-Chain/crates/egg-chain: the pool (Mempool), the genesis block (Genesis), block templates
--     (Builder), the search for a nonce (Miner) and the chain state (Chain).
--   * EGG-Chain/crates/egg-db: the key-value interface and its instance in memory (Kv), and the chain
--     store on top of it (Store).
--   * EGG-Chain/crates/egg-net: messages (protocol.rs), their frames (codec.rs) and the state machine of
--     a peer (peer.rs), in Net. An instant is a number of nanoseconds that the methods are given.
--   * EGG-Chain/crates/egg-node: the two sessions of lib.rs, `run_responder_once` and
--     `run_syncer_once`, from the connection on, and `run` of main.rs (Boot), in Node.
--
-- How the parts interact: the miner drains the pool into a block template and searches for a nonce;
-- the chain state verifies a block or a header, writes it to the chain store, and chooses the tip; the
-- chain store turns each record into bytes under a key of the key-value store; a message carries
-- headers and blocks in their canonical encoding, and a frame carries a message. A session of the node
-- reads frames, gives their messages to the machine of the peer and sends what that answers; the
-- responder answers from the chain store, and the syncer gives the headers and blocks to the chain
-- state.
--
-- The network and the clock are data. `Input` (Node/Defs) has the outcomes of the calls of `read`, each
-- a chunk of bytes or an error, and the buffer of `FramedTcp`; `Output` has the messages whose frames
-- were written, the error of each write and each reading of the clock, which need not grow. The order
-- in which `inflight` is walked, which a `HashMap` does not promise, is the parameter `order`. A
-- `Session` is the output with the machine of the peer, and a `Syncer` a session with the chain state
-- and the variables of `run_syncer_once`. `NodeError` keeps the errors of the chain and what the text
-- of `NodeError::Protocol` is made of; its case `waiting` stands for a call of `read` that the input
-- has no outcome for.
--
-- State. A method that changes its object takes the object and returns it beside the result. A method
-- that may fail behind a shared store is a function of type `Exec` (Exec): the store that it leaves
-- comes back beside an error too, since what was written before a failure stays written. `ChainState`
-- holds the content of the store that the Rust value is a handle of. `Run` in Chain/Defs is the type
-- of its methods, with `asks` and `writes` for the calls of the store and do blocks for `?`.
-- Store/View states what the chain store promises: seven maps, and `Implements` says that every read
-- answers as they do; Store/Refines and Store/Children treat the writes one by one. A key-value
-- store is a record of operations (`KvStore`) with laws (`KvLaws`): writes do not fail, and a read
-- returns what was written last under its key. `MemKv` is its instance in Kv, and `SledKv` in Kv/Sled,
-- on a parameter for the crate `sled`. In Genesis/File the crate `toml` and the file system are
-- parameters. In Node/Boot the databases on a disk are one too: an open database is its content, and
-- what is written to it is put on the disk.
--
-- Loops and fuel. The nonce search takes the source's own bound of 50,000,000 tries; the Merkle loop
-- takes as many rounds as there are leaves. `validate_best_chain`, `reorg_canonical`,
-- `bootstrap_indexes_from_tip` and `connect_descendants_from` follow links that the store holds and
-- take their number of steps as an argument, with the error `out_of_fuel`, which the source does not
-- have. Each round of `validate_best_chain` goes down by one height, so one step more than the height
-- of the tip is enough for it. The other three follow parents or children as far as the store holds
-- them, so a number of steps above the number of stored blocks is meant. The loops of a session take a
-- number of rounds: each round takes an outcome of `read` or a byte of the buffer, so more rounds than
-- there are of both are enough, and the loop of `recv` is recursive on the outcomes of `read`.
--
-- Files: Prelude has what the modules share (tests on numbers and bytes, lists, results, machine
-- words, association lists for `HashMap`). Canonical, Crypto, Mempool, Genesis, Builder, Miner,
-- Store and Chain each have child modules for what they define and prove. In Chain: Defs, Reorg,
-- Connect, Ingest, Open, Queries and Validate are the methods of state.rs; Keeps, Still and
-- Ingested say how a relation on states is carried through them, and TipOrder, ForkChoice and
-- TipChange (the choice of the tip), Lasting (the records of the store), Checked (validation) and
-- Placed (the block that is ingested) use that; Abstract, Rounds and Sound are the validation;
-- Fresh, Restart and Verified the opening. Exec/Rules and Exec/Yields have the rules for methods in
-- sequence. In Net: Wire, Message and RoundTrip are the messages, Frame and Framing the frames, and
-- Peer the state machine, with Defs and Handlers for the methods and Bans and Steps for what holds.
-- In Node: Defs is the connection, Session what both sides do with the machine of a peer, Responder
-- and Syncer (headers) and Download (blocks) the loops, Run the two functions; Recv and Stream
-- treat the bytes that are read, Answers the responder, Sizes, Settles, SyncSettles, HeadersEnd and
-- Ends the rounds, Requests, Quiet, Attempts, Fair, FairSteps, FairDownload, HeadersQuiet and Bound
-- the number of requests, and Placed, PlacedSteps, PlacedFill, PlacedBlocks, Queueing, Headers,
-- Received (the headers that the input holds), HeadersAdded, Finished and Complete the blocks.
-- Examples has concrete data, tests and uses of the theorems.
--
-- Not modelled: accept, connect and the options of the sockets; `main`, which prints the result of
-- `run`; the RPC types (EGG-Chain/crates/egg-rpc), which are data with derived code; locks, since each
-- method runs alone.
pub mod Prelude
pub mod Bytes
pub mod Utf8
pub mod Types
pub mod Cursor
pub mod Canonical
pub mod Crypto
pub mod Mempool
pub mod Genesis
pub mod Builder
pub mod Miner
pub mod Kv
pub mod Exec
pub mod Store
pub mod Chain
pub mod Net
pub mod Node
pub mod Examples
