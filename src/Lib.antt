-- ===== src/Lib.antt =====
-- The OPinit bots: a challenger and an executor that watch an L1 (host) and a rollup (child), relay
-- deposits and withdrawals, and challenge what the two chains disagree about.
--
-- The parts and their files, with paths from the repository's root:
--
-- Base: Boolean tests, lists, results, 64-bit words and byte strings that all parts share.
-- Db: types/db.go and db/types. A store is a record of operations over a state; `Writes` is what the
--   code relies on, that a written value is read back and other keys stay. The JSON codec of a type is
--   a parameter, `Json`. Db/Keys has the big-endian keys and their separator.
--   Db/Level is db/db.go over `Level`, the calls of goleveldb, with `LevelLaws`; Db/Iterator its walks,
--   an iterator being the list of its entries; Db/Stage is db/stage.go, and Db/Basic the interface that
--   store and stage share.
-- Clock: types/time.go.
-- Merkle: merkle/merkle.go. `Merkle` is the working tree, with the last node of each height;
--   `insert_leaf`, `fill_leaves`, `finalize_working_tree`, `prepare_working_tree` and `height` are the
--   methods. The loop of InsertLeaf recurses on accessibility of the node index, which halves; the bit
--   length takes 64 rounds, enough below 2^64. Merkle/Keys is merkle/types/key.go, Merkle/Store is
--   merkle/db.go with GetProofs. Merkle/Spec describes the full tree over a sequence of leaves: a
--   node's hash from the hashes of its children. Merkle/Insert, Climb and Tree carry the invariant of
--   the insertions, Merkle/Height the bounds of the height, Merkle/Prepare
--   the step to the tree of the next block, Merkle/Finalize the padding, Merkle/Run and
--   Merkle/Build whole runs, and Merkle/Saved and Merkle/Proofs what GetProofs reads back.
-- Challenger: Challenger/Event is challenger/types/challenge.go, Challenger/Pending and
--   Challenger/Check are challenger/eventhandler. The map of pending events is an association list.
--   `check_value` compares the events of a block with the pending ones, `check_timeout` compares the
--   pending ones with the clock. Challenger/Keys is challenger/types/keys.go, Challenger/Store is
--   challenger/eventhandler/db.go with what is used of challenger/db. Challenger/Child is
--   challenger/child: the tree and the output of a block, and the end of the block with its commit.
-- Node: node/process.go and node/block_handler.go. The state of the bot that the handlers change is a
--   type parameter, and an action gives its error, if any, and the state it leaves. Node/Process has the
--   loops over the heights, by the rounds left; Node/Progress what a run comes to; Node/Calls the list of
--   calls that a block stands for.
-- Executor: executor/child. Executor/Withdrawals has the withdrawals in the store, Executor/Child the
--   working tree and the output of each block; its methods are machines: a result and the receiver they
--   leave. Executor/Child/Sequences, Outputs and Preparation have their properties. The host, the hashes
--   of the chains' modules and the codecs are the fields of `Environment`.
-- Broadcaster: node/broadcaster. Broadcaster/Types has the stored records with their keys and encodings,
--   Broadcaster/Store is db.go, Broadcaster/Chunks the grouping of messages, with one round of fuel for
--   each message, since a round takes at least one. Broadcaster/Queue is the state of a broadcaster, its
--   accounts and the queue of pending transactions, with the loops of Broadcaster/Loops;
--   Broadcaster/Sending is handleMsgError and handleProcessedMsgs, Broadcaster/Retry a batch in Start,
--   Broadcaster/Loading the loop of loadPendingTxs, on fuel of four rounds for each transaction and four more.
--   `Rpc` is the node with the building of transactions, `Texts` the reading of error texts.
-- Batch: executor/batchsubmitter. Batch/Data is executor/types/batch.go, Batch/Info the queue of batch
--   infos, Batch/Submitter what becomes of the file of a batch. The loop over the file has one round more
--   than the file has bytes, since a round reads a byte at least. `Zip` is the gzip writer, `DaNode`
--   the data availability layer. Batch/Store is db.go and status.go, Batch/Block prepareBatch and
--   rawBlockHandler; the polls that prepareBatch waits for are a list of answers, and the removal of
--   oracle data, data_conversion.go, is a field of `Environment`.
-- Provider: provider/host/parse.go and provider/child/parse.go. Provider/Parse has the loop over the
--   attributes that every function repeats, with the switch as its argument; Provider/Parse/Host and Child
--   have the switch, the required keys and the values of each function.
-- Db/Sweep: the loop that deletes the entries of a prefix from a key on, which node/db.go, merkle/db.go,
--   challenger/db and challenger/eventhandler repeat, over stores whose iterators walk in the order of the
--   keys. Its clients are Merkle/Cleanup, Node/Store, Challenger/Records (challenger/db/db.go) and
--   Executor/Reset (executor/db.go); Provider/Start is what the child deletes at its start.
-- Challenger/Latest and Challenger/Handler: challenger/handler.go, the latest challenges and the loop over
--   the channel. Challenger/Host: challenger/host, the handlers of the host chain's events.
-- Provider/Messages: provider/child/msgs.go, the messages to the child. Executor/Host: executor/host, with
--   the queues of provider/host/host.go; Executor/Host/Events are the handlers of
--   the events, Executor/Host/Steps a block with its events and transactions. Its end of a
--   block uses the grouping of Broadcaster/Chunks, the saving of Broadcaster/Store and the commit of Db/Stage.
--   Block heights are not negative.
-- Tests: runs on concrete inputs.
--
-- Conventions: a uint64 is a natural number with its wrap-around written `% 2^64`; a time is its
-- nanoseconds since the zero time; errors are values of a data type per part. Logging, metrics, tracing
-- spans and locks are not modelled, nor are network calls, command line and generated code; JSON codecs
-- and the store are parameters. A read of goleveldb fails in the model only when the key is missing. The
-- conversion of a block by CometBFT is a parameter that can fail. The node generator is a parameter, and what needs that it does not
-- depend on the order of its arguments says so.
mod Base
pub mod Db
pub mod Merkle
pub mod Challenger
pub mod Node
pub mod Provider
pub mod Executor
pub mod Batch
pub mod Broadcaster
pub mod Clock
mod Tests
