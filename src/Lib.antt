-- ===== src/Lib.antt =====
-- Talek: private messages by private information retrieval (PIR).
--
-- A client of libtalek writes a message, in encrypted fragments, to random buckets of a cuckoo
-- table that every server keeps, and reads a bucket by sending one request vector to each of the
-- servers. A server answers the exclusive or of the buckets that its vector selects.
--
-- The files and the code that they model:
--   Base       what the parts share: Go slices as lists, with what an index out of range does;
--              calls that may return an error or panic (Outcome); counted loops with their
--              invariant rule; bits, bytes and little-endian words.
--   Pir        pir/: Pir/Xor is pir/xor/xor.go, Pir/ShardCpu is pir/pircpu/shard_cpu.go,
--              Pir/Client is pir/pirclient/client.go, Pir/Server is pir/libpir.go, and
--              Pir/Retrieval composes the client and the shards of the servers.
--   Cuckoo     cuckoo/: Cuckoo/Item is item.go, Cuckoo/Table is table.go, with the proofs in the
--              modules below it.
--   Bloom      bloom/: Bloom/BitSet is bitset.go and Bloom/Filter is filter.go.
--   Drbg       drbg/: Drbg/Seed is seed.go and Drbg/HashDrbg is hash_drbg.go.
--   Common     common/: Common/ReadArgs is Bucket of readargs.go and Combine of
--              frontend_protocol.go; Common/Encoding is Encode and Decode of readargs.go;
--              Common/Protocol is the types of the two protocols, and Common/Range their ranges.
--   Coordinator server/coordinator/server.go and its protocol: the state under the lock, its
--              handlers, and in Coordinator/Run the states that they reach. It inserts the commits
--              of its window into a table of Cuckoo and their locations into a filter of Bloom.
--   Shard      server/shard.go: the handling of writes, on a table of Cuckoo.
--   Server     server/: Server/Reads is the batches of shard.go, Server/Replica is replica.go, over
--              Shard and Server/Reads, and Server/Frontend is frontend.go, over any replicas.
--              Server/ReadPath composes a client's read with the frontend, the replicas and Pir,
--              and Server/ReadPath/Delivery also with the topic that wrote the bucket.
--   Libtalek   libtalek/: Libtalek/Message is message.go, Libtalek/Handle is handle.go,
--              Libtalek/Topic is topic.go, and Libtalek/Client is client.go, with the handles that
--              it polls in Libtalek/Client/Polling.
--   Tests      runs on small inputs, and the theorems at inputs where their hypotheses hold.
--
-- Functions keep the source's names in another spelling: fastXORBytes is fast_xor_bytes,
-- tryInsertToBucket is try_insert_to_bucket. A method takes its receiver as an argument and
-- returns the state that it leaves. The bytes of a slice are natural numbers below 256.
--
-- Bounds and fuel. The loop of Insert has 500 rounds in the source, and these are the fuel of
-- evict_loop. The loop over the messages of a bucket has the bucket's bytes as fuel, which
-- retrieve_response-Scans shows to be enough for a positive data size; a loop that needs more gives
-- the error no_fuel, which no call of the code gives. All the other loops are counted in the source.
-- Sizes that are lengths of slices in memory are taken to be below 2^63; the 32-bit lengths of
-- message.go keep their wrap-around.
--
-- Random numbers are parameters: the stream of draws of a table's source, and the results of
-- rand.Read, with the hypothesis Fills that rand.Read fills the buffer without an error. SipHash
-- is a parameter of Bloom and Drbg, and so is what Config computes in floating point in Coordinator.
-- nacl/box, ed25519 and gob are parameters of Libtalek and Common/Encoding (Primitives, Codec), with
-- what they document as hypotheses (IsSound); the interest filter of another package, and what the
-- leader answers, are parameters too.
--
-- Concurrency. The goroutines talk by channels; a round of a loop, a call under a lock or an atomic
-- addition is one step, and runs are lists of steps. Channels are lists without a bound. The writes
-- of the frontend run without a lock: there a step is the addition, the call of one replica, or the
-- return, of any call in any order (Run of Server/Frontend/Order).
--
-- Not modelled: NewShard, which needs floating point, and the texts of topics and handles.
-- Also left out: the GPU backings (pir/pircl, pir/pircuda), the RPC glue, logging, the commands
-- in cli/, and configuration files.
pub mod Base
pub mod Pir
pub mod Cuckoo
pub mod Bloom
pub mod Drbg
pub mod Common
pub mod Coordinator
pub mod Shard
pub mod Server
pub mod Libtalek
mod Tests
