-- ===== src/Lib.antt =====
-- Verification of qv-lite, a time series database: the codecs and the block index of its segments,
-- its queries and their conditions, its write-ahead log, and the binary batches of its clients up to
-- the stream ingestor of the server.
--
-- Prelude: names shared by all files: numbers, Boolean tests, lists indexed by native numbers.
-- Wire: 64-bit words and Go's encoding/binary: big and little endian numbers, uvarints. An int64 is
--   its two's complement pattern below 2 ^ 64, a byte a number below 256.
-- Codec: what tsdb writes for one column of a block. An encoder is a record of the Go struct's fields,
--   `write_all` is a caller's loop of Write, `bytes` is Bytes; a decoder is a record too, `set_bytes` or
--   `init` fills it, and `drain` is the loop `for d.Next() { d.Read() }`. `drain` runs on fuel, one unit
--   for each Next, so that one more than the count of values is enough; the theorems give that fuel.
--   Codec.ZigZag: ZigZagEncode and ZigZagDecode of tsdb/segment_compression.go.
--   Codec.Int: tsdb/segment_compression_int.go. Codec.Time: tsdb/segment_compression_timestamp.go.
--   Codec.Flag: tsdb/segment_compression_bool.go. Codec.Text: tsdb/segment_compression_strings.go.
--   simple8b, snappy and the conversions of variants are parameters with the behaviour that they
--   document; a call that would panic is a value of its own (`panics`, or `none`).
-- Condition: EvalCondition and CompileCondition of tsdb/condition.go over an abstract variant.
-- Batch: the encoder of server/client/batch_binary.go (Batch.Client), the blockReader and the handler
--   of server/batch_binary.go (Batch.Blocks, Batch.Server), which adds to the stream ingestor. The
--   connection delivers the bytes in any pieces, and of a request only as many as MaxBodyBytes, a
--   parameter, allows. The loop of refill has fuel for one byte a round, which is enough.
-- Ingest: the StreamIngestor of server/ingest.go, with the map of tables as a function and the calls of
--   `ingest` that succeeded as a list.
-- Wal: the write-ahead log of tsdb/file_wal.go. A log file is the bytes on the disk, its length, its
--   read buffer and its mark of late points; `walFiles`, which is never empty, is the complete files
--   and the last one. What the disk does in a write is an argument: how many bytes a failing write
--   leaves, and whether a rotation opens the next file and closes the old one.
--   github.com/mababaNiubi/variant is a record of the functions that the log calls.
--   Wal.Frames: appendSerialized, getAllData, forEachWalFile and what NewWalFile does with one file. The
--   loops have fuel for one byte a round, and a round reads four at least. Wal.Buffer: walReadBuffer.
--   Wal.States: loadTagState and storeTagState; the doubling has fuel for the index that it looks for.
--   Wal.Policy: dedupRuns. Wal.Files: writeBatchLocked, WriteRuns, rotateIfFull and addWalFile.
--   Wal.Reads: ReadByTime, forEachCompleteFile, completeFileState, GetTagMaxTimestamp, NeedFlush.
--   Wal.Upkeep: NewWalFile, truncate, retainWalFilePrefix, SetLastPoint, updateWalConfig, Close.
--   The modules below these hold the proofs: a log stands for the list of the entries of its files.
-- Query: the mergePointIter of tsdb/point_iter.go, over any two sources with a method next. Query.next
--   is one call, whose loop has one unit of fuel for each iteration, and `drain` a caller's loop.
--   Query.Walk: walkFiltered, walk and forEachQueryPoint, on the same fuel; `fn` changes an accumulator.
--   Query.Results: Query and resultLimitFn of tsdb/table.go, with the limit on the points of a query.
-- Index: the block index of tsdb/segment_index.go in memory. `sort.Search` halves
--   an interval; its fuel, one unit for each position, is enough.
--
-- Not modelled: the index file, the float, JSON and column codecs, the names of log files, the segment
-- and block files, the sources of queries, tables and databases but for Query, the HTTP server around
-- the batch handler, the line and JSON protocols, the client's transport and the C plugin: they stand
-- on files, locks, goroutines, the network or floating point, or are left for a later extension.
pub mod Prelude
pub mod Wire
pub mod Batch
pub mod Codec
pub mod Condition
pub mod Index
pub mod Ingest
pub mod Wal
pub mod Query
mod Tests
