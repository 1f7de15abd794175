-- ===== src/Lib.antt =====
-- xTdb: a model of the storage core of the time-series database, and its correctness.
--
-- The program writes readings to a write-ahead log, gathers them in blocks, and keeps the blocks in
-- chunks of fixed size inside container files. A chunk starts with a header and a block directory
-- in its meta blocks; the data blocks follow. State words on disk are active-low bits. All disk
-- access goes through AlignedIO in extents of 16 KB.
--
-- The files and the code they are about:
--   Base             numbers, lists, bytes in memory, bits; used everywhere
--   Layout           include/xTdb/constants.h, src/layout_calculator.cpp: Units has the extent
--                    arithmetic and block classes, Calc calculateLayout and the offsets
--   Flags            the state bits of include/xTdb/struct_defs.h and
--                    StateMutator::validateTransition
--   Structs          RawChunkHeaderV16 and BlockDirEntryV16 of include/xTdb/struct_defs.h
--   Io               src/aligned_io.cpp: File is AlignedIO with its file, Buffer is AlignedBuffer
--   Mutator          src/state_mutator.cpp; `mutate` is the read, check, clear, write-back sequence
--                    that its operations repeat
--   Wal              src/wal_writer.cpp, src/wal_reader.cpp, and the replay loop of
--                    StorageEngine::replayWAL
--   Rotating         src/rotating_wal.cpp: Segment the state, Container open, close, creation and
--                    loading, Rotate the change of segments, Append the writes
--   Directory        src/directory_builder.cpp
--   Seal             src/chunk_sealer.cpp and src/raw_scanner.cpp
--   Records          the value types, MemRecord and TagBuffer of include/xTdb
--   MemBuffer        src/mem_buffer.cpp
--   Encoding         Door is src/swinging_door_encoder.cpp, Quantized the encoder and decoder
--                    src/quantized_16_encoder.cpp and src/quantized_16_decoder.cpp
--   Blocks           src/block_writer.cpp and src/block_reader.cpp: Rows the loops over rows of
--                    fixed size, behind an interface that Raw and Points fill with the formats,
--                    Writer and Reader the operations
--   Compact          src/compact_container.cpp: Structs the header and the index entries, Files
--                    the transfers, Container the operations
--   Metadata         src/metadata_sync.cpp: Tables the two tables and how a statement runs, Sync the
--                    statements that change them, Query the others
--   Engine           src/storage_engine.cpp: State the object, Chunks allocation, roll-over and
--                    restoring, Single flushSingleTag and handleSegmentFull, Batches the entries in
--                    front of the log, Flush, Points writePoint, Replay replayWAL, Query
--                    queryPoints, Maintenance retention, reclaiming, sealing and close
--   Tests            the theorems at concrete inputs
--
-- A method is a function from the object's state and its file to a result, the new state and the
-- new file. The file is a function from addresses to bytes with a size, an open flag and the count
-- of system calls made. pwrite, pread, fsync, fallocate and aligned allocation are the parameter
-- Io.Os: it chooses what each call returns, within what POSIX says, so a short transfer or a failure
-- can happen at any call; IsReliable says that calls do all they are asked. Structs are their
-- little-endian bytes, and a field access is a load or store at its offset. uint32_t and uint64_t
-- arithmetic is written out modulo 2 ^ 32 and 2 ^ 64; counters of statistics are unbounded.
-- Values of floating-point type are their bytes; what the encoders compute with doubles is the
-- parameter Encoding.Doubles. A compact container uses lseek, read, write and fsync, the parameter
-- Compact.Files.Calls, which may divide a transfer as it likes; its compressor and zlib's crc32 are
-- parameters too, with what is relied on of them in IsLossless and IsChecksum.
--
-- The engine is given a Platform: the system, the arithmetic of doubles, SQLite, the conversions
-- between number types, and std::sort, of which Sorts is relied on. SQLite is the parameter
-- Metadata.Tables.Sqlite: it says which calls fail and in which order rows with equal keys come, and
-- IsSqlite is what ORDER BY promises. An operation of the engine is a step from the engine to a
-- result and the engine after it, also where it fails. The blocks of a flush and the reads of a query
-- are tasks of a thread pool; here they are run in the order in which they are submitted, and each
-- ends within the time that flush waits for it. A round of the thread that empties the log's batches
-- is `background_round`. An unordered map is a list in the order in which it is gone through. While
-- the log calls back into the engine for a segment that is full, the log and the engine's other state
-- are passed on together.
--
-- Loops are recursions on the list or count they go through. The replay loop has
-- fuel, the number of calls of readNext it may make, a parameter of the properties that use it; one
-- more than the entries in the log is enough. The loop of reclaimDeprecatedChunks has fuel for its
-- rounds, of which one per chunk of the container is enough. The loop of calculateLayout has its ten rounds. The
-- transfer loops of a compact container have the number of bytes as fuel, since POSIX read and write
-- of a regular file transfer at least one byte, so each round makes progress.
--
-- Where the source calls a method and looks at the result later, the model names the call's result
-- first and uses it in the branch that makes the call; in the other branches the state before the
-- call is returned.
--
-- What a memcpy of the block writer puts behind the end of its buffer is kept in the bytes of the
-- model, which have no end; the write to the file takes the block only.
--
-- Not modelled: error messages and log output, locks, allocation failure, Windows branches, the
-- containers below the engine with mountContainers and the order of the steps of open, the archive
-- managers, interpolation and resampling, the thread pool, the C interface. A reference into the
-- vector of segments is the index of its slot. Of the thread that empties the batches, its rounds are
-- modelled, and not where they fall between the calls.
pub mod Base
pub mod Layout
pub mod Flags
pub mod Io
pub mod Structs
pub mod Metadata
pub mod Mutator
pub mod Wal
pub mod Seal
pub mod Directory
pub mod Rotating
pub mod Records
pub mod MemBuffer
pub mod Encoding
pub mod Blocks
pub mod Compact
pub mod Engine
mod Tests
