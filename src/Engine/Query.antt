-- ===== src/Engine/Query.antt =====
-- StorageEngine::queryPoints. The block reads of the thread pool are run in the order in which they
-- are submitted.
use x_tdb.Base.{
  ℕ, zero, suc, ◌+◌, ◌*◌, Bool, true, false, not, ◌&&◌, ◌||◌, Option, none, some, List, [], ◌∷◌,
  ◌++◌, length, ltb, ◌==◌, if◌then◌else◌,
}
use x_tdb.Layout.Units.{u64}
use x_tdb.Layout.Calc.{ChunkLayout}
use x_tdb.Rotating.Segment.{signed_lt}
use x_tdb.Structs.{BlockDirEntry}
use x_tdb.Directory.{DirectoryBuilder, entry_is_sealed, get_entry, load_directory}
use x_tdb.Seal.Scanner.{ScannedBlock}
use x_tdb.Records.{MemRecord, TagBuffer, value_type_of}
use x_tdb.MemBuffer.{find}
use x_tdb.Blocks.Reader.{ReadResult, BlockReader, read_block}
use x_tdb.Metadata.Query.{BlockQueryResult, query_blocks_by_tag_and_time}
use x_tdb.Engine.State.{
  EngineResult, success, err_engine_not_open, dir_ok, QueryPoint, Engine, Platform,
}

-- A record as a point: its offset is in milliseconds, whatever the time unit.
abbrev pub point_of : ℕ → MemRecord → QueryPoint
point_of start_ts_us r = record {
  timestamp_us = u64 (start_ts_us + r.time_offset * 1000);
  value = r.value;
  quality = r.quality;
}

abbrev pub in_range : ℕ → ℕ → QueryPoint → Bool
in_range start_ts_us end_ts_us q =
    not (signed_lt q.timestamp_us start_ts_us) && not (signed_lt end_ts_us q.timestamp_us)

-- The loop over the records of a buffer or a block.
unfoldable pub points_within : ℕ → ℕ → ℕ → List MemRecord → List QueryPoint
points_within base start_ts_us end_ts_us [] = []
points_within base start_ts_us end_ts_us (r ∷ rs) =
    let rest = points_within base start_ts_us end_ts_us rs in
    if in_range start_ts_us end_ts_us (point_of base r) then point_of base r ∷ rest else rest

-- Step 1: the buffer of the tag.
unfoldable pub memory_points : Option TagBuffer → ℕ → ℕ → List QueryPoint
memory_points none start_ts_us end_ts_us = []
memory_points (some b) start_ts_us end_ts_us =
    points_within b.start_ts_us start_ts_us end_ts_us b.records

abbrev pub is_wanted : ℕ → ℕ → ℕ → BlockDirEntry → Bool
is_wanted tag_id start_ts_us end_ts_us e =
    entry_is_sealed e
    && e.tag_id == tag_id
    && not (signed_lt e.end_ts_us start_ts_us || signed_lt end_ts_us e.start_ts_us)

abbrev pub active_block : ℕ → BlockDirEntry → ScannedBlock
active_block i e = record {
  block_index = i;
  tag_id = e.tag_id;
  start_ts_us = e.start_ts_us;
  end_ts_us = e.end_ts_us;
  time_unit = e.time_unit;
  value_type = e.value_type;
  record_count = e.record_count;
  data_crc32 = e.data_crc32;
  is_sealed = true;
}

unfoldable pub block_if_wanted : ℕ → ℕ → ℕ → ℕ → Option BlockDirEntry → List ScannedBlock
block_if_wanted tag_id start_ts_us end_ts_us i none = []
block_if_wanted tag_id start_ts_us end_ts_us i (some e) =
    if is_wanted tag_id start_ts_us end_ts_us e then active_block i e ∷ [] else []

-- The loop over the `left` entries from index `i` on.
unfoldable pub active_blocks : DirectoryBuilder → ℕ → ℕ → ℕ → ℕ → ℕ → List ScannedBlock
unfolding block_if_wanted
active_blocks builder tag_id start_ts_us end_ts_us zero i = []
active_blocks builder tag_id start_ts_us end_ts_us (suc left) i =
    block_if_wanted tag_id start_ts_us end_ts_us i (get_entry builder i)
    ++ active_blocks builder tag_id start_ts_us end_ts_us left (i + 1)

-- Step 2.1: the directory of the active chunk is loaded again, if a block has been written.
unfoldable pub active_hits :
    Platform → Option DirectoryBuilder → ℕ → ℕ → ℕ → Engine → List ScannedBlock × Engine
unfolding active_blocks
active_hits p none tag_id start_ts_us end_ts_us e = ([], e)
active_hits p (some builder) tag_id start_ts_us end_ts_us e =
    let (d, builder', f) = load_directory p.os builder e.io in
    let e' = record e { io = f; dir_builder = some builder' } in
    if e.active.blocks_used == 0
    then ([], e)
    else if dir_ok d
    then (active_blocks builder' tag_id start_ts_us end_ts_us e.config.layout.data_blocks 0, e')
    else ([], e')

-- A block from the metadata store.
abbrev pub sealed_block : BlockQueryResult → ScannedBlock
sealed_block b = record {
  block_index = b.block_index;
  tag_id = b.tag_id;
  start_ts_us = b.start_ts_us;
  end_ts_us = b.end_ts_us;
  time_unit = b.time_unit;
  value_type = b.value_type;
  record_count = b.record_count;
  data_crc32 = 0;
  is_sealed = true;
}

-- blocks_map, with its keys in order: the chunk's offset, then the index.
abbrev pub Located : Type 0
Located = List (ℕ × ScannedBlock)

abbrev pub same_place : ℕ → ScannedBlock → ℕ → ScannedBlock → Bool
same_place o b o' b' = o == o' && b.block_index == b'.block_index

abbrev pub place_lt : ℕ → ScannedBlock → ℕ → ScannedBlock → Bool
place_lt o b o' b' = ltb o o' || (o == o' && ltb b.block_index b'.block_index)

-- An assignment through blocks_map[key], and an insertion where the key is new.
unfoldable pub locate : Bool → ℕ → ScannedBlock → Located → Located
locate replaces o b [] = (o, b) ∷ []
locate replaces o b ((o', b') ∷ m) =
    let rest = locate replaces o b m in
    if same_place o b o' b'
    then (if replaces then (o, b) ∷ m else (o', b') ∷ m)
    else if place_lt o b o' b'
    then (o, b) ∷ (o', b') ∷ m
    else (o', b') ∷ rest

unfoldable pub locate_sealed : List BlockQueryResult → Located → Located
unfolding locate
locate_sealed [] m = m
locate_sealed (b ∷ bs) m = locate_sealed bs (locate true b.chunk_offset (sealed_block b) m)

unfoldable pub locate_active : ℕ → List ScannedBlock → Located → Located
unfolding locate
locate_active chunk_offset [] m = m
locate_active chunk_offset (b ∷ bs) m =
    locate_active chunk_offset bs (locate false chunk_offset b m)

abbrev pub new_reader : ChunkLayout → BlockReader
new_reader layout = record { layout = layout; blocks_read = 0; bytes_read = 0; records_read = 0 }

abbrev pub read_ok : ReadResult → Bool
read_ok ReadResult.success = true
read_ok _ = false

-- Steps 2.3 and 2.4: the blocks are read by their type and count, and a block that cannot be read is
-- left out.
unfoldable pub read_blocks : Platform → ℕ → ℕ → Located → Engine → List QueryPoint × Engine
read_blocks p start_ts_us end_ts_us [] e = ([], e)
read_blocks p start_ts_us end_ts_us ((o, b) ∷ m) e =
    let (r, records, rd, f) =
      read_block p.os (new_reader e.config.layout) e.io o b.block_index (value_type_of b.value_type)
        b.record_count [] in
    let points = points_within b.start_ts_us start_ts_us end_ts_us records in
    let found = record e {
      io = f;
      read_stats = record e.read_stats {
        blocks_read = u64 (e.read_stats.blocks_read + 1);
        points_read_disk = u64 (e.read_stats.points_read_disk + length points);
      };
    } in
    let ok = read_ok r in
    let (rest, e') =
      read_blocks p start_ts_us end_ts_us m (if ok then found else record e { io = f }) in
    (if ok then points ++ rest else rest, e')

-- The blocks that a query reads. The result of the metadata query is not looked at.
unfoldable pub blocks_to_read : Platform → ℕ → ℕ → ℕ → Engine → Located × Engine
unfolding locate_sealed locate_active active_hits
blocks_to_read p tag_id start_ts_us end_ts_us e =
    let (r, sealed, db) =
      query_blocks_by_tag_and_time p.sqlite e.metadata tag_id start_ts_us end_ts_us in
    let (active, e') =
      active_hits p e.dir_builder tag_id start_ts_us end_ts_us (record e { metadata = db }) in
    (locate_active e.active.chunk_offset active (locate_sealed sealed []), e')

abbrev pub count_query : ℕ → Engine → Engine
count_query found e = record e {
  read_stats = record e.read_stats {
    queries_executed = u64 (e.read_stats.queries_executed + 1);
    points_read_memory = u64 (e.read_stats.points_read_memory + found);
  };
}

unfoldable pub query_points :
    Platform → ℕ → ℕ → ℕ → List QueryPoint → Engine → EngineResult × List QueryPoint × Engine
unfolding blocks_to_read read_blocks
query_points p tag_id start_ts_us end_ts_us results e =
    let memory = memory_points (find tag_id e.buffers) start_ts_us end_ts_us in
    let (located, e₁) =
      blocks_to_read p tag_id start_ts_us end_ts_us (count_query (length memory) e) in
    let (disk, e₂) = read_blocks p start_ts_us end_ts_us located e₁ in
    if e.is_open
    then (success, p.sort_points (memory ++ disk), e₂)
    else (err_engine_not_open, results, e)
