-- ===== src/Tests/Chunks.antt =====
-- Chunks and their layout: the theorems at the fixtures.
use x_tdb.Base.{
  ◌%◌, ℕ, ◌+◌, ◌*◌, ◌/◌, ◌^◌, ◌≤◌, ◌<◌, ◌≡◌, ◌⊎◌, ◌↔◌, inl, inr, refl, ap, arith, true, false,
  subst, List, [], ◌∷◌, some, bit,
}
use x_tdb.Layout.Units.{raw_16k, raw_64k, get_block_size_bytes, u32}
use x_tdb.Layout.Calc.{
  ChunkLayout, ok, calculate_layout, validate_layout, calculate_block_offset,
  calculate_chunk_offset, calculate_block_dir_offset, calculate_data_region_offset,
}
use x_tdb.Layout.Valid.{calculate_layout-valid, calculate_layout_succeeds}
use x_tdb.Layout.Offsets.{IsLayout, block_offset_disjoint, block_offset_inside}
use x_tdb.Flags.{clear_bit, validate_transition, chunk_is_sealed, chunk_is_allocated, flags_init}
use x_tdb.Flags.Laws.{validate_transition_lem}
use x_tdb.Io.{IoResult, Os, File, Buffer, aligned_buffer, write}
use x_tdb.Structs.{ChunkHeader, chunk_header_at, raw_chunk_magic, default_entry, IsEntry}
use x_tdb.Mutator.{
  MutateResult, success, err_invalid_transition, err_already_set, mutate, seal_fields, seal_chunk,
}
use x_tdb.Mutator.Effect.{mutate_succeeds, mutate_outside, mutate_failed, flags_in}
use x_tdb.Mutator.Chunk.{seal_chunk_lem}
use x_tdb.Mutator.Lifecycle.{
  ChunkCall, allocate, seal, deprecate, call_chunks, call_chunks-Keeps, Keeps, header_of,
}
use x_tdb.Seal.Sealer.{SealResult}
use x_tdb.Seal.Sealer
use x_tdb.Seal.Scanner.{ScanResult, verify_chunk_integrity}
use x_tdb.Seal.Parts.{IsPlaced, region_crc}
use x_tdb.Seal.Verified.{verify_chunk_integrity-seal_chunk}
use x_tdb.Directory.{
  DirBuildResult, DirectoryBuilder, open_builder, initialize, seal_block, BlockSeal, load_directory,
  write_directory,
}
use x_tdb.Directory.Count.{IsBuilder, initialize-IsBuilder, seal_block-IsBuilder}
use x_tdb.Directory.RoundTrip.{HasRoom, load_directory-write_directory}
use x_tdb.Directory.Checksum.{region_crc-write_directory}
use x_tdb.Tests.Fixtures.{
  disk, disk-IsReliable, small_layout, new_bytes, new_file, new_file-IsBytes, new_header,
}

-- Layouts.
small_layout_is_calculated : calculate_layout raw_16k 4 ≡ ok small_layout
unfolding calculate_layout x_tdb.Layout.Calc.settle x_tdb.Layout.Calc.solve
    x_tdb.Layout.Calc.calculate_meta_blocks
small_layout_is_calculated = refl

calculate_layout-valid_example :
    (validate_layout small_layout ≡ true)
    × (small_layout.block_size_bytes ≡ get_block_size_bytes raw_16k)
    × (small_layout.chunk_size_bytes ≡ u32 (4 * 16384))
    × (small_layout.blocks_per_chunk ≡ u32 (4 * 16384) / get_block_size_bytes raw_16k)
calculate_layout-valid_example =
    calculate_layout-valid raw_16k 4 small_layout small_layout_is_calculated

calculate_layout_succeeds_example : (l : ChunkLayout) × (calculate_layout raw_64k 1024 ≡ ok l)
calculate_layout_succeeds_example =
    calculate_layout_succeeds raw_64k 1024 (omega arith) (omega arith)

small-IsLayout : IsLayout small_layout
small-IsLayout = record { fits = omega arith; chunk_aligned = refl; block_aligned = refl }

first_block : calculate_block_offset 0 1 small_layout 16384 ≡ ok 32768
unfolding calculate_block_offset calculate_chunk_offset
first_block = refl

later_block : calculate_block_offset 2 3 small_layout 16384 ≡ ok 196608
unfolding calculate_block_offset calculate_chunk_offset
later_block = refl

block_offset_disjoint_example : 32768 + 16384 ≤ 196608
block_offset_disjoint_example =
    block_offset_disjoint 0 1 32768 2 3 196608 16384 small_layout small-IsLayout (omega arith)
      (inl (omega arith)) first_block later_block

block_offset_inside_example :
    (196608 % 16384 ≡ 0)
    × (calculate_chunk_offset 2 small_layout 16384 ≤ 196608)
    × (196608 + 16384 ≤ calculate_chunk_offset 2 small_layout 16384 + 65536)
block_offset_inside_example =
    block_offset_inside 2 3 196608 16384 small_layout small-IsLayout (omega arith) refl later_block

-- Flags.
validate_transition_lem_example :
    (validate_transition 0b1111 0b1010 ≡ true) ↔ ((k : ℕ) → k < 32 → bit 0b1010 k ≤ bit 0b1111 k)
validate_transition_lem_example = validate_transition_lem 0b1111 0b1010 (omega arith) (omega arith)

-- Structs.
default-IsEntry : IsEntry default_entry
default-IsEntry = record {
  tag_id = omega arith;
  value_type = omega arith;
  time_unit = omega arith;
  encoding_type = omega arith;
  reserved_u8 = omega arith;
  record_size = omega arith;
  reserved_u16 = omega arith;
  flags = omega arith;
  start_ts_us = omega arith;
  end_ts_us = omega arith;
  record_count = omega arith;
  data_crc32 = omega arith;
  encoding_param1 = omega arith;
  encoding_param2 = omega arith;
  reserved_u32 = omega arith;
}

-- Mutations.
new_flags : flags_in new_file 0 32 ≡ flags_init
new_flags = (unfold chunk_header_at in ap ChunkHeader.flags new_header)

new_flags_fit : flags_in new_file 0 32 < 2 ^ 32
new_flags_fit = omega (arith, new_flags)

seal_open : chunk_is_sealed (flags_in new_file 0 32) ≡ false
unfolding x_tdb.Flags.is_bit_set
seal_open = ap chunk_is_sealed new_flags

mutate_succeeds_example : (mutate disk new_file 0 32 1 chunk_is_sealed (λ m. m)).0 ≡ success
mutate_succeeds_example =
    mutate_succeeds disk new_file 0 32 1 chunk_is_sealed (λ m. m) (omega arith) (omega arith)
      new_file-IsBytes disk-IsReliable refl refl (omega arith) seal_open

mutate_outside_example :
    (mutate disk new_file 0 32 1 chunk_is_sealed (λ m. m)).1.bytes 20000 ≡ new_bytes 20000
mutate_outside_example =
    mutate_outside disk new_file 0 32 1 chunk_is_sealed (λ m. m) 20000 (inr (omega arith))

disk_is_whole : (call k : ℕ) → disk.pwrite call 16384 ≡ some k → k ≡ 16384
disk_is_whole call k h = ground arith

mutate_refused : (mutate disk new_file 0 32 1 (λ flags. true) (λ m. m)).0 ≡ err_already_set
unfolding mutate x_tdb.Mutator.change x_tdb.Io.read x_tdb.Io.validate_alignment x_tdb.Io.fetched
    aligned_buffer
mutate_refused = refl

mutate_failed_example : (mutate disk new_file 0 32 1 (λ flags. true) (λ m. m)).1.bytes ≡ new_bytes
mutate_failed_example =
    mutate_failed disk new_file 0 32 1 (λ flags. true) (λ m. m) disk_is_whole
      (λ h. ground (arith, h, mutate_refused))

seal_succeeds : (seal_chunk disk new_file 0 5 9 7).0 ≡ success
unfolding seal_chunk
seal_succeeds =
    mutate_succeeds disk new_file 0 32 1 chunk_is_sealed (seal_fields 5 9 7) (omega arith)
      (omega arith) new_file-IsBytes disk-IsReliable refl refl (omega arith) seal_open

abbrev sealed_file : File
sealed_file = (seal_chunk disk new_file 0 5 9 7).1

seal_chunk_lem_example :
    (chunk_header_at sealed_file.bytes 0 ≡ record (chunk_header_at new_bytes 0) {
      flags = clear_bit (flags_in new_file 0 32) 1;
      start_ts_us = 5;
      end_ts_us = 9;
      super_crc32 = 7;
    })
    × ((a : ℕ)
        → (a < 0 + 32) ⊎ ((0 + 36 ≤ a) × (a < 0 + 52)) ⊎ (0 + 72 ≤ a)
        → sealed_file.bytes a ≡ new_bytes a)
seal_chunk_lem_example =
    seal_chunk_lem disk new_file 0 5 9 7 new_flags_fit (omega arith) (omega arith) (omega arith)
      seal_succeeds

abbrev life : List ChunkCall
life = allocate ∷ seal 5 9 7 ∷ seal 6 10 8 ∷ deprecate ∷ []

call_chunks-Keeps_example :
    Keeps (header_of new_file 0) (header_of (call_chunks disk new_file 0 life) 0)
call_chunks-Keeps_example =
    call_chunks-Keeps disk new_file 0 life disk_is_whole
      (omega (arith, ap ChunkHeader.flags new_header))
      (
        tt,
        (
          (omega arith, omega arith, omega arith),
          ((omega arith, omega arith, omega arith), (tt, tt)),
        ),
      )

-- Sealing and the check of the seal.
small-IsPlaced : IsPlaced new_file 0 small_layout
small-IsPlaced = record {
  is_open = refl;
  chunk_aligned = refl;
  block_aligned = refl;
  block_size = omega arith;
  few_blocks = omega arith;
  no_wrap = omega arith;
  room = omega arith;
  header_room = omega arith;
}

new_magic : (chunk_header_at new_bytes 0).magic ≡ raw_chunk_magic
new_magic = ap ChunkHeader.magic new_header

new_version : (chunk_header_at new_bytes 0).version ≡ 0x0106
new_version = ap ChunkHeader.version new_header

new_is_open : chunk_is_sealed (chunk_header_at new_bytes 0).flags ≡ false
unfolding x_tdb.Flags.is_bit_set
new_is_open = ap chunk_is_sealed (ap ChunkHeader.flags new_header)

verify_chunk_integrity-seal_chunk_example :
    ((Sealer.seal_chunk disk new_file 0 small_layout 5 9).0 ≡ SealResult.success)
    × ((verify_chunk_integrity disk
          (Sealer.seal_chunk disk new_file 0 small_layout 5 9).1
          0
          small_layout).0
        ≡ ScanResult.success)
verify_chunk_integrity-seal_chunk_example =
    verify_chunk_integrity-seal_chunk disk new_file 0 small_layout 5 9 disk-IsReliable
      small-IsPlaced new_file-IsBytes (omega arith) (omega arith) new_is_open new_magic new_version

-- The directory.
abbrev new_builder : DirectoryBuilder
new_builder = record {
  layout = small_layout;
  chunk_offset = 0;
  entries = default_entry ∷ default_entry ∷ default_entry ∷ [];
  sealed_block_count = 0;
}

initialized : (initialize (open_builder small_layout 0)).1 ≡ new_builder
unfolding initialize x_tdb.Directory.resize
initialized = refl

new-IsBuilder : IsBuilder new_builder
new-IsBuilder = subst IsBuilder initialized (initialize-IsBuilder small_layout 0 (omega arith))

abbrev block_seal : BlockSeal
block_seal = record {
  tag_id = 7;
  start_ts_us = 5;
  end_ts_us = 9;
  time_unit = 0;
  value_type = 3;
  record_count = 100;
  data_crc32 = 12345;
  encoding_type = 0;
  encoding_param1 = 0;
  encoding_param2 = 0;
}

seal_block-IsBuilder_example : IsBuilder (seal_block new_builder 1 block_seal).1
seal_block-IsBuilder_example =
    seal_block-IsBuilder new_builder 1 block_seal new-IsBuilder (λ h. absurd (omega (arith, h)))

new-HasRoom : HasRoom new_builder new_file
new-HasRoom = record {
  is_open = refl;
  chunk_aligned = refl;
  block_aligned = refl;
  fits = omega arith;
  room = omega arith;
}

load_directory-write_directory_example :
    let (w, f') = write_directory disk new_builder new_file in
    let (l, b', f'') = load_directory disk (open_builder small_layout 0) f' in
    (w ≡ DirBuildResult.success)
    × (l ≡ DirBuildResult.success)
    × (b' ≡ new_builder)
    × (chunk_header_at f'.bytes 0 ≡ chunk_header_at new_bytes 0)
load_directory-write_directory_example =
    load_directory-write_directory disk new_builder new_file disk-IsReliable new-IsBuilder
      (default-IsEntry, (default-IsEntry, (default-IsEntry, tt))) new-HasRoom

region_crc-write_directory_example :
    region_crc (write_directory disk new_builder new_file).1.bytes 0 small_layout
    ≡ region_crc new_bytes 0 small_layout
region_crc-write_directory_example =
    region_crc-write_directory disk new_builder new_file (omega arith) (omega arith)
