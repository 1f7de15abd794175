-- ===== src/Flags.antt =====
-- The active-low state bits of chunks and blocks: include/xTdb/struct_defs.h, and
-- StateMutator::validateTransition of src/state_mutator.cpp.
pub mod Laws
use x_tdb.Base.{ℕ, ◌-◌, ◌^◌, Bool, not, bit_and, ◌==◌}

-- kChunkFlagsInit and kBlockFlagsInit
abbrev pub flags_init : ℕ
flags_init = 0xFFFF_FFFF

-- ChunkStateBit
pub data ChunkStateBit : Type 0 where
  chb_deprecated chb_sealed chb_allocated chb_free_mark : ChunkStateBit

-- BlockStateBit
pub data BlockStateBit : Type 0 where
  blb_sealed blb_monotonic_time blb_no_time_gap : BlockStateBit

abbrev pub chunk_bit : ChunkStateBit → ℕ
chunk_bit chb_deprecated = 0
chunk_bit chb_sealed = 1
chunk_bit chb_allocated = 2
chunk_bit chb_free_mark = 3

abbrev pub block_bit : BlockStateBit → ℕ
block_bit blb_sealed = 0
block_bit blb_monotonic_time = 1
block_bit blb_no_time_gap = 2

-- `~x` on 32 bits
abbrev pub complement : ℕ → ℕ
complement x = 2 ^ 32 - 1 - x

-- `flags & ~(1u << bit)` and `(flags & (1u << bit)) != 0`
unfoldable pub clear_bit : ℕ → ℕ → ℕ
clear_bit flags position = bit_and flags (complement (2 ^ position))

unfoldable pub is_bit_set : ℕ → ℕ → Bool
is_bit_set flags position = not (bit_and flags (2 ^ position) == 0)

abbrev pub chunk_clear_bit : ℕ → ChunkStateBit → ℕ
chunk_clear_bit flags b = clear_bit flags (chunk_bit b)

abbrev pub chunk_is_bit_set : ℕ → ChunkStateBit → Bool
chunk_is_bit_set flags b = is_bit_set flags (chunk_bit b)

abbrev pub chunk_is_allocated : ℕ → Bool
chunk_is_allocated flags = not (chunk_is_bit_set flags chb_allocated)

abbrev pub chunk_is_sealed : ℕ → Bool
chunk_is_sealed flags = not (chunk_is_bit_set flags chb_sealed)

abbrev pub chunk_is_deprecated : ℕ → Bool
chunk_is_deprecated flags = not (chunk_is_bit_set flags chb_deprecated)

abbrev pub chunk_is_free : ℕ → Bool
chunk_is_free flags = chunk_is_bit_set flags chb_allocated

abbrev pub block_clear_bit : ℕ → BlockStateBit → ℕ
block_clear_bit flags b = clear_bit flags (block_bit b)

abbrev pub block_is_bit_set : ℕ → BlockStateBit → Bool
block_is_bit_set flags b = is_bit_set flags (block_bit b)

abbrev pub block_is_sealed : ℕ → Bool
block_is_sealed flags = not (block_is_bit_set flags blb_sealed)

-- validateTransition: `(new_value & ~old_value) == 0`
unfoldable pub validate_transition : ℕ → ℕ → Bool
validate_transition old_value new_value = bit_and new_value (complement old_value) == 0
