-- ===== src/Records.antt =====
-- The records that the write path passes on: ValueType, TimeUnit and EncodingType of
-- include/xTdb/struct_defs.h, MemRecord and TagBuffer of include/xTdb/mem_buffer.h. A double is its
-- 64-bit pattern, a timestamp too, and the value union its 8 bytes as one number.
use x_tdb.Base.{ℕ, ◌==◌, if◌then◌else◌, List, []}

-- `other` stands for a byte outside the enumeration.
pub data ValueType : Type 0 where
  bool i32 f32 f64 other : ValueType

-- The enumeration's value of a byte.
unfoldable pub value_type_of : ℕ → ValueType
value_type_of n =
    if n == 1
    then bool
    else if n == 2
    then i32
    else if n == 3
    then f32
    else if n == 4
    then f64
    else other

pub data TimeUnit : Type 0 where
  tu_100ms tu_10ms tu_ms tu_100us tu_10us tu_us other : TimeUnit

unfoldable pub time_unit_of : ℕ → TimeUnit
time_unit_of n =
    if n == 1
    then tu_100ms
    else if n == 2
    then tu_10ms
    else if n == 3
    then tu_ms
    else if n == 4
    then tu_100us
    else if n == 5
    then tu_10us
    else if n == 6
    then tu_us
    else other

-- The encodings that the block code tells apart, as the numbers of EncodingType.
abbrev pub enc_raw : ℕ
enc_raw = 0

abbrev pub enc_swinging_door : ℕ
enc_swinging_door = 1

abbrev pub enc_quantized_16 : ℕ
enc_quantized_16 = 2

pub record MemRecord : Type 0 where
  pub time_offset : ℕ
  pub quality : ℕ
  pub value : ℕ

-- MemRecord()
abbrev pub default_record : MemRecord
default_record = record { time_offset = 0; quality = 0; value = 0 }

-- The enumerations are kept as their bytes.
pub record TagBuffer : Type 0 where
  pub tag_id : ℕ
  pub value_type : ℕ
  pub time_unit : ℕ
  pub encoding_type : ℕ
  pub start_ts_us : ℕ
  pub records : List MemRecord
  pub encoding_tolerance : ℕ
  pub encoding_compression_factor : ℕ

-- TagBuffer(); the compression factor is 1.0.
abbrev pub default_tag_buffer : TagBuffer
default_tag_buffer = record {
  tag_id = 0;
  value_type = 4;
  time_unit = 3;
  encoding_type = enc_raw;
  start_ts_us = 0;
  records = [];
  encoding_tolerance = 0;
  encoding_compression_factor = 0x3FF0_0000_0000_0000;
}
