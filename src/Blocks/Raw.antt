-- ===== src/Blocks/Raw.antt =====
-- The records of an uncompressed block, BlockWriter::serializeRecords and BlockReader::parseRecords:
-- three bytes of time offset, one of quality, and the value in the width of its type. The three
-- bytes written one by one are a little-endian word of three bytes.
use x_tdb.Base.{
  ℕ, ◌+◌, ◌%◌, ◌^◌, ◌≤◌, ◌<◌, ◌≡◌, ◌⊎◌, inl, refl, ◌∙◌, arith, Bytes, load, store, store_outside,
  load_ext, load-store, load-store_ne, ◌==◌, if◌then◌else◌,
}
use x_tdb.Records.{ValueType, MemRecord}
use x_tdb.Blocks.Rows.{Format, IsFormat}

-- The bytes of a value; a type outside the enumeration has none.
abbrev pub value_size : ValueType → ℕ
value_size ValueType.bool = 1
value_size ValueType.i32 = 4
value_size ValueType.f32 = 4
value_size ValueType.f64 = 8
value_size ValueType.other = 0

-- BlockWriter::calculateRecordSize
unfoldable pub calculate_record_size : ValueType → ℕ
calculate_record_size value_type = 4 + value_size value_type

-- BlockReader::getRecordSize, which is 0 outside the enumeration.
unfoldable pub get_record_size : ValueType → ℕ
get_record_size ValueType.bool = 3 + 1 + 1
get_record_size ValueType.i32 = 3 + 1 + 4
get_record_size ValueType.f32 = 3 + 1 + 4
get_record_size ValueType.f64 = 3 + 1 + 8
get_record_size ValueType.other = 0

unfoldable pub write_value : ValueType → Bytes → ℕ → ℕ → Bytes
write_value ValueType.bool m p value = store m p 1 (if value % 2 ^ 8 == 0 then 0 else 1)
write_value ValueType.i32 m p value = store m p 4 value
write_value ValueType.f32 m p value = store m p 4 value
write_value ValueType.f64 m p value = store m p 8 value
write_value ValueType.other m p value = m

unfoldable pub read_value : ValueType → Bytes → ℕ → ℕ
read_value ValueType.bool m p = if load m p 1 == 0 then 0 else 1
read_value ValueType.i32 m p = load m p 4
read_value ValueType.f32 m p = load m p 4
read_value ValueType.f64 m p = load m p 8
read_value ValueType.other m p = 0

unfoldable pub write_record : ValueType → Bytes → ℕ → MemRecord → Bytes
write_record value_type m p r =
    let m₁ = store m p 3 r.time_offset in
    let m₂ = store m₁ (p + 3) 1 r.quality in write_value value_type m₂ (p + 4) r.value

unfoldable pub read_record : ValueType → Bytes → ℕ → MemRecord
read_record value_type m p = record {
  time_offset = load m p 3;
  quality = load m (p + 3) 1;
  value = read_value value_type m (p + 4);
}

unfoldable pub raw_format : ValueType → Format MemRecord
raw_format value_type = record {
  size = 4 + value_size value_type;
  write_row = write_record value_type;
  read_row = read_record value_type;
}

-- The values that a type can hold.
abbrev pub value_limit : ValueType → ℕ
value_limit ValueType.bool = 2
value_limit ValueType.i32 = 2 ^ 32
value_limit ValueType.f32 = 2 ^ 32
value_limit ValueType.f64 = 2 ^ 64
value_limit ValueType.other = 1

pub record FitsRaw (value_type : ValueType) (r : MemRecord) : Type 0 where
  pub time_offset : r.time_offset < 256 ^ 3
  pub quality : r.quality < 256
  pub value : r.value < value_limit value_type

read-write_value :
    (t : ValueType) (m : Bytes) (p v : ℕ)
    → v < value_limit t
    → read_value t (write_value t m p v) p ≡ v
unfolding read_value write_value
read-write_value ValueType.bool m p v h =
    ground (arith, load-store m p 1 (if v % 2 ^ 8 == 0 then 0 else 1))
read-write_value ValueType.i32 m p v h = load-store m p 4 v h
read-write_value ValueType.f32 m p v h = load-store m p 4 v h
read-write_value ValueType.f64 m p v h = load-store m p 8 v h
read-write_value ValueType.other m p v h = omega arith

write_value_outside :
    (t : ValueType) (m : Bytes) (p v a : ℕ)
    → (a < p) ⊎ (p + value_size t ≤ a)
    → write_value t m p v a ≡ m a
unfolding write_value
write_value_outside ValueType.bool m p v a h = store_outside m p 1 _ a h
write_value_outside ValueType.i32 m p v a h = store_outside m p 4 v a h
write_value_outside ValueType.f32 m p v a h = store_outside m p 4 v a h
write_value_outside ValueType.f64 m p v a h = store_outside m p 8 v a h
write_value_outside ValueType.other m p v a h = refl

read_value_ext :
    (t : ValueType) (m n : Bytes) (p : ℕ)
    → ((a : ℕ) → p ≤ a → a < p + value_size t → m a ≡ n a)
    → read_value t m p ≡ read_value t n p
unfolding read_value
read_value_ext ValueType.bool m n p h = ground (arith, load_ext m n p 1 h)
read_value_ext ValueType.i32 m n p h = load_ext m n p 4 h
read_value_ext ValueType.f32 m n p h = load_ext m n p 4 h
read_value_ext ValueType.f64 m n p h = load_ext m n p 8 h
read_value_ext ValueType.other m n p h = refl

module _ (t : ValueType) where
  write_record_outside :
      (m : Bytes) (p : ℕ) (r : MemRecord) (a : ℕ)
      → (a < p) ⊎ (p + (4 + value_size t) ≤ a)
      → write_record t m p r a ≡ m a
  unfolding write_record
  write_record_outside m p r a h = ground (
    arith,
    write_value_outside t (store (store m p 3 r.time_offset) (p + 3) 1 r.quality) (p + 4) r.value a,
    store_outside (store m p 3 r.time_offset) (p + 3) 1 r.quality a,
    store_outside m p 3 r.time_offset a,
  )

  read-write_record :
      (m : Bytes) (p : ℕ) (r : MemRecord) → FitsRaw t r → read_record t (write_record t m p r) p ≡ r
  unfolding read_record write_record
  read-write_record m p r f =
      let m₁ = store m p 3 r.time_offset in
      let m₂ = store m₁ (p + 3) 1 r.quality in
      let before = λ (q k a : ℕ) (l : q ≤ a) (u : a < q + k) (h : q + k ≤ p + 4).
        write_value_outside t m₂ (p + 4) r.value a (inl (omega arith)) in
      λ i. record {
        time_offset =
            (load_ext _ m₂ p 3 (λ a l u. before p 3 a l u (omega arith))
                ∙ load-store_ne m₁ (p + 3) 1 r.quality p 3 (inl (omega arith))
                ∙ load-store m p 3 r.time_offset f.time_offset)
              i;
        quality =
            (load_ext _ m₂ (p + 3) 1 (λ a l u. before (p + 3) 1 a l u (omega arith))
                ∙ load-store m₁ (p + 3) 1 r.quality f.quality)
              i;
        value = read-write_value t m₂ (p + 4) r.value f.value i;
      }

  pub raw_format-IsFormat : IsFormat (raw_format t) (FitsRaw t)
  unfolding raw_format read_record
  raw_format-IsFormat = record {
    read-write = read-write_record;
    write_outside = write_record_outside;
    read_ext = λ m n p h i. record {
      time_offset = load_ext m n p 3 (λ a l u. h a l (omega arith)) i;
      quality = load_ext m n (p + 3) 1 (λ a l u. h a (omega arith) (omega arith)) i;
      value = read_value_ext t m n (p + 4) (λ a l u. h a (omega arith) (omega arith)) i;
    };
  }
