-- ===== src/Wal/Bound.antt =====
-- How far WALReader gets in a segment.
use x_tdb.Base.{
  ℕ, zero, suc, ◌+◌, ◌*◌, ◌%◌, ◌^◌, ◌≤◌, ◌<◌, ◌≡◌, ◌⊎◌, inl, inr, refl, arith, true, length,
  Bool-cases,
}
use x_tdb.Io.{Os, File}
use x_tdb.Wal.Entry.{WalEntry}
use x_tdb.Wal.Writer.{wal_ok}
use x_tdb.Wal.Reader.{
  WalReader, open_reader, load_buffer, take_entry, read_next, replay_entries, replay_segment,
}

-- `k` entries have been read, all from the extent at `start`.
pub record IsAt (start k : ℕ) (r : WalReader) : Type 0 where
  pub current : r.current_offset ≡ start + 24 * k
  pub aligned : start % 16384 ≡ 0
  pub in_range : start + 16384 < 2 ^ 64
  pub counted : k ≤ 682
  pub buffered :
      ((k ≡ 0) × (r.buffer_size ≡ 0) × (r.buffer_position ≡ 0))
      ⊎ ((r.buffer_size ≡ 16384) × (r.buffer_position ≡ 24 * k))

-- A successful call reads the entry after the `k` ones, and there is one at most for `k` below 682.
pub read_next-IsAt :
    (os : Os) (start k : ℕ) (r : WalReader) (f : File) (entry : WalEntry)
    → IsAt start k r
    → wal_ok (read_next os r f entry).0 ≡ true
    → (k < 682) × IsAt start (k + 1) (read_next os r f entry).2
unfolding read_next load_buffer take_entry
read_next-IsAt os start k r f entry v h = ground arith

-- However long the loop runs, it takes no more than the entries left in the extent.
replay_entries-le :
    (os : Os) (fuel start k : ℕ) (r : WalReader) (f : File) (entry : WalEntry)
    → IsAt start k r
    → length (replay_entries os fuel r f entry) + k ≤ 682
unfolding replay_entries
replay_entries-le os zero start k r f entry v = omega (arith, v.counted)
replay_entries-le os (suc fuel) start k r f entry v =
    elim (Bool-cases (wal_ok (read_next os r f entry).0)) [
      | inl e ↦
          let (s, e', r', f') = read_next os r f entry in
          ground (
            arith,
            e,
            v.counted,
            replay_entries-le os fuel start (k + 1) r' f' e'
                (read_next-IsAt os start k r f entry v e).1,
          )
      | inr e ↦ ground (arith, e, v.counted)
    ]

-- Replay takes at most 682 entries from a segment, whatever bytes the file holds and however long
-- the segment is, when the segment starts at a whole number of extents and its first extent ends
-- within 64 bits.
pub replay_segment-le :
    (os : Os) (fuel : ℕ) (f : File) (wal_offset wal_size_bytes : ℕ)
    → wal_offset % 16384 ≡ 0
    → wal_offset + 16384 < 2 ^ 64
    → length (replay_segment os fuel f wal_offset wal_size_bytes) ≤ 682
unfolding replay_segment open_reader
replay_segment-le os fuel f wal_offset wal_size_bytes aligned range = omega (
  arith,
  replay_entries-le os fuel wal_offset 0 (open_reader os wal_offset wal_size_bytes) f _ (record {
    current = omega arith;
    aligned = aligned;
    in_range = range;
    counted = omega arith;
    buffered = inl (refl, refl, refl);
  }),
)
