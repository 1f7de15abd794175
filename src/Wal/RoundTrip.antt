-- ===== src/Wal/RoundTrip.antt =====
-- WALReader on a log that WALWriter has synced.
use x_tdb.Base.{
  ℕ, zero, suc, ◌+◌, ◌-◌, ◌*◌, ◌/◌, ◌%◌, ◌^◌, ◌≤◌, ◌<◌, ◌≡◌, inl, inr, refl, sym, subst, ap, ◌∙◌,
  arith, true, false, List, [], ◌∷◌, length, Bytes, load, load-copy, Bool-cases, ltb, ltb→lt,
  ltb→le,
}
use x_tdb.Io.{IoResult, Os, File, aligned_buffer, read}
use x_tdb.Io.Laws.{
  IsReliable, read_succeeds, read-success, read-SameContent, aligned_buffer-address,
}
use x_tdb.Wal.Entry.{WalEntry, wal_entry_at, wal_entry_shift}
use x_tdb.Wal.Writer.{success, wal_ok, open_writer, sync}
use x_tdb.Wal.Reader.{
  WalReader, open_reader, is_valid_entry, load_buffer, take_entry, read_next, replay_entries,
  replay_segment,
}
use x_tdb.Wal.Bound.{read_next-IsAt}
use x_tdb.Wal.Logged.{
  Stored, open_writer-Holds, append_all, append_all-Holds, AllAppendable, sync-Logged,
}

-- A reader that has the extent at `start` in its buffer and has taken `k` entries.
record IsLoaded (start size k : ℕ) (content : Bytes) (r : WalReader) : Type 0 where
  current : r.current_offset ≡ start + 24 * k
  wal_start : r.wal_start_offset ≡ start
  wal_size : r.wal_size_bytes ≡ size
  full_buffer : r.buffer_size ≡ 16384
  position : r.buffer_position ≡ 24 * k
  counted : k ≤ 682
  cells : (i j : ℕ) → i + j ≤ 16384 → load r.buffer.cells i j ≡ load content (start + i) j

pub record IsPlace (start size : ℕ) : Type 0 where
  pub aligned : start % 16384 ≡ 0
  pub extent : 16384 ≤ size
  pub in_range : start + size < 2 ^ 64

-- The entry that is next in the buffer is the one in the file.
next_entry :
    (start size k : ℕ) (content : Bytes) (r : WalReader)
    → IsLoaded start size k content r
    → k < 682
    → wal_entry_at r.buffer.cells r.buffer_position ≡ wal_entry_at content (start + 24 * k)
next_entry start size k content r v h =
    ap (wal_entry_at r.buffer.cells) v.position
    ∙ wal_entry_shift r.buffer.cells content (24 * k) (start + 24 * k) (λ i j l.
      v.cells (24 * k + i) j (omega arith)
      ∙ ap (λ a. load content a j) {x = start + (24 * k + i)} {y = start + 24 * k + i}
          (omega arith))

read_next_loaded :
    (os : Os) (start size k : ℕ) (r : WalReader) (f : File) (entry : WalEntry)
    → IsPlace start size
    → IsLoaded start size k f.bytes r
    → k < 682
    → read_next os r f entry ≡ take_entry r f
unfolding read_next
read_next_loaded os start size k r f entry p v h =
    ground
      (arith, v.current, v.wal_start, v.wal_size, v.full_buffer, v.position, p.in_range, p.extent)

Stored-at : (m : Bytes) {p q : ℕ} (es : List WalEntry) → p ≡ q → Stored m p es → Stored m q es
Stored-at m es e s = subst (λ a. Stored m a es) e s

-- A valid entry is taken, and the reader moves on by one.
take_entry_lem :
    (start size k : ℕ) (r : WalReader) (f : File)
    → IsPlace start size
    → IsLoaded start size k f.bytes r
    → k < 682
    → is_valid_entry (wal_entry_at f.bytes (start + 24 * k)) ≡ true
    → let (s, e, r', f') = take_entry r f in
      (wal_ok s ≡ true)
      × (e ≡ wal_entry_at f.bytes (start + 24 * k))
      × IsLoaded start size (k + 1) f.bytes r'
      × (f' ≡ f)
unfolding take_entry
take_entry_lem start size k r f p v h ok =
    rw (ap is_valid_entry (next_entry start size k f.bytes r v h) ∙ ok) (
      refl,
      next_entry start size k f.bytes r v h,
      record {
        current = omega (arith, v.current, p.in_range, p.extent);
        wal_start = v.wal_start;
        wal_size = v.wal_size;
        full_buffer = v.full_buffer;
        position = omega (arith, v.position);
        counted = omega arith;
        cells = v.cells;
      },
      refl,
    )

-- The log ends: an empty slot, or the end of the extent.
abbrev Ends : Bytes → ℕ → ℕ → Type 0
Ends content start k = k < 682 → is_valid_entry (wal_entry_at content (start + 24 * k)) ≡ false

abbrev pub AllValid : List WalEntry → Type 0
AllValid [] = Unit {0}
AllValid (e ∷ es) = (is_valid_entry e ≡ true) × AllValid es

take_entry_end :
    (start size k : ℕ) (r : WalReader) (f : File)
    → IsLoaded start size k f.bytes r
    → k < 682
    → Ends f.bytes start k
    → wal_ok (take_entry r f).0 ≡ false
unfolding take_entry
take_entry_end start size k r f v h ends =
    rw (ap is_valid_entry (next_entry start size k f.bytes r v h) ∙ ends h)

read_next_end :
    (os : Os) (start size k : ℕ) (r : WalReader) (f : File) (entry : WalEntry)
    → IsPlace start size
    → IsLoaded start size k f.bytes r
    → Ends f.bytes start k
    → wal_ok (read_next os r f entry).0 ≡ false
read_next_end os start size k r f entry p v ends = elim (Bool-cases (ltb k 682)) [
  | inl e ↦
      rw (read_next_loaded os start size k r f entry p v (ltb→lt k 682 e))
        (take_entry_end start size k r f v (ltb→lt k 682 e) ends)
  | inr e ↦ elim (Bool-cases (wal_ok (read_next os r f entry).0)) [
    | inl taken ↦
        let at_end =
          read_next-IsAt os start k r f entry
            (record {
              current = v.current;
              aligned = p.aligned;
              in_range = omega (arith, p.in_range, p.extent);
              counted = v.counted;
              buffered = inr (v.full_buffer, v.position);
            })
            taken in
        absurd (omega (arith, at_end.0, ltb→le k 682 e))
    | inr refused ↦ refused
  ]
]

replay_loaded :
    (os : Os) (start size k fuel : ℕ) (r : WalReader) (f : File) (entry : WalEntry)
    (es : List WalEntry)
    → IsPlace start size
    → IsLoaded start size k f.bytes r
    → Stored f.bytes (start + 24 * k) es
    → AllValid es
    → Ends f.bytes start (k + length es)
    → k + length es ≤ 682
    → length es ≤ fuel
    → replay_entries os fuel r f entry ≡ es
unfolding replay_entries
replay_loaded os start size k zero r f entry [] p v st ok ends few l = refl
replay_loaded os start size k (suc fuel) r f entry [] p v st ok ends few l = rw (
    read_next_end os start size k r f entry p v (λ h.
      ap (λ j. is_valid_entry (wal_entry_at f.bytes (start + 24 * j))) {x = k} {y = k + 0}
        (omega arith)
      ∙ ends (omega arith)))
replay_loaded os start size k zero r f entry (e ∷ es) p v st ok ends few l = absurd (omega arith)
replay_loaded os start size k (suc fuel) r f entry (e ∷ es) p v st ok ends few l =
    let (fine, same_entry, next, same_file) =
      take_entry_lem start size k r f p v (omega arith) (ap is_valid_entry st.0 ∙ ok.0) in
    let (s, e', r', f') = take_entry r f in
    rw
      (
        read_next_loaded os start size k r f entry p v (omega arith),
        fine,
        same_file,
        same_entry,
        st.0,
      )
      (ap (λ rest. e ∷ rest)
        (replay_loaded os start size (k + 1) fuel r' f _ es p next
          (Stored-at f.bytes es (omega arith) st.1) ok.1
          (λ h.
            ap (λ j. is_valid_entry (wal_entry_at f.bytes (start + 24 * j))) {x = k + 1 + length es}
              {y = k + suc (length es)} (omega arith)
            ∙ ends (omega arith))
          (omega arith) (omega arith)))

-- The reader and the file after the first extent has been read.
abbrev first_reader : Os → ℕ → ℕ → File → WalReader
first_reader os start size f = record (open_reader os start size) {
  buffer = (read os f (aligned_buffer os 16384) 16384 start).1;
  buffer_file_offset = start;
  buffer_size = 16384;
  buffer_position = 0;
  bytes_read = 16384;
}

abbrev first_file : Os → ℕ → File → File
first_file os start f = (read os f (aligned_buffer os 16384) 16384 start).2

module _ (os : Os) (start size : ℕ) (f : File) (r : IsReliable os) (p : IsPlace start size)
    (o : f.is_open ≡ true) (room : start + 16384 ≤ f.size) where
  first_read : (read os f (aligned_buffer os 16384) 16384 start).0 ≡ IoResult.success
  first_read =
      read_succeeds os f (aligned_buffer os 16384) 16384 start r o (aligned_buffer-address os 16384)
        (omega arith) p.aligned room

  load_buffer_lem :
      load_buffer os (open_reader os start size) f
      ≡ (success, first_reader os start size f, first_file os start f)
  unfolding load_buffer open_reader
  load_buffer_lem =
      let at : start / 16384 * 16384 ≡ start = omega (arith, p.aligned) in
      ground (arith, at, first_read, p.aligned, p.extent, p.in_range)

  first-IsLoaded :
      IsLoaded start size 0 (first_file os start f).bytes (first_reader os start size f)
  unfolding open_reader
  first-IsLoaded = record {
    current = omega arith;
    wal_start = refl;
    wal_size = refl;
    full_buffer = refl;
    position = omega arith;
    counted = omega arith;
    cells = λ i j h.
        ap (λ m. load m i j)
          (read-success os f (aligned_buffer os 16384) 16384 start first_read).cells
        ∙ load-copy (aligned_buffer os 16384).cells 0 f.bytes start 16384 i j (omega arith)
            (omega arith)
        ∙ ap (λ a. load f.bytes a j) {x = start + (i - 0)} {y = start + i} (omega arith)
        ∙ ap (λ m. load m (start + i) j)
            (sym (read-SameContent os f (aligned_buffer os 16384) 16384 start).bytes);
  }

  read_next_first :
      (entry : WalEntry)
      → read_next os (open_reader os start size) f entry
        ≡ take_entry (first_reader os start size f) (first_file os start f)
  unfolding read_next open_reader
  read_next_first entry = ground (arith, load_buffer_lem, p.extent, p.in_range)

  replay_first :
      (fuel : ℕ) (entry : WalEntry)
      → replay_entries os (suc fuel) (open_reader os start size) f entry
        ≡ replay_entries os (suc fuel) (first_reader os start size f) (first_file os start f) entry
  unfolding replay_entries
  replay_first fuel entry = rw (
    read_next_first entry,
    read_next_loaded os start size 0 (first_reader os start size f) (first_file os start f) entry p
        first-IsLoaded (omega arith),
  )

  replay_segment_lem :
      (fuel : ℕ) (es : List WalEntry)
      → Stored f.bytes start es
      → AllValid es
      → (length es < 682 → is_valid_entry (wal_entry_at f.bytes (start + 24 * length es)) ≡ false)
      → length es ≤ 682
      → length es < fuel
      → replay_segment os fuel f start size ≡ es
  unfolding replay_segment
  replay_segment_lem zero es st ok ends few l = absurd (omega arith)
  replay_segment_lem (suc fuel) es st ok ends few l =
      let same = (read-SameContent os f (aligned_buffer os 16384) 16384 start).bytes in
      replay_first fuel _
      ∙ replay_loaded os start size 0 (suc fuel) (first_reader os start size f)
          (first_file os start f) _ es p first-IsLoaded
          (Stored-at _ es (omega arith) (subst (λ m. Stored m start es) (sym same) st)) ok
          (λ h.
            ap (λ m. is_valid_entry (wal_entry_at m (start + 24 * (0 + length es)))) same
            ∙ ap (λ j. is_valid_entry (wal_entry_at f.bytes (start + 24 * j))) {x = 0 + length es}
                {y = length es} (omega arith)
            ∙ ends (omega arith))
          (omega arith) (omega arith)

-- What a caller appends to a fresh log and then syncs.
pub log_and_sync : Os → ℕ → ℕ → File → List WalEntry → File
log_and_sync os start size f es =
    let (r, w, f') = append_all os (open_writer os start size) f es in (sync os w f').2

-- Replay gives back the log: between 1 and 682 entries that the writer accepts and the reader finds
-- valid, appended to a fresh log and synced, are exactly what replay takes from it, in order, with
-- any fuel above their number. The system calls are assumed to do what they are asked.
pub replay_segment-log_and_sync :
    (os : Os) (start size fuel : ℕ) (f : File) (es : List WalEntry)
    → IsReliable os
    → IsPlace start size
    → f.is_open ≡ true
    → 1 ≤ length es
    → length es ≤ 682
    → AllAppendable es
    → AllValid es
    → length es < fuel
    → replay_segment os fuel (log_and_sync os start size f es) start size ≡ es
unfolding log_and_sync
replay_segment-log_and_sync os start size fuel f es r p o some_entry few appendable valid l =
    let w₀ = open_writer os start size in
    let (done, holds, same) =
      append_all-Holds os start size w₀ f [] es (open_writer-Holds os start size) p.extent
        (omega (arith, p.in_range)) (omega (arith, p.in_range)) (omega arith) appendable in
    let (a, w, f') = append_all os w₀ f es in
    let logged =
      (sync-Logged os start size w f' es r holds some_entry (ap (λ g. g.is_open) same ∙ o)
        p.aligned).1 in
    replay_segment_lem os start size (sync os w f').2 r p logged.is_open logged.room fuel es
      logged.stored valid logged.ends few l
