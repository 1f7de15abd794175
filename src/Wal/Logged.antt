-- ===== src/Wal/Logged.antt =====
-- Appending to a fresh log and syncing it: WALWriter's buffer, and the file behind it.
use x_tdb.Base.{
  ℕ, zero, suc, ◌+◌, ◌-◌, ◌*◌, ◌%◌, ◌^◌, ◌≤◌, ◌<◌, ◌≡◌, ◌≢◌, inl, refl, ap, ap₂, ◌∙◌, arith, true,
  false, List, [], ◌∷◌, ◌++◌, length, length-append, Bytes, load, copy, load-copy, load-copy_ne,
  lt→ltb, if◌then◌else◌,
}
use mathlib.Core.List.{append_assoc, append-nil}
use x_tdb.Io.{IoResult, Os, File, Buffer, aligned_buffer, write}
use x_tdb.Io
use x_tdb.Io.Laws.{IsReliable, write_succeeds, write-success, aligned_buffer-address}
use x_tdb.Wal.Entry.{
  WalEntry, IsWalEntry, wal_entry_at, wal_entry_bytes, wal_entry_at-bytes, wal_entry_shift,
}
use x_tdb.Mutator.{io_ok}
use x_tdb.Wal.Reader.{is_valid_entry}
use x_tdb.Wal.Writer.{
  WalResult, success, wal_ok, WalWriter, open_writer, padded_size, padded_buffer, flush, put,
  append, sync,
}

-- The entries lie in `m` from address `p` on, 24 bytes each.
abbrev pub Stored : Bytes → ℕ → List WalEntry → Type 0
Stored m p [] = Unit {0}
Stored m p (e ∷ es) = (wal_entry_at m p ≡ e) × Stored m (p + 24) es

pub Stored-shift :
    (m n : Bytes) (p q : ℕ) (es : List WalEntry)
    → ((i k : ℕ) → i + k ≤ 24 * length es → load m (p + i) k ≡ load n (q + i) k)
    → Stored n q es
    → Stored m p es
Stored-shift m n p q [] h s = tt
Stored-shift m n p q (e ∷ es) h s = (
  wal_entry_shift m n p q (λ i k l. h i k (omega arith)) ∙ s.0,
  Stored-shift m n (p + 24) (q + 24) es
      (λ i k l.
        ap (λ a. load m a k) {x = p + 24 + i} {y = p + (24 + i)} (omega arith)
        ∙ h (24 + i) k (omega arith)
        ∙ ap (λ a. load n a k) {x = q + (24 + i)} {y = q + 24 + i} (omega arith))
      s.1,
)

Stored-append :
    (m : Bytes) (p : ℕ) (es : List WalEntry) (e : WalEntry)
    → Stored m p es
    → wal_entry_at m (p + 24 * length es) ≡ e
    → Stored m p (es ++ e ∷ [])
Stored-append m p [] e s h = (ap (wal_entry_at m) (omega arith) ∙ h, tt)
Stored-append m p (x ∷ es) e s h =
    (s.0, Stored-append m (p + 24) es e s.1 (ap (wal_entry_at m) (omega arith) ∙ h))

-- A writer at the start of its log whose buffer holds `es`.
pub record Holds (start size : ℕ) (w : WalWriter) (es : List WalEntry) : Type 0 where
  pub used : w.buffer_used ≡ 24 * length es
  pub room : length es ≤ 682
  pub capacity : w.buffer.length ≡ 16384
  pub address : w.buffer.address % 16384 ≡ 0
  pub current : w.current_offset ≡ start
  pub wal_start : w.wal_start_offset ≡ start
  pub wal_size : w.wal_size_bytes ≡ size
  pub stored : Stored w.buffer.cells 0 es

pub open_writer-Holds : (os : Os) (start size : ℕ) → Holds start size (open_writer os start size) []
unfolding open_writer aligned_buffer
open_writer-Holds os start size = record {
  used = omega arith;
  room = omega arith;
  capacity = refl;
  address = aligned_buffer-address os 16384;
  current = refl;
  wal_start = refl;
  wal_size = refl;
  stored = tt;
}

put-Holds :
    (start size : ℕ) (w : WalWriter) (es : List WalEntry) (e : WalEntry)
    → Holds start size w es
    → length es < 682
    → IsWalEntry e
    → Holds start size (put w e) (es ++ e ∷ [])
unfolding put
put-Holds start size w es e v l ok = record {
  used = omega (arith, v.used, length-append es (e ∷ []));
  room = omega (arith, length-append es (e ∷ []));
  capacity = v.capacity;
  address = v.address;
  current = v.current;
  wal_start = v.wal_start;
  wal_size = v.wal_size;
  stored =
      Stored-append _ 0 es e
        (Stored-shift _ w.buffer.cells 0 0 es
          (λ i k h.
            load-copy_ne w.buffer.cells w.buffer_used (wal_entry_bytes e) 0 24 (0 + i) k
              (inl (omega (arith, v.used))))
          v.stored)
        (wal_entry_shift _ (wal_entry_bytes e) (0 + 24 * length es) 0 (λ i k h.
            load-copy w.buffer.cells w.buffer_used (wal_entry_bytes e) 0 24 (0 + 24 * length es + i)
              k (omega (arith, v.used)) (omega (arith, v.used))
            ∙ ap (λ a. load (wal_entry_bytes e) a k) (omega (arith, v.used)))
          ∙ wal_entry_at-bytes e ok);
}

-- A caller that appends entries until one is refused.
pub append_all : Os → WalWriter → File → List WalEntry → WalResult × WalWriter × File
append_all os w f [] = (success, w, f)
append_all os w f (e ∷ es) =
    let (r, w', f') = append os w f e in
    let rest = append_all os w' f' es in if wal_ok r then rest else (r, w', f')

-- What append asks of an entry, within the widths of its fields.
pub record IsAppendable (e : WalEntry) : Type 0 where
  pub shape : IsWalEntry e
  pub tagged : e.tag_id ≢ 0

append_lem :
    (os : Os) (start size : ℕ) (w : WalWriter) (f : File) (es : List WalEntry) (e : WalEntry)
    → Holds start size w es
    → 16384 ≤ size
    → size < 2 ^ 64
    → start < 2 ^ 64
    → length es < 682
    → e.tag_id ≢ 0
    → append os w f e ≡ (success, put w e, f)
unfolding append
append_lem os start size w f es e v big fits low l tagged =
    ground (arith, v.used, v.capacity, v.current, v.wal_start, v.wal_size)

abbrev pub AllAppendable : List WalEntry → Type 0
AllAppendable [] = Unit {0}
AllAppendable (e ∷ es) = IsAppendable e × AllAppendable es

pub append_all-Holds :
    (os : Os) (start size : ℕ) (w : WalWriter) (f : File) (es more : List WalEntry)
    → Holds start size w es
    → 16384 ≤ size
    → size < 2 ^ 64
    → start < 2 ^ 64
    → length es + length more ≤ 682
    → AllAppendable more
    → let (r, w', f') = append_all os w f more in
      (r ≡ success) × Holds start size w' (es ++ more) × (f' ≡ f)
unfolding append_all
append_all-Holds os start size w f es [] v big fits low l ok = (refl, rw append-nil v, refl)
append_all-Holds os start size w f es (e ∷ more) v big fits low l ok =
    let w' = put w e in
    let v' = put-Holds start size w es e v (omega arith) ok.0.shape in
    rw (append_lem os start size w f es e v big fits low (omega arith) ok.0.tagged) (
      rw (← append_assoc es (e ∷ []) more) (
        append_all-Holds os start size w' f (es ++ e ∷ []) more v' big fits low
          (omega (arith, length-append es (e ∷ []))) ok.1))

-- The log in the file: its entries, and an empty slot behind them if the extent has one.
pub record Logged (start : ℕ) (es : List WalEntry) (f : File) : Type 0 where
  pub is_open : f.is_open ≡ true
  pub room : start + 16384 ≤ f.size
  pub stored : Stored f.bytes start es
  pub ends :
      length es < 682 → is_valid_entry (wal_entry_at f.bytes (start + 24 * length es)) ≡ false

load_zero : (p k : ℕ) → load (λ a. 0) p k ≡ 0
unfolding load
load_zero p zero = refl
load_zero p (suc k) = omega (arith, load_zero (p + 1) k)

zero_entry :
    (m : Bytes) (p : ℕ)
    → ((i k : ℕ) → i + k ≤ 24 → load m (p + i) k ≡ 0)
    → is_valid_entry (wal_entry_at m p) ≡ false
unfolding wal_entry_at is_valid_entry
zero_entry m p h = ground (arith, h 0 4, h 4 8)

module _ (start size : ℕ) (w : WalWriter) (es : List WalEntry) (v : Holds start size w es)
    (some_entry : 1 ≤ length es) where
  padded_lem : padded_size w ≡ 16384
  unfolding padded_size
  padded_lem = omega (arith, v.used, v.room)

  -- What the padded buffer holds.
  padded-Stored : Stored (padded_buffer w).cells 0 es
  unfolding padded_buffer
  padded-Stored =
      rw (padded_lem, lt→ltb w.buffer_used 16384 (omega (arith, v.used, v.room)))
        (Stored-shift _ w.buffer.cells 0 0 es
          (λ i k h.
            load-copy_ne w.buffer.cells w.buffer_used (λ a. 0) 0 _ (0 + i) k
              (inl (omega (arith, v.used))))
          v.stored)

  padded_zero :
      (p k : ℕ) → 24 * length es ≤ p → p + k ≤ 16384 → load (padded_buffer w).cells p k ≡ 0
  unfolding padded_buffer
  padded_zero p k h l =
      rw (padded_lem, lt→ltb w.buffer_used 16384 (omega (arith, v.used, v.room)))
        (load-copy w.buffer.cells w.buffer_used (λ a. 0) 0 _ p k (omega (arith, v.used))
            (omega (arith, v.used))
          ∙ load_zero _ k)

  written-Logged :
      (f f' : File)
      → start + 16384 ≤ f'.size
      → f'.is_open ≡ true
      → f'.bytes ≡ copy f.bytes start (padded_buffer w).cells 0 16384
      → Logged start es f'
  written-Logged f f' room o e = record {
    is_open = o;
    room = room;
    stored =
        Stored-shift f'.bytes (padded_buffer w).cells start 0 es
          (λ i k h. in_file i k (omega (arith, v.room))) padded-Stored;
    ends = λ l. zero_entry f'.bytes (start + 24 * length es) (λ i k h.
        ap (λ a. load f'.bytes a k) {x = start + 24 * length es + i}
          {y = start + (24 * length es + i)} (omega arith)
        ∙ in_file (24 * length es + i) k (omega arith)
        ∙ padded_zero (0 + (24 * length es + i)) k (omega arith) (omega arith));
  }
    where
      in_file :
          (i k : ℕ)
          → i + k ≤ 16384
          → load f'.bytes (start + i) k ≡ load (padded_buffer w).cells (0 + i) k
      in_file i k h =
          ap (λ m. load m (start + i) k) e
          ∙ load-copy f.bytes start (padded_buffer w).cells 0 16384 (start + i) k (omega arith)
              (omega arith)
          ∙ ap (λ a. load (padded_buffer w).cells a k) {x = 0 + (start + i - start)} {y = 0 + i}
              (omega arith)

padded-address : (w : WalWriter) → (padded_buffer w).address ≡ w.buffer.address
unfolding padded_buffer
padded-address w = ground arith

flush_lem :
    (os : Os) (w : WalWriter) (f : File)
    → 1 ≤ w.buffer_used
    → io_ok (write os f (padded_buffer w) (padded_size w) w.current_offset).0 ≡ true
    → (wal_ok (flush os w f).0 ≡ true)
      × ((flush os w f).2 ≡ (write os f (padded_buffer w) (padded_size w) w.current_offset).1)
unfolding flush
flush_lem os w f h e = ground (arith, e)

sync_file :
    (os : Os) (f : File)
    → IsReliable os
    → f.is_open ≡ true
    → (io_ok (Io.sync os f).0 ≡ true) × ((Io.sync os f).1 ≡ record f { calls = f.calls + 1 })
unfolding Io.sync
sync_file os f r o = ground (arith, r.syncs f.calls)

Logged-sync :
    (start : ℕ) (es : List WalEntry) (f : File)
    → Logged start es f
    → Logged start es (record f { calls = f.calls + 1 })
Logged-sync start es f l = record {
  is_open = l.is_open;
  room = l.room;
  stored = l.stored;
  ends = l.ends;
}

-- Syncing a log that holds entries puts them into the file, when the system calls do their work.
pub sync-Logged :
    (os : Os) (start size : ℕ) (w : WalWriter) (f : File) (es : List WalEntry)
    → IsReliable os
    → Holds start size w es
    → 1 ≤ length es
    → f.is_open ≡ true
    → start % 16384 ≡ 0
    → (wal_ok (sync os w f).0 ≡ true) × Logged start es (sync os w f).2
unfolding sync
sync-Logged os start size w f es r v some_entry o al =
    let b = padded_buffer w in
    let done =
      write_succeeds os f b 16384 start r o
        (ap (λ (a : ℕ). a % 16384) (padded-address w) ∙ v.address) (omega arith) al in
    let eff = write-success os f b 16384 start done in
    let logged =
      written-Logged start size w es v some_entry f (write os f b 16384 start).1
        (eff.room (omega arith)) eff.is_open eff.bytes in
    let flushed = flush_lem os w f (omega (arith, v.used)) (
      ap₂ (λ n p. io_ok (write os f b n p).0) (padded_lem start size w es v some_entry) v.current
      ∙ ap io_ok done) in
    let file : (flush os w f).2 ≡ (write os f b 16384 start).1 =
      flushed.1
      ∙ ap₂ (λ n p. (write os f b n p).1) (padded_lem start size w es v some_entry) v.current in
    let synced = sync_file os (write os f b 16384 start).1 r eff.is_open in
    rw (flushed.0, file, synced.0, synced.1) (refl, Logged-sync start es _ logged)
