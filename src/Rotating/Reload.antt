-- ===== src/Rotating/Reload.antt =====
-- loadContainer after initializeContainer.
use x_tdb.Base.{
  ℕ, zero, suc, ◌+◌, ◌-◌, ◌*◌, ◌^◌, ◌≤◌, ◌<◌, ◌≡◌, inl, refl, ap, ◌∙◌, arith, true, List, [], ◌∷◌,
  length, Bytes, load, load_ext, copy, load-copy, leb, if◌then◌else◌,
}
use x_tdb.Layout.Units.{u64}
use x_tdb.Io.{Os, File, aligned_buffer, zero_buffer, read}
use x_tdb.Io.Laws.{
  IsReliable, write-success, write_outside, read-success, read_succeeds, aligned_buffer-address,
}
use x_tdb.Structs.RoundTrip.{load_field}
use x_tdb.Mutator.{io_ok}
use x_tdb.Mutator.Effect.{io_ok→success}
use x_tdb.Rotating.Segment.{WalSegment, success, RotatingWal, RotatingWalConfig, new_wal}
use x_tdb.Rotating.Container.{
  container_magic, container_fields, container_header_bytes, write_header, write_zeros,
  resize_segments, init_segments, load_segments, initialize_container, load_container,
}
use x_tdb.Rotating.Geometry.{init_segments-load, resize_segments-length}

-- What the writes of the segments leave of the header's extent.
record KeptHeader (f f' : File) : Type 0 where
  low : (a : ℕ) → a < 16384 → f'.bytes a ≡ f.bytes a
  size : f.size ≤ f'.size
  is_open : f'.is_open ≡ true

write_zeros-KeptHeader :
    (os : Os) (f : File) (offset : ℕ)
    → 16384 ≤ offset
    → io_ok (write_zeros os f offset).0 ≡ true
    → KeptHeader f (write_zeros os f offset).1
unfolding write_zeros
write_zeros-KeptHeader os f offset h ok =
    let b = zero_buffer (aligned_buffer os 16384) in
    let done = write-success os f b 16384 offset (io_ok→success _ ok) in
    record {
      low = λ a l. write_outside os f b 16384 offset a (inl (omega arith));
      size = done.size;
      is_open = done.is_open;
    }

KeptHeader-trans : (f g h : File) → KeptHeader f g → KeptHeader g h → KeptHeader f h
KeptHeader-trans f g h p q = record {
  low = λ a l. q.low a l ∙ p.low a l;
  size = omega (arith, p.size, q.size);
  is_open = q.is_open;
}

init_segments-KeptHeader :
    (os : Os) (size i offset : ℕ) (ss : List WalSegment) (f : File)
    → f.is_open ≡ true
    → 16384 ≤ offset
    → offset + length ss * size < 2 ^ 64
    → (init_segments os size i offset ss f).0 ≡ success
    → KeptHeader f (init_segments os size i offset ss f).2
unfolding init_segments
init_segments-KeptHeader os size i offset [] f o h l ok = record {
  low = λ a u. refl;
  size = omega arith;
  is_open = o;
}
init_segments-KeptHeader os size i offset (s ∷ ss) f o h l ok =
    let (wrote, rest) = steps in
    let first = write_zeros-KeptHeader os f offset h wrote in
    let f' = (write_zeros os f offset).1 in
    let next : u64 (offset + size) ≡ offset + size = omega arith in
    let whole = KeptHeader-trans f f' _ first (
      init_segments-KeptHeader os size (i + 1) (u64 (offset + size)) ss f' first.is_open
        (omega arith) (omega arith) rest) in
    ground (arith, wrote, whole)
  where
    steps :
        (io_ok (write_zeros os f offset).0 ≡ true)
        × ((init_segments os size (i + 1) (u64 (offset + size)) ss (write_zeros os f offset).1).0
            ≡ success)
    steps = ground arith

-- The words of the header in the file.
record HasHeader (m : Bytes) (num size current : ℕ) : Type 0 where
  magic : load m 0 8 ≡ container_magic
  version : load m 8 4 ≡ 1
  num_segments : load m 12 4 ≡ num
  segment_size : load m 16 8 ≡ size
  current_segment : load m 24 4 ≡ current

HasHeader-bytes :
    (num size current : ℕ)
    → num < 2 ^ 32
    → size < 2 ^ 64
    → current < 2 ^ 32
    → HasHeader (container_header_bytes num size current) num size current
unfolding container_header_bytes
HasHeader-bytes num size current a b c = record {
  magic =
      load_field (container_fields num size current) (λ x. 0) 0 8 container_magic refl
        (omega arith);
  version = load_field (container_fields num size current) (λ x. 0) 8 4 1 refl (omega arith);
  num_segments = load_field (container_fields num size current) (λ x. 0) 12 4 num refl a;
  segment_size = load_field (container_fields num size current) (λ x. 0) 16 8 size refl b;
  current_segment = load_field (container_fields num size current) (λ x. 0) 24 4 current refl c;
}

HasHeader-shift :
    (m n : Bytes) (num size current : ℕ)
    → ((p k : ℕ) → p + k ≤ 28 → load m p k ≡ load n p k)
    → HasHeader n num size current
    → HasHeader m num size current
HasHeader-shift m n num size current h v = record {
  magic = h 0 8 (omega arith) ∙ v.magic;
  version = h 8 4 (omega arith) ∙ v.version;
  num_segments = h 12 4 (omega arith) ∙ v.num_segments;
  segment_size = h 16 8 (omega arith) ∙ v.segment_size;
  current_segment = h 24 4 (omega arith) ∙ v.current_segment;
}

write_header-HasHeader :
    (os : Os) (f : File) (num size current : ℕ)
    → num < 2 ^ 32
    → size < 2 ^ 64
    → current < 2 ^ 32
    → io_ok (write_header os f num size current).0 ≡ true
    → HasHeader (write_header os f num size current).1.bytes num size current
      × (16384 ≤ (write_header os f num size current).1.size)
      × ((write_header os f num size current).1.is_open ≡ true)
unfolding write_header
write_header-HasHeader os f num size current a b c ok =
    let header = container_header_bytes num size current in
    let fresh = (aligned_buffer os 16384).cells in
    let buffer = record (aligned_buffer os 16384) { cells = copy fresh 0 header 0 4096 } in
    let done = write-success os f buffer 16384 0 (io_ok→success _ ok) in
    (
      HasHeader-shift _ header num size current
          (λ p k h.
            ap (λ (m : Bytes). load m p k) done.bytes
            ∙ load-copy f.bytes 0 buffer.cells 0 16384 p k (omega arith) (omega arith)
            ∙ load-copy fresh 0 header 0 4096 (0 + (p - 0)) k (omega arith) (omega arith)
            ∙ ap (λ (q : ℕ). load header q k) {x = 0 + (0 + (p - 0) - 0)} {y = p} (omega arith))
          (HasHeader-bytes num size current a b c),
      omega (arith, done.room (omega arith)),
      done.is_open,
    )

-- Loading a file whose header is there.
load_container_lem :
    (os : Os) (w : RotatingWal) (f : File) (num size current : ℕ)
    → IsReliable os
    → f.is_open ≡ true
    → 16384 ≤ f.size
    → HasHeader f.bytes num size current
    → let (r, w', f') = load_container os w f in
      (r ≡ success)
      × (w' ≡ record w {
        segments = load_segments size 0 16384 (resize_segments num w.segments);
        current_segment_id = if leb num current then 0 else current;
      })
unfolding load_container
load_container_lem os w f num size current r o room v =
    let b = aligned_buffer os 16384 in
    let ok =
      read_succeeds os f b 16384 0 r o (aligned_buffer-address os 16384) (omega arith) (omega arith)
        room in
    let e = ap io_ok ok in
    let got =
      HasHeader-shift (read os f b 16384 0).1.cells f.bytes num size current
        (λ p k h.
          ap (λ (m : Bytes). load m p k) (read-success os f b 16384 0 ok).cells
          ∙ load-copy b.cells 0 f.bytes 0 16384 p k (omega arith) (omega arith)
          ∙ ap (λ (q : ℕ). load f.bytes q k) {x = 0 + (p - 0)} {y = p} (omega arith))
        v in
    ground
      (arith, e, got.magic, got.version, got.num_segments, got.segment_size, got.current_segment)

-- A new log whose container has been created is found again in the same state by a new log that loads
-- the container, when reads do what they are asked.
pub load_container-initialize_container :
    (os : Os) (config : RotatingWalConfig) (f : File)
    → IsReliable os
    → 1 ≤ config.num_segments
    → config.num_segments < 2 ^ 32
    → 16384 + config.num_segments * config.segment_size_bytes < 2 ^ 64
    → (initialize_container os (new_wal config) f).0 ≡ success
    → let (r, w, f') = initialize_container os (new_wal config) f in
      let (r', w', f'') = load_container os (new_wal config) f' in (r' ≡ success) × (w' ≡ w)
unfolding initialize_container
load_container-initialize_container os config f r some_segment few fits h =
    let num = config.num_segments in
    let size = config.segment_size_bytes in
    let ss = resize_segments num [] in
    let count = resize_segments-length num [] in
    let (e₀, e₁) = steps in
    let small : size < 2 ^ 64 = below num size some_segment fits in
    let (header, room, opened) =
      write_header-HasHeader os f num size 0 few small (omega arith) e₀ in
    let f₁ = (write_header os f num size 0).1 in
    let f₂ = (init_segments os size 0 16384 ss f₁).2 in
    let kept =
      init_segments-KeptHeader os size 0 16384 ss f₁ opened (omega arith)
        (omega (arith, fits, ap (λ (n : ℕ). n * size) count)) e₁ in
    let again =
      HasHeader-shift f₂.bytes f₁.bytes num size 0
        (λ p k l. load_ext f₂.bytes f₁.bytes p k (λ a u v. kept.low a (omega arith))) header in
    let (ok, same) =
      load_container_lem os (new_wal config) f₂ num size 0 r kept.is_open
        (omega (arith, room, kept.size)) again in
    let placed = init_segments-load os size 0 16384 ss f₁ e₁ in
    ground (arith, e₀, e₁, ok, same, placed)
  where
    below : (n s : ℕ) → 1 ≤ n → 16384 + n * s < 2 ^ 64 → s < 2 ^ 64
    below zero s h l = absurd (omega arith)
    below (suc n) s h l = omega arith

    steps :
        (io_ok (write_header os f config.num_segments config.segment_size_bytes 0).0 ≡ true)
        × ((init_segments os config.segment_size_bytes 0 16384
              (resize_segments config.num_segments [])
              (write_header os f config.num_segments config.segment_size_bytes 0).1).0
            ≡ success)
    steps = ground arith
