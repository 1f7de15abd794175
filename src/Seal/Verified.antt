-- ===== src/Seal/Verified.antt =====
-- RawScanner::verifyChunkIntegrity on a chunk after ChunkSealer::sealChunk.
use x_tdb.Base.{
  ℕ, ◌+◌, ◌^◌, ◌≤◌, ◌<◌, ◌≡◌, inl, inr, sym, ap, ap₂, ◌∙◌, arith, true, false, not, Bytes,
  Bool-cases, ◌==◌, eq→==, subst, load, if◌then◌else◌,
}
use x_tdb.Flags.{chunk_is_sealed, clear_bit, is_bit_set}
use x_tdb.Flags.Laws.{is_bit_set-true, clear_bit-lt, bit-clear_bit}
use x_tdb.Layout.Calc.{ChunkLayout}
use x_tdb.Io.{Os, File}
use x_tdb.Io.Laws.{IsReliable, SameContent}
use x_tdb.Structs.{ChunkHeader, chunk_header_at, raw_chunk_magic, default_chunk_header}
use x_tdb.Mutator.{MutateResult, seal_fields}
use x_tdb.Mutator
use x_tdb.Mutator.Effect.{IsBytes, load-lt, flags_in, Mutated, mutate_succeeds, mutate-Mutated}
use x_tdb.Mutator.Chunk.{seal_chunk_lem}
use x_tdb.Seal.Crc.{calculate_crc32-lt}
use x_tdb.Seal.Sealer.{SealResult, seal_chunk}
use x_tdb.Seal.Sealer
use x_tdb.Seal.Scanner.{
  ScanResult, verify_chunk_integrity, success, err_not_sealed, err_crc_mismatch,
}
use x_tdb.Seal.Scanner
use x_tdb.Seal.Parts.{
  region_crc, region_crc_ext, IsPlaced, IsPlaced-later, sealer_crc, scanner_crc, mutator_header,
  scanner_header,
}

-- When every system call does its work and the header has the magic and the version, the check
-- answers "not sealed" for a chunk that is not sealed, and otherwise compares the checksum of the
-- covered bytes with the one in the header.
pub verify_chunk_integrity_lem :
    (os : Os) (f : File) (chunk_offset : ℕ) (l : ChunkLayout)
    → IsReliable os
    → IsPlaced f chunk_offset l
    → (chunk_header_at f.bytes chunk_offset).magic ≡ raw_chunk_magic
    → (chunk_header_at f.bytes chunk_offset).version ≡ 0x0106
    → (verify_chunk_integrity os f chunk_offset l).0 ≡ (
        if not (chunk_is_sealed (chunk_header_at f.bytes chunk_offset).flags)
        then err_not_sealed
        else if not (
            region_crc f.bytes chunk_offset l == (chunk_header_at f.bytes chunk_offset).super_crc32)
        then err_crc_mismatch
        else success)
unfolding verify_chunk_integrity
verify_chunk_integrity_lem os f chunk_offset l r p m v =
    let f₁ = (Scanner.read_chunk_header os f chunk_offset default_chunk_header).2 in
    let (ok, value, same) = scanner_header os f chunk_offset l r p default_chunk_header m v in
    let p₁ =
      IsPlaced-later f f₁ chunk_offset l p (same.is_open ∙ p.is_open) (omega (arith, same.size)) in
    let (ok₁, value₁, same₁) = scanner_crc os f₁ chunk_offset l r p₁ 0 in
    let value₂ = value₁ ∙ ap (λ (b : Bytes). region_crc b chunk_offset l) same.bytes in
    let flags = ap chunk_is_sealed (ap ChunkHeader.flags value) in
    let crc = ap₂ (λ (a b : ℕ). a == b) value₂ (ap ChunkHeader.super_crc32 value) in
    ground (arith, ok, ok₁, flags, crc)

-- What a sealing leaves: the header as it was but for the sealed bit, the timestamps and the checksum
-- of the covered bytes, and those bytes as they were.
record Sealed (f : File) (chunk_offset : ℕ) (l : ChunkLayout) (s e : ℕ) (f' : File) : Type 0 where
  header : chunk_header_at f'.bytes chunk_offset ≡ record (chunk_header_at f.bytes chunk_offset) {
    flags = clear_bit (flags_in f chunk_offset 32) 1;
    start_ts_us = s;
    end_ts_us = e;
    super_crc32 = region_crc f.bytes chunk_offset l;
  }
  covered : region_crc f'.bytes chunk_offset l ≡ region_crc f.bytes chunk_offset l
  is_open : f'.is_open ≡ true
  size : f.size ≤ f'.size

region_crc-lt :
    (m : Bytes) (chunk_offset : ℕ) (l : ChunkLayout)
    → IsBytes m
    → region_crc m chunk_offset l < 2 ^ 32
unfolding region_crc
region_crc-lt m chunk_offset l b = calculate_crc32-lt _ _ (λ a. b _)

mutator_seals :
    (os : Os) (f : File) (chunk_offset : ℕ) (l : ChunkLayout) (s e : ℕ)
    → IsReliable os
    → IsPlaced f chunk_offset l
    → IsBytes f.bytes
    → s < 2 ^ 64
    → e < 2 ^ 64
    → chunk_is_sealed (flags_in f chunk_offset 32) ≡ false
    → let r = Mutator.seal_chunk os f chunk_offset s e (region_crc f.bytes chunk_offset l) in
      (r.0 ≡ MutateResult.success) × Sealed f chunk_offset l s e r.1
mutator_seals os f chunk_offset l s e r p b hs he clear =
    let crc = region_crc f.bytes chunk_offset l in
    let ok : (Mutator.seal_chunk os f chunk_offset s e crc).0 ≡ MutateResult.success =
      unfold Mutator.seal_chunk in
      mutate_succeeds os f chunk_offset 32 1 chunk_is_sealed (seal_fields s e crc) (omega arith)
        (omega arith) b r p.is_open p.chunk_aligned p.header_room clear in
    let v : Mutated os f chunk_offset 32 1 chunk_is_sealed (seal_fields s e crc)
        (Mutator.seal_chunk os f chunk_offset s e crc).1 =
      unfold Mutator.seal_chunk in
      mutate-Mutated os f chunk_offset 32 1 chunk_is_sealed (seal_fields s e crc) (omega arith)
        ok in
    let (header, apart) =
      seal_chunk_lem os f chunk_offset s e crc (load-lt f.bytes (chunk_offset + 32) b) hs he
        (region_crc-lt f.bytes chunk_offset l b) ok in
    (
      ok,
      record {
        header = header;
        covered =
            region_crc_ext _ f.bytes chunk_offset l p.no_wrap
              (λ a h. apart a (inr (inr (omega (arith, p.block_size)))));
        is_open = v.is_open;
        size = v.size;
      },
    )

sealed_flags : (flags : ℕ) → flags < 2 ^ 32 → chunk_is_sealed (clear_bit flags 1) ≡ true
sealed_flags flags h = elim (Bool-cases (is_bit_set (clear_bit flags 1) 1)) [
  | inl e ↦ absurd (
      ground (
        arith,
        is_bit_set-true (clear_bit flags 1) 1 (clear_bit-lt flags 1 h) e,
        bit-clear_bit flags 1 1 h (omega arith),
      ))
  | inr e ↦ ground (arith, e)
]

Sealed-before :
    (f g f' : File) (chunk_offset : ℕ) (l : ChunkLayout) (s e : ℕ)
    → SameContent f g
    → Sealed g chunk_offset l s e f'
    → Sealed f chunk_offset l s e f'
Sealed-before f g f' chunk_offset l s e same v = record {
  header =
      v.header
      ∙ ap
          (λ (m : Bytes). record (chunk_header_at m chunk_offset) {
            flags = clear_bit (load m (chunk_offset + 32) 4) 1;
            start_ts_us = s;
            end_ts_us = e;
            super_crc32 = region_crc m chunk_offset l;
          })
          same.bytes;
  covered = v.covered ∙ ap (λ (m : Bytes). region_crc m chunk_offset l) same.bytes;
  is_open = v.is_open;
  size = omega (arith, v.size, same.size);
}

module _ (os : Os) (f : File) (chunk_offset : ℕ) (l : ChunkLayout) (s e : ℕ) (r : IsReliable os)
    (p : IsPlaced f chunk_offset l) (b : IsBytes f.bytes) (hs : s < 2 ^ 64) (he : e < 2 ^ 64)
    (clear : chunk_is_sealed (chunk_header_at f.bytes chunk_offset).flags ≡ false) where
  seal_chunk_succeeds :
      ((seal_chunk os f chunk_offset l s e).0 ≡ SealResult.success)
      × Sealed f chunk_offset l s e (seal_chunk os f chunk_offset l s e).1
  unfolding seal_chunk
  seal_chunk_succeeds =
      let (ok₀, value₀, same₀) = mutator_header os f chunk_offset l r p default_chunk_header in
      let f₁ = (Mutator.read_chunk_header os f chunk_offset default_chunk_header).2 in
      let p₁ =
        IsPlaced-later f f₁ chunk_offset l p (same₀.is_open ∙ p.is_open)
          (omega (arith, same₀.size)) in
      let (ok₁, value₁, same₁) = sealer_crc os f₁ chunk_offset l r p₁ 0 in
      let c = (Sealer.calculate_super_crc os f₁ chunk_offset l 0).1 in
      let f₂ = (Sealer.calculate_super_crc os f₁ chunk_offset l 0).2 in
      let p₂ =
        IsPlaced-later f₁ f₂ chunk_offset l p₁ (same₁.is_open ∙ p₁.is_open)
          (omega (arith, same₁.size)) in
      let bytes : f₂.bytes ≡ f.bytes = same₁.bytes ∙ same₀.bytes in
      let flags₀ = ap chunk_is_sealed (ap ChunkHeader.flags value₀) ∙ clear in
      let flags₂ : chunk_is_sealed (flags_in f₂ chunk_offset 32) ≡ false =
        ap (λ (m : Bytes). chunk_is_sealed (load m (chunk_offset + 32) 4)) bytes
        ∙ (unfold chunk_header_at in clear) in
      let crc : c ≡ region_crc f₂.bytes chunk_offset l =
        value₁ ∙ ap (λ (m : Bytes). region_crc m chunk_offset l) (sym same₁.bytes) in
      let (ok₂, v) =
        subst
          (λ (k : ℕ).
            ((Mutator.seal_chunk os f₂ chunk_offset s e k).0 ≡ MutateResult.success)
            × Sealed f₂ chunk_offset l s e (Mutator.seal_chunk os f₂ chunk_offset s e k).1)
          (sym crc)
          (mutator_seals os f₂ chunk_offset l s e r p₂ (subst IsBytes (sym bytes) b) hs he
            flags₂) in
      let whole =
        Sealed-before f f₂ _ chunk_offset l s e
          (record {
            bytes = bytes;
            size = same₁.size ∙ same₀.size;
            is_open = same₁.is_open ∙ same₀.is_open;
          })
          v in
      ground (arith, ok₀, flags₀, ok₁, ok₂, whole)

  -- When every system call does its work, the file is open, the chunk and its blocks are aligned to
  -- the extent and within 64 bits, the file has room for its header and its directory, the bytes are
  -- below 256, the two timestamps fit 64 bits, and the header has the magic and the version and is
  -- not sealed, then sealing the chunk succeeds and verifyChunkIntegrity then accepts it.
  pub verify_chunk_integrity-seal_chunk :
      (chunk_header_at f.bytes chunk_offset).magic ≡ raw_chunk_magic
      → (chunk_header_at f.bytes chunk_offset).version ≡ 0x0106
      → ((seal_chunk os f chunk_offset l s e).0 ≡ SealResult.success)
        × ((verify_chunk_integrity os (seal_chunk os f chunk_offset l s e).1 chunk_offset l).0
            ≡ success)
  verify_chunk_integrity-seal_chunk m v =
      let (ok, w) = seal_chunk_succeeds in
      let f' = (seal_chunk os f chunk_offset l s e).1 in
      let checked =
        verify_chunk_integrity_lem os f' chunk_offset l r
          (IsPlaced-later f f' chunk_offset l p w.is_open w.size)
          (ap ChunkHeader.magic w.header ∙ m) (ap ChunkHeader.version w.header ∙ v) in
      let flags : chunk_is_sealed (chunk_header_at f'.bytes chunk_offset).flags ≡ true =
        ap chunk_is_sealed (ap ChunkHeader.flags w.header)
        ∙ sealed_flags (flags_in f chunk_offset 32) (load-lt f.bytes (chunk_offset + 32) b) in
      let crc = eq→== _ _ (w.covered ∙ sym (ap ChunkHeader.super_crc32 w.header)) in
      (ok, ground (arith, checked, flags, crc))
