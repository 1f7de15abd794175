-- ===== src/Compact/Sealed.antt =====
-- What sealing a compact container leaves in the file.
use x_tdb.Base.{
  All, ℕ, ◌+◌, ◌-◌, ◌*◌, ◌≤◌, ◌<◌, ◌≡◌, ◌⊎◌, inl, inr, refl, sym, ap, ap₂, subst, ◌∙◌, arith, true,
  false, List, [], ◌∷◌, length, Bytes, copy_inside, copy_outside,
}
use x_tdb.Io.{File}
use x_tdb.Compact.Structs.{CompactIndex, index_bytes, header_bytes}
use x_tdb.Compact.Structs.RoundTrip.{IsCompactIndex, index_at-copied}
use x_tdb.Compact.Files.{ContainerResult, success, Calls, called, write_file, sync_file}
use x_tdb.Compact.Transfer.{IsWorking, Holds, write_file_lem, write_file-succeeds}
use x_tdb.Compact.Container.{
  CompactContainer, Checksum, indices_at, write_indices, write_header, sealed_header, finish_seal,
  seal_container,
}

-- The bytes of the indices stand one behind the other from `p` on.
abbrev pub HasIndices : Bytes → ℕ → List CompactIndex → Type 0
HasIndices m p [] = Unit {0}
HasIndices m p (e ∷ es) =
    ((a : ℕ) → a < 80 → m (p + a) ≡ index_bytes e a) × HasIndices m (p + 80) es

pub HasIndices-ext :
    (m k : Bytes) (p q : ℕ) (es : List CompactIndex)
    → ((a : ℕ) → a < length es * 80 → k (q + a) ≡ m (p + a))
    → HasIndices m p es
    → HasIndices k q es
HasIndices-ext m k p q [] same h = tt
HasIndices-ext m k p q (e ∷ es) same h = (
  λ a l. same a (omega arith) ∙ h.0 a l,
  HasIndices-ext m k (p + 80) (q + 80) es
      (λ a l.
        ap k {x = q + 80 + a} {y = q + (80 + a)} (omega arith)
        ∙ same (80 + a) (omega arith)
        ∙ ap m {x = p + (80 + a)} {y = p + 80 + a} (omega arith))
      h.1,
)

pub indices_at-HasIndices :
    (m : Bytes) (p : ℕ) (es : List CompactIndex)
    → All IsCompactIndex es
    → HasIndices m p es
    → indices_at (length es) m p ≡ es
unfolding indices_at
indices_at-HasIndices m p [] v h = refl
indices_at-HasIndices m p (e ∷ es) v h =
    ap₂ (λ (x : CompactIndex) (xs : List CompactIndex). x ∷ xs) (index_at-copied m p e v.0 h.0)
      (indices_at-HasIndices m (p + 80) es v.1 h.1)

-- What a step of sealing leaves in place.
record Leaves (f f' : File) (from to : ℕ) : Type 0 where
  outside : (a : ℕ) → (a < from) ⊎ (to ≤ a) → f'.bytes a ≡ f.bytes a
  grown : f.size ≤ f'.size
  is_open : f'.is_open ≡ f.is_open

Holds-Leaves :
    (f f' : File) (x : Bytes) (size offset : ℕ)
    → Holds f x 0 size offset f'
    → Leaves f f' offset (offset + size)
Holds-Leaves f f' x size offset h = record {
  outside = λ a out.
      h.bytes a
      ∙ copy_outside f.bytes (offset + 0) x 0 (size - 0) a
          (elim out [ inl l ↦ inl (omega arith) | inr r ↦ inr (omega arith) ]);
  grown = h.grown;
  is_open = h.is_open;
}

-- What has been put is there.
Holds-inside :
    (f f' : File) (x : Bytes) (size offset a : ℕ)
    → Holds f x 0 size offset f'
    → a < size
    → f'.bytes (offset + a) ≡ x a
Holds-inside f f' x size offset a h l =
    h.bytes (offset + a)
    ∙ copy_inside f.bytes (offset + 0) x 0 (size - 0) (offset + a) (omega arith) (omega arith)
    ∙ ap x {x = 0 + (offset + a - (offset + 0))} {y = a} (omega arith)

sync_file-ok :
    (os : Calls)
    → IsWorking os
    → (f : File) → f.is_open ≡ true
    → sync_file os false f ≡ (success, called f)
unfolding sync_file
sync_file-ok os h f o = ground (arith, h.syncs f.calls)

write_indices_step :
    (os : Calls) (f : File) (e : CompactIndex) (es : List CompactIndex) (i : ℕ)
    → (write_file os false f (index_bytes e) 80 (128 + i * 80)).0 ≡ success
    → write_indices os false f (e ∷ es) i
      ≡ write_indices os false
          (write_file os false f (index_bytes e) 80 (128 + i * 80)).1
          es
          (i + 1)
unfolding write_indices
write_indices_step os f e es i fine = ground (arith, fine)

-- The indices have been written, and nothing else.
abbrev Wrote : File → List CompactIndex → ℕ → ContainerResult × File → Type 0
Wrote f es i (r, f') =
    (r ≡ success)
    × HasIndices f'.bytes (128 + i * 80) es
    × Leaves f f' (128 + i * 80) (128 + (i + length es) * 80)

module _ (os : Calls) (h : IsWorking os) where
  write_indices_lem :
      (f : File) (es : List CompactIndex) (i : ℕ)
      → f.is_open ≡ true
      → Wrote f es i (write_indices os false f es i)
  unfolding write_indices
  write_indices_lem f [] i o =
      (refl, tt, record { outside = λ a out. refl; grown = omega arith; is_open = refl })
  write_indices_lem f (e ∷ es) i o =
      let p = 128 + i * 80 in
      let fine = write_file-succeeds os f (index_bytes e) 80 p h o in
      let f₁ = (write_file os false f (index_bytes e) 80 p).1 in
      let holds = write_file_lem os false f (index_bytes e) 80 p fine in
      let first = Holds-Leaves f f₁ (index_bytes e) 80 p holds in
      let (ok, has, later) = write_indices_lem f₁ es (i + 1) (first.is_open ∙ o) in
      let (r, f₂) = write_indices os false f₁ es (i + 1) in
      subst (Wrote f (e ∷ es) i) (sym (write_indices_step os f e es i fine)) (
        ok,
        (
          λ a l.
              later.outside (p + a) (inl (omega arith))
              ∙ Holds-inside f f₁ (index_bytes e) 80 p a holds l,
          HasIndices-ext f₂.bytes f₂.bytes (128 + (i + 1) * 80) (p + 80) es
              (λ a l. ap f₂.bytes (omega arith)) has,
        ),
        record {
          outside = λ a out.
              later.outside a (elim out [ inl l ↦ inl (omega arith) | inr r ↦ inr (omega arith) ])
              ∙ first.outside a
                  (elim out [ inl l ↦ inl (omega arith) | inr r ↦ inr (omega arith) ]);
          grown = omega (arith, first.grown, later.grown);
          is_open = later.is_open ∙ first.is_open;
        },
      )

  -- A seal that succeeds, by the file that it leaves.
  pub record IsSealed (c : CompactContainer) (crc32 : Checksum) (f f' : File) : Type 0 where
    pub header : (a : ℕ) → a < 128 → f'.bytes a ≡ header_bytes (sealed_header crc32 c.header) a
    pub indices : HasIndices f'.bytes 128 c.block_indices
    pub outside : (a : ℕ) → 128 + length c.block_indices * 80 ≤ a → f'.bytes a ≡ f.bytes a
    pub grown : f.size ≤ f'.size
    pub room : 128 ≤ f'.size

  pub seal_container_lem :
      (crc32 : Checksum) (c : CompactContainer) (f : File)
      → c.is_open ≡ true
      → c.read_only ≡ false
      → c.is_sealed ≡ false
      → f.is_open ≡ true
      → let (r, c', f') = seal_container os crc32 c f in
        (r ≡ success) × (c'.is_sealed ≡ true) × IsSealed c crc32 f f'
  unfolding seal_container finish_seal write_header
  seal_container_lem crc32 c f o w s fo =
      let (fine, has, first) = write_indices_lem f c.block_indices 0 fo in
      let f₁ = (write_indices os false f c.block_indices 0).1 in
      let m = header_bytes (sealed_header crc32 c.header) in
      let o₁ = first.is_open ∙ fo in
      let fine₂ = write_file-succeeds os f₁ m 128 0 h o₁ in
      let f₂ = (write_file os false f₁ m 128 0).1 in
      let holds = write_file_lem os false f₁ m 128 0 fine₂ in
      let second = Holds-Leaves f₁ f₂ m 128 0 holds in
      let o₂ = second.is_open ∙ o₁ in
      let all : ((seal_container os crc32 c f).0 ≡ success)
          × ((seal_container os crc32 c f).1.is_sealed ≡ true)
          × ((seal_container os crc32 c f).2 ≡ called f₂) =
        rw (o, w, s, fine, fine₂, sync_file-ok os h f₂ o₂) (refl, refl, refl) in
      (
        all.0,
        all.1,
        subst (IsSealed c crc32 f) (sym all.2) (record {
          header = λ a l.
              ap f₂.bytes {x = a} {y = 0 + a} (omega arith) ∙ Holds-inside f₁ f₂ m 128 0 a holds l;
          indices =
              HasIndices-ext f₁.bytes f₂.bytes (128 + 0 * 80) 128 c.block_indices
                (λ a l.
                  second.outside (128 + a) (inr (omega arith))
                  ∙ ap f₁.bytes {x = 128 + a} {y = 128 + 0 * 80 + a} (omega arith))
                has;
          outside =
              λ a l. second.outside a (inr (omega arith)) ∙ first.outside a (inr (omega arith));
          grown = omega (arith, first.grown, second.grown);
          room = omega (arith, holds.room (omega arith));
        }),
      )
