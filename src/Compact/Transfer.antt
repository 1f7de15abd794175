-- ===== src/Compact/Transfer.antt =====
-- The transfers of a compact container, however the system calls divide them.
use x_tdb.Base.{
  ℕ, zero, suc, ◌+◌, ◌-◌, ◌≤◌, ◌<◌, ◌≡◌, inl, inr, refl, sym, ap, ◌∙◌, arith, Bool, true, false,
  none, some, Option-cases, Bool-cases, Bytes, copy, copy_outside, ltb, ltb→lt, ltb→le, leb→le,
  leb→lt, leb, ◌==◌,
}
use x_tdb.Io.{File}
use x_tdb.Io.Laws.{SameContent}
use x_tdb.Compact.Files.{
  success, Calls, called, put_part, got_part, write_loop, read_loop, write_file, read_file,
}

-- System calls that do not fail.
pub record IsWorking (os : Calls) : Type 0 where
  pub seeks : (call : ℕ) → os.lseek call ≡ true
  pub reads : (call n : ℕ) → (k : ℕ) × (os.read call n ≡ some k)
  pub writes : (call n : ℕ) → (k : ℕ) × (os.write call n ≡ some k)
  pub syncs : (call : ℕ) → os.fsync call ≡ true

-- Two parts of a transfer are one.
copy-copy :
    (m source : Bytes) (p q k n a : ℕ)
    → k ≤ n
    → copy (copy m p source q k) (p + k) source (q + k) (n - k) a ≡ copy m p source q n a
unfolding copy
copy-copy m source p q k n a h = ground arith

-- A file after the bytes of `source` from `total` to `size` have been put at `offset`.
pub record Holds (f : File) (source : Bytes) (total size offset : ℕ) (f' : File) : Type 0 where
  pub bytes : (a : ℕ) → f'.bytes a ≡ copy f.bytes (offset + total) source total (size - total) a
  pub grown : f.size ≤ f'.size
  pub room : total < size → offset + size ≤ f'.size
  pub is_open : f'.is_open ≡ f.is_open

copy_none : (m source : Bytes) (p q n a : ℕ) → n ≡ 0 → copy m p source q n a ≡ m a
copy_none m source p q n a h = copy_outside m p source q n a (elim (Bool-cases (ltb a p)) [
  | inl before ↦ inl (ltb→lt a p before)
  | inr after ↦ inr (omega (arith, ltb→le a p after))
])

module _ (os : Calls) (fuel : ℕ) (f : File) (source : Bytes) (total size offset : ℕ) where
  write_loop_done :
      leb size total ≡ true → write_loop os (suc fuel) f source total size offset ≡ (true, f)
  unfolding write_loop
  write_loop_done h = rw (h, write_loop)

  write_loop_failed :
      leb size total ≡ false
      → os.write f.calls (size - total) ≡ none
      → write_loop os (suc fuel) f source total size offset ≡ (false, called f)
  unfolding write_loop
  write_loop_failed h e = rw (h, e, write_loop)

  write_loop_step :
      (k : ℕ)
      → leb size total ≡ false
      → os.write f.calls (size - total) ≡ some k
      → write_loop os (suc fuel) f source total size offset
        ≡ write_loop os fuel (put_part f source total offset k) source (total + k) size offset
  unfolding write_loop
  write_loop_step k h e = rw (h, e, write_loop)

Holds-done :
    (f : File) (source : Bytes) (total size offset : ℕ)
    → size ≤ total
    → Holds f source total size offset f
Holds-done f source total size offset h = record {
  bytes = λ a. sym (copy_none f.bytes source (offset + total) total (size - total) a (omega arith));
  grown = omega arith;
  room = λ l. absurd (omega arith);
  is_open = refl;
}

Holds-step :
    (f : File) (source : Bytes) (total size offset k : ℕ) (f' : File)
    → k ≤ size - total
    → Holds (put_part f source total offset k) source (total + k) size offset f'
    → Holds f source total size offset f'
Holds-step f source total size offset k f' le h = record {
  bytes = λ a.
      h.bytes a
      ∙ ap
          (λ p.
            copy (copy f.bytes (offset + total) source total k) p source (total + k)
              (size - (total + k)) a)
          {x = offset + (total + k)} {y = offset + total + k} (omega arith)
      ∙ ap
          (λ n.
            copy (copy f.bytes (offset + total) source total k) (offset + total + k) source
              (total + k) n a)
          {x = size - (total + k)} {y = size - total - k} (omega arith)
      ∙ copy-copy f.bytes source (offset + total) total k (size - total) a le;
  grown = omega (arith, h.grown);
  room = λ l. elim (Bool-cases (ltb (total + k) size)) [
    | inl more ↦ h.room (ltb→lt (total + k) size more)
    | inr all ↦ omega (arith, h.grown, ltb→le (total + k) size all)
  ];
  is_open = h.is_open;
}

write_loop_lem :
    (os : Calls) (fuel : ℕ) (f : File) (source : Bytes) (total size offset : ℕ)
    → total ≤ size
    → (write_loop os fuel f source total size offset).0 ≡ true
    → Holds f source total size offset (write_loop os fuel f source total size offset).1
unfolding write_loop
write_loop_lem os zero f source total size offset le ok =
    Holds-done f source total size offset (leb→le size total ok)
write_loop_lem os (suc fuel) f source total size offset le ok = elim (Bool-cases (leb size total)) [
  | inl done ↦
      rw (write_loop_done os fuel f source total size offset done)
        (Holds-done f source total size offset (leb→le size total done))
  | inr more ↦ elim (Option-cases (os.write f.calls (size - total))) [
    | inl failed ↦
        absurd (cc (write_loop_failed os fuel f source total size offset more failed, ok))
    | inr (k, e) ↦
        let step = write_loop_step os fuel f source total size offset k more e in
        let few = os.write_le f.calls (size - total) k e in
        rw step (
          Holds-step f source total size offset k _ few (
            write_loop_lem os fuel (put_part f source total offset k) source (total + k) size offset
              (omega (arith, few, leb→lt size total more)) (ap (λ r. r.0) (sym step) ∙ ok)))
  ]
]

write_loop-succeeds :
    (os : Calls) (fuel : ℕ) (f : File) (source : Bytes) (total size offset : ℕ)
    → IsWorking os
    → total ≤ size
    → size - total ≤ fuel
    → (write_loop os fuel f source total size offset).0 ≡ true
unfolding write_loop
write_loop-succeeds os zero f source total size offset h le l = ground arith
write_loop-succeeds os (suc fuel) f source total size offset h le l =
    elim (Bool-cases (leb size total)) [
      | inl done ↦ ap (λ r. r.0) (write_loop_done os fuel f source total size offset done)
      | inr more ↦
          let (k, e) = h.writes f.calls (size - total) in
          let few = os.write_le f.calls (size - total) k e in
          let some_byte = os.write_pos f.calls (size - total) k e in
          let left = leb→lt size total more in
          ap (λ r. r.0) (write_loop_step os fuel f source total size offset k more e)
          ∙ write_loop-succeeds os fuel (put_part f source total offset k) source (total + k) size
              offset h (omega (arith, few, left)) (omega (arith, some_byte (omega (arith, left))))
    ]

-- A successful writeFile has put all bytes in place and touched no other.
pub write_file_lem :
    (os : Calls) (read_only : Bool) (f : File) (source : Bytes) (size offset : ℕ)
    → (write_file os read_only f source size offset).0 ≡ success
    → Holds f source 0 size offset (write_file os read_only f source size offset).1
unfolding write_file
write_file_lem os read_only f source size offset ok =
    elim (Bool-cases (write_loop os size (called f) source 0 size offset).0) [
      | inl fine ↦
          let h = write_loop_lem os size (called f) source 0 size offset (omega arith) fine in
          let same : (write_file os read_only f source size offset).1
              ≡ (write_loop os size (called f) source 0 size offset).1 =
            ground (arith, fine) in
          rw same (record { bytes = h.bytes; grown = h.grown; room = h.room; is_open = h.is_open })
      | inr failed ↦ absurd (ground (arith, failed))
    ]

pub write_file-succeeds :
    (os : Calls) (f : File) (source : Bytes) (size offset : ℕ)
    → IsWorking os
    → f.is_open ≡ true
    → (write_file os false f source size offset).0 ≡ success
unfolding write_file
write_file-succeeds os f source size offset h o = ground (
  arith,
  h.seeks f.calls,
  write_loop-succeeds os size (called f) source 0 size offset h (omega arith) (omega arith),
)

-- A read leaves the file's content alone, and gets the bytes of the file.
record Gets (f : File) (m : Bytes) (total size offset : ℕ) (m' : Bytes) (f' : File) : Type 0 where
  cells : (a : ℕ) → m' a ≡ copy m total f.bytes (offset + total) (size - total) a
  same : SameContent f f'

module _ (os : Calls) (fuel : ℕ) (f : File) (m : Bytes) (total size offset : ℕ) where
  read_loop_done :
      leb size total ≡ true → read_loop os (suc fuel) f m total size offset ≡ (true, m, f)
  unfolding read_loop
  read_loop_done h = rw (h, read_loop)

  read_loop_step :
      (k : ℕ)
      → leb size total ≡ false
      → os.read f.calls (size - total) ≡ some k
      → 1 ≤ got_part f total offset k
      → read_loop os (suc fuel) f m total size offset
        ≡ read_loop os fuel
            (called f)
            (copy m total f.bytes (offset + total) (got_part f total offset k))
            (total + got_part f total offset k)
            size
            offset
  unfolding read_loop
  read_loop_step k h e pos =
      let some_bytes : (got_part f total offset k == 0) ≡ false = ground arith in
      rw (h, e, some_bytes, read_loop)

read_loop_lem :
    (os : Calls) (fuel : ℕ) (f : File) (m : Bytes) (total size offset : ℕ)
    → IsWorking os
    → total ≤ size
    → size - total ≤ fuel
    → offset + size ≤ f.size
    → let (fine, m', f') = read_loop os fuel f m total size offset in
      (fine ≡ true) × Gets f m total size offset m' f'
unfolding read_loop
read_loop_lem os zero f m total size offset h le l room = (
  ground arith,
  record {
    cells = λ a. sym (copy_none m f.bytes total (offset + total) (size - total) a (omega arith));
    same = record { bytes = refl; size = refl; is_open = refl };
  },
)
read_loop_lem os (suc fuel) f m total size offset h le l room = elim (Bool-cases (leb size total)) [
  | inl done ↦ rw (read_loop_done os fuel f m total size offset done) (
    refl,
    record {
      cells = λ a. sym (
          copy_none m f.bytes total (offset + total) (size - total) a
            (omega (arith, leb→le size total done)));
      same = record { bytes = refl; size = refl; is_open = refl };
    },
  )
  | inr more ↦
      let (k, e) = h.reads f.calls (size - total) in
      let few = os.read_le f.calls (size - total) k e in
      let left = leb→lt size total more in
      let pos = os.read_pos f.calls (size - total) k e (omega (arith, left)) in
      let got = got_part f total offset k in
      let all : got ≡ k = omega (arith, few, left, room) in
      let next : Bytes = copy m total f.bytes (offset + total) got in
      let (fine, gets) =
        read_loop_lem os fuel (called f) next (total + got) size offset h
          (omega (arith, few, left, all)) (omega (arith, pos, left, all)) room in
      rw (read_loop_step os fuel f m total size offset k more e (omega (arith, all, pos))) (
        fine,
        record {
          cells = λ a.
              gets.cells a
              ∙ ap (λ p. copy next (total + got) f.bytes p (size - (total + got)) a)
                  {x = offset + (total + got)} {y = offset + total + got} (omega arith)
              ∙ ap (λ n. copy next (total + got) f.bytes (offset + total + got) n a)
                  {x = size - (total + got)} {y = size - total - got} (omega arith)
              ∙ copy-copy m f.bytes total (offset + total) got (size - total) a
                  (omega (arith, all, few));
          same = record {
            bytes = gets.same.bytes;
            size = gets.same.size;
            is_open = gets.same.is_open;
          };
        },
      )
]

-- A read of bytes that exist gets them all, and leaves the rest of the buffer.
pub read_file_lem :
    (os : Calls) (f : File) (m : Bytes) (size offset : ℕ)
    → IsWorking os
    → f.is_open ≡ true
    → offset + size ≤ f.size
    → let (r, m', f') = read_file os f m size offset in
      (r ≡ success) × ((a : ℕ) → m' a ≡ copy m 0 f.bytes offset size a) × SameContent f f'
unfolding read_file
read_file_lem os f m size offset h o room =
    let (fine, gets) =
      read_loop_lem os size (called f) m 0 size offset h (omega arith) (omega arith) room in
    let (ok, m', f') = read_loop os size (called f) m 0 size offset in
    let eq : read_file os f m size offset ≡ (success, m', f') =
      ground (arith, h.seeks f.calls, fine) in
    (
      ap (λ r. r.0) eq,
      λ a.
          ap (λ r. r.1 a) eq
          ∙ gets.cells a
          ∙ ap (λ p. copy m 0 f.bytes p (size - 0) a) {x = offset + 0} {y = offset} (omega arith)
          ∙ ap (λ n. copy m 0 f.bytes offset n a) {x = size - 0} {y = size} (omega arith),
      rw eq
          (record { bytes = gets.same.bytes; size = gets.same.size; is_open = gets.same.is_open }),
    )
