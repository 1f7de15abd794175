-- ===== src/Rotating/Aliased.antt =====
-- The slots of the segments after an append that has rotated.
use x_tdb.Base.{
  ℕ, zero, suc, ◌<◌, ◌≡◌, ◌≢◌, refl, sym, ap, ◌∙◌, arith, true, Option, none, some, List, [], ◌∷◌,
  length, get_or, get_or-set_self, get_or-set_ne, set,
}
use x_tdb.Io.{Os, File}
use x_tdb.Wal.Entry.{WalEntry}
use x_tdb.Wal.Writer.{WalWriter, wal_ok}
use x_tdb.Wal.Writer
use x_tdb.Rotating.Segment.{
  WalSegment, default_segment, available_space, success, RotatingWal, FlushCallback,
}
use x_tdb.Rotating.Rotate.{rotate_segment}
use x_tdb.Rotating.Append.{segment_after, put_entry, put_with, refetch, append_body, append}

-- The slots after a successful write: the one given is updated.
record Updated (slot : ℕ) (w w' : RotatingWal) : Type 0 where
  current : w'.current_segment_id ≡ w.current_segment_id
  updated :
      (i : ℕ)
      → (get_or w'.segments i default_segment).start_offset
        ≡ (get_or w.segments i default_segment).start_offset

set_start :
    (ss : List WalSegment) (slot i : ℕ) (s : WalSegment)
    → s.start_offset ≡ (get_or ss slot default_segment).start_offset
    → (get_or (set ss slot s) i default_segment).start_offset
      ≡ (get_or ss i default_segment).start_offset
set_start [] slot i s h = refl
set_start (x ∷ ss) zero zero s h = h
set_start (x ∷ ss) zero (suc i) s h = refl
set_start (x ∷ ss) (suc slot) zero s h = refl
set_start (x ∷ ss) (suc slot) (suc i) s h = set_start ss slot i s h

put_entry-Updated :
    (os : Os) (slot : ℕ) (writer : WalWriter) (w : RotatingWal) (f : File) (e : WalEntry)
    → Updated slot w (put_entry os slot writer w f e).1
unfolding put_entry
put_entry-Updated os slot writer w f e =
    let s = get_or w.segments slot default_segment in
    let after = segment_after e (Writer.append os writer f e).1.current_offset s in
    let updated : (i : ℕ)
        → (get_or (set w.segments slot after) i default_segment).start_offset
          ≡ (get_or w.segments i default_segment).start_offset =
      λ i. set_start w.segments slot i after refl in
    record { current = ground arith; updated = λ i. ground (arith, updated i) }

put_with-Updated :
    (os : Os) (slot : ℕ) (writer : Option WalWriter) (w : RotatingWal) (f : File) (e : WalEntry)
    → Updated slot w (put_with os slot writer w f e).1
unfolding put_with
put_with-Updated os slot none w f e = record { current = refl; updated = λ i. refl }
put_with-Updated os slot (some writer) w f e = put_entry-Updated os slot writer w f e

-- The assignment copies the current segment into the slot.
record Copied (slot : ℕ) (w w' : RotatingWal) : Type 0 where
  current : w'.current_segment_id ≡ w.current_segment_id
  start :
      (get_or w'.segments slot default_segment).start_offset
      ≡ (get_or w'.segments w.current_segment_id default_segment).start_offset

refetch_lem :
    (slot : ℕ) (w : RotatingWal)
    → slot < length w.segments
    → slot ≢ w.current_segment_id
    → Copied slot w (refetch slot w)
unfolding refetch
refetch_lem slot w inside other =
    let s = get_or w.segments w.current_segment_id default_segment in
    record {
      current = refl;
      start =
          ap WalSegment.start_offset (get_or-set_self w.segments slot s default_segment inside)
          ∙ sym (
              ap WalSegment.start_offset
                (get_or-set_ne w.segments slot w.current_segment_id s default_segment other));
    }

-- After an append that rotates to another segment, the slot of the segment it came from says that
-- it starts where the new current segment starts: the place of the old segment is lost.
pub append_aliased :
    {S : Type 0} (os : Os) (callback : Option (FlushCallback S)) (w : RotatingWal) (f : File)
    (s : S) (e : WalEntry)
    → w.is_open ≡ true
    → e.tag_id ≢ 0
    → available_space (get_or w.segments w.current_segment_id default_segment) < 16408
    → let w₁ = (rotate_segment os callback w f s).1 in
      (rotate_segment os callback w f s).0 ≡ success
      → w.current_segment_id < length w₁.segments
      → w.current_segment_id ≢ w₁.current_segment_id
      → let w' = (append os callback w f s e).1 in
        (w'.current_segment_id ≡ w₁.current_segment_id)
        × ((get_or w'.segments w.current_segment_id default_segment).start_offset
            ≡ (get_or w'.segments w'.current_segment_id default_segment).start_offset)
unfolding append append_body
append_aliased os callback w f s e o tag low ok inside other =
    let (r, w₁, f₁, s₁) = rotate_segment os callback w f s in
    let slot = w.current_segment_id in
    let w₂ = refetch slot w₁ in
    let copied = refetch_lem slot w₁ inside other in
    let u = put_with-Updated os slot w₁.current_writer w₂ f₁ e in
    let current : (put_with os slot w₁.current_writer w₂ f₁ e).1.current_segment_id
        ≡ w₁.current_segment_id =
      u.current ∙ copied.current in
    let same : (get_or (put_with os slot w₁.current_writer w₂ f₁ e).1.segments slot
          default_segment).start_offset
        ≡ (get_or (put_with os slot w₁.current_writer w₂ f₁ e).1.segments w₁.current_segment_id
            default_segment).start_offset =
      u.updated slot ∙ copied.start ∙ sym (u.updated w₁.current_segment_id) in
    ground (
      arith,
      ok,
      current,
      same,
      ap
          (λ (i : ℕ).
            (get_or (put_with os slot w₁.current_writer w₂ f₁ e).1.segments i
              default_segment).start_offset)
          current,
    )
