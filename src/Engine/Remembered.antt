-- ===== src/Engine/Remembered.antt =====
-- writePoint of src/storage_engine.cpp, and queryPoints with no flush between them.
use mathlib.Core.List.{Mem}
use x_tdb.Base.{
  ℕ, ◌+◌, ◌-◌, ◌*◌, ◌/◌, ◌^◌, ◌≤◌, ◌<◌, ◌≡◌, refl, sym, ap, subst, ◌∙◌, arith, true, false, Option,
  none, some, List, [], ◌∷◌, length, length-append, if_true, if_false, leb, lt→leb, ◌==◌,
  if◌then◌else◌, eq→==,
}
use x_tdb.Wal.Entry.{WalEntry}
use x_tdb.Rotating.Segment.{RotatingWal}
use x_tdb.Records.{TagBuffer}
use x_tdb.MemBuffer.{find, put, push_record}
use x_tdb.MemBuffer.Gathered.{find-put}
use x_tdb.Engine.State.{EngineResult, success, QueryPoint, Engine, Platform, Sorts}
use x_tdb.Engine.Steps.{open_then}
use x_tdb.Engine.Flush.{flush}
use x_tdb.Engine.Points.{
  DataPoint, entry_of, add_to_batch, buffer_at, record_at, flush_limit, count_point, add_point,
  write_point,
}
use x_tdb.Engine.Query.{point_of, in_range, memory_points, query_points}
use x_tdb.Engine.Ranged.{points_within-last, memory-found, record_at-time, signed_lt-false}

-- The batch of the log is all that the first step changes.
add_to_batch_lem :
    (w : Option RotatingWal) (entry : WalEntry) (e : Engine)
    → ((add_to_batch w entry e).buffers ≡ e.buffers)
      × ((add_to_batch w entry e).is_open ≡ e.is_open)
unfolding add_to_batch
add_to_batch_lem none entry e = (refl, refl)
add_to_batch_lem (some w) entry e = (refl, refl)

module _ (p : Platform) (tag_id : ℕ) (q : DataPoint) (e : Engine) (o : e.is_open ≡ true) where
  -- The buffer that the point goes to.
  abbrev pub target : TagBuffer
  target = buffer_at (λ b. b) tag_id (find tag_id e.buffers) q.timestamp_us

  abbrev batched : Engine
  batched = add_to_batch e.wal (entry_of tag_id 4 q) e

  abbrev pushed : TagBuffer
  pushed = push_record target (record_at target.start_ts_us q)

  abbrev remembered : Engine
  remembered = record (count_point batched) { buffers = put tag_id pushed e.buffers }

  write_point-eq :
      length target.records + 1 < flush_limit → write_point p tag_id q e ≡ (success, remembered)
  unfolding write_point add_point push_record
  write_point-eq few =
      let (same, _) = add_to_batch_lem e.wal (entry_of tag_id 4 q) e in
      let low : leb flush_limit (length pushed.records) ≡ false =
        lt→leb flush_limit _
          (omega (arith, length-append target.records (record_at target.start_ts_us q ∷ []))) in
      open_then (λ c. add_point p (λ b. b) tag_id q (add_to_batch c.wal (entry_of tag_id 4 q) c)) e
        o
      ∙ ap
          (λ (m : List (ℕ × TagBuffer)).
            let b = buffer_at (λ x. x) tag_id (find tag_id m) q.timestamp_us in
            let b' = push_record b (record_at b.start_ts_us q) in
            let e' = record (count_point batched) { buffers = put tag_id b' m } in
            if leb flush_limit (length b'.records) then flush p e' else (success, e'))
          same
      ∙ if_false _ (success, remembered) (leb flush_limit (length pushed.records)) low

  -- A point that is taken into a buffer which does not get full is found by every query for its tag
  -- whose range holds the millisecond in front of it: with its value and quality, and a time that is
  -- cut down by less than a millisecond. The point is not older than the start of its buffer, nor
  -- younger by 2^32 milliseconds.
  pub query_points-write_point :
      (s t : ℕ) (results : List QueryPoint)
      → Sorts p
      → length target.records + 1 < 1000
      → target.start_ts_us ≤ q.timestamp_us
      → q.timestamp_us < target.start_ts_us + 1000 * 2 ^ 32
      → s + 999 ≤ q.timestamp_us
      → q.timestamp_us ≤ t
      → t < 2 ^ 63
      → let (r, e') = write_point p tag_id q e in
        let (r', found, e'') = query_points p tag_id s t results e' in
        (r ≡ success)
        × ((x : QueryPoint) × Mem x found
            × (x.value ≡ q.value)
            × (x.quality ≡ q.quality)
            × (x.timestamp_us ≤ q.timestamp_us)
            × (q.timestamp_us < x.timestamp_us + 1000))
  unfolding memory_points push_record
  query_points-write_point s t results v few past near low high small =
      let start = target.start_ts_us in
      let x = point_of start (record_at start q) in
      let taken = write_point-eq few in
      let time : x.timestamp_us ≡ start + (q.timestamp_us - start) / 1000 * 1000 =
        record_at-time start q.timestamp_us past near (omega arith) in
      let inside : in_range s t x ≡ true = ground (
        arith,
        signed_lt-false x.timestamp_us s (omega (arith, time)) (omega (arith, time)),
        signed_lt-false t x.timestamp_us (omega (arith, time)) small,
      ) in
      let open_still : remembered.is_open ≡ true =
        (add_to_batch_lem e.wal (entry_of tag_id 4 q) e).1 ∙ o in
      let kept : memory_points (find tag_id remembered.buffers) s t
          ≡ memory_points (some pushed) s t =
        ap (λ (b : Option TagBuffer). memory_points b s t)
          (find-put tag_id tag_id pushed e.buffers
            ∙ if_true _ _ (tag_id == tag_id) (eq→== tag_id tag_id refl)) in
      let held : Mem x (memory_points (some pushed) s t) = pushed-held s t inside in
      (
        ap (λ (r : EngineResult × Engine). r.0) taken,
        (
          x,
          subst (λ (r : EngineResult × Engine). Mem x (query_points p tag_id s t results r.1).1)
              (sym taken)
              (memory-found p tag_id s t results remembered v open_still x
                (subst (λ (xs : List QueryPoint). Mem x xs) (sym kept) held)),
          refl,
          refl,
          omega (arith, time),
          omega (arith, time),
        ),
      )
    where
      pushed-held :
          (s t : ℕ)
          → in_range s t (point_of target.start_ts_us (record_at target.start_ts_us q)) ≡ true
          → Mem
              (point_of target.start_ts_us (record_at target.start_ts_us q))
              (memory_points (some pushed) s t)
      pushed-held s t inside =
          points_within-last target.start_ts_us s t target.records (record_at target.start_ts_us q)
            inside
