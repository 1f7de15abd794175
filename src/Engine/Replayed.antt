-- ===== src/Engine/Replayed.antt =====
-- replayWAL of src/storage_engine.cpp on an engine that is not open yet.
use x_tdb.Base.{
  ℕ, ◌≡◌, ◌⊎◌, inl, inr, refl, sym, ap, ◌∙◌, subst, arith, false, Option, some, List, [], ◌∷◌,
  length, ◌==◌, if_false,
}
use x_tdb.Io.{File}
use x_tdb.Wal.Entry.{WalEntry}
use x_tdb.Rotating.Segment.{RotatingWal}
use x_tdb.Engine.State.{
  EngineResult, success, err_engine_not_open, Engine, Platform, ◌>>◌, guard_open, engine_ok,
}
use x_tdb.Engine.Steps.{closed_then, >>-failed}
use x_tdb.Engine.Batches.{flush_batches}
use x_tdb.Engine.Flush.{flush_buffers, flush}
use x_tdb.Engine.Points.{DataPoint, add_point, write_point, add_to_batch, entry_of}
use x_tdb.Engine.Replay.{
  Entries, collect_entries, write_entries, write_groups, replay_entries, replay_log, replay_wal,
}

module _ (p : Platform) (e : Engine) (closed : e.is_open ≡ false) where
  flush-closed : flush p e ≡ (err_engine_not_open, e)
  unfolding flush
  flush-closed =
      let c = closed_then (flush_batches p) e closed in
      >>-failed (guard_open >> flush_batches p) (flush_buffers p) e
        (ap (λ (r : EngineResult × Engine). engine_ok r.0) c)
      ∙ c

  write_point-closed :
      (tag_id : ℕ) (q : DataPoint) → write_point p tag_id q e ≡ (err_engine_not_open, e)
  unfolding write_point
  write_point-closed tag_id q =
      closed_then (λ x. add_point p (λ b. b) tag_id q (add_to_batch x.wal (entry_of tag_id 4 q) x))
        e closed

  write_entries-closed : (t : ℕ) (ws : List WalEntry) → write_entries p t ws e ≡ e
  unfolding write_entries
  write_entries-closed t [] = refl
  write_entries-closed t (w ∷ ws) =
      ap (λ (r : EngineResult × Engine). write_entries p t ws r.1) (write_point-closed t _)
      ∙ write_entries-closed t ws

  write_groups-closed : (m : Entries) → write_groups p m e ≡ e
  unfolding write_groups
  write_groups-closed [] = refl
  write_groups-closed ((t, ws) ∷ m) =
      ap (write_groups p m) (write_entries-closed t (p.sort_entries ws)) ∙ write_groups-closed m

  -- With entries to replay the result is an error, and with none there is nothing to do.
  replay_entries-closed :
      (m : Entries)
      → ((m ≡ []) × (replay_entries p m e ≡ (success, e)))
        ⊎ (replay_entries p m e ≡ (err_engine_not_open, e))
  unfolding replay_entries
  replay_entries-closed [] = inl (refl, refl)
  replay_entries-closed (x ∷ m) =
      let some_left : (length (x ∷ m) == 0) ≡ false = ground arith in
      inr (
        if_false (success, e) (flush p (write_groups p (x ∷ m) e)) (length (x ∷ m) == 0) some_left
        ∙ ap (flush p) (write_groups-closed (x ∷ m))
        ∙ flush-closed)

-- replayWAL as open calls it, while the engine is not open: it writes no point and leaves the engine
-- as it is, where there is a log and its file can be read. It fails with ERR_ENGINE_NOT_OPEN where the
-- log has an entry to replay.
pub replay_wal-closed :
    (p : Platform) (e : Engine) (fuel : ℕ) (f : File) (w : RotatingWal)
    → e.is_open ≡ false
    → e.wal ≡ some w
    → ((collect_entries p fuel f w.segments [] ≡ [])
        × (replay_wal p fuel (some f) e ≡ (success, e)))
      ⊎ (replay_wal p fuel (some f) e ≡ (err_engine_not_open, e))
unfolding replay_wal replay_log
replay_wal-closed p e fuel f w closed has =
    subst
      (λ (x : Option RotatingWal).
        ((collect_entries p fuel f w.segments [] ≡ [])
          × (replay_log p fuel x (some f) e ≡ (success, e)))
        ⊎ (replay_log p fuel x (some f) e ≡ (err_engine_not_open, e)))
      (sym has) (replay_entries-closed p e closed (collect_entries p fuel f w.segments []))
