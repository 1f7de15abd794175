-- ===== src/Engine/Batches.antt =====
-- The batches of log entries in front of the rotating log, and a round of the background thread.
use x_tdb.Base.{ℕ, ◌+◌, not, Option, none, some, List, [], ◌∷◌, length, leb, ◌==◌, if◌then◌else◌}
use x_tdb.Layout.Units.{u32}
use x_tdb.Io.{File}
use x_tdb.Wal.Entry.{WalEntry}
use x_tdb.Rotating.Segment.{RotatingWal, rotating_ok}
use x_tdb.Rotating.Append.{batch_append}
use x_tdb.Rotating.Append
use x_tdb.MemBuffer.{find, put}
use x_tdb.Engine.State.{success, err_wal_open_failed, engine_ok, Engine, Platform, Step}
use x_tdb.Engine.Single.{handle_segment_full}

-- kWALBatchSize, kAsyncWALThreshold, and the entries between two syncs
abbrev pub wal_batch_size : ℕ
wal_batch_size = 100

abbrev pub async_wal_threshold : ℕ
async_wal_threshold = 50

abbrev pub sync_interval : ℕ
sync_interval = 10_000

abbrev pub batch_of : Option (List WalEntry) → List WalEntry
batch_of none = []
batch_of (some es) = es

-- After a batch that is appended: the count, and a sync when it is due, whose result is not looked
-- at.
unfoldable pub count_entries : Platform → ℕ → RotatingWal → File → Engine → Engine
count_entries p n w f e =
    let since = u32 (e.wal_entries_since_sync + u32 n) in
    let (r, w', f') = Append.sync p.os w f in
    if leb sync_interval since
    then record e { wal = some w'; wal_file = f'; wal_entries_since_sync = 0 }
    else record e { wal = some w; wal_file = f; wal_entries_since_sync = since }

-- batchAppend with the engine's callback.
unfoldable pub append_batch : Platform → RotatingWal → List WalEntry → Step
unfolding count_entries
append_batch p w batch e =
    let (r, w', f, e') = batch_append p.os (some (handle_segment_full p)) w e.wal_file e batch in
    if not (rotating_ok r)
    then (err_wal_open_failed, record e' { wal = some w'; wal_file = f })
    else (success, count_entries p (length batch) w' f e')

-- A batch is taken out of the map before it is appended.
unfoldable pub flush_with : Platform → Option RotatingWal → ℕ → Step
unfolding append_batch
flush_with p none tag_id e = (success, e)
flush_with p (some w) tag_id e =
    let batch = batch_of (find tag_id e.wal_batches) in
    if length batch == 0
    then (success, e)
    else append_batch p w batch (record e { wal_batches = put tag_id [] e.wal_batches })

unfoldable pub flush_wal_batch : Platform → ℕ → Step
unfolding flush_with
flush_wal_batch p tag_id e = flush_with p e.wal tag_id e

-- The tags whose batch has at least `n` entries.
unfoldable pub tags_with : ℕ → List (ℕ × List WalEntry) → List ℕ
tags_with n [] = []
tags_with n ((t, batch) ∷ m) =
    let rest = tags_with n m in if leb n (length batch) then t ∷ rest else rest

-- The loop of flush, which stops at an error.
unfoldable pub flush_tags : Platform → List ℕ → Step
flush_tags p [] e = (success, e)
flush_tags p (t ∷ ts) e =
    let (r, e') = flush_wal_batch p t e in
    let rest = flush_tags p ts e' in if engine_ok r then rest else (r, e')

-- The loop of close and of the background thread, which goes on.
unfoldable pub flush_tags_anyway : Platform → List ℕ → Engine → Engine
flush_tags_anyway p [] e = e
flush_tags_anyway p (t ∷ ts) e = flush_tags_anyway p ts (flush_wal_batch p t e).1

unfoldable pub flush_batches : Platform → Step
unfolding tags_with flush_tags
flush_batches p e = flush_tags p (tags_with 1 e.wal_batches) e

-- One round of walFlushThreadFunc.
unfoldable pub background_round : Platform → Engine → Engine
unfolding tags_with flush_tags_anyway
background_round p e = flush_tags_anyway p (tags_with async_wal_threshold e.wal_batches) e
