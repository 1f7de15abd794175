-- ===== src/Rotating/Kept.antt =====
-- The places of the segments under clearing, growing and rotating.
use x_tdb.Base.{ℕ, ◌≤◌, ◌≡◌, refl, arith, List, Option, none, some, length, length-set, get_or, set}
use x_tdb.Io.{Os, File}
use x_tdb.Rotating.Segment.{default_segment, reset_segment, RotatingWal, FlushCallback}
use x_tdb.Rotating.Container.{segment_writer}
use x_tdb.Rotating.Rotate.{clear_segment}
use x_tdb.Rotating.Geometry.{IsLaidOut-set, HasGeometry}

-- What a step may not change, besides keeping the geometry.
pub record Kept (w w' : RotatingWal) : Type 0 where
  pub geometry : HasGeometry w'
  pub config : w'.config ≡ w.config
  pub current : w'.current_segment_id ≡ w.current_segment_id
  pub more : length w.segments ≤ length w'.segments

Kept-same : (w : RotatingWal) → HasGeometry w → Kept w w
Kept-same w v = record { geometry = v; config = refl; current = refl; more = omega arith }

-- Clearing a segment keeps the geometry on every branch.
pub clear_segment-Kept :
    (os : Os) (segment_id : ℕ) (w : RotatingWal) (f : File)
    → HasGeometry w
    → Kept w (clear_segment os segment_id w f).1
unfolding clear_segment
clear_segment-Kept os i w f v =
    let s = get_or w.segments i default_segment in
    let cleared : Kept w (record w { segments = set w.segments i (reset_segment s) }) = record {
      geometry = record {
        laid =
            IsLaidOut-set w.config.segment_size_bytes 0 16384 w.segments i (reset_segment s) v.laid
              (refl, refl, refl);
        current = omega (arith, v.current, length-set w.segments i (reset_segment s));
        few = omega (arith, v.few, length-set w.segments i (reset_segment s));
        limit = v.limit;
        capacity = v.capacity;
      };
      config = refl;
      current = refl;
      more = omega (arith, length-set w.segments i (reset_segment s));
    } in
    ground (arith, cleared, Kept-same w v)

-- The writer that a rotation starts belongs to the current segment.
abbrev pub HasWriter : Os → RotatingWal → Type 0
HasWriter os w =
    w.current_writer
    ≡ some (segment_writer os (get_or w.segments w.current_segment_id default_segment))

-- What the flush callback may do: keep the geometry, the configuration and the current segment.
abbrev pub IsCallback : {S : Type 0} → FlushCallback S → Type 0
IsCallback {S} callback =
    (old : ℕ) (tags : List ℕ) (w : RotatingWal) (f : File) (s : S)
    → HasGeometry w
    → Kept w (callback old tags w f s).1

abbrev pub IsCallback? : {S : Type 0} → Option (FlushCallback S) → Type 0
IsCallback? none = Unit {0}
IsCallback? (some callback) = IsCallback callback
