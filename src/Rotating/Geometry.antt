-- ===== src/Rotating/Geometry.antt =====
-- Where the segments lie in the container behind the header's extent.
use x_tdb.Base.{
  ℕ, zero, suc, ◌+◌, ◌*◌, ◌^◌, ◌≤◌, ◌<◌, ◌≡◌, refl, sym, ap, subst, ◌∙◌, arith, true, List, [], ◌∷◌,
  ◌++◌, length, get_or, set,
}
use x_tdb.Layout.Units.{u32, u64}
use x_tdb.Io.{Os, File}
use x_tdb.Mutator.{io_ok}
use x_tdb.Rotating.Segment.{WalSegment, default_segment, success, RotatingWal}
use x_tdb.Rotating.Container.{
  resize_segments, init_segments, load_segments, initialize_container, write_zeros, write_header,
}

-- The segments from number `i` on are numbered in turn and lie one behind the other from `offset`.
abbrev pub IsLaidOut : ℕ → ℕ → ℕ → List WalSegment → Type 0
IsLaidOut size i offset [] = Unit {0}
IsLaidOut size i offset (s ∷ ss) =
    (s.segment_id ≡ i)
    × (s.start_offset ≡ offset)
    × (s.segment_size ≡ size)
    × IsLaidOut size (i + 1) (offset + size) ss

-- A segment of a laid out list, and where it lies.
pub IsLaidOut-get_or :
    (size i offset : ℕ) (ss : List WalSegment) (j : ℕ)
    → IsLaidOut size i offset ss
    → j < length ss
    → let s = get_or ss j default_segment in
      (s.segment_id ≡ i + j) × (s.start_offset ≡ offset + j * size) × (s.segment_size ≡ size)
IsLaidOut-get_or size i offset [] j v h = absurd (omega arith)
IsLaidOut-get_or size i offset (s ∷ ss) zero v h = (omega (arith, v.0), omega (arith, v.1), v.2)
IsLaidOut-get_or size i offset (s ∷ ss) (suc j) v h =
    let (a, b, c) = IsLaidOut-get_or size (i + 1) (offset + size) ss j v.3 (omega arith) in
    (omega (arith, a), omega (arith, b), c)

pub IsLaidOut-append :
    (size i offset : ℕ) (ss : List WalSegment) (s : WalSegment)
    → IsLaidOut size i offset ss
    → s.segment_id ≡ i + length ss
    → s.start_offset ≡ offset + length ss * size
    → s.segment_size ≡ size
    → IsLaidOut size i offset (ss ++ s ∷ [])
IsLaidOut-append size i offset [] s v a b c = (omega (arith, a), omega (arith, b), c, tt)
IsLaidOut-append size i offset (x ∷ ss) s v a b c = (
  v.0,
  v.1,
  v.2,
  IsLaidOut-append size (i + 1) (offset + size) ss s v.3 (omega (arith, a)) (omega (arith, b)) c,
)

pub IsLaidOut-set :
    (size i offset : ℕ) (ss : List WalSegment) (j : ℕ) (s : WalSegment)
    → IsLaidOut size i offset ss
    → (let t = get_or ss j default_segment in
        (s.segment_id ≡ t.segment_id)
        × (s.start_offset ≡ t.start_offset)
        × (s.segment_size ≡ t.segment_size))
    → IsLaidOut size i offset (set ss j s)
IsLaidOut-set size i offset [] j s v h = tt
IsLaidOut-set size i offset (x ∷ ss) zero s v h = (h.0 ∙ v.0, h.1 ∙ v.1, h.2 ∙ v.2, v.3)
IsLaidOut-set size i offset (x ∷ ss) (suc j) s v h =
    (v.0, v.1, v.2, IsLaidOut-set size (i + 1) (offset + size) ss j s v.3 h)

pub resize_segments-length : (n : ℕ) (ss : List WalSegment) → length (resize_segments n ss) ≡ n
unfolding resize_segments
resize_segments-length zero ss = refl
resize_segments-length (suc n) [] = ap suc (resize_segments-length n [])
resize_segments-length (suc n) (s ∷ ss) = ap suc (resize_segments-length n ss)

-- Loading places the segments where they lie.
pub load_segments-IsLaidOut :
    (size i offset : ℕ) (ss : List WalSegment)
    → offset + length ss * size < 2 ^ 64
    → IsLaidOut size i offset (load_segments size i offset ss)
      × (length (load_segments size i offset ss) ≡ length ss)
unfolding load_segments
load_segments-IsLaidOut size i offset [] h = (tt, refl)
load_segments-IsLaidOut size i offset (s ∷ ss) h =
    let next : u64 (offset + size) ≡ offset + size = omega arith in
    let rest = load_segments-IsLaidOut size (i + 1) (offset + size) ss (omega arith) in
    rw next ((refl, refl, refl, rest.0), ap suc rest.1)

-- Creating does the same as loading, where it succeeds.
pub init_segments-load :
    (os : Os) (size i offset : ℕ) (ss : List WalSegment) (f : File)
    → (init_segments os size i offset ss f).0 ≡ success
    → (init_segments os size i offset ss f).1 ≡ load_segments size i offset ss
unfolding init_segments load_segments
init_segments-load os size i offset [] f h = refl
init_segments-load os size i offset (s ∷ ss) f h =
    let f' = (write_zeros os f offset).1 in
    ground (arith, init_segments-load os size (i + 1) (u64 (offset + size)) ss f')

pub mul_le_right : (a b c : ℕ) → a ≤ b → a * c ≤ b * c
mul_le_right zero b c h = omega arith
mul_le_right (suc a) zero c h = absurd (omega arith)
mul_le_right (suc a) (suc b) c h = omega (arith, mul_le_right a b c (omega arith))

-- The segments are laid out, the current one exists, and the container may grow to its limit within
-- 64 bits.
pub record HasGeometry (w : RotatingWal) : Type 0 where
  pub laid : IsLaidOut w.config.segment_size_bytes 0 16384 w.segments
  pub current : w.current_segment_id < length w.segments
  pub few : length w.segments < 2 ^ 32
  pub limit : w.config.max_segments < 2 ^ 32
  pub capacity : 16384 + w.config.max_segments * w.config.segment_size_bytes < 2 ^ 64

-- A new log whose container is created has its segments laid out.
pub initialize_container-HasGeometry :
    (os : Os) (w : RotatingWal) (f : File)
    → 1 ≤ w.config.num_segments
    → w.config.num_segments ≤ w.config.max_segments
    → w.config.max_segments < 2 ^ 32
    → 16384 + w.config.max_segments * w.config.segment_size_bytes < 2 ^ 64
    → (initialize_container os w f).0 ≡ success
    → HasGeometry (initialize_container os w f).1
      × (length (initialize_container os w f).1.segments ≡ w.config.num_segments)
unfolding initialize_container
initialize_container-HasGeometry os w f some_segment below limit capacity h =
    let size = w.config.segment_size_bytes in
    let ss = resize_segments w.config.num_segments w.segments in
    let count = resize_segments-length w.config.num_segments w.segments in
    let (e₀, e₁) = steps in
    let placed =
      init_segments-load os size 0 16384 ss (write_header os f w.config.num_segments size 0).1 e₁ in
    let (laid, same) = load_segments-IsLaidOut size 0 16384 ss (
      omega (
        arith,
        count,
        mul_le_right w.config.num_segments w.config.max_segments size below,
        ap (λ (n : ℕ). n * size) count,
      )) in
    let made : length
          (init_segments os size 0 16384 ss (write_header os f w.config.num_segments size 0).1).1
        ≡ w.config.num_segments =
      ap (λ (l : List WalSegment). length l) placed ∙ same ∙ count in
    ground
      (arith, e₀, e₁, made, established _ made (subst (IsLaidOut size 0 16384) (sym placed) laid))
  where
    steps :
        (io_ok (write_header os f w.config.num_segments w.config.segment_size_bytes 0).0 ≡ true)
        × ((init_segments os w.config.segment_size_bytes 0 16384
              (resize_segments w.config.num_segments w.segments)
              (write_header os f w.config.num_segments w.config.segment_size_bytes 0).1).0
            ≡ success)
    steps = ground arith

    established :
        (ss : List WalSegment)
        → length ss ≡ w.config.num_segments
        → IsLaidOut w.config.segment_size_bytes 0 16384 ss
        → HasGeometry (record w { segments = ss; current_segment_id = 0 })
    established ss c v = record {
      laid = v;
      current = omega arith;
      few = omega arith;
      limit = limit;
      capacity = capacity;
    }

pub grown :
    (size : ℕ) (ss : List WalSegment) (s : WalSegment)
    → 16384 + length ss * size < 2 ^ 64
    → length ss < 2 ^ 32
    → IsLaidOut size 0 16384 ss
    → IsLaidOut size 0 16384 (
        ss
        ++ record default_segment {
          segment_id = u32 (length ss);
          start_offset = u64 (16384 + length ss * size);
          segment_size = size;
        }
          ∷ [])
grown size ss s fits few v = IsLaidOut-append size 0 16384 ss _ v (omega arith) (omega arith) refl
