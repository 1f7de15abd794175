-- ===== src/Engine/Ranged.antt =====
-- The results of queryPoints of src/storage_engine.cpp, from memory and from blocks.
use mathlib.Core.List.{Mem, mem-append_left, mem-cons_self, mem-cons_of_mem}
use mathlib.Core.List.Permᴰ
use x_tdb.Base.{
  ℕ, ◌+◌, ◌-◌, ◌*◌, ◌/◌, ◌^◌, ◌≤◌, ◌<◌, ◌≡◌, ◌⊎◌, sym, ap, subst, arith, Bool, true, false, Option,
  none, some, List, [], ◌∷◌, ◌++◌, length, All, All-perm, All-append_both, Bool-cases, if_true,
  if◌then◌else◌, inl, inr, ltb→lt, All-mono, if-holds,
}
use x_tdb.Rotating.Segment.{signed_lt}
use x_tdb.Records.{MemRecord, TagBuffer, value_type_of}
use x_tdb.Layout.Units.{u32, u64, biased}
use x_tdb.MemBuffer.{find, signed_sub, signed_div}
use x_tdb.Metadata.Tables.{Ascending}
use x_tdb.Blocks.Reader.{read_block}
use x_tdb.Engine.State.{EngineResult, success, QueryPoint, Engine, Platform, Sorts}
use x_tdb.Engine.Query.{
  point_of, in_range, points_within, memory_points, Located, new_reader, read_ok, read_blocks,
  blocks_to_read, count_query, query_points,
}

if-All {ℓ κ} :
    {A : Type ℓ} (P : A → Type κ) (b : Bool) (xs ys : List A)
    → All P xs
    → All P ys
    → All P (if b then xs else ys)
if-All P true xs ys h k = h
if-All P false xs ys h k = k

module _ (s t : ℕ) where
  -- The point lies between the ends of the range, as int64_t.
  abbrev pub InRange : QueryPoint → Type 0
  InRange q = (biased s ≤ biased q.timestamp_us) × (biased q.timestamp_us ≤ biased t)

  -- It lies in front of the range or behind it.
  abbrev pub Beside : QueryPoint → Type 0
  Beside q = (biased q.timestamp_us < biased s) ⊎ (biased t < biased q.timestamp_us)

  in_range-InRange : (q : QueryPoint) → in_range s t q ≡ true → InRange q
  in_range-InRange q h = (ground (arith, h), ground (arith, h))

  in_range-Beside : (q : QueryPoint) → in_range s t q ≡ false → Beside q
  in_range-Beside q h = elim (Bool-cases (signed_lt q.timestamp_us s)) [
    | inl e ↦ inl (ltb→lt _ _ e)
    | inr e ↦ inr (ground (arith, e, h))
  ]

  points_within-InRange : (base : ℕ) (rs : List MemRecord) → All InRange (points_within base s t rs)
  unfolding points_within
  points_within-InRange base [] = tt
  points_within-InRange base (r ∷ rs) =
      let rest = points_within-InRange base rs in
      elim (Bool-cases (in_range s t (point_of base r))) [
        | inl e ↦ rw e (in_range-InRange (point_of base r) e, rest)
        | inr e ↦ rw e rest
      ]

  -- Each record is among the points, or lies beside the range.
  abbrev pub AllKept : ℕ → List MemRecord → List QueryPoint → Type 0
  AllKept base rs qs = All (λ r. Mem (point_of base r) qs ⊎ Beside (point_of base r)) rs

  abbrev pub Reports : Option TagBuffer → List QueryPoint → Type 0
  Reports none qs = Unit {0}
  Reports (some b) qs = AllKept b.start_ts_us b.records qs

  AllKept-mono :
      (base : ℕ) (rs : List MemRecord) (qs qs' : List QueryPoint)
      → ((q : QueryPoint) → Mem q qs → Mem q qs')
      → AllKept base rs qs
      → AllKept base rs qs'
  AllKept-mono base rs qs qs' more =
      All-mono _ _ rs λ r. elim [ inl m ↦ inl (more _ m) | inr out ↦ inr out ]

  points_within-AllKept :
      (base : ℕ) (rs : List MemRecord) → AllKept base rs (points_within base s t rs)
  unfolding points_within
  points_within-AllKept base [] = tt
  points_within-AllKept base (r ∷ rs) =
      let q = point_of base r in
      let qs = points_within base s t rs in
      let rest = points_within-AllKept base rs in
      if-holds (AllKept base (r ∷ rs)) (in_range s t q) (q ∷ qs) qs
        (λ e.
          (inl mem-cons_self, AllKept-mono base rs qs (q ∷ qs) (λ x m. mem-cons_of_mem q m) rest))
        (λ e. (inr (in_range-Beside q e), rest))

  memory_points-Reports :
      (b : Option TagBuffer) (qs : List QueryPoint)
      → ((q : QueryPoint) → Mem q (memory_points b s t) → Mem q qs)
      → Reports b qs
  unfolding memory_points
  memory_points-Reports none qs more = tt
  memory_points-Reports (some b) qs more =
      AllKept-mono b.start_ts_us b.records _ qs more (points_within-AllKept b.start_ts_us b.records)

  memory_points-InRange : (b : Option TagBuffer) → All InRange (memory_points b s t)
  unfolding memory_points
  memory_points-InRange none = tt
  memory_points-InRange (some b) = points_within-InRange b.start_ts_us b.records

  read_blocks-InRange :
      (p : Platform) (m : Located) (e : Engine) → All InRange (read_blocks p s t m e).0
  unfolding read_blocks
  read_blocks-InRange p [] e = tt
  read_blocks-InRange p ((o, b) ∷ m) e =
      let got =
        read_block p.os (new_reader e.config.layout) e.io o b.block_index
          (value_type_of b.value_type) b.record_count [] in
      let points = points_within b.start_ts_us s t got.1 in
      let found = record e {
        io = got.3;
        read_stats = record e.read_stats {
          blocks_read = u64 (e.read_stats.blocks_read + 1);
          points_read_disk = u64 (e.read_stats.points_read_disk + length points);
        };
      } in
      let rest =
        read_blocks-InRange p m (if read_ok got.0 then found else record e { io = got.3 }) in
      if-All InRange (read_ok got.0) (points ++ _) _
        (All-append_both InRange points _ (points_within-InRange b.start_ts_us got.1) rest) rest

module _ (p : Platform) (tag_id s t : ℕ) (results : List QueryPoint) (e : Engine) (v : Sorts p)
    (o : e.is_open ≡ true) where
  abbrev from_memory : List QueryPoint
  from_memory = memory_points (find tag_id e.buffers) s t

  abbrev located : Located × Engine
  located = blocks_to_read p tag_id s t (count_query (length from_memory) e)

  abbrev from_disk : List QueryPoint × Engine
  from_disk = read_blocks p s t located.0 located.1

  abbrev answer : EngineResult × List QueryPoint × Engine
  answer = query_points p tag_id s t results e

  answer-eq : answer ≡ (success, p.sort_points (from_memory ++ from_disk.0), from_disk.1)
  unfolding query_points
  answer-eq = if_true _ _ e.is_open o

  -- The points of the memory buffer are among the results.
  pub memory-found : (q : QueryPoint) → Mem q from_memory → Mem q answer.1
  memory-found q m =
      subst (λ (r : EngineResult × List QueryPoint × Engine). Mem q r.1) (sym answer-eq)
        (Permᴰ.mem (Permᴰ.symm (v.points_kept (from_memory ++ from_disk.0)))
          (mem-append_left from_disk.0 m))

  -- A query of an open engine succeeds. What it gives lies between the ends of the range, as int64_t,
  -- and is in the order of time. It leaves out no record of the tag's memory buffer but those whose
  -- time is in front of the range or behind it. std::sort is relied on to keep and to order the points.
  pub query_points-InRange :
      (answer.0 ≡ success)
      × All (InRange s t) answer.1
      × Ascending QueryPoint.timestamp_us answer.1
      × Reports s t (find tag_id e.buffers) answer.1
  query_points-InRange = (
    ap (λ (r : EngineResult × List QueryPoint × Engine). r.0) answer-eq,
    subst (λ (r : EngineResult × List QueryPoint × Engine). All (InRange s t) r.1) (sym answer-eq)
        (All-perm (InRange s t) (Permᴰ.symm (v.points_kept (from_memory ++ from_disk.0))) (
          All-append_both (InRange s t) from_memory from_disk.0
            (memory_points-InRange s t (find tag_id e.buffers))
            (read_blocks-InRange s t p located.0 located.1))),
    subst (λ (r : EngineResult × List QueryPoint × Engine). Ascending QueryPoint.timestamp_us r.1)
        (sym answer-eq) (v.points_sorted (from_memory ++ from_disk.0)),
    memory_points-Reports s t (find tag_id e.buffers) answer.1 memory-found,
  )

-- The last record of a buffer.
pub points_within-last :
    (base s t : ℕ) (rs : List MemRecord) (r : MemRecord)
    → in_range s t (point_of base r) ≡ true
    → Mem (point_of base r) (points_within base s t (rs ++ r ∷ []))
unfolding points_within
points_within-last base s t [] r h = rw h mem-cons_self
points_within-last base s t (x ∷ rs) r h =
    let rest = points_within-last base s t rs r h in
    elim (Bool-cases (in_range s t (point_of base x))) [
      | inl e ↦ rw e (mem-cons_of_mem _ rest)
      | inr e ↦ rw e rest
    ]

-- The record of a point that does not lie before its buffer's start, as a point: the time is cut to a
-- whole millisecond after the start.
pub record_at-time :
    (start ts : ℕ)
    → start ≤ ts
    → ts < start + 1000 * 2 ^ 32
    → ts < 2 ^ 63
    → u64 (start + u32 (signed_div (signed_sub ts start) 1000) * 1000)
      ≡ start + (ts - start) / 1000 * 1000
unfolding signed_div
record_at-time start ts h near small =
    let past : signed_sub ts start ≡ ts - start = omega arith in rw past (ground arith)

-- A time that is not negative, compared as int64_t.
pub signed_lt-false : (a b : ℕ) → b ≤ a → a < 2 ^ 63 → signed_lt a b ≡ false
signed_lt-false a b h l = ground arith
