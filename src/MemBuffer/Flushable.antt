-- ===== src/MemBuffer/Flushable.antt =====
-- Which tag MemBuffer offers for a flush.
use x_tdb.Base.{
  ℕ, ◌≤◌, ◌<◌, ◌≡◌, ◌⊎◌, inl, inr, refl, sym, ap, ◌∙◌, arith, Option, none, some, List, [], ◌∷◌,
  length, max, Bool-cases, ltb, leb,
}
use x_tdb.Records.{TagBuffer}
use x_tdb.MemBuffer.{
  MemBuffer, open_buffer, find, put, add_entry, clear_tag, cleared, clear_all, any_full,
  longest_from, has_flushable_tag, get_flushable_tag, Call, call, calls, add, clear, reset,
}

-- Every key of the list is above `k`.
abbrev AllAbove : ℕ → List (ℕ × TagBuffer) → Type 0
AllAbove k [] = Unit {0}
AllAbove k ((j, b) ∷ m) = (k < j) × AllAbove k m

-- The keys grow.
abbrev pub IsOrdered : List (ℕ × TagBuffer) → Type 0
IsOrdered [] = Unit {0}
IsOrdered ((k, b) ∷ m) = AllAbove k m × IsOrdered m

put-AllAbove :
    (i k : ℕ) (b : TagBuffer) (m : List (ℕ × TagBuffer))
    → i < k
    → AllAbove i m
    → AllAbove i (put k b m)
unfolding put
put-AllAbove i k b [] h a = (h, tt)
put-AllAbove i k b ((j, c) ∷ m) h a = ground (arith, put-AllAbove i k b m)

AllAbove-mono : (i k : ℕ) (m : List (ℕ × TagBuffer)) → i < k → AllAbove k m → AllAbove i m
AllAbove-mono i k [] h a = tt
AllAbove-mono i k ((j, c) ∷ m) h a = (omega arith, AllAbove-mono i k m h a.1)

put-IsOrdered :
    (k : ℕ) (b : TagBuffer) (m : List (ℕ × TagBuffer)) → IsOrdered m → IsOrdered (put k b m)
unfolding put
put-IsOrdered k b [] o = (tt, tt)
put-IsOrdered k b ((j, c) ∷ m) o =
    ground (arith, put-AllAbove j k b m, put-IsOrdered k b m, AllAbove-mono k j m)

cleared-IsOrdered :
    (k : ℕ) (o : Option TagBuffer) (m : List (ℕ × TagBuffer))
    → IsOrdered m
    → IsOrdered (cleared k o m)
unfolding cleared
cleared-IsOrdered k none m h = h
cleared-IsOrdered k (some b) m h = put-IsOrdered k _ m h

call-IsOrdered : (c : Call) (m : MemBuffer) → IsOrdered m.buffers → IsOrdered (call c m).buffers
unfolding call add_entry clear_tag clear_all
call-IsOrdered (add e) m o = put-IsOrdered e.tag_id _ m.buffers o
call-IsOrdered (clear k) m o = cleared-IsOrdered k (find k m.buffers) m.buffers o
call-IsOrdered reset m o = tt

calls-IsOrdered :
    (cs : List Call) (m : MemBuffer) → IsOrdered m.buffers → IsOrdered (calls cs m).buffers
unfolding calls
calls-IsOrdered [] m o = o
calls-IsOrdered (c ∷ cs) m o = calls-IsOrdered cs (call c m) (call-IsOrdered c m o)

call-limit : (c : Call) (m : MemBuffer) → (call c m).max_records_per_tag ≡ m.max_records_per_tag
unfolding call add_entry clear_tag clear_all
call-limit (add e) m = refl
call-limit (clear k) m = refl
call-limit reset m = refl

calls-limit :
    (cs : List Call) (m : MemBuffer) → (calls cs m).max_records_per_tag ≡ m.max_records_per_tag
unfolding calls
calls-limit [] m = refl
calls-limit (c ∷ cs) m = calls-limit cs (call c m) ∙ call-limit c m

abbrev records_in : Option TagBuffer → ℕ
records_in none = 0
records_in (some b) = length b.records

-- The count of records that a tag has.
abbrev pub size_of : MemBuffer → ℕ → ℕ
size_of m k = records_in (find k m.buffers)

-- The greatest count, and at least `size`.
longest_size : ℕ → List (ℕ × TagBuffer) → ℕ
longest_size size [] = size
longest_size size ((k, b) ∷ m) = longest_size (max size (length b.records)) m

le_longest_size : (size : ℕ) (m : List (ℕ × TagBuffer)) → size ≤ longest_size size m
unfolding longest_size
le_longest_size size [] = omega arith
le_longest_size size ((k, b) ∷ m) = omega (arith, le_longest_size (max size (length b.records)) m)

records_in-le :
    (k size : ℕ) (m : List (ℕ × TagBuffer)) → records_in (find k m) ≤ longest_size size m
unfolding find longest_size
records_in-le k size [] = omega arith
records_in-le k size ((j, b) ∷ m) = ground (
  arith,
  records_in-le k (max size (length b.records)) m,
  le_longest_size (max size (length b.records)) m,
)

above_found :
    (k t : ℕ) (b : TagBuffer) (m : List (ℕ × TagBuffer)) → AllAbove k m → find t m ≡ some b → k < t
unfolding find
above_found k t b [] a h = cc
above_found k t b ((j, c) ∷ m) a h = ground (arith, above_found k t b m)

-- The tag is the one given, with its size, or one that is found.
abbrev Longest : ℕ → ℕ → List (ℕ × TagBuffer) → ℕ → ℕ → Type 0
Longest tag size m t n =
    ((t ≡ tag) × (n ≡ size)) ⊎ ((b : TagBuffer) × (find t m ≡ some b) × (length b.records ≡ n))

Longest-skip :
    (tag size k : ℕ) (b : TagBuffer) (m : List (ℕ × TagBuffer)) (t n : ℕ)
    → AllAbove k m
    → Longest tag size m t n
    → Longest tag size ((k, b) ∷ m) t n
unfolding find
Longest-skip tag size k b m t n a (inl same) = inl same
Longest-skip tag size k b m t n a (inr (c, found, eq)) =
    inr (c, ground (arith, above_found k t c m a found), eq)

Longest-take :
    (tag size k : ℕ) (b : TagBuffer) (m : List (ℕ × TagBuffer)) (t n : ℕ)
    → AllAbove k m
    → Longest k (length b.records) m t n
    → Longest tag size ((k, b) ∷ m) t n
unfolding find
Longest-take tag size k b m t n a (inl same) = inr (b, ground arith, sym same.1)
Longest-take tag size k b m t n a (inr (c, found, eq)) =
    inr (c, ground (arith, above_found k t c m a found), eq)

longest_from_lem :
    (tag size : ℕ) (m : List (ℕ × TagBuffer))
    → IsOrdered m
    → Longest tag size m (longest_from tag size m) (longest_size size m)
unfolding longest_from longest_size
longest_from_lem tag size [] o = inl (refl, refl)
longest_from_lem tag size ((k, b) ∷ m) o = elim (Bool-cases (ltb size (length b.records))) [
  | inl longer ↦
      let greatest : max size (length b.records) ≡ length b.records = ground arith in
      rw (longer, greatest)
        (Longest-take tag size k b m _ _ o.0 (longest_from_lem k (length b.records) m o.1))
  | inr shorter ↦
      let greatest : max size (length b.records) ≡ size = ground arith in
      rw (shorter, greatest) (Longest-skip tag size k b m _ _ o.0 (longest_from_lem tag size m o.1))
]

any_full-eq :
    (limit size : ℕ) (m : List (ℕ × TagBuffer))
    → size < limit
    → any_full limit m ≡ leb limit (longest_size size m)
unfolding any_full longest_size
any_full-eq limit size [] h = ground arith
any_full-eq limit size ((k, b) ∷ m) h = ground (
  arith,
  any_full-eq limit (max size (length b.records)) m,
  le_longest_size (max size (length b.records)) m,
)

-- The tag that is offered has the greatest count.
get_flushable_tag_lem :
    (m : MemBuffer)
    → IsOrdered m.buffers
    → size_of m (get_flushable_tag m) ≡ longest_size 0 m.buffers
unfolding get_flushable_tag
get_flushable_tag_lem m o = elim (longest_from_lem 0 0 m.buffers o) [
  | inl none_longer ↦
      omega (arith, none_longer.1, records_in-le (longest_from 0 0 m.buffers) 0 m.buffers)
  | inr (b, found, eq) ↦ rw found eq
]

-- After any calls on a fresh buffer with a limit of at least one record: no tag has more records
-- than the tag that getFlushableTag offers, and hasFlushableTag is true exactly when that tag has
-- reached the limit.
pub flushable_after_calls :
    (cs : List Call) (limit k : ℕ)
    → 1 ≤ limit
    → let m = calls cs (open_buffer limit) in
      (size_of m k ≤ size_of m (get_flushable_tag m))
      × (has_flushable_tag m ≡ leb limit (size_of m (get_flushable_tag m)))
unfolding has_flushable_tag
flushable_after_calls cs limit k h =
    let m = calls cs (open_buffer limit) in
    let greatest = get_flushable_tag_lem m (calls-IsOrdered cs (open_buffer limit) tt) in
    (
      omega (arith, greatest, records_in-le k 0 m.buffers),
      rw (calls-limit cs (open_buffer limit)) (any_full-eq limit 0 m.buffers h)
          ∙ ap (leb limit) (sym greatest),
    )
