-- ===== src/MemBuffer/Gathered.antt =====
-- What MemBuffer holds for a tag after a sequence of entries.
use x_tdb.Base.{
  ℕ, ◌≡◌, refl, arith, Option, none, some, List, [], ◌∷◌, ◌++◌, map, ◌==◌, if◌then◌else◌,
}
use x_tdb.Wal.Entry.{WalEntry}
use x_tdb.Records.{TagBuffer}
use x_tdb.MemBuffer.{find, put, record_of, new_buffer, add_entry, MemBuffer}

pub find-put {ℓ} :
    {V : Type ℓ} (k j : ℕ) (v : V) (m : List (ℕ × V))
    → find j (put k v m) ≡ (if j == k then some v else find j m)
unfolding find put
find-put k j v [] = refl
find-put k j v ((i, w) ∷ m) = ground (arith, find-put k j v m)

-- The entries of one tag, in order.
abbrev pub entries_of : ℕ → List WalEntry → List WalEntry
entries_of tag_id [] = []
entries_of tag_id (e ∷ es) =
    let rest = entries_of tag_id es in if tag_id == e.tag_id then e ∷ rest else rest

-- A buffer with the records of a list of entries behind its own.
abbrev pub extended : TagBuffer → List WalEntry → TagBuffer
extended b es = record b { records = b.records ++ map (record_of b) es }

-- The first entry of a tag that has no buffer fixes the buffer's base time and type.
abbrev pub gathered : Option TagBuffer → List WalEntry → Option TagBuffer
gathered (some b) es = some (extended b es)
gathered none [] = none
gathered none (e ∷ es) = some (extended (new_buffer e) (e ∷ es))

unfoldable pub add_entries : List WalEntry → MemBuffer → MemBuffer
add_entries [] m = m
add_entries (e ∷ es) m = add_entries es (add_entry m e).1
