-- ===== src/Encoding/Door/Picked.antt =====
-- Which points the swinging door stores.
use x_tdb.Base.{◌+◌, ◌≤◌, ◌≡◌, ◌⊎◌, List, [], ◌∷◌, ◌++◌, length}
use x_tdb.Records.{MemRecord}
use x_tdb.Encoding.Door.{Point, point_of, Door}

-- The points are those of records of the list, in its order; a record may give several of them.
abbrev pub Picks : List Point → List MemRecord → Type 0
Picks [] rs = Unit {0}
Picks (p ∷ ps) [] = ⊥
Picks (p ∷ ps) (r ∷ rs) = ((p ≡ point_of r) × Picks ps (r ∷ rs)) ⊎ Picks (p ∷ ps) rs

-- What the loop adds to the points of a state whose candidate is the point of `c`.
abbrev Adds : Door → List Point → MemRecord → List MemRecord → Type 0
Adds s ps c rs =
    (tail : List Point) × (ps ≡ s.points ++ tail)
    × Picks tail (c ∷ rs)
    × (length tail ≤ length rs + 1)

-- What one record may do: nothing, move the candidate on, or store it first.
abbrev Moves : Door → MemRecord → Door → Type 0
Moves s r s' =
    (s' ≡ s)
    ⊎ ((s'.last_candidate ≡ point_of r)
        × ((s'.points ≡ s.points) ⊎ (s'.points ≡ s.points ++ s.last_candidate ∷ [])))
