-- ===== src/Tests/Sorted.antt =====
-- An insertion sort by a key that is an int64_t, for std::sort and for ORDER BY.
use mathlib.Core.List.{Permᴰ}
use mathlib.Core.List.Permᴰ
use x_tdb.Base.{
  ℕ, ◌≡◌, refl, arith, true, false, List, [], ◌∷◌, All, All-mono, if◌then◌else◌, if-holds,
}
use x_tdb.Rotating.Segment.{signed_lt}
use x_tdb.Metadata.Tables.{Ascending}

module _ {A : Type 0} (key : A → ℕ) where
  unfoldable pub insert_by : A → List A → List A
  insert_by x [] = x ∷ []
  insert_by x (y ∷ ys) =
      let rest = insert_by x ys in if signed_lt (key y) (key x) then y ∷ rest else x ∷ y ∷ ys

  unfoldable pub sort_by : List A → List A
  unfolding insert_by
  sort_by [] = []
  sort_by (x ∷ xs) = insert_by x (sort_by xs)

  insert_by-Permᴰ : (x : A) (xs : List A) → Permᴰ (insert_by x xs) (x ∷ xs)
  unfolding insert_by
  insert_by-Permᴰ x [] = Permᴰ.refl (x ∷ [])
  insert_by-Permᴰ x (y ∷ ys) =
      if-holds (λ (zs : List A). Permᴰ zs (x ∷ y ∷ ys)) (signed_lt (key y) (key x)) _ _
        (λ low. Permᴰ.trans (Permᴰ.cons refl (insert_by-Permᴰ x ys)) (Permᴰ.swap refl refl))
        (λ high. Permᴰ.refl (x ∷ y ∷ ys))

  pub sort_by-Permᴰ : (xs : List A) → Permᴰ (sort_by xs) xs
  unfolding sort_by
  sort_by-Permᴰ [] = Permᴰ.nil
  sort_by-Permᴰ (x ∷ xs) =
      Permᴰ.trans (insert_by-Permᴰ x (sort_by xs)) (Permᴰ.cons refl (sort_by-Permᴰ xs))

  insert_by-All : (P : A → Type 0) (x : A) (xs : List A) → P x → All P xs → All P (insert_by x xs)
  unfolding insert_by
  insert_by-All P x [] h k = (h, tt)
  insert_by-All P x (y ∷ ys) h (k, ks) =
      if-holds (All P) (signed_lt (key y) (key x)) _ _ (λ low. (k, insert_by-All P x ys h ks))
        (λ high. (h, (k, ks)))

  insert_by-Ascending : (x : A) (xs : List A) → Ascending key xs → Ascending key (insert_by x xs)
  unfolding insert_by
  insert_by-Ascending x [] h = (tt, tt)
  insert_by-Ascending x (y ∷ ys) (h, hs) =
      if-holds (Ascending key) (signed_lt (key y) (key x)) _ _
        (λ low. (
          insert_by-All (λ z. signed_lt (key z) (key y) ≡ false) x ys (turned (key y) (key x) low)
              h,
          insert_by-Ascending x ys hs,
        ))
        (λ high. (
          (
            high,
            All-mono (λ z. signed_lt (key z) (key y) ≡ false)
                (λ z. signed_lt (key z) (key x) ≡ false) ys
                (λ z k. chained (key x) (key y) (key z) high k) h,
          ),
          (h, hs),
        ))
    where
      turned : (a b : ℕ) → signed_lt a b ≡ true → signed_lt b a ≡ false
      turned a b h = ground (arith, h)

      chained : (a b c : ℕ) → signed_lt b a ≡ false → signed_lt c b ≡ false → signed_lt c a ≡ false
      chained a b c h k = ground (arith, h, k)

  pub sort_by-Ascending : (xs : List A) → Ascending key (sort_by xs)
  unfolding sort_by
  sort_by-Ascending [] = tt
  sort_by-Ascending (x ∷ xs) = insert_by-Ascending x (sort_by xs) (sort_by-Ascending xs)
