-- ===== src/Blocks/Points.antt =====
-- The points of a compressed block behind their count: 13 bytes for a point of the swinging door,
-- 7 for a quantized one.
use x_tdb.Base.{
  ℕ, ◌+◌, ◌^◌, ◌≤◌, ◌<◌, ◌≡◌, ◌⊎◌, inl, inr, ◌∙◌, arith, Bytes, load, store, store_outside,
  load_ext, load-store, load-store_ne,
}
use x_tdb.Encoding.Door.{Point}
use x_tdb.Encoding.Quantized.{QuantizedPoint}
use x_tdb.Blocks.Rows.{Format, IsFormat}

-- Three fields of given widths, one behind the other.
store_three : ℕ → ℕ → ℕ → Bytes → ℕ → ℕ → ℕ → ℕ → Bytes
store_three i j k m p x y z = store (store (store m p i x) (p + i) j y) (p + i + j) k z

module _ (i j k : ℕ) (m : Bytes) (p x y z : ℕ) where
  three_first : x < 256 ^ i → load (store_three i j k m p x y z) p i ≡ x
  unfolding store_three
  three_first h =
      load-store_ne (store (store m p i x) (p + i) j y) (p + i + j) k z p i (inl (omega arith))
      ∙ load-store_ne (store m p i x) (p + i) j y p i (inl (omega arith))
      ∙ load-store m p i x h

  three_second : y < 256 ^ j → load (store_three i j k m p x y z) (p + i) j ≡ y
  unfolding store_three
  three_second h =
      load-store_ne (store (store m p i x) (p + i) j y) (p + i + j) k z (p + i) j
        (inl (omega arith))
      ∙ load-store (store m p i x) (p + i) j y h

  three_third : z < 256 ^ k → load (store_three i j k m p x y z) (p + i + j) k ≡ z
  unfolding store_three
  three_third h = load-store (store (store m p i x) (p + i) j y) (p + i + j) k z h

  three_outside : (a : ℕ) → (a < p) ⊎ (p + (i + j + k) ≤ a) → store_three i j k m p x y z a ≡ m a
  unfolding store_three
  three_outside a (inl h) =
      store_outside (store (store m p i x) (p + i) j y) (p + i + j) k z a (inl (omega arith))
      ∙ store_outside (store m p i x) (p + i) j y a (inl (omega arith))
      ∙ store_outside m p i x a (inl h)
  three_outside a (inr h) =
      store_outside (store (store m p i x) (p + i) j y) (p + i + j) k z a (inr (omega arith))
      ∙ store_outside (store m p i x) (p + i) j y a (inr (omega arith))
      ∙ store_outside m p i x a (inr (omega arith))

unfoldable pub point_format : Format Point
unfolding store_three
point_format = record {
  size = 4 + 8 + 1;
  write_row = λ m p c. store_three 4 8 1 m p c.time_offset c.value c.quality;
  read_row = λ m p. record {
    time_offset = load m p 4;
    value = load m (p + 4) 8;
    quality = load m (p + 4 + 8) 1;
  };
}

unfoldable pub quantized_format : Format QuantizedPoint
unfolding store_three
quantized_format = record {
  size = 4 + 2 + 1;
  write_row = λ m p q. store_three 4 2 1 m p q.time_offset q.quantized_value q.quality;
  read_row = λ m p. record {
    time_offset = load m p 4;
    quantized_value = load m (p + 4) 2;
    quality = load m (p + 4 + 2) 1;
  };
}

pub record FitsPoint (c : Point) : Type 0 where
  pub time_offset : c.time_offset < 256 ^ 4
  pub value : c.value < 256 ^ 8
  pub quality : c.quality < 256 ^ 1

pub record FitsQuantized (q : QuantizedPoint) : Type 0 where
  pub time_offset : q.time_offset < 256 ^ 4
  pub quantized_value : q.quantized_value < 256 ^ 2
  pub quality : q.quality < 256 ^ 1

pub point_format-IsFormat : IsFormat point_format FitsPoint
unfolding point_format
point_format-IsFormat = record {
  read-write = λ m p c f i. record {
    time_offset = three_first 4 8 1 m p c.time_offset c.value c.quality f.time_offset i;
    value = three_second 4 8 1 m p c.time_offset c.value c.quality f.value i;
    quality = three_third 4 8 1 m p c.time_offset c.value c.quality f.quality i;
  };
  write_outside = λ m p c a h. three_outside 4 8 1 m p c.time_offset c.value c.quality a h;
  read_ext = λ m n p h i. record {
    time_offset = load_ext m n p 4 (λ a l u. h a (omega arith) (omega arith)) i;
    value = load_ext m n (p + 4) 8 (λ a l u. h a (omega arith) (omega arith)) i;
    quality = load_ext m n (p + 4 + 8) 1 (λ a l u. h a (omega arith) (omega arith)) i;
  };
}

pub quantized_format-IsFormat : IsFormat quantized_format FitsQuantized
unfolding quantized_format
quantized_format-IsFormat = record {
  read-write = λ m p q f i. record {
    time_offset = three_first 4 2 1 m p q.time_offset q.quantized_value q.quality f.time_offset i;
    quantized_value =
        three_second 4 2 1 m p q.time_offset q.quantized_value q.quality f.quantized_value i;
    quality = three_third 4 2 1 m p q.time_offset q.quantized_value q.quality f.quality i;
  };
  write_outside =
      λ m p q a h. three_outside 4 2 1 m p q.time_offset q.quantized_value q.quality a h;
  read_ext = λ m n p h i. record {
    time_offset = load_ext m n p 4 (λ a l u. h a (omega arith) (omega arith)) i;
    quantized_value = load_ext m n (p + 4) 2 (λ a l u. h a (omega arith) (omega arith)) i;
    quality = load_ext m n (p + 4 + 2) 1 (λ a l u. h a (omega arith) (omega arith)) i;
  };
}
