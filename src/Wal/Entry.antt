-- ===== src/Wal/Entry.antt =====
-- WALEntry of include/xTdb/wal_writer.h: 24 packed bytes. The value union is its 8 bytes, and the
-- timestamp its 64-bit pattern.
use x_tdb.Base.{ℕ, ◌+◌, ◌^◌, ◌<◌, ◌≤◌, ◌≡◌, refl, arith, List, [], ◌∷◌, Bytes, load}
use x_tdb.Structs.{store_fields}
use x_tdb.Structs.RoundTrip.{load_field}

pub record WalEntry : Type 0 where
  pub tag_id : ℕ
  pub timestamp_us : ℕ
  pub value_type : ℕ
  pub quality : ℕ
  pub reserved : ℕ
  pub value : ℕ

-- sizeof(WALEntry)
abbrev pub entry_size : ℕ
entry_size = 24

unfoldable pub wal_entry_at : Bytes → ℕ → WalEntry
wal_entry_at m p = record {
  tag_id = load m p 4;
  timestamp_us = load m (p + 4) 8;
  value_type = load m (p + 12) 1;
  quality = load m (p + 13) 1;
  reserved = load m (p + 14) 2;
  value = load m (p + 16) 8;
}

abbrev wal_entry_fields : WalEntry → List (ℕ × ℕ × ℕ)
wal_entry_fields e =
    (0, 4, e.tag_id)
    ∷ (4, 8, e.timestamp_us)
    ∷ (12, 1, e.value_type)
    ∷ (13, 1, e.quality)
    ∷ (14, 2, e.reserved)
    ∷ (16, 8, e.value)
    ∷ []

unfoldable pub wal_entry_bytes : WalEntry → Bytes
wal_entry_bytes e = store_fields (wal_entry_fields e) (λ a. 0)

pub record IsWalEntry (e : WalEntry) : Type 0 where
  pub tag_id : e.tag_id < 256 ^ 4
  pub timestamp_us : e.timestamp_us < 256 ^ 8
  pub value_type : e.value_type < 256 ^ 1
  pub quality : e.quality < 256 ^ 1
  pub reserved : e.reserved < 256 ^ 2
  pub value : e.value < 256 ^ 8

-- A log entry whose fields fit their widths is read back from its 24 bytes.
pub wal_entry_at-bytes : (e : WalEntry) → IsWalEntry e → wal_entry_at (wal_entry_bytes e) 0 ≡ e
unfolding wal_entry_at wal_entry_bytes
wal_entry_at-bytes e v = λ i. record {
  tag_id = load_field (wal_entry_fields e) (λ a. 0) 0 4 e.tag_id refl v.tag_id i;
  timestamp_us = load_field (wal_entry_fields e) (λ a. 0) 4 8 e.timestamp_us refl v.timestamp_us i;
  value_type = load_field (wal_entry_fields e) (λ a. 0) 12 1 e.value_type refl v.value_type i;
  quality = load_field (wal_entry_fields e) (λ a. 0) 13 1 e.quality refl v.quality i;
  reserved = load_field (wal_entry_fields e) (λ a. 0) 14 2 e.reserved refl v.reserved i;
  value = load_field (wal_entry_fields e) (λ a. 0) 16 8 e.value refl v.value i;
}

pub wal_entry_shift :
    (m n : Bytes) (p q : ℕ)
    → ((i k : ℕ) → i + k ≤ 24 → load m (p + i) k ≡ load n (q + i) k)
    → wal_entry_at m p ≡ wal_entry_at n q
unfolding wal_entry_at
wal_entry_shift m n p q h = ground (arith, h 0 4, h 4 8, h 12 1, h 13 1, h 14 2, h 16 8)
