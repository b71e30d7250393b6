-- ===== src/Store/Keys.antt =====
-- agent/src/store/tables.rs: the keys and the big-endian numbers of the tables.
pub mod Order
use Prim.Native.Nat.{min}
use analytics.Common.{
  ℕ, zero, suc, ◌+◌, ◌*◌, ◌/◌, ◌%◌, ◌^◌, List, [], ◌∷◌, ◌++◌, ℤ, pos_part, Text, length, take,
}
use analytics.Platform.{Bytes}

-- The last `k` bytes of `n`, the highest first.
unfoldable pub be_bytes : ℕ → ℕ → Bytes
be_bytes zero n = []
be_bytes (suc k) n = be_bytes k (n / 256) ++ (n % 256) ∷ []

-- The number that bytes stand for, the highest first.
of_be_from : ℕ → Bytes → ℕ
of_be_from acc [] = acc
of_be_from acc (b ∷ bs) = of_be_from (acc * 256 + b) bs

-- `event_key`: a negative time counts as 0.
unfoldable pub event_key : ℤ → ℕ → Bytes
event_key received_ms seq = be_bytes 8 (pos_part received_ms) ++ be_bytes 8 seq

-- At most eight (four) bytes are read; a shorter slice is padded with zeros on the left.
unfoldable pub u64_from_be : Bytes → ℕ
unfolding of_be_from
u64_from_be bytes = of_be_from 0 (take 8 bytes)

unfoldable pub u32_from_be : Bytes → ℕ
unfolding of_be_from
u32_from_be bytes = of_be_from 0 (take 4 bytes)

abbrev pub unit_separator : ℕ
unit_separator = 0x1f

unfoldable pub triage_key : Text → Text → Text
triage_key project_id group_id = project_id ++ unit_separator ∷ group_id
