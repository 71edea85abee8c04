-- ===== src/Base/Time.antt =====
-- Instants are microseconds. A stored timestamp is a text, seen as what `datetime.fromisoformat`
-- makes of it: an instant with an offset, one without, or a `ValueError`.
use Prim.Native.Nat.{ℕ, ◌*◌}
use Prim.Native.String.{String}

abbrev pub second : ℕ
second = 1000000

abbrev pub hour : ℕ
hour = 3600 * second

abbrev pub day : ℕ
day = 24 * hour

pub data Stamp : Type 0 where
  aware : ℕ → Stamp
  naive : ℕ → Stamp
  malformed : String → Stamp
