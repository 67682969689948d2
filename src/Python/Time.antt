-- ===== src/Python/Time.antt =====
-- Instants. An aware `datetime` is its UTC instant in microseconds since 0001-01-01T00:00; a
-- naive one is the same count on an unnamed clock. Arithmetic is exact, where the source goes
-- through floating-point seconds.
use ha_reolink_battery.Base.{ℕ, ◌+◌, ◌*◌, Bool, leb}

pub data Stamp : Type 0 where
  naive aware : ℕ → Stamp

abbrev pub second : ℕ
second = 1000000

-- 1970-01-01T00:00:00Z
abbrev pub epoch : ℕ
epoch = 62135596800 * second

-- The first second after 9999-12-31T23:59:59Z, counted from 1970.
abbrev pub last_second : ℕ
last_second = 253402300800

-- `later - earlier <= limit`, where the difference may be negative.
abbrev pub age_within : ℕ → ℕ → ℕ → Bool
age_within limit later earlier = leb later (earlier + limit)
