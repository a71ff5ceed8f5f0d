-- ===== src/Time.antt =====
-- `new Date(t).toISOString()` and the order of its texts. A time is a number of milliseconds since
-- the epoch, and stands for its text: the columns hold the texts, and SQL compares those.
pub mod Iso
use nodestack.Prelude.{ℕ, ◌*◌, ◌≤◌, ◌<◌, ◌≡◌, Bool, true, false, arith, ltb, leb, if◌then◌else◌}
use nodestack.Prelude.{Outcome, ok, throw, invalid_time}

-- The latest time that a `Date` holds.
abbrev pub latest : ℕ
latest = 8_640_000_000_000_000

-- The start of the year 10000, from where the text is "+010000-…".
abbrev pub year_10000 : ℕ
year_10000 = 253_402_300_800_000

-- `toISOString` throws a `RangeError` out of range.
unfoldable pub to_iso : ℕ → Outcome ℕ
to_iso t = if leb t latest then ok t else throw invalid_time

-- The texts with a sign come before those with none, since "+" comes before the digits.
unfoldable pub iso_le : ℕ → ℕ → Bool
iso_le a b =
    if ltb a year_10000
    then (if ltb b year_10000 then leb a b else false)
    else (if ltb b year_10000 then true else leb a b)

abbrev pub iso_lt : ℕ → ℕ → Bool
iso_lt a b = if iso_le b a then false else true

-- Up to the year 9999 the order of the texts is the order of the times.
pub iso_le_of_le : (a b : ℕ) → a ≤ b → b < year_10000 → iso_le a b ≡ true
unfolding iso_le
iso_le_of_le a b h y = ground arith

pub le_of_iso_le : (a b : ℕ) → a < year_10000 → iso_le a b ≡ true → a ≤ b
unfolding iso_le
le_of_iso_le a b y h = ground arith
