-- ===== src/Model/Zone.antt =====
-- time.Location, which the standard library and the system's time zone database give: a parameter,
-- with what the program asks of it.
pub mod Regular
use travelmap.Base.{ℕ, ◌+◌, ◌%◌, ◌≤◌, ◌<◌, ◌≡◌}
use travelmap.Model.{Time, second}

-- `local t` is the calendar day of `t.In(loc)`, counted in days, and the time of day of its clock;
-- `date day clock` is `time.Date` at that day and clock, in this location.
pub record Zone : Type 0 where
  pub local : Time → ℕ × ℕ
  pub date : ℕ → ℕ → Time

-- A location in which every calendar day has its midnight, on a whole second, and consists of the
-- times from it up to the midnight of the next day. A location that moves its clocks over a
-- midnight is not one of these.
pub record IsRegular (z : Zone) : Type 0 where
  pub whole : (d : ℕ) → z.date d 0 % second ≡ 0
  pub midnight : (d : ℕ) → z.local (z.date d 0) ≡ (d, 0)
  pub start : (t : Time) → z.date (z.local t).0 0 ≤ t
  pub next : (t : Time) → t < z.date ((z.local t).0 + 1) 0
  pub ascending : (d e : ℕ) → d < e → z.date d 0 < z.date e 0
