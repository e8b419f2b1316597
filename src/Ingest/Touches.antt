-- ===== src/Ingest/Touches.antt =====
-- What a mutation reports of the points it changed, and what the days to rebuild have to cover.
use travelmap.Base.{ℕ, ◌≤◌, ◌<◌, ◌≡◌, Bool, true, false, ◌&&◌, List, some, ◌==◌, any, filter}
use travelmap.Base.Extremes.{last_by}
use travelmap.Base.Members.{In}
use travelmap.Model.{Time, Point}
use travelmap.Model.Zone.{Zone}
use travelmap.Store.{unix_time}
use travelmap.Store.Points.{at_time, select_next}
use travelmap.Store.DailyStats.{before_day}
use travelmap.Ingest.{Touch, DayKey, same_day, key_of, local_midnight}

abbrev pub hit_by : Point → Touch → Bool
hit_by p t = t.user_id == p.user_id && unix_time t.timestamp == p.timestamp

-- A row at the owner and time of a reported change.
abbrev pub hits : List Touch → Point → Bool
hits ts p = any (hit_by p) ts

-- The last row before a time is the same in both tables, or is one of the changed rows. Then it is
-- in neither table, as far as the reported times go, an earlier one.
pub data Nearest (ts : List Touch) (user start : ℕ) (before after : List Point) : Type 0 where
  same :
      last_by at_time (filter (before_day user start) after)
        ≡ last_by at_time (filter (before_day user start) before)
      → Nearest ts user start before after
  hit :
      (q : Point)
      → hits ts q ≡ true
      → before_day user start q ≡ true
      → ((r : Point) → In r after → before_day user start r ≡ true → r.timestamp ≤ q.timestamp)
      → ((t : Touch)
          → In t ts
          → t.user_id ≡ user
          → unix_time t.timestamp < start
          → unix_time t.timestamp ≤ q.timestamp)
      → Nearest ts user start before after

-- `after` differs from `before` only in rows that `ts` reports.
pub record Touches (ts : List Touch) (before after : List Point) : Type 0 where
  pub stays :
      (p : Point → Bool)
      → ((r : Point) → p r ≡ true → hits ts r ≡ false)
      → filter p after ≡ filter p before
  pub nearest : (user start : ℕ) → Nearest ts user start before after

abbrev pub Listed : List DayKey → ℕ → Time → Type 0
Listed days user day = any (same_day (record { user_id = user; day = day })) days ≡ true

-- The day of the first point after the last change of `t`'s day is listed.
pub record NextListed (z : Zone) (ts : List Touch) (after : List Point) (days : List DayKey)
    (t : Touch) : Type 0 where
  pub latest : Touch
  pub is_in : In latest ts
  pub same_key : key_of z latest ≡ key_of z t
  pub late : t.timestamp ≤ latest.timestamp
  pub next :
      (n : Time)
      → select_next t.user_id (unix_time latest.timestamp) after ≡ some n
      → Listed days t.user_id (local_midnight z n)

pub record Covers (z : Zone) (ts : List Touch) (after : List Point) (days : List DayKey)
    : Type 0 where
  pub own : (t : Touch) → In t ts → Listed days t.user_id (local_midnight z t.timestamp)
  pub next : (t : Touch) → In t ts → NextListed z ts after days t
  pub midnights : (k : DayKey) → In k days → (e : ℕ) × (k.day ≡ z.date e 0)
  pub owners : (k : DayKey) → In k days → (t : Touch) × In t ts × (t.user_id ≡ k.user_id)
