-- ===== src/Store/Points.antt =====
-- internal/store/sqlite/points.go: the repository of the points table.
pub mod Inserted
use mathlib.Core.Option
use travelmap.Base.{
  ℕ, suc, ◌+◌, ◌-◌, ◌*◌, ◌%◌, Bool, true, ◌&&◌, not, Option, none, some, List, [], ◌∷◌, ◌++◌, map,
  ltb, leb, ◌==◌, if◌then◌else◌, any, filter, find, length, take, drop,
}
use travelmap.Base.Integers.{max_int}
use travelmap.Base.Sort.{sort}
use travelmap.Base.Extremes.{first_by}
use travelmap.Model.{Time, Float64, Point}
use travelmap.Exec.{Result, ok, err, not_found, foreign_key, pure, statement, with_now, ◌>>=◌}
use travelmap.Store.{Db, Action, unix_time, known_user}

-- points_user_id_timestamp_key
unfoldable pub same_key : Point → Point → Bool
same_key p q = p.user_id == q.user_id && p.timestamp == q.timestamp

-- The row that an INSERT of `p` makes.
unfoldable pub row_of : ℕ → Time → Point → Point
unfolding unix_time
row_of id now p = record p {
  id = id;
  timestamp = unix_time p.timestamp;
  created_at = unix_time now;
  updated_at = unix_time now;
}

-- INSERT ... ON CONFLICT (user_id, timestamp) DO NOTHING, and its rows affected. A conflict takes an
-- AUTOINCREMENT id all the same.
unfoldable pub insert_point : Time → Point → Db → Result ℕ × Db
unfolding same_key row_of known_user
insert_point now p db =
    let row = row_of (suc db.point_seq) now p in
    if any (same_key row) db.points
    then (ok 0, record db { point_seq = suc db.point_seq })
    else if known_user db p.user_id
    then (ok 1, record db { points = db.points ++ row ∷ []; point_seq = suc db.point_seq })
    else (err foreign_key, db)

unfoldable pub create_rows : Time → List Point → ℕ → Action ℕ
unfolding insert_point statement ◌>>=◌
create_rows now [] inserted = pure inserted
create_rows now (p ∷ ps) inserted = do
  affected ← statement (insert_point now p)
  create_rows now ps (inserted + affected)

unfoldable pub create : List Point → Action ℕ
unfolding create_rows
create points = with_now λ now. create_rows now points 0

unfoldable pub distinct : List ℕ → List ℕ
distinct [] = []
distinct (u ∷ us) = u ∷ filter (λ v. not (v == u)) (distinct us)

-- SELECT DISTINCT user_id FROM points ORDER BY user_id
unfoldable pub select_user_ids : List Point → List ℕ
unfolding distinct sort
select_user_ids points = sort ltb (distinct (map (λ (p : Point). p.user_id) points))

unfoldable pub user_ids : Action (List ℕ)
unfolding select_user_ids statement
user_ids = statement λ db. (ok (select_user_ids db.points), db)

abbrev pub earlier : Point → Point → Bool
earlier p q = ltb p.timestamp q.timestamp

-- SELECT ... FROM points WHERE user_id = ? ORDER BY timestamp
unfoldable pub select_ordered : ℕ → List Point → List Point
unfolding sort
select_ordered user points = sort earlier (filter (λ (p : Point). p.user_id == user) points)

unfoldable pub timestamps : ℕ → Action (List Time)
unfolding select_ordered statement
timestamps user =
    statement λ db. (ok (map (λ (p : Point). p.timestamp) (select_ordered user db.points)), db)

unfoldable pub all_ordered : ℕ → Action (List Point)
unfolding select_ordered statement
all_ordered user = statement λ db. (ok (select_ordered user db.points), db)

abbrev pub at_time : Point → Time
at_time p = p.timestamp

-- SELECT timestamp ... WHERE user_id = ? AND timestamp > ? ORDER BY timestamp LIMIT 1
abbrev pub after_time : ℕ → Time → Point → Bool
after_time user after p = p.user_id == user && ltb after p.timestamp

unfoldable pub select_next : ℕ → Time → List Point → Option Time
unfolding first_by
select_next user after points =
    Option.map at_time (first_by at_time (filter (after_time user after) points))

unfoldable pub next_timestamp : ℕ → Time → Action (Option Time)
unfolding select_next unix_time statement
next_timestamp user after = statement λ db. (ok (select_next user (unix_time after) db.points), db)

-- The WHERE of `List`.
unfoldable pub in_range : ℕ → Option Time → Time → Point → Bool
unfolding unix_time
in_range user start_at end_at p =
    p.user_id == user
    && leb p.timestamp (unix_time end_at)
    && elim start_at [ none ↦ true | some s ↦ leb (unix_time s) p.timestamp ]

-- (page - 1) * perPage in 64 bits; SQLite takes a negative offset for none.
unfoldable pub offset_of : ℕ → ℕ → ℕ
offset_of page per_page =
    let offset = (page - 1) * per_page % 18_446_744_073_709_551_616 in
    if leb offset max_int then offset else 0

-- LIMIT per_page OFFSET offset
unfoldable pub page_of {ℓ} : {A : Type ℓ} → ℕ → ℕ → List A → List A
unfolding offset_of
page_of page per_page rows = take per_page (drop (offset_of page per_page) rows)

unfoldable pub list : ℕ → Option Time → Time → Bool → ℕ → ℕ → Action (List Point × ℕ)
unfolding in_range page_of sort statement ◌>>=◌
list user start_at end_at ascending page per_page = do
  total ← statement λ db. (ok (length (filter (in_range user start_at end_at) db.points)), db)
  points ← statement λ db.
      let order = if ascending then earlier else (λ p q. earlier q p) in
      (
        ok (page_of page per_page (sort order (filter (in_range user start_at end_at) db.points))),
        db,
      )
  pure (points, total)

abbrev pub owned : ℕ → ℕ → Point → Bool
owned user id p = p.id == id && p.user_id == user

abbrev pub move_to : Time → Float64 → Float64 → Point → Point
move_to now latitude longitude p = record p {
  latitude = latitude;
  longitude = longitude;
  updated_at = now;
}

-- UPDATE points SET latitude, longitude, updated_at WHERE id = ? AND user_id = ? RETURNING
abbrev pub update_row : ℕ → ℕ → (Point → Point) → Point → Point
update_row user id f p = if owned user id p then f p else p

unfoldable pub update_point : ℕ → ℕ → (Point → Point) → Db → Result Point × Db
update_point user id f db = elim (find (owned user id) db.points) [
  | none ↦ (err not_found, db)
  | some p ↦ (ok (f p), record db { points = map (update_row user id f) db.points })
]

unfoldable pub update : ℕ → ℕ → Float64 → Float64 → Action Point
unfolding update_point unix_time statement
update user id latitude longitude =
    with_now λ now. statement (update_point user id (move_to (unix_time now) latitude longitude))

-- DELETE FROM points WHERE id = ? AND user_id = ? RETURNING timestamp
unfoldable pub delete_point : ℕ → ℕ → Db → Result Time × Db
delete_point user id db = elim (find (owned user id) db.points) [
  | none ↦ (err not_found, db)
  | some p ↦ (ok p.timestamp, record db { points = filter (λ q. not (owned user id q)) db.points })
]

unfoldable pub delete : ℕ → ℕ → Action Time
unfolding delete_point statement
delete user id = statement (delete_point user id)

abbrev pub doomed : ℕ → List ℕ → Point → Bool
doomed user ids p = p.user_id == user && any (λ id. id == p.id) ids

-- DELETE FROM points WHERE user_id = ? AND id IN (...) RETURNING timestamp
unfoldable pub delete_rows : ℕ → List ℕ → Db → Result (List Time) × Db
delete_rows user ids db = (
  ok (map (λ (p : Point). p.timestamp) (filter (doomed user ids) db.points)),
  record db { points = filter (λ p. not (doomed user ids p)) db.points },
)

unfoldable pub delete_bulk : ℕ → List ℕ → Action (List Time)
unfolding delete_rows statement
delete_bulk user [] = pure []
delete_bulk user (id ∷ ids) = statement (delete_rows user (id ∷ ids))
