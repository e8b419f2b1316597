-- ===== src/Store/Trips.antt =====
-- internal/store/sqlite/trips.go: the repository of the trips table.
mod Tests
pub mod Lookup
use travelmap.Base.{
  ℕ, suc, Bool, ◌&&◌, not, none, some, List, [], ◌∷◌, ◌++◌, map, filter, find, if◌then◌else◌, ◌==◌,
  ltb,
}
use travelmap.Base.Sort.{sort}
use travelmap.Model.{Time}
use travelmap.Model.Trip.{Trip}
use travelmap.Exec.{Result, ok, err, not_found, foreign_key, statement, with_now}
use travelmap.Store.{Db, Action, unix_time, known_user}

-- The row that an INSERT of `trip` makes.
unfoldable pub trip_row : ℕ → Time → Trip → Trip
unfolding unix_time
trip_row id now trip = record trip {
  id = id;
  started_at = unix_time trip.started_at;
  ended_at = unix_time trip.ended_at;
  created_at = unix_time now;
  updated_at = unix_time now;
}

-- The INSERT, and the trip that `Create` makes of its id: the range is as it was given.
unfoldable pub insert_trip : Time → Trip → Db → Result Trip × Db
unfolding trip_row known_user unix_time
insert_trip now trip db =
    if known_user db trip.user_id
    then (
      ok (record trip {
        id = suc db.trip_seq;
        created_at = unix_time now;
        updated_at = unix_time now;
      }),
      record db {
        trips = db.trips ++ trip_row (suc db.trip_seq) now trip ∷ [];
        trip_seq = suc db.trip_seq;
      },
    )
    else (err foreign_key, db)

unfoldable pub create : Trip → Action Trip
unfolding insert_trip statement
create trip = with_now λ now. statement (insert_trip now trip)

-- WHERE id = ? AND user_id = ?
unfoldable pub trip_owned : ℕ → ℕ → Trip → Bool
trip_owned user id t = t.id == id && t.user_id == user

unfoldable pub by_id : ℕ → ℕ → Action Trip
unfolding trip_owned statement
by_id user id = statement λ db. elim (find (trip_owned user id) db.trips) [
  | none ↦ (err not_found, db)
  | some t ↦ (ok t, db)
]

unfoldable pub list : ℕ → Action (List Trip)
unfolding sort statement
list user = statement λ db. (
  ok (
      sort (λ (s t : Trip). ltb s.started_at t.started_at)
        (filter (λ (t : Trip). t.user_id == user) db.trips)),
  db,
)

-- The SET clause.
unfoldable pub retold : Time → Trip → Trip → Trip
unfolding unix_time
retold now trip old = record old {
  title = trip.title;
  started_at = unix_time trip.started_at;
  ended_at = unix_time trip.ended_at;
  description = trip.description;
  updated_at = unix_time now;
}

unfoldable pub retell_row : Time → Trip → Trip → Trip
unfolding trip_owned retold
retell_row now trip t = if trip_owned trip.user_id trip.id t then retold now trip t else t

unfoldable pub update_trip : Time → Trip → Db → Result Trip × Db
unfolding retell_row
update_trip now trip db = elim (find (trip_owned trip.user_id trip.id) db.trips) [
  | none ↦ (err not_found, db)
  | some t ↦ (ok (retold now trip t), record db { trips = map (retell_row now trip) db.trips })
]

unfoldable pub update : Trip → Action Trip
unfolding update_trip statement
update trip = with_now λ now. statement (update_trip now trip)

unfoldable pub delete_trip : ℕ → ℕ → Db → Result (Unit {0}) × Db
unfolding trip_owned
delete_trip user id db = elim (find (trip_owned user id) db.trips) [
  | none ↦ (err not_found, db)
  | some t ↦
      (ok tt, record db { trips = filter (λ (t : Trip). not (trip_owned user id t)) db.trips })
]

unfoldable pub delete : ℕ → ℕ → Action (Unit {0})
unfolding delete_trip statement
delete user id = statement (delete_trip user id)
