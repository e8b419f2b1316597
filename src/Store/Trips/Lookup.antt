-- ===== src/Store/Trips/Lookup.antt =====
-- internal/store/sqlite/trips.go: what `ByID` finds after the other operations.
use mathlib.Core.Option
use travelmap.Base.{
  ℕ, suc, ◌*◌, ◌/◌, ◌≤◌, ◌≡◌, refl, Bool, true, not, ◌&&◌, Option, none, some, List, [], ◌∷◌, ◌++◌,
  map, filter, find, if◌then◌else◌, ◌==◌, arith, Bool-cases, Option-cases, inl, inr,
}
use travelmap.Base.Members.{In, here, there}
use travelmap.Model.{Time, second}
use travelmap.Model.Trip.{Trip}
use travelmap.Store.{Db, known_user, unix_time}
use travelmap.Store.Trips.{
  trip_owned, trip_row, insert_trip, retold, retell_row, update_trip, delete_trip,
}

-- What `ByID` finds.
abbrev pub lookup : ℕ → ℕ → Db → Option Trip
lookup user id db = find (trip_owned user id) db.trips

-- A time as a column holds it, in whole seconds.
abbrev pub whole : Time → Time
whole t = t / second * second

-- What is expected of a new row, and of a row that was there.
abbrev pub entered : ℕ → Time → Trip → Trip
entered id now trip = record {
  id = id;
  user_id = trip.user_id;
  title = trip.title;
  started_at = whole trip.started_at;
  ended_at = whole trip.ended_at;
  description = trip.description;
  created_at = whole now;
  updated_at = whole now;
}

abbrev pub changed : Time → Trip → Trip → Trip
changed now trip old = record {
  id = old.id;
  user_id = old.user_id;
  title = trip.title;
  started_at = whole trip.started_at;
  ended_at = whole trip.ended_at;
  description = trip.description;
  created_at = old.created_at;
  updated_at = whole now;
}

abbrev pub same_trip : ℕ → ℕ → ℕ → ℕ → Bool
same_trip user id v i = id == i && user == v

delete-find :
    (user id v i : ℕ) (ts : List Trip)
    → find (trip_owned v i) (filter (λ (t : Trip). not (trip_owned user id t)) ts)
      ≡ (if same_trip user id v i then none else find (trip_owned v i) ts)
unfolding trip_owned
delete-find user id v i [] = ground arith
delete-find user id v i (t ∷ ts) = elim (Bool-cases (t.id == id && t.user_id == user)) [
  | inl e ↦ rw e (ground (arith, e, delete-find user id v i ts))
  | inr e ↦ rw e (ground (arith, e, delete-find user id v i ts))
]

absent :
    (user id v i : ℕ) (ts : List Trip)
    → find (trip_owned user id) ts ≡ none
    → same_trip user id v i ≡ true
    → find (trip_owned v i) ts ≡ none
unfolding trip_owned
absent user id v i [] h s = refl
absent user id v i (t ∷ ts) h s = ground (arith, h, s, absent user id v i ts)

delete_trip-lookup :
    (user id v i : ℕ) (db : Db)
    → lookup v i (delete_trip user id db).1
      ≡ (if same_trip user id v i then none else lookup v i db)
unfolding delete_trip
delete_trip-lookup user id v i db = elim (Option-cases (lookup user id db)) [
  | inl n ↦ rw (n, delete_trip) (ground (arith, absent user id v i db.trips n))
  | inr (t, n) ↦ rw (n, delete_trip) (delete-find user id v i db.trips)
]

retell-find :
    (now : Time) (trip : Trip) (v i : ℕ) (ts : List Trip)
    → find (trip_owned v i) (map (retell_row now trip) ts) ≡ (
        if same_trip trip.user_id trip.id v i
        then Option.map (retold now trip) (find (trip_owned v i) ts)
        else find (trip_owned v i) ts)
unfolding trip_owned retell_row retold
retell-find now trip v i [] = ground arith
retell-find now trip v i (t ∷ ts) =
    elim (Bool-cases (t.id == trip.id && t.user_id == trip.user_id)) [
      | inl e ↦ rw e (ground (arith, e, retell-find now trip v i ts))
      | inr e ↦ rw e (ground (arith, e, retell-find now trip v i ts))
    ]

update_trip-lookup :
    (now : Time) (trip : Trip) (v i : ℕ) (db : Db)
    → lookup v i (update_trip now trip db).1 ≡ (
        if same_trip trip.user_id trip.id v i
        then Option.map (retold now trip) (lookup v i db)
        else lookup v i db)
unfolding update_trip
update_trip-lookup now trip v i db = elim (Option-cases (lookup trip.user_id trip.id db)) [
  | inl n ↦ rw (n, update_trip) (ground (arith, absent trip.user_id trip.id v i db.trips n))
  | inr (t, n) ↦ rw (n, update_trip) (retell-find now trip v i db.trips)
]

-- After Update of a trip, whether it is there or not, ByID finds under its user and id the row
-- that was there with the new title, range and description, or none, and after Delete of it
-- nothing; under any other user or id ByID finds after either what it found before.
pub changed_trip-lookup :
    (now : Time) (trip : Trip) (v i : ℕ) (db : Db)
    → (lookup v i (update_trip now trip db).1 ≡ (
        if same_trip trip.user_id trip.id v i
        then Option.map (changed now trip) (lookup v i db)
        else lookup v i db))
      × (lookup v i (delete_trip trip.user_id trip.id db).1
          ≡ (if same_trip trip.user_id trip.id v i then none else lookup v i db))
unfolding retold unix_time
changed_trip-lookup now trip v i db =
    (update_trip-lookup now trip v i db, delete_trip-lookup trip.user_id trip.id v i db)

insert-find :
    (id v i : ℕ) (now : Time) (trip : Trip) (ts : List Trip)
    → ((t : Trip) → In t ts → t.id ≤ id)
    → find (trip_owned v i) (ts ++ trip_row (suc id) now trip ∷ []) ≡ (
        if same_trip trip.user_id (suc id) v i
        then some (trip_row (suc id) now trip)
        else find (trip_owned v i) ts)
unfolding trip_owned trip_row
insert-find id v i now trip [] h = ground arith
insert-find id v i now trip (t ∷ ts) h =
    ground (arith, h t (here refl), insert-find id v i now trip ts (λ x j. h x (there j)))

-- Where a trip's user exists and no trip has an id beyond the last one given out, after Create
-- of the trip ByID finds its row, with the range in whole seconds, under the user and the next
-- id, and under any other user or id what it found before.
pub insert_trip-lookup :
    (now : Time) (trip : Trip) (v i : ℕ) (db : Db)
    → known_user db trip.user_id ≡ true
    → ((t : Trip) → In t db.trips → t.id ≤ db.trip_seq)
    → lookup v i (insert_trip now trip db).1 ≡ (
        if same_trip trip.user_id (suc db.trip_seq) v i
        then some (entered (suc db.trip_seq) now trip)
        else lookup v i db)
unfolding insert_trip trip_row unix_time
insert_trip-lookup now trip v i db known fresh =
    rw known (insert-find db.trip_seq v i now trip db.trips fresh)
