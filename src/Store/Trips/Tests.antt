-- ===== src/Store/Trips/Tests.antt =====
-- internal/store/sqlite/trips.go at two concrete trips.
use mathlib.Core.Option
use travelmap.Base.{◌+◌, ◌*◌, ◌≤◌, ◌≡◌, refl, true, [], ◌∷◌, none, some, arith, if◌then◌else◌}
use travelmap.Base.Members.{In, in_cons}
use travelmap.Model.{second}
use travelmap.Model.Trip.{Trip}
use travelmap.Store.{Db, known_user}
use travelmap.Store.Trips.{insert_trip, update_trip, delete_trip}
use travelmap.Store.Trips.Lookup.{
  lookup, entered, changed, same_trip, insert_trip-lookup, changed_trip-lookup,
}
use travelmap.Fixture.{empty}

abbrev holiday : Trip
holiday = record {
  id = 1;
  user_id = 1;
  title = "Kyoto";
  started_at = 5 * second + 1;
  ended_at = 9 * second;
  description = "";
  created_at = 0;
  updated_at = 0;
}

abbrev travelled : Db
travelled = record empty { trips = record holiday { id = 3 } ∷ holiday ∷ []; trip_seq = 3 }

owner_known : known_user travelled 1 ≡ true
unfolding known_user
owner_known = refl

ids_given : (t : Trip) → In t travelled.trips → t.id ≤ 3
ids_given = in_cons _ _ _ (omega arith) (in_cons _ _ _ (omega arith) (λ t i. elim i [ ]))

insert_trip-lookup_example :
    lookup 1 4 (insert_trip (20 * second) holiday travelled).1
    ≡ (if same_trip 1 4 1 4 then some (entered 4 (20 * second) holiday) else lookup 1 4 travelled)
insert_trip-lookup_example =
    insert_trip-lookup (20 * second) holiday 1 4 travelled owner_known ids_given

changed_trip-lookup_example :
    (lookup 1 1 (update_trip (20 * second) holiday travelled).1 ≡ (
      if same_trip 1 1 1 1
      then Option.map (changed (20 * second) holiday) (lookup 1 1 travelled)
      else lookup 1 1 travelled))
    × (lookup 1 1 (delete_trip 1 1 travelled).1
        ≡ (if same_trip 1 1 1 1 then none else lookup 1 1 travelled))
changed_trip-lookup_example = changed_trip-lookup (20 * second) holiday 1 1 travelled
