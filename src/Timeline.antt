-- ===== src/Timeline.antt =====
-- internal/timeline/trip.go: the operations on trips, each a call of the repository.
use travelmap.Base.{ℕ, List}
use travelmap.Model.Trip.{Trip}
use travelmap.Store.{Action}
use travelmap.Store.Trips

unfoldable pub create_trip : Trip → Action Trip
create_trip trip = Trips.create trip

unfoldable pub trip_by_id : ℕ → ℕ → Action Trip
trip_by_id user id = Trips.by_id user id

unfoldable pub trips_of : ℕ → Action (List Trip)
trips_of user = Trips.list user

unfoldable pub update_trip : Trip → Action Trip
update_trip trip = Trips.update trip

unfoldable pub delete_trip : ℕ → ℕ → Action (Unit {0})
delete_trip user id = Trips.delete user id
