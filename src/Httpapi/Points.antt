-- ===== src/Httpapi/Points.antt =====
-- internal/httpapi/points.go: the handlers of /api/v1/points and of Overland's batches.
pub mod Requests
pub mod Isolated
pub mod Answers
pub mod Parsed
pub mod Repeated
pub mod Served
use mathlib.Core.Option
use travelmap.Base.{ℕ, String, Bool, Option, none, some, List, [], ◌∷◌, map}
use travelmap.Base.Text.{same_text}
use travelmap.Model.{Time, Float64, Point, User}
use travelmap.Exec.{Result, ok, err, Error, not_found}
use travelmap.Store.Points
use travelmap.Ingest.{create_points, update_point, delete_point, delete_points}
use travelmap.Httpapi.Dto.{
  Feature, LocationsRequest, PointDto, PointUpdateRequest, PointsBulkDeleteRequest, Body,
}
use travelmap.Httpapi.Response.{
  Layout, Std, Api, Response, Handler, reply, attempt, with_request_time, write_json, write_error,
  server_error, as_user, with_body,
}
use travelmap.Httpapi.Query.{
  first_layout, positive_int, parse_query_time, parse_point_id, write_page,
}

abbrev pub timestamp_layouts : List Layout
timestamp_layouts = Layout.rfc3339_nano ∷ Layout.overland ∷ []

unfoldable pub parse_timestamp : Std → String → Option Time
unfolding first_layout
parse_timestamp std s = first_layout std s timestamp_layouts

-- The zeros stand for the fields that the store fills in.
unfoldable pub point_at : ℕ → Feature → Float64 → Float64 → Time → Point
point_at user f longitude latitude timestamp = record {
  id = 0;
  user_id = user;
  timestamp = timestamp;
  latitude = latitude;
  longitude = longitude;
  altitude = f.properties.altitude;
  velocity = f.properties.speed;
  accuracy = f.properties.horizontal_accuracy;
  vertical_accuracy = f.properties.vertical_accuracy;
  course = f.properties.course;
  course_accuracy = f.properties.course_accuracy;
  battery_status = f.properties.battery_state;
  battery = f.properties.battery_level;
  ssid = f.properties.wifi;
  tracker_id = f.properties.device_id;
  created_at = 0;
  updated_at = 0;
}

-- The first two coordinates; a third, the elevation, is left aside.
abbrev pub point_of : ℕ → Feature → List Float64 → Option Time → Option Point
point_of user f [] timestamp = none
point_of user f (longitude ∷ []) timestamp = none
point_of user f (longitude ∷ latitude ∷ rest) none = none
point_of user f (longitude ∷ latitude ∷ rest) (some timestamp) =
    some (point_at user f longitude latitude timestamp)

unfoldable pub point_from_feature : Std → Feature → ℕ → Option Point
unfolding parse_timestamp point_at
point_from_feature std f user =
    point_of user f f.geometry.coordinates (parse_timestamp std f.properties.timestamp)

abbrev pub add_point : Option Point → List Point → List Point
add_point none points = points
add_point (some p) points = p ∷ points

unfoldable pub parse_locations : Std → List Feature → ℕ → List Point
unfolding point_from_feature
parse_locations std [] user = []
parse_locations std (f ∷ fs) user =
    add_point (point_from_feature std f user) (parse_locations std fs user)

abbrev pub created_response : Api → ℕ → Result ℕ → Handler
created_response api success (ok created) =
    reply (write_json api success (Body.locations_created created))
created_response api success (err e) = reply (server_error api)

unfoldable pub ingest_locations : Api → Option User → Option LocationsRequest → ℕ → Handler
unfolding as_user with_body attempt parse_locations write_json server_error
ingest_locations api caller body success = as_user api caller λ user. with_body api body λ req.
    attempt
      (create_points api.ops api.loc api.track_break
        (parse_locations api.std req.locations user.id))
      (created_response api success)

unfoldable pub handle_create : Api → Option User → Option LocationsRequest → Handler
unfolding ingest_locations
handle_create api caller body = ingest_locations api caller body 200

unfoldable pub create_overland_batch : Api → Option User → Option LocationsRequest → Handler
unfolding ingest_locations
create_overland_batch api caller body = ingest_locations api caller body 201

unfoldable pub format_float : Std → Float64 → String
format_float std v = std.format_float v

unfoldable pub format_float_ptr : Std → Option Float64 → Option String
unfolding format_float
format_float_ptr std v = Option.map (format_float std) v

unfoldable pub point_to_dto : Std → Point → PointDto
unfolding format_float format_float_ptr
point_to_dto std p = record {
  id = p.id;
  latitude = format_float std p.latitude;
  longitude = format_float std p.longitude;
  timestamp = std.to_unix p.timestamp;
  altitude = p.altitude;
  velocity = format_float_ptr std p.velocity;
  accuracy = p.accuracy;
  vertical_accuracy = p.vertical_accuracy;
  course = format_float_ptr std p.course;
  course_accuracy = format_float_ptr std p.course_accuracy;
  battery_status = p.battery_status;
  battery = p.battery;
  ssid = p.ssid;
  tracker_id = p.tracker_id;
  created_at = std.format_time p.created_at;
  updated_at = std.format_time p.updated_at;
  user_id = p.user_id;
}

unfoldable pub points_to_dto : Std → List Point → List PointDto
unfolding point_to_dto
points_to_dto std points = map (point_to_dto std) points

abbrev pub points_body : Std → List Point → Body
points_body std points = Body.points (points_to_dto std points)

abbrev pub default_points_per_page : ℕ
default_points_per_page = 100

-- The query of a listing, each value as its text, empty if it is absent.
pub record ListQuery : Type 0 where
  pub start_at : String
  pub end_at : String
  pub page : String
  pub per_page : String
  pub order : String

-- The range of a listing: a start or an end that cannot be read ends the request.
abbrev pub with_range :
    Api
    → Option (Option Time)
    → Option (Option Time)
    → (Option Time → Option Time → Handler)
    → Handler
with_range api none end_at f = reply (write_error api 400 "invalid start_at")
with_range api (some start_at) none f = reply (write_error api 400 "invalid end_at")
with_range api (some start_at) (some end_at) f = f start_at end_at

abbrev pub end_or : Option Time → Time → Time
end_or none now = now
end_or (some t) now = t

unfoldable pub list_points : Api → Option User → ListQuery → Handler
unfolding as_user attempt parse_query_time positive_int write_page points_to_dto write_error
list_points api caller q = as_user api caller λ user.
    with_range api (parse_query_time api.std q.start_at) (parse_query_time api.std q.end_at)
      λ start_at end_at. with_request_time λ now.
        attempt
          (Points.list user.id start_at (end_or end_at now) (same_text q.order "asc")
            (positive_int q.page 1) (positive_int q.per_page default_points_per_page))
          (write_page api (points_body api.std) (positive_int q.page 1)
            (positive_int q.per_page default_points_per_page))

-- A path parameter that is no number answers as an id that no row has.
unfoldable pub with_id : Api → Option ℕ → (ℕ → Handler) → Handler
unfolding write_error
with_id api none f = reply (write_error api 404 "not found")
with_id api (some id) f = f id

-- errors.Is(err, store.ErrNotFound)
abbrev pub error_response : Api → Error → Handler
error_response api not_found = reply (write_error api 404 "not found")
error_response api e = reply (server_error api)

abbrev pub updated_response : Api → Result Point → Handler
updated_response api (ok p) = reply (write_json api 200 (Body.point (point_to_dto api.std p)))
updated_response api (err e) = error_response api e

abbrev pub move_point : Api → ℕ → ℕ → Option Float64 → Option Float64 → Handler
move_point api user id (some latitude) (some longitude) =
    attempt (update_point api.ops api.loc api.track_break user id latitude longitude)
      (updated_response api)
move_point api user id none longitude = reply (write_error api 422 "invalid point")
move_point api user id (some latitude) none = reply (write_error api 422 "invalid point")

unfoldable pub patch_point : Api → Option User → String → Option PointUpdateRequest → Handler
unfolding as_user with_id with_body attempt parse_point_id write_json write_error server_error
    point_to_dto
patch_point api caller path_id body = as_user api caller λ user.
    with_id api (parse_point_id path_id)
      λ id. with_body api body λ req. move_point api user.id id req.latitude req.longitude

abbrev pub deleted_response : Api → Result (Unit {0}) → Handler
deleted_response api (ok _) =
    reply (write_json api 200 (Body.point_deleted "Point deleted successfully"))
deleted_response api (err e) = error_response api e

unfoldable pub handle_delete : Api → Option User → String → Handler
unfolding as_user with_id attempt parse_point_id write_json write_error server_error
handle_delete api caller path_id = as_user api caller λ user.
    with_id api (parse_point_id path_id)
      λ id. attempt (delete_point api.ops api.loc api.track_break user.id id) (deleted_response api)

abbrev pub bulk_response : Api → Result ℕ → Handler
bulk_response api (ok deleted) =
    reply
      (write_json api 200 (Body.points_bulk_deleted "Points were successfully destroyed" deleted))
bulk_response api (err e) = reply (server_error api)

abbrev pub destroy_points : Api → ℕ → List ℕ → Handler
destroy_points api user [] = reply (write_error api 422 "no points selected")
destroy_points api user (id ∷ ids) =
    attempt (delete_points api.ops api.loc api.track_break user (id ∷ ids)) (bulk_response api)

unfoldable pub bulk_delete_points : Api → Option User → Option PointsBulkDeleteRequest → Handler
unfolding as_user with_body attempt write_json write_error server_error
bulk_delete_points api caller body =
    as_user api caller λ user. with_body api body λ req. destroy_points api user.id req.point_ids
