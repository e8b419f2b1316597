-- ===== src/Httpapi/Tracks.antt =====
-- internal/httpapi/tracks.go: the handlers of /api/v1/tracks.
use travelmap.Base.{ℕ, ◌/◌, String, Bool, Option, some, List, [], ◌∷◌, map}
use travelmap.Model.{second, time_sub, Float64, Coordinate, Point, Track, User}
use travelmap.Exec.{Result, ok, err}
use travelmap.Store.Points
use travelmap.Store.Tracks
use travelmap.Httpapi.Dto.{TrackFeature, TrackPoint, Body}
use travelmap.Httpapi.Response.{Std, Api, Handler, reply, attempt, write_json, as_user}
use travelmap.Httpapi.Query.{positive_int, parse_query_time, parse_id_param, write_page}
use travelmap.Httpapi.Points.{
  ListQuery, default_points_per_page, format_float, with_range, with_id, error_response,
}

abbrev pub track_color : String
track_color = "#3B82F6"

-- int64(t.EndAt.Sub(t.StartAt).Seconds()), for a track that does not end before it starts.
unfoldable pub duration_of : Track → ℕ
duration_of t = time_sub t.end_at t.start_at / second

abbrev pub coordinates_of : Coordinate → List Float64
coordinates_of c = c.longitude ∷ c.latitude ∷ []

unfoldable pub track_to_feature : Api → Track → TrackFeature
unfolding duration_of
track_to_feature api t = record {
  coordinates = map coordinates_of t.geometry;
  properties = record {
    id = t.id;
    color = track_color;
    start_at = api.std.format_time t.start_at;
    end_at = api.std.format_time t.end_at;
    distance = t.distance_meters;
    avg_speed =
        api.ops.div (api.ops.div t.distance_meters (api.ops.lit 1000))
          (api.ops.div (api.ops.lit (duration_of t)) (api.ops.lit 3600));
    duration = duration_of t;
  };
}

unfoldable pub tracks_to_dto : Api → List Track → Body
unfolding track_to_feature
tracks_to_dto api tracks = Body.tracks (map (track_to_feature api) tracks)

unfoldable pub list_tracks : Api → Option User → ListQuery → Handler
unfolding as_user attempt parse_query_time positive_int write_page tracks_to_dto
list_tracks api caller q = as_user api caller λ user.
    with_range api (parse_query_time api.std q.start_at) (parse_query_time api.std q.end_at)
      λ start_at end_at.
        attempt
          (Tracks.list user.id start_at end_at (positive_int q.page 1)
            (positive_int q.per_page default_points_per_page))
          (write_page api (tracks_to_dto api) (positive_int q.page 1)
            (positive_int q.per_page default_points_per_page))

abbrev pub track_response : Api → Result Track → Handler
track_response api (ok t) = reply (write_json api 200 (Body.tracks (track_to_feature api t ∷ [])))
track_response api (err e) = error_response api e

unfoldable pub get_track : Api → Option User → String → Handler
unfolding as_user with_id attempt parse_id_param write_json track_to_feature
get_track api caller path_id = as_user api caller λ user.
    with_id api (parse_id_param path_id)
      λ id. attempt (Tracks.by_id user.id id) (track_response api)

unfoldable pub track_point : Std → Point → TrackPoint
unfolding format_float
track_point std p = record {
  id = p.id;
  latitude = format_float std p.latitude;
  longitude = format_float std p.longitude;
  timestamp = std.to_unix p.timestamp;
  velocity = p.velocity;
}

unfoldable pub track_points_to_dto : Std → List Point → Body
unfolding track_point
track_points_to_dto std points = Body.track_points (map (track_point std) points)

-- The points of a track are the user's from its start to its end.
abbrev pub points_of_track : Api → User → ListQuery → Result Track → Handler
points_of_track api user q (err e) = error_response api e
points_of_track api user q (ok t) =
    attempt
      (Points.list user.id (some t.start_at) t.end_at Bool.true (positive_int q.page 1)
        (positive_int q.per_page default_points_per_page))
      (write_page api (track_points_to_dto api.std) (positive_int q.page 1)
        (positive_int q.per_page default_points_per_page))

unfoldable pub track_points : Api → Option User → String → ListQuery → Handler
unfolding as_user with_id attempt parse_id_param positive_int write_page track_points_to_dto
track_points api caller path_id q = as_user api caller λ user.
    with_id api (parse_id_param path_id)
      λ id. attempt (Tracks.by_id user.id id) (points_of_track api user q)
