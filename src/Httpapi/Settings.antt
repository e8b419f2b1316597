-- ===== src/Httpapi/Settings.antt =====
-- internal/httpapi/settings.go and users.go: the handlers of /api/v1/settings, of
-- /api/v1/settings/mobile and of /api/v1/users/me.
pub mod Valid
pub mod Patched
use travelmap.Base.{ℕ, ◌||◌, String, Bool, true, not, Option, none, some, ltb, if◌then◌else◌}
use travelmap.Base.Text.{same_text}
use travelmap.Model.{Float64, User}
use travelmap.Model.Settings.{Settings as UserPrefs}
use travelmap.Geo.{FloatOps}
use travelmap.Exec.{Result, ok, err}
use travelmap.Store.Settings
use travelmap.Httpapi.Dto.{
  MobileSettings, MobileSettingsUpdate, SettingsDto, SettingsUpdate, UserDto, UserSettings, Body,
}
use travelmap.Httpapi.Response.{
  Api, Handler, reply, attempt, write_json, write_error, server_error, as_user, with_body,
}

-- A member that is there overwrites the field.
abbrev pub put {ℓ} : {A : Type ℓ} → Option A → A → A
put none old = old
put (some new) old = new

unfoldable pub apply_mobile_settings_update : UserPrefs → MobileSettingsUpdate → UserPrefs
apply_mobile_settings_update current req = record current {
  tracking_mode = put req.tracking_mode current.tracking_mode;
  tracking_visits = put req.tracking_visits current.tracking_visits;
  track_visits_independently =
      put req.track_visits_independently current.track_visits_independently;
  auto_start = put req.auto_start current.auto_start;
  distance_filter = put req.distance_filter current.distance_filter;
  time_filter = put req.time_filter current.time_filter;
  track_break = put req.track_break current.track_break;
  accuracy = put req.accuracy current.accuracy;
  show_background_location_indicator =
      put req.show_background_location_indicator current.show_background_location_indicator;
  upload_automatically = put req.upload_automatically current.upload_automatically;
  upload_all_on_tracking_stop =
      put req.upload_all_on_tracking_stop current.upload_all_on_tracking_stop;
  batch_size = put req.batch_size current.batch_size;
}

abbrev pub outside_range : ℕ → ℕ → ℕ → Bool
outside_range lo hi n = ltb n lo || ltb hi n

-- The message of the first field that is refused. An int is its 64 bits here, so that a negative
-- one is above every bound.
unfoldable pub validate_mobile_settings : UserPrefs → Option String
validate_mobile_settings s =
    if not (same_text s.tracking_mode "precise" || same_text s.tracking_mode "significant")
    then some "invalid tracking_mode"
    else if outside_range 1 10_000 s.distance_filter
    then some "invalid distance_filter"
    else if outside_range 1 3600 s.time_filter
    then some "invalid time_filter"
    else if outside_range 1 1440 s.track_break
    then some "invalid track_break"
    else if outside_range 1 6 s.accuracy
    then some "invalid accuracy"
    else if outside_range 1 1000 s.batch_size
    then some "invalid batch_size"
    else none

unfoldable pub mobile_settings_to_dto : UserPrefs → MobileSettings
mobile_settings_to_dto s = record {
  tracking_mode = s.tracking_mode;
  tracking_visits = s.tracking_visits;
  track_visits_independently = s.track_visits_independently;
  auto_start = s.auto_start;
  distance_filter = s.distance_filter;
  time_filter = s.time_filter;
  track_break = s.track_break;
  accuracy = s.accuracy;
  show_background_location_indicator = s.show_background_location_indicator;
  upload_automatically = s.upload_automatically;
  upload_all_on_tracking_stop = s.upload_all_on_tracking_stop;
  batch_size = s.batch_size;
}

-- The settings with a message, which is left out when it is empty.
unfoldable pub mobile_envelope : Api → UserPrefs → String → Body
unfolding mobile_settings_to_dto
mobile_envelope api s message =
    Body.mobile_settings (mobile_settings_to_dto s) (api.std.format_time s.updated_at) "success"
      message

-- A response to settings that were read or written; every error is the server's.
abbrev pub with_settings : Api → (UserPrefs → Handler) → Result UserPrefs → Handler
with_settings api f (ok s) = f s
with_settings api f (err e) = reply (server_error api)

unfoldable pub get_mobile_settings : Api → Option User → Handler
unfolding as_user attempt mobile_envelope write_json server_error
get_mobile_settings api caller = as_user api caller λ user.
    attempt (Settings.get user.id)
      (with_settings api λ s. reply (write_json api 200 (mobile_envelope api s "")))

abbrev pub store_mobile_settings : Api → UserPrefs → Option String → Handler
store_mobile_settings api updated (some message) = reply (write_error api 422 message)
store_mobile_settings api updated none =
    attempt (Settings.update updated)
      (with_settings api λ s. reply (write_json api 200 (mobile_envelope api s "Settings updated")))

unfoldable pub patch_mobile_settings : Api → Option User → Option MobileSettingsUpdate → Handler
unfolding as_user with_body attempt apply_mobile_settings_update validate_mobile_settings
    mobile_envelope write_json write_error server_error
patch_mobile_settings api caller body = as_user api caller λ user. with_body api body λ req.
    attempt (Settings.get user.id) (
      with_settings api λ current.
        let updated = apply_mobile_settings_update current req in
        store_mobile_settings api updated (validate_mobile_settings updated))

unfoldable pub settings_to_dto : FloatOps → UserPrefs → SettingsDto
settings_to_dto ops s = record {
  route_opacity = ops.mul s.route_opacity (ops.lit 100);
  meters_between_routes = s.meters_between_routes;
  minutes_between_routes = s.minutes_between_routes;
  fog_of_war_meters = s.fog_of_war_meters;
  time_threshold_minutes = s.time_threshold_minutes;
  merge_threshold_minutes = s.merge_threshold_minutes;
  preferred_map_layer = s.preferred_map_layer;
  speed_colored_routes = s.speed_colored_routes;
  points_rendering_mode = s.points_rendering_mode;
  live_map_enabled = s.live_map_enabled;
  speed_color_scale = s.speed_color_scale;
  fog_of_war_threshold = s.fog_of_war_threshold;
  distance_unit = s.distance_unit;
}

abbrev pub put_opacity : FloatOps → Option Float64 → Float64 → Float64
put_opacity ops none old = old
put_opacity ops (some percent) old = ops.div percent (ops.lit 100)

-- A scale that is there overwrites the pointer.
abbrev pub put_scale : Option String → Option String → Option String
put_scale none old = old
put_scale (some scale) old = some scale

abbrev pub put_unit : Option (Option String) → String → String
put_unit none old = old
put_unit (some unit) old = put unit old

unfoldable pub apply_settings_update : FloatOps → UserPrefs → SettingsUpdate → UserPrefs
apply_settings_update ops current req = record current {
  route_opacity = put_opacity ops req.route_opacity current.route_opacity;
  meters_between_routes = put req.meters_between_routes current.meters_between_routes;
  minutes_between_routes = put req.minutes_between_routes current.minutes_between_routes;
  fog_of_war_meters = put req.fog_of_war_meters current.fog_of_war_meters;
  time_threshold_minutes = put req.time_threshold_minutes current.time_threshold_minutes;
  merge_threshold_minutes = put req.merge_threshold_minutes current.merge_threshold_minutes;
  preferred_map_layer = put req.preferred_map_layer current.preferred_map_layer;
  speed_colored_routes = put req.speed_colored_routes current.speed_colored_routes;
  points_rendering_mode = put req.points_rendering_mode current.points_rendering_mode;
  live_map_enabled = put req.live_map_enabled current.live_map_enabled;
  speed_color_scale = put_scale req.speed_color_scale current.speed_color_scale;
  fog_of_war_threshold = put req.fog_of_war_threshold current.fog_of_war_threshold;
  distance_unit = put_unit req.maps current.distance_unit;
}

unfoldable pub get_settings : Api → Option User → Handler
unfolding as_user attempt settings_to_dto write_json server_error
get_settings api caller = as_user api caller λ user.
    attempt (Settings.get user.id) (
      with_settings api λ s. reply (write_json api 200 (Body.settings (settings_to_dto api.ops s))))

unfoldable pub patch_settings : Api → Option User → Option SettingsUpdate → Handler
unfolding as_user with_body attempt apply_settings_update write_json server_error
patch_settings api caller body = as_user api caller λ user. with_body api body λ req.
    attempt (Settings.get user.id) (
      with_settings api λ current.
        attempt (Settings.update (apply_settings_update api.ops current req))
          (with_settings api λ s. reply (write_json api 200 Body.settings_stored)))

-- users.go
unfoldable pub user_settings : Api → UserPrefs → UserSettings
user_settings api s = record {
  timezone = api.timezone;
  distance_unit = s.distance_unit;
  fog_of_war_meters = s.fog_of_war_meters;
  meters_between_routes = s.meters_between_routes;
  preferred_map_layer = s.preferred_map_layer;
  speed_colored_routes = s.speed_colored_routes;
  points_rendering_mode = s.points_rendering_mode;
  minutes_between_routes = s.minutes_between_routes;
  time_threshold_minutes = s.time_threshold_minutes;
  merge_threshold_minutes = s.merge_threshold_minutes;
  live_map_enabled = s.live_map_enabled;
  route_opacity = s.route_opacity;
  visits_suggestions_enabled = true;
  speed_color_scale = s.speed_color_scale;
  fog_of_war_threshold = s.fog_of_war_threshold;
  globe_projection = true;
}

unfoldable pub users_me : Api → Option User → Handler
unfolding as_user attempt user_settings write_json server_error
users_me api caller = as_user api caller λ user. attempt (Settings.get user.id) (
    with_settings api λ s. reply (
      write_json api 200 (
        Body.user (record {
          email = user.email;
          theme = "dark";
          created_at = api.std.format_time user.created_at;
          updated_at = api.std.format_time user.updated_at;
          settings = user_settings api s;
        }))))
