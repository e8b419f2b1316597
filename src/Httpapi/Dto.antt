-- ===== src/Httpapi/Dto.antt =====
-- internal/httpapi/dto: what the handlers read and answer. The members that are always null, and
-- the names of the members, are left out.
use travelmap.Base.{ℕ, String, Bool, Option, List}
use travelmap.Base.Integers.{ℤ}
use travelmap.Model.{Float64}

-- points.go
pub record Geometry : Type 0 where
  pub coordinates : List Float64

pub record PointProperties : Type 0 where
  pub timestamp : String
  pub horizontal_accuracy : Option Float64
  pub vertical_accuracy : Option Float64
  pub altitude : Option Float64
  pub speed : Option Float64
  pub speed_accuracy : Option Float64
  pub course : Option Float64
  pub course_accuracy : Option Float64
  pub battery_state : Option String
  pub battery_level : Option Float64
  pub wifi : Option String
  pub track_id : Option String
  pub device_id : Option String

pub record Feature : Type 0 where
  pub geometry : Geometry
  pub properties : PointProperties

pub record LocationsRequest : Type 0 where
  pub locations : List Feature

pub record PointDto : Type 0 where
  pub id : ℕ
  pub latitude : String
  pub longitude : String
  pub timestamp : ℤ
  pub altitude : Option Float64
  pub velocity : Option String
  pub accuracy : Option Float64
  pub vertical_accuracy : Option Float64
  pub course : Option String
  pub course_accuracy : Option String
  pub battery_status : Option String
  pub battery : Option Float64
  pub ssid : Option String
  pub tracker_id : Option String
  pub created_at : String
  pub updated_at : String
  pub user_id : ℕ

pub record PointUpdateRequest : Type 0 where
  pub latitude : Option Float64
  pub longitude : Option Float64

-- An id is a 64-bit number by its bits.
pub record PointsBulkDeleteRequest : Type 0 where
  pub point_ids : List ℕ

-- tracks.go
pub record TrackProperties : Type 0 where
  pub id : ℕ
  pub color : String
  pub start_at : String
  pub end_at : String
  pub distance : Float64
  pub avg_speed : Float64
  pub duration : ℕ

pub record TrackFeature : Type 0 where
  pub coordinates : List (List Float64)
  pub properties : TrackProperties

pub record TrackPoint : Type 0 where
  pub id : ℕ
  pub latitude : String
  pub longitude : String
  pub timestamp : ℤ
  pub velocity : Option Float64

-- stats.go. The months of a year stand in their order, January first.
pub record TrackedMonthsYear : Type 0 where
  pub year : ℕ
  pub months : List String

pub record YearlyStats : Type 0 where
  pub year : ℕ
  pub total_distance_km : ℤ
  pub total_countries_visited : ℕ
  pub total_cities_visited : ℕ
  pub monthly_distance_km : List ℤ

pub record Stats : Type 0 where
  pub total_distance_km : ℤ
  pub total_points_tracked : ℕ
  pub total_reverse_geocoded_points : ℕ
  pub total_countries_visited : ℕ
  pub total_cities_visited : ℕ
  pub yearly_stats : List YearlyStats

-- settings.go
pub record MobileSettings : Type 0 where
  pub tracking_mode : String
  pub tracking_visits : Bool
  pub track_visits_independently : Bool
  pub auto_start : Bool
  pub distance_filter : ℕ
  pub time_filter : ℕ
  pub track_break : ℕ
  pub accuracy : ℕ
  pub show_background_location_indicator : Bool
  pub upload_automatically : Bool
  pub upload_all_on_tracking_stop : Bool
  pub batch_size : ℕ

pub record MobileSettingsUpdate : Type 0 where
  pub tracking_mode : Option String
  pub tracking_visits : Option Bool
  pub track_visits_independently : Option Bool
  pub auto_start : Option Bool
  pub distance_filter : Option ℕ
  pub time_filter : Option ℕ
  pub track_break : Option ℕ
  pub accuracy : Option ℕ
  pub show_background_location_indicator : Option Bool
  pub upload_automatically : Option Bool
  pub upload_all_on_tracking_stop : Option Bool
  pub batch_size : Option ℕ

pub record SettingsDto : Type 0 where
  pub route_opacity : Float64
  pub meters_between_routes : ℕ
  pub minutes_between_routes : ℕ
  pub fog_of_war_meters : ℕ
  pub time_threshold_minutes : ℕ
  pub merge_threshold_minutes : ℕ
  pub preferred_map_layer : String
  pub speed_colored_routes : Bool
  pub points_rendering_mode : String
  pub live_map_enabled : Bool
  pub speed_color_scale : Option String
  pub fog_of_war_threshold : ℕ
  pub distance_unit : String

-- `maps` is none when the member is absent.
pub record SettingsUpdate : Type 0 where
  pub route_opacity : Option Float64
  pub meters_between_routes : Option ℕ
  pub minutes_between_routes : Option ℕ
  pub fog_of_war_meters : Option ℕ
  pub time_threshold_minutes : Option ℕ
  pub merge_threshold_minutes : Option ℕ
  pub preferred_map_layer : Option String
  pub speed_colored_routes : Option Bool
  pub points_rendering_mode : Option String
  pub live_map_enabled : Option Bool
  pub speed_color_scale : Option String
  pub fog_of_war_threshold : Option ℕ
  pub maps : Option (Option String)

-- user.go
pub record UserSettings : Type 0 where
  pub timezone : String
  pub distance_unit : String
  pub fog_of_war_meters : ℕ
  pub meters_between_routes : ℕ
  pub preferred_map_layer : String
  pub speed_colored_routes : Bool
  pub points_rendering_mode : String
  pub minutes_between_routes : ℕ
  pub time_threshold_minutes : ℕ
  pub merge_threshold_minutes : ℕ
  pub live_map_enabled : Bool
  pub route_opacity : Float64
  pub visits_suggestions_enabled : Bool
  pub speed_color_scale : Option String
  pub fog_of_war_threshold : ℕ
  pub globe_projection : Bool

pub record UserDto : Type 0 where
  pub email : String
  pub theme : String
  pub created_at : String
  pub updated_at : String
  pub settings : UserSettings

-- auth.go, session.go and users.go
pub record LoginRequest : Type 0 where
  pub email : String
  pub password : String

pub record Login : Type 0 where
  pub user_id : ℕ
  pub email : String
  pub api_key : String
  pub status : String
  pub plan : String
  pub subscription_source : String
  pub active_until : String

pub record CreateUserRequest : Type 0 where
  pub email : String
  pub password : String
  pub password_confirmation : String

-- The body of a response. `empty` is none, and `encode_failed` the fixed text that stands for a
-- value that cannot be encoded.
pub data Body : Type 0 where
  empty encode_failed : Body
  failure : (message : String) → Body
  auth_error : (message : String) → Body
  locations_created : (created : ℕ) → Body
  points : List PointDto → Body
  point : PointDto → Body
  point_deleted : (message : String) → Body
  points_bulk_deleted : (message : String) (count : ℕ) → Body
  tracks : List TrackFeature → Body
  track_points : List TrackPoint → Body
  tracked_months : List TrackedMonthsYear → Body
  stats : Stats → Body
  mobile_settings : MobileSettings → (updated_at status message : String) → Body
  settings : SettingsDto → Body
  settings_stored : Body
  user : UserDto → Body
  health : (status : String) → Body
  login : Login → Body
  user_created : (api_key : String) → Body
  user_refused : (email_error password_error confirm_error : String) → Body
