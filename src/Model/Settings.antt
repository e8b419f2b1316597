-- ===== src/Model/Settings.antt =====
-- internal/model/settings.go and session.go.
use travelmap.Base.{ℕ, String, Bool, true, false, List, Option, none}
use travelmap.Model.{Time, Float64}

pub record Settings : Type 0 where
  pub user_id : ℕ
  pub tracking_mode : String
  pub tracking_visits : Bool
  pub track_visits_independently : Bool
  pub auto_start : Bool
  pub distance_filter : ℕ
  pub time_filter : ℕ
  pub track_break : ℕ
  pub accuracy : ℕ
  pub show_background_location_indicator : Bool
  pub upload_automatically : Bool
  pub upload_all_on_tracking_stop : Bool
  pub batch_size : ℕ
  pub route_opacity : Float64
  pub meters_between_routes : ℕ
  pub minutes_between_routes : ℕ
  pub fog_of_war_meters : ℕ
  pub time_threshold_minutes : ℕ
  pub merge_threshold_minutes : ℕ
  pub preferred_map_layer : String
  pub speed_colored_routes : Bool
  pub points_rendering_mode : String
  pub live_map_enabled : Bool
  pub speed_color_scale : Option String
  pub fog_of_war_threshold : ℕ
  pub distance_unit : String
  pub created_at : Time
  pub updated_at : Time

-- 0.6, as its bit pattern.
abbrev pub six_tenths : Float64
six_tenths = 4_603_579_539_098_121_011

-- The zero times stand for the fields that the store fills in.
unfoldable pub default_settings : ℕ → Settings
default_settings user = record {
  user_id = user;
  tracking_mode = "precise";
  tracking_visits = true;
  track_visits_independently = false;
  auto_start = true;
  distance_filter = 100;
  time_filter = 10;
  track_break = 30;
  accuracy = 3;
  show_background_location_indicator = true;
  upload_automatically = true;
  upload_all_on_tracking_stop = false;
  batch_size = 100;
  route_opacity = six_tenths;
  meters_between_routes = 500;
  minutes_between_routes = 30;
  fog_of_war_meters = 50;
  time_threshold_minutes = 30;
  merge_threshold_minutes = 15;
  preferred_map_layer = "OpenStreetMap";
  speed_colored_routes = false;
  points_rendering_mode = "raw";
  live_map_enabled = true;
  speed_color_scale = none;
  fog_of_war_threshold = 50;
  distance_unit = "km";
  created_at = 0;
  updated_at = 0;
}

pub record Session : Type 0 where
  pub token : String
  pub contents : List ℕ
  pub expiry : Time
