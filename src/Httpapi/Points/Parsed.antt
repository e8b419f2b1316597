-- ===== src/Httpapi/Points/Parsed.antt =====
-- internal/httpapi/points.go `parseLocations`: the features of a batch that become points.
use travelmap.Base.{
  ℕ, ◌≡◌, refl, Option, none, some, List, [], ◌∷◌, ◌⊎◌, inl, inr, String, Option-cases, ◌<◌, length,
  arith,
}
use travelmap.Model.{Time, Float64, Point}
use travelmap.Httpapi.Dto.{Feature}
use travelmap.Httpapi.Response.{Layout, Std}
use travelmap.Httpapi.Query.{first_layout}
use travelmap.Httpapi.Points.{
  parse_timestamp, point_at, point_of, point_from_feature, add_point, parse_locations,
}

-- A time in RFC 3339, or else in Overland's format.
abbrev pub ReadsAs : Std → String → Time → Type 0
ReadsAs std s t =
    (std.parse_time Layout.rfc3339_nano s ≡ some t)
    ⊎ ((std.parse_time Layout.rfc3339_nano s ≡ none) × (std.parse_time Layout.overland s ≡ some t))

-- A feature as a user's point.
abbrev pub sample : ℕ → Feature → Float64 → Float64 → Time → Point
sample user f longitude latitude t = record {
  id = 0;
  user_id = user;
  timestamp = t;
  latitude = latitude;
  longitude = longitude;
  altitude = f.properties.altitude;
  velocity = f.properties.speed;
  accuracy = f.properties.horizontal_accuracy;
  vertical_accuracy = f.properties.vertical_accuracy;
  course = f.properties.course;
  course_accuracy = f.properties.course_accuracy;
  battery_status = f.properties.battery_state;
  battery = f.properties.battery_level;
  ssid = f.properties.wifi;
  tracker_id = f.properties.device_id;
  created_at = 0;
  updated_at = 0;
}

-- The points of the features that have two coordinates and a readable time, in their order.
pub data Parsed (std : Std) (user : ℕ) : List Feature → List Point → Type 0 where
  ended : Parsed std user [] []
  taken :
      (f : Feature) (fs : List Feature) (ps : List Point) (longitude latitude : Float64)
      (rest : List Float64) (t : Time)
      → f.geometry.coordinates ≡ longitude ∷ latitude ∷ rest
      → ReadsAs std f.properties.timestamp t
      → Parsed std user fs ps
      → Parsed std user (f ∷ fs) (sample user f longitude latitude t ∷ ps)
  without_place :
      (f : Feature) (fs : List Feature) (ps : List Point)
      → length f.geometry.coordinates < 2
      → Parsed std user fs ps
      → Parsed std user (f ∷ fs) ps
  without_time :
      (f : Feature) (fs : List Feature) (ps : List Point)
      → std.parse_time Layout.rfc3339_nano f.properties.timestamp ≡ none
      → std.parse_time Layout.overland f.properties.timestamp ≡ none
      → Parsed std user fs ps
      → Parsed std user (f ∷ fs) ps

-- What `parseTimestamp` says of a text.
abbrev Timed : Std → String → Option Time → Type 0
Timed std s none =
    (std.parse_time Layout.rfc3339_nano s ≡ none) × (std.parse_time Layout.overland s ≡ none)
Timed std s (some t) = ReadsAs std s t

parse_timestamp-Timed : (std : Std) (s : String) → Timed std s (parse_timestamp std s)
unfolding parse_timestamp first_layout
parse_timestamp-Timed std s = elim (Option-cases (std.parse_time Layout.rfc3339_nano s)) [
  | inr (t, e) ↦ rw e (inl e)
  | inl e ↦ elim (Option-cases (std.parse_time Layout.overland s)) [
    | inr (t, k) ↦ rw (e, k) (inr (e, k))
    | inl k ↦ rw (e, k) (e, k)
  ]
]

module _ (std : Std) (user : ℕ) where
  point_of-Parsed :
      (f : Feature) (fs : List Feature) (ps : List Point) (coordinates : List Float64)
      (t : Option Time)
      → f.geometry.coordinates ≡ coordinates
      → Timed std f.properties.timestamp t
      → Parsed std user fs ps
      → Parsed std user (f ∷ fs) (add_point (point_of user f coordinates t) ps)
  unfolding point_at
  point_of-Parsed f fs ps [] t e h p = without_place f fs ps (rw e (omega arith)) p
  point_of-Parsed f fs ps (x ∷ []) t e h p = without_place f fs ps (rw e (omega arith)) p
  point_of-Parsed f fs ps (x ∷ y ∷ rest) none e h p = without_time f fs ps h.0 h.1 p
  point_of-Parsed f fs ps (x ∷ y ∷ rest) (some t) e h p = taken f fs ps x y rest t e h p

  pub parse_locations-Parsed :
      (fs : List Feature) → Parsed std user fs (parse_locations std fs user)
  unfolding parse_locations point_from_feature
  parse_locations-Parsed [] = ended
  parse_locations-Parsed (f ∷ fs) =
      point_of-Parsed f fs (parse_locations std fs user) f.geometry.coordinates
        (parse_timestamp std f.properties.timestamp) refl
        (parse_timestamp-Timed std f.properties.timestamp) (parse_locations-Parsed fs)
