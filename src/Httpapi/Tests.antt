-- ===== src/Httpapi/Tests.antt =====
-- internal/httpapi at a concrete request, on the fixture's database.
use travelmap.Base.{
  ℕ, ◌+◌, ◌*◌, ◌/◌, ◌%◌, ◌≡◌, refl, String, true, Option, none, some, [], ◌∷◌, find, arith,
}
use travelmap.Base.Integers.{ℤ, bits, parse_int}
use travelmap.Base.Members.{in_cons}
use travelmap.Model.{second}
use travelmap.Model.Settings.{default_settings}
use travelmap.Exec.{outside}
use travelmap.Store.{Db, known_user}
use travelmap.Store.Points.{owned}
use travelmap.Store.Settings.Refines.{view, view_of, create_in, update_in, settings-Refines}
use travelmap.Store.Settings.{insert_settings, update_settings}
use travelmap.Httpapi.Dto.{Feature, LocationsRequest, MobileSettingsUpdate, SettingsUpdate}
use travelmap.Httpapi.Response.{Std, Api}
use travelmap.Httpapi.Query.{parse_point_id}
use travelmap.Httpapi.Query.Pages.{Paged, total_pages-Paged}
use travelmap.Httpapi.Points.{ingest_locations, patch_point, handle_delete}
use travelmap.Httpapi.Points.Requests.{bulk_destroy, serve_points}
use travelmap.Httpapi.Points.Isolated.{Served}
use travelmap.Httpapi.Points.Served.{serve_points-Served}
use travelmap.Httpapi.Points.Answers.{
  Stored, ingest_locations-Stored, Patched, Deleted, by_id-Answers,
}
use travelmap.Httpapi.Points.Repeated.{Ignored, ingest_locations-again}
use travelmap.Httpapi.Settings.{
  apply_mobile_settings_update, validate_mobile_settings, patch_mobile_settings, patch_settings,
}
use travelmap.Httpapi.Settings.Valid.{AreInRange, default_settings-IsInRange, patch-AreInRange}
use travelmap.Httpapi.Settings.Patched.{Patched as MobilePatched, patch_mobile_settings-Patched}
use travelmap.Fixture.{
  utc, utc-IsRegular, whole_numbers, minutes, env, env-Healthy, empty, empty-IsSound, user, filled,
  filled-IsSound,
}

-- Times are read as Unix seconds from the calendar's zero, and floats are written as nothing.
abbrev pub std : Std
std = record {
  parse_time = λ layout s. elim (parse_int s) [ none ↦ none | some n ↦ some (bits n * second) ];
  of_unix = λ n. bits n * second;
  to_unix = λ t. ℤ.pos t;
  format_float = λ v. "";
  format_time = λ t. "";
  to_int = λ v. ℤ.pos v;
  year_month = λ d. (d / 360, d % 360 / 30 + 1);
  encodes = λ body. true;
}

abbrev pub api : Api
api = record { std = std; ops = whole_numbers; loc = utc; track_break = minutes; timezone = "UTC" }

abbrev feature : String → Feature
feature t = record {
  geometry = record { coordinates = 7 ∷ 8 ∷ [] };
  properties = record {
    timestamp = t;
    horizontal_accuracy = none;
    vertical_accuracy = none;
    altitude = none;
    speed = none;
    speed_accuracy = none;
    course = none;
    course_accuracy = none;
    battery_state = none;
    battery_level = none;
    wifi = none;
    track_id = none;
    device_id = none;
  };
}

-- The second sample has no time.
abbrev locations : LocationsRequest
locations = record { locations = feature "86460" ∷ feature "noon" ∷ feature "86520" ∷ [] }

empty-known : known_user empty user.id ≡ true
unfolding known_user
empty-known = refl

ingest_locations-Stored_example :
    Stored api user
      (outside empty)
      locations
      200
      (ingest_locations api (some user) (some locations) 200 env (outside empty))
ingest_locations-Stored_example =
    ingest_locations-Stored api utc-IsRegular env env-Healthy user (outside empty) empty-IsSound
      locations 200 empty-known

ingest_locations-again_example :
    Ignored api 201
      (ingest_locations api (some user) (some locations) 201 env (outside empty)).1.db
      (ingest_locations api
        (some user)
        (some locations)
        201
        env
        (outside (ingest_locations api (some user) (some locations) 201 env (outside empty)).1.db))
ingest_locations-again_example =
    ingest_locations-again api utc-IsRegular user locations 201 env env env-Healthy env-Healthy
      (outside empty) empty-IsSound empty-known

serve_points-Served_example :
    Served whole_numbers utc minutes 1 filled
      (serve_points api
        (some user)
        (bulk_destroy (some (record { point_ids = 1 ∷ 9 ∷ [] })))
        env
        (outside filled)).1.db
serve_points-Served_example =
    serve_points-Served api utc-IsRegular user
      (bulk_destroy (some (record { point_ids = 1 ∷ 9 ∷ [] }))) env (outside filled) refl
      filled-IsSound

id_read : parse_point_id "1" ≡ some 1
unfolding parse_point_id
id_read = refl

by_id-Answers_example :
    Patched api user (outside filled) 1 5 6 (find (owned 1 1) filled.points) (
      patch_point api
        (some user)
        "1"
        (some (record { latitude = some 5; longitude = some 6 }))
        env
        (outside filled))
    × Deleted api user
        (outside filled)
        1
        (find (owned 1 1) filled.points)
        (handle_delete api (some user) "1" env (outside filled))
by_id-Answers_example =
    by_id-Answers api utc-IsRegular env env-Healthy user (outside filled) filled-IsSound "1" 1 5 6
      refl id_read

total_pages-Paged_example : Paged {A = ℕ} 2 (1 ∷ 2 ∷ 3 ∷ [])
total_pages-Paged_example = total_pages-Paged 2 (1 ∷ 2 ∷ 3 ∷ []) (omega arith) (omega arith)

-- The user has the default settings.
abbrev settled : Db
settled = record empty { settings = default_settings 1 ∷ [] }

settled-AreInRange : AreInRange settled
settled-AreInRange = in_cons _ _ _ (default_settings-IsInRange 1) (λ s i. elim i [ ])

abbrev unchanged : MobileSettingsUpdate
unchanged = record {
  tracking_mode = none;
  tracking_visits = none;
  track_visits_independently = none;
  auto_start = none;
  distance_filter = none;
  time_filter = none;
  track_break = none;
  accuracy = none;
  show_background_location_indicator = none;
  upload_automatically = none;
  upload_all_on_tracking_stop = none;
  batch_size = none;
}

abbrev closer : MobileSettingsUpdate
closer = record unchanged { distance_filter = some 25 }

patch-AreInRange_example :
    ((body : Option MobileSettingsUpdate)
      → AreInRange (patch_mobile_settings api (some user) body env (outside settled)).1.db)
    × ((body : Option SettingsUpdate)
        → AreInRange (patch_settings api (some user) body env (outside settled)).1.db)
patch-AreInRange_example = patch-AreInRange api (some user) env (outside settled) settled-AreInRange

found_settings : view settled 1 ≡ some (default_settings 1)
unfolding default_settings
found_settings = refl

patch_mobile_settings-Patched_example :
    MobilePatched api user
      (default_settings 1)
      (apply_mobile_settings_update (default_settings 1) closer)
      (outside settled)
      (validate_mobile_settings (apply_mobile_settings_update (default_settings 1) closer))
      (patch_mobile_settings api (some user) (some closer) env (outside settled))
patch_mobile_settings-Patched_example =
    patch_mobile_settings-Patched api user env env-Healthy (outside settled) (default_settings 1)
      found_settings closer

settings-Refines_example :
    (view_of (insert_settings 0 (default_settings 1) settled)
      ≡ create_in 0
          (default_settings 1)
          (known_user settled (default_settings 1).user_id)
          (view settled (default_settings 1).user_id)
          (view settled))
    × (view_of (update_settings 0 (default_settings 1) settled)
        ≡ update_in 0
            (default_settings 1)
            (view settled (default_settings 1).user_id)
            (view settled))
settings-Refines_example = settings-Refines 0 (default_settings 1) settled
