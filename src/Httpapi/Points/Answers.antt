-- ===== src/Httpapi/Points/Answers.antt =====
-- internal/httpapi/points.go: what the handlers answer.
use travelmap.Base.{
  ℕ, ◌≡◌, refl, sym, ap, subst, String, true, false, Option, none, some, find, List,
}
use travelmap.Model.{Float64, Point, User}
use travelmap.Model.Zone.{IsRegular}
use travelmap.Exec.{Env, World, Result, ok, err, not_found}
use travelmap.Exec.Ensures.{Healthy}
use travelmap.Store.{Db, Action, known_user}
use travelmap.Store.Points.{owned}
use travelmap.Ingest.{create_points, update_point, delete_point}
use travelmap.Ingest.Sound.{IsSound, PointsCreated}
use travelmap.Ingest.Sound.Single.{PointUpdated, PointDeleted}
use travelmap.Ingest.Sound.Outcomes.{
  create_points-succeeds, update_point-succeeds, update_point-FailsWith, delete_point-succeeds,
  delete_point-FailsWith,
}
use travelmap.Httpapi.Dto.{Body, LocationsRequest}
use travelmap.Httpapi.Response.{
  Api, Response, Handler, attempt, as_user, with_body, write_json, write_error,
}
use travelmap.Httpapi.Query.{parse_point_id}
use travelmap.Httpapi.Points.{
  parse_locations, created_response, ingest_locations, point_to_dto, updated_response,
  deleted_response, with_id, patch_point, handle_delete,
}
use travelmap.Httpapi.Points.Isolated.{parse_locations-owned}
use travelmap.Httpapi.Points.Parsed.{Parsed, parse_locations-Parsed}

module _ {A : Type 0} (k : Result A → Handler) (env : Env) where
  -- The response to a result that is known.
  pub attempt-eq :
      (m : Action A) (w : World Db) (r : Result A)
      → (m env w).0 ≡ r
      → attempt m k env w ≡ k r env (m env w).1
  unfolding attempt
  attempt-eq m w r e = ap (λ x. k x env (m env w).1) e

module _ (api : Api) (user : User) (w : World Db) where
  -- These points were stored, and their count is answered.
  abbrev pub Created : List Point → ℕ → Response × World Db → Type 0
  Created points success (r, w') =
      (count : ℕ) × (r ≡ write_json api success (Body.locations_created count))
      × PointsCreated api.ops api.loc api.track_break points w.db w'.db count

  -- The points of the batch were stored, and their count is answered.
  abbrev pub Stored : LocationsRequest → ℕ → Response × World Db → Type 0
  Stored req success rw =
      (points : List Point) × Parsed api.std user.id req.locations points
      × Created points success rw

  -- What PATCH answers, by what the user has under the id.
  abbrev pub Patched : ℕ → Float64 → Float64 → Option Point → Response × World Db → Type 0
  Patched id latitude longitude none (r, w') =
      (r ≡ write_error api 404 "not found") × (w'.db ≡ w.db)
  Patched id latitude longitude (some p) (r, w') =
      (updated : Point) × (r ≡ write_json api 200 (Body.point (point_to_dto api.std updated)))
      × PointUpdated api.ops api.loc api.track_break user.id id latitude longitude w.db updated
          w'.db

  -- What DELETE answers, by what the user has under the id.
  abbrev pub Deleted : ℕ → Option Point → Response × World Db → Type 0
  Deleted id none (r, w') = (r ≡ write_error api 404 "not found") × (w'.db ≡ w.db)
  Deleted id (some p) (r, w') =
      (r ≡ write_json api 200 (Body.point_deleted "Point deleted successfully"))
      × PointDeleted api.ops api.loc api.track_break user.id id w.db w'.db

module _ (api : Api) (v : IsRegular api.loc) (env : Env) (healthy : Healthy env) (user : User)
    (w : World Db) (s : IsSound api.ops api.loc api.track_break w.db) where
  pub ingest_locations-Created :
      (req : LocationsRequest) (success : ℕ)
      → known_user w.db user.id ≡ true
      → Created api user w
          (parse_locations api.std req.locations user.id)
          success
          (ingest_locations api (some user) (some req) success env w)
  unfolding ingest_locations as_user with_body
  ingest_locations-Created req success known =
      let (n, e, c) =
        create_points-succeeds api.ops api.loc api.track_break v env healthy w s
          (parse_locations api.std req.locations user.id)
          (λ p i.
            subst (λ u. known_user w.db u ≡ true)
              (sym (parse_locations-owned api.std req.locations user.id p i)) known) in
      subst (Created api user w (parse_locations api.std req.locations user.id) success)
        (sym (
          attempt-eq (created_response api success) env
            (create_points api.ops api.loc api.track_break
              (parse_locations api.std req.locations user.id))
            w (ok n) e))
        (n, refl, c)

  -- In a location where every day has its midnight, where no statement fails, from a database
  -- that satisfies the invariant of the points, a batch of a user who exists is answered with
  -- the success status and the count of the new rows, and CreatePoints stored the features
  -- that have two coordinates and a readable time, as points of that user.
  pub ingest_locations-Stored :
      (req : LocationsRequest) (success : ℕ)
      → known_user w.db user.id ≡ true
      → Stored api user w req success (ingest_locations api (some user) (some req) success env w)
  ingest_locations-Stored req success known = (
    parse_locations api.std req.locations user.id,
    parse_locations-Parsed api.std user.id req.locations,
    ingest_locations-Created req success known,
  )

  patched :
      (id : ℕ) (latitude longitude : Float64) (o : Option Point)
      → w.in_tx ≡ false
      → find (owned user.id id) w.db.points ≡ o
      → Patched api user w id latitude longitude o (
          attempt
            (update_point api.ops api.loc api.track_break user.id id latitude longitude)
            (updated_response api)
            env
            w)
  patched id latitude longitude none t f =
      let (e, d) =
        update_point-FailsWith api.ops api.loc api.track_break v env healthy w t s user.id id
          latitude longitude f in
      subst (Patched api user w id latitude longitude none)
        (sym (
          attempt-eq (updated_response api) env
            (update_point api.ops api.loc api.track_break user.id id latitude longitude) w
            (err not_found) e))
        (refl, d)
  patched id latitude longitude (some p) t f =
      let (q, e, c) =
        update_point-succeeds api.ops api.loc api.track_break v env healthy w s user.id id latitude
          longitude p f in
      subst (Patched api user w id latitude longitude (some p))
        (sym (
          attempt-eq (updated_response api) env
            (update_point api.ops api.loc api.track_break user.id id latitude longitude) w (ok q)
            e))
        (q, refl, c)

  patch_point-Patched :
      (path_id : String) (id : ℕ) (latitude longitude : Float64)
      → w.in_tx ≡ false
      → parse_point_id path_id ≡ some id
      → Patched api user w id latitude longitude (find (owned user.id id) w.db.points) (
          patch_point api
            (some user)
            path_id
            (some (record { latitude = some latitude; longitude = some longitude }))
            env
            w)
  unfolding patch_point as_user with_body with_id
  patch_point-Patched path_id id latitude longitude t n =
      rw n (patched id latitude longitude (find (owned user.id id) w.db.points) t refl)

  deleted :
      (id : ℕ) (o : Option Point)
      → w.in_tx ≡ false
      → find (owned user.id id) w.db.points ≡ o
      → Deleted api user w id o (
          attempt
            (delete_point api.ops api.loc api.track_break user.id id)
            (deleted_response api)
            env
            w)
  deleted id none t f =
      let (e, d) =
        delete_point-FailsWith api.ops api.loc api.track_break v env healthy w t s user.id id f in
      subst (Deleted api user w id none)
        (sym (
          attempt-eq (deleted_response api) env
            (delete_point api.ops api.loc api.track_break user.id id) w (err not_found) e))
        (refl, d)
  deleted id (some p) t f =
      let (u, e, c) =
        delete_point-succeeds api.ops api.loc api.track_break v env healthy w s user.id id p f in
      subst (Deleted api user w id (some p))
        (sym (
          attempt-eq (deleted_response api) env
            (delete_point api.ops api.loc api.track_break user.id id) w (ok u) e))
        (refl, c)

  handle_delete-Deleted :
      (path_id : String) (id : ℕ)
      → w.in_tx ≡ false
      → parse_point_id path_id ≡ some id
      → Deleted api user w id
          (find (owned user.id id) w.db.points)
          (handle_delete api (some user) path_id env w)
  unfolding handle_delete as_user with_id
  handle_delete-Deleted path_id id t n =
      rw n (deleted id (find (owned user.id id) w.db.points) t refl)

  -- In a location where every day has its midnight, where no statement fails, outside a
  -- transaction, from a database that satisfies the invariant of the points, for an id that
  -- can be read: if the user has no point of that id, PATCH with both coordinates and DELETE
  -- answer 404 and leave the database as it was; if the user has one, PATCH answers 200 with
  -- the moved point, as UpdatePoint leaves it, and DELETE answers 200, as DeletePoint leaves
  -- the tables.
  pub by_id-Answers :
      (path_id : String) (id : ℕ) (latitude longitude : Float64)
      → w.in_tx ≡ false
      → parse_point_id path_id ≡ some id
      → Patched api user w id latitude longitude (find (owned user.id id) w.db.points) (
          patch_point api
            (some user)
            path_id
            (some (record { latitude = some latitude; longitude = some longitude }))
            env
            w)
        × Deleted api user w id
            (find (owned user.id id) w.db.points)
            (handle_delete api (some user) path_id env w)
  by_id-Answers path_id id latitude longitude t n =
      (patch_point-Patched path_id id latitude longitude t n, handle_delete-Deleted path_id id t n)
