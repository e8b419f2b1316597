-- ===== src/Httpapi/Points/Served.antt =====
-- internal/httpapi/points.go over internal/ingest: each handler, by what it leaves of the tables.
use travelmap.Base.{
  ℕ, String, Bool, false, ◌≡◌, refl, ◌∙◌, subst, Option, none, some, List, [], ◌∷◌,
}
use travelmap.Base.Text.{same_text}
use travelmap.Model.{Time, Float64, Point, User}
use travelmap.Model.Zone.{IsRegular}
use travelmap.Exec.{
  Env, World, Error, Result, ok, err, not_found, conflict, foreign_key, failed, refused,
}
use travelmap.Exec.Atomic.{Any}
use travelmap.Exec.Ensures.{Ensures-weaken}
use travelmap.Exec.Reads.{Reads, pure-Reads, statement-Reads, bind-Reads}
use travelmap.Store.{Db}
use travelmap.Store.Points
use travelmap.Store.Points.{owned, move_to, update_row, doomed}
use travelmap.Ingest.Atomic.{
  create_points-IsAtomic, update_point-IsAtomic, delete_point-IsAtomic, delete_points-IsAtomic,
}
use travelmap.Ingest.Sound.{IsSound, create_points-Ensures}
use travelmap.Ingest.Sound.Single.{update_point-Ensures, delete_point-Ensures}
use travelmap.Ingest.Sound.Mutate.{delete_points-Ensures}
use travelmap.Httpapi.Dto.{Body, LocationsRequest, PointUpdateRequest, PointsBulkDeleteRequest}
use travelmap.Httpapi.Response.{Api, Handler, with_request_time, attempt}
use travelmap.Httpapi.Respects.{
  Replies, reply-Replies, Respects, Respects-reply, Respects-user, Respects-body, Respects-attempt,
  Respects-read, Respects-time,
}
use travelmap.Httpapi.Query.{parse_query_time, parse_point_id, positive_int, write_page}
use travelmap.Httpapi.Points.{
  ListQuery, parse_locations, created_response, ingest_locations, handle_create,
  create_overland_batch, list_points, with_range, end_or, points_body, default_points_per_page,
  with_id, error_response, updated_response, move_point, patch_point, deleted_response,
  handle_delete, bulk_response, destroy_points, bulk_delete_points,
}
use travelmap.Httpapi.Points.Isolated.{
  Served, Served-refl, created-Served, updated-Served, deleted-Served, bulk-Served,
  parse_locations-owned,
}
use travelmap.Httpapi.Points.Requests.{
  PointRequest, create, overland, list, patch, delete, bulk_destroy, serve_points,
}

module _ (api : Api) where
  error_response-Replies : (e : Error) → Replies (error_response api e)
  error_response-Replies not_found = reply-Replies _
  error_response-Replies conflict = reply-Replies _
  error_response-Replies foreign_key = reply-Replies _
  error_response-Replies failed = reply-Replies _
  error_response-Replies refused = reply-Replies _

  created_response-Replies : (success : ℕ) (r : Result ℕ) → Replies (created_response api success r)
  created_response-Replies success (ok n) = reply-Replies _
  created_response-Replies success (err e) = reply-Replies _

  updated_response-Replies : (r : Result Point) → Replies (updated_response api r)
  updated_response-Replies (ok p) = reply-Replies _
  updated_response-Replies (err e) = error_response-Replies e

  deleted_response-Replies : (r : Result (Unit {0})) → Replies (deleted_response api r)
  deleted_response-Replies (ok u) = reply-Replies _
  deleted_response-Replies (err e) = error_response-Replies e

  bulk_response-Replies : (r : Result ℕ) → Replies (bulk_response api r)
  bulk_response-Replies (ok n) = reply-Replies _
  bulk_response-Replies (err e) = reply-Replies _

  pub write_page-Replies :
      {A : Type 0} (body : List A → Body) (page per_page : ℕ) (r : Result (List A × ℕ))
      → Replies (write_page api body page per_page r)
  unfolding write_page
  write_page-Replies body page per_page (ok (rows, total)) = reply-Replies _
  write_page-Replies body page per_page (err e) = reply-Replies _

pub list-Reads :
    (user : ℕ) (start_at : Option Time) (end_at : Time) (ascending : Bool) (page per_page : ℕ)
    → Reads (Points.list user start_at end_at ascending page per_page)
unfolding Points.list
list-Reads user start_at end_at ascending page per_page =
    bind-Reads _ _ (statement-Reads _ (λ d. refl))
      (λ total. bind-Reads _ _ (statement-Reads _ (λ d. refl)) (λ points. pure-Reads _))

-- The caller is the user whose rows the request may change.
module _ (api : Api) (v : IsRegular api.loc) (user : User) where
  abbrev Before : Db → Type 0
  Before db = IsSound api.ops api.loc api.track_break db

  abbrev After : Db → Db → Type 0
  After before after = Served api.ops api.loc api.track_break user.id before after

  unchanged : (db : Db) → Before db → After db db
  unchanged = Served-refl api.ops api.loc api.track_break user.id

  create-Served :
      (caller : Option User) (body : Option LocationsRequest) (success : ℕ)
      → caller ≡ some user
      → Respects Before After (ingest_locations api caller body success)
  unfolding ingest_locations
  create-Served caller body success who = Respects-user unchanged api caller _ (λ u e.
      Respects-body unchanged api body _ (λ req.
        Respects-attempt unchanged _ _ (create_points-IsAtomic api.ops api.loc api.track_break _)
          (λ env db s.
            Ensures-weaken env Any (λ d p. p)
              (λ n d c.
                created-Served api.ops api.loc api.track_break user.id
                  (parse_locations api.std req.locations u.id) db d n s
                  (λ p i. parse_locations-owned api.std req.locations u.id p i ∙ same u e) c)
              (create_points-Ensures v api.ops api.track_break env Any
                (parse_locations api.std req.locations u.id) db (λ p i k. tt) s))
          (created_response-Replies api success)))
    where
      same : (u : User) → caller ≡ some u → u.id ≡ user.id
      same u e = cc (e, who)

  list-Served :
      (caller : Option User) (q : ListQuery) → Respects Before After (list_points api caller q)
  unfolding list_points
  list-Served caller q =
      Respects-user unchanged api caller _
        (λ u e. range u (parse_query_time api.std q.start_at) (parse_query_time api.std q.end_at))
    where
      page :
          (u : User) (start_at end_at : Option Time)
          → Respects Before After (
              with_request_time λ now.
                attempt
                  (Points.list u.id start_at
                    (end_or end_at now)
                    (same_text q.order "asc")
                    (positive_int q.page 1)
                    (positive_int q.per_page default_points_per_page))
                  (write_page api
                    (points_body api.std)
                    (positive_int q.page 1)
                    (positive_int q.per_page default_points_per_page)))
      page u start_at end_at = Respects-time _ (λ now.
          Respects-read unchanged _ _
            (list-Reads u.id start_at (end_or end_at now) (same_text q.order "asc")
              (positive_int q.page 1) (positive_int q.per_page default_points_per_page))
            (write_page-Replies api (points_body api.std) (positive_int q.page 1)
              (positive_int q.per_page default_points_per_page)))

      range :
          (u : User) (s e : Option (Option Time))
          → Respects Before After (
              with_range api s e λ start_at end_at. with_request_time λ now.
                attempt
                  (Points.list u.id start_at
                    (end_or end_at now)
                    (same_text q.order "asc")
                    (positive_int q.page 1)
                    (positive_int q.per_page default_points_per_page))
                  (write_page api
                    (points_body api.std)
                    (positive_int q.page 1)
                    (positive_int q.per_page default_points_per_page)))
      range u none e = Respects-reply unchanged _
      range u (some s) none = Respects-reply unchanged _
      range u (some s) (some e) = page u s e

  id-Served :
      (id : Option ℕ) (f : ℕ → Handler)
      → ((n : ℕ) → Respects Before After (f n))
      → Respects Before After (with_id api id f)
  unfolding with_id
  id-Served none f h = Respects-reply unchanged _
  id-Served (some n) f h = h n

  move-Served :
      (u : User) (id : ℕ) (latitude longitude : Option Float64)
      → u.id ≡ user.id
      → Respects Before After (move_point api u.id id latitude longitude)
  move-Served u id none longitude same = Respects-reply unchanged _
  move-Served u id (some latitude) none same = Respects-reply unchanged _
  move-Served u id (some latitude) (some longitude) same =
      Respects-attempt unchanged _ _
        (update_point-IsAtomic api.ops api.loc api.track_break u.id id latitude longitude)
        (λ env db s.
          Ensures-weaken env Any (λ d p. p)
            (λ p d c.
              subst (λ n. Served api.ops api.loc api.track_break n db d) same
                (updated-Served api.ops api.loc api.track_break u.id id latitude longitude db d p s
                  c))
            (update_point-Ensures v api.ops api.track_break env Any db s u.id id (λ n. tt) latitude
              longitude))
        (updated_response-Replies api)

  patch-Served :
      (caller : Option User) (path_id : String) (body : Option PointUpdateRequest)
      → caller ≡ some user
      → Respects Before After (patch_point api caller path_id body)
  unfolding patch_point
  patch-Served caller path_id body who = Respects-user unchanged api caller _ (λ u e.
      id-Served (parse_point_id path_id) _ (λ id.
        Respects-body unchanged api body _
          (λ req. move-Served u id req.latitude req.longitude (cc (e, who)))))

  delete-Served :
      (caller : Option User) (path_id : String)
      → caller ≡ some user
      → Respects Before After (handle_delete api caller path_id)
  unfolding handle_delete
  delete-Served caller path_id who = Respects-user unchanged api caller _ (λ u e.
      id-Served (parse_point_id path_id) _ (λ id.
        Respects-attempt unchanged _ _
          (delete_point-IsAtomic api.ops api.loc api.track_break u.id id)
          (λ env db s.
            Ensures-weaken env Any (λ d p. p)
              (λ _ d c.
                subst (λ n. Served api.ops api.loc api.track_break n db d) (same u e)
                  (deleted-Served api.ops api.loc api.track_break u.id id db d s c))
              (delete_point-Ensures v api.ops api.track_break env Any db s u.id id (λ n. tt)))
          (deleted_response-Replies api)))
    where
      same : (u : User) → caller ≡ some u → u.id ≡ user.id
      same u e = cc (e, who)

  destroy-Served :
      (u : User) (ids : List ℕ)
      → u.id ≡ user.id
      → Respects Before After (destroy_points api u.id ids)
  destroy-Served u [] same = Respects-reply unchanged _
  destroy-Served u (id ∷ ids) same =
      Respects-attempt unchanged _ _
        (delete_points-IsAtomic api.ops api.loc api.track_break u.id (id ∷ ids))
        (λ env db s.
          Ensures-weaken env Any (λ d p. p)
            (λ n d c.
              subst (λ k. Served api.ops api.loc api.track_break k db d) same
                (bulk-Served api.ops api.loc api.track_break u.id (id ∷ ids) db d n s c))
            (delete_points-Ensures v api.ops api.track_break env Any db s u.id (id ∷ ids)))
        (bulk_response-Replies api)

  bulk_destroy-Served :
      (caller : Option User) (body : Option PointsBulkDeleteRequest)
      → caller ≡ some user
      → Respects Before After (bulk_delete_points api caller body)
  unfolding bulk_delete_points
  bulk_destroy-Served caller body who = Respects-user unchanged api caller _ (λ u e.
      Respects-body unchanged api body _ (λ req. destroy-Served u req.point_ids (cc (e, who))))

  served :
      (caller : Option User) (r : PointRequest)
      → caller ≡ some user
      → Respects Before After (serve_points api caller r)
  unfolding handle_create create_overland_batch
  served caller (create body) who = create-Served caller body 200 who
  served caller (overland body) who = create-Served caller body 201 who
  served caller (list q) who = list-Served caller q
  served caller (patch id body) who = patch-Served caller id body who
  served caller (delete id) who = delete-Served caller id who
  served caller (bulk_destroy body) who = bulk_destroy-Served caller body who

  -- In a location where every day has its midnight, outside a transaction, from a database
  -- that satisfies the invariant of the points, and whichever statements fail, any request for
  -- points by a user (a batch, a listing, an update, a deletion by one id or by many, however
  -- malformed) leaves a database that satisfies it; the rows of points, daily_stats and the
  -- queue that are not that user's are as they were, and so is every other table.
  pub serve_points-Served :
      (r : PointRequest) (env : Env) (w : World Db)
      → w.in_tx ≡ false
      → IsSound api.ops api.loc api.track_break w.db
      → Served api.ops api.loc api.track_break user.id w.db
          (serve_points api (some user) r env w).1.db
  serve_points-Served r env w t s = (served (some user) r refl).at env w t s
