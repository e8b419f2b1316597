-- ===== src/Httpapi/Points/Repeated.antt =====
-- internal/httpapi/points.go `ingestLocations`: a client that sends a batch again.
use travelmap.Base.{ℕ, ◌≡◌, refl, sym, ap, ◌∙◌, subst, true, some, List, map}
use travelmap.Model.{Point, User}
use travelmap.Model.Zone.{IsRegular}
use travelmap.Exec.{Env, World, ok, outside}
use travelmap.Exec.Ensures.{Healthy, Never, succeeds}
use travelmap.Store.{Db, known_user}
use travelmap.Ingest.{touch_of, create_points}
use travelmap.Ingest.Changes.{Reports}
use travelmap.Ingest.Repeated.{create_points-again}
use travelmap.Ingest.Sound.{IsSound, PointsCreated}
use travelmap.Httpapi.Dto.{Body, LocationsRequest}
use travelmap.Httpapi.Response.{Api, Response, as_user, with_body, write_json}
use travelmap.Httpapi.Points.{parse_locations, created_response, ingest_locations}
use travelmap.Httpapi.Points.Isolated.{parse_locations-owned}
use travelmap.Httpapi.Points.Answers.{attempt-eq, ingest_locations-Created}

module _ (api : Api) (success : ℕ) where
  -- No row is added and none is changed.
  abbrev pub Ignored : Db → Response × World Db → Type 0
  Ignored before (r, w) =
      (r ≡ write_json api success (Body.locations_created 0)) × (w.db.points ≡ before.points)

module _ (api : Api) (v : IsRegular api.loc) (user : User) (req : LocationsRequest)
    (success : ℕ) where
  abbrev pub batch_of : List Point
  batch_of = parse_locations api.std req.locations user.id

  -- The batch is in the table.
  reported-Ignored :
      (env : Env) (db : Db)
      → Healthy env
      → known_user db user.id ≡ true
      → IsSound api.ops api.loc api.track_break db
      → Reports (map touch_of batch_of) db.points
      → Ignored api success db
          (ingest_locations api (some user) (some req) success env (outside db))
  unfolding ingest_locations as_user with_body
  reported-Ignored env db healthy known s reported =
      let (n, e, c) =
        succeeds env
          (create_points-again v api.ops api.track_break env Never batch_of db
            (λ p i.
              subst (λ u. known_user db u ≡ true)
                (sym (parse_locations-owned api.std req.locations user.id p i)) known)
            s reported)
          healthy (outside db) refl in
      subst (Ignored api success db)
        (sym (
          attempt-eq (created_response api success) env
            (create_points api.ops api.loc api.track_break batch_of) (outside db) (ok n) e))
        (ap (λ k. write_json api success (Body.locations_created k)) c.0, c.1)

  module _ {before after : Db} {count : ℕ}
      (c : PointsCreated api.ops api.loc api.track_break batch_of before after count) where
    created-known : (u : ℕ) → known_user after u ≡ known_user before u
    unfolding known_user
    created-known u =
        ap (λ (x : Db). known_user x u) c.refreshed.rest
        ∙ ap (λ (x : Db). known_user x u) c.created.rest

    created-Reports : Reports (map touch_of batch_of) after.points
    created-Reports =
        subst (Reports (map touch_of batch_of)) (sym (ap (λ (x : Db). x.points) c.refreshed.rest))
          c.created.reports

  -- In a location where every day has its midnight, where no statement fails, from a database
  -- that satisfies the invariant of the points, a batch of a user who exists that is sent
  -- again is answered with a count of 0 and leaves the points as the first request left them.
  pub ingest_locations-again :
      (env later : Env)
      → Healthy env
      → Healthy later
      → (w : World Db) → IsSound api.ops api.loc api.track_break w.db
      → known_user w.db user.id ≡ true
      → Ignored api success (ingest_locations api (some user) (some req) success env w).1.db (
          ingest_locations api
            (some user)
            (some req)
            success
            later
            (outside (ingest_locations api (some user) (some req) success env w).1.db))
  ingest_locations-again env later healthy healthy' w s known =
      let (n, e, c) = ingest_locations-Created api v env healthy user w s req success known in
      reported-Ignored later _ healthy' (created-known c user.id ∙ known) c.sound
        (created-Reports c)
