-- ===== src/Ingest/Sound/Outcomes.antt =====
-- internal/ingest/create.go and mutate.go: what each mutation does, on success and on failure.
use mathlib.Core.Bool.{false≢true}
use mathlib.Core.Option.{none-ne-some}
use travelmap.Base.{ℕ, ◌≡◌, refl, sym, ◌∙◌, true, false, List, some, none, find}
use travelmap.Base.Members.{In}
use travelmap.Model.{Float64, Point}
use travelmap.Model.Zone.{Zone, IsRegular}
use travelmap.Geo.{FloatOps}
use travelmap.Exec.{Env, World, not_found}
use travelmap.Exec.Ensures.{Returns, FailsWith, fails_with, Healthy, Never, succeeds}
use travelmap.Ingest.Atomic.{update_point-IsAtomic, delete_point-IsAtomic}
use travelmap.Exec.Atomic.{failed-Unchanged}
use travelmap.Store.{Db, known_user}
use travelmap.Store.Points.{owned}
use travelmap.Ingest.{create_points, update_point, delete_point, delete_points}
use travelmap.Ingest.Sound.{IsSound, PointsCreated, create_points-Ensures}
use travelmap.Ingest.Sound.Single.{
  PointUpdated, PointDeleted, PointsDeleted, update_point-Ensures, delete_point-Ensures,
}
use travelmap.Ingest.Sound.Mutate.{delete_points-Ensures}

module _ (ops : FloatOps) (z : Zone) (track_break : ℕ) where
  -- In a location where every day has its midnight, from a database that satisfies the
  -- invariant, where no statement fails and every point's user exists, CreatePoints appends
  -- rows that are each a point of the batch as a row holds it, so that every point of the
  -- batch has a row at its user and time, and returns how many; it leaves daily_stats as the
  -- points then call for, and it adds requests for the tracks of the batch's users and of no
  -- one else.
  pub create_points-succeeds :
      IsRegular z
      → (env : Env) → Healthy env
      → (w : World Db) → IsSound ops z track_break w.db
      → (ps : List Point) → ((p : Point) → In p ps → known_user w.db p.user_id ≡ true)
      → Returns
          (λ n d. PointsCreated ops z track_break ps w.db d n)
          (create_points ops z track_break ps env w)
  create_points-succeeds v env h w s ps known =
      succeeds env
        (create_points-Ensures v ops track_break env Never ps w.db
          (λ p i e. false≢true (sym e ∙ known p i)) s)
        h w refl

  -- In a location where every day has its midnight, from a database that satisfies the
  -- invariant, where no statement fails and the user has a point of that id, UpdatePoint
  -- returns that row with the new coordinates and changes it, and no other point, in the
  -- table; it leaves daily_stats as the points then call for, and it requests that user's
  -- tracks.
  pub update_point-succeeds :
      IsRegular z
      → (env : Env) → Healthy env
      → (w : World Db) → IsSound ops z track_break w.db
      → (user id : ℕ) (latitude longitude : Float64) (p : Point)
      → find (owned user id) w.db.points ≡ some p
      → Returns
          (λ updated d. PointUpdated ops z track_break user id latitude longitude w.db updated d)
          (update_point ops z track_break user id latitude longitude env w)
  update_point-succeeds v env h w s user id latitude longitude p f =
      succeeds env
        (update_point-Ensures v ops track_break env Never w.db s user id
          (λ n. none-ne-some _ (sym n ∙ f)) latitude longitude)
        h w refl

  -- In a location where every day has its midnight, from a database that satisfies the
  -- invariant, where no statement fails and the user has a point of that id, DeletePoint
  -- succeeds, removes the user's row of that id and no other, leaves daily_stats as the points
  -- then call for, and requests that user's tracks.
  pub delete_point-succeeds :
      IsRegular z
      → (env : Env) → Healthy env
      → (w : World Db) → IsSound ops z track_break w.db
      → (user id : ℕ) (p : Point) → find (owned user id) w.db.points ≡ some p
      → Returns
          (λ _ d. PointDeleted ops z track_break user id w.db d)
          (delete_point ops z track_break user id env w)
  delete_point-succeeds v env h w s user id p f =
      succeeds env
        (delete_point-Ensures v ops track_break env Never w.db s user id
          (λ n. none-ne-some _ (sym n ∙ f)))
        h w refl

  -- In a location where every day has its midnight, from a database that satisfies the
  -- invariant, where no statement fails, DeletePoints succeeds for any ids: it removes the
  -- user's rows among them and no other, returns how many they were, leaves daily_stats as the
  -- points then call for, and requests the user's tracks if there were any.
  pub delete_points-succeeds :
      IsRegular z
      → (env : Env) → Healthy env
      → (w : World Db) → IsSound ops z track_break w.db
      → (user : ℕ) (ids : List ℕ)
      → Returns
          (λ count d. PointsDeleted ops z track_break user ids w.db count d)
          (delete_points ops z track_break user ids env w)
  delete_points-succeeds v env h w s user ids =
      succeeds env (delete_points-Ensures v ops track_break env Never w.db s user ids) h w refl

  pub update_point-FailsWith :
      IsRegular z
      → (env : Env) → Healthy env
      → (w : World Db) → w.in_tx ≡ false
      → IsSound ops z track_break w.db
      → (user id : ℕ) (latitude longitude : Float64) → find (owned user id) w.db.points ≡ none
      → FailsWith not_found w (update_point ops z track_break user id latitude longitude env w)
  update_point-FailsWith v env h w t s user id latitude longitude n =
      let missed =
        fails_with env h not_found w
          (update_point-Ensures v ops track_break env (λ x. x ≡ not_found) w.db s user id
            (λ _. refl) latitude longitude)
          (λ a d q. none-ne-some _ (sym n ∙ q.found)) in
      (
        missed,
        failed-Unchanged w (update_point ops z track_break user id latitude longitude env w) missed
            (update_point-IsAtomic ops z track_break user id latitude longitude env w t),
      )

  pub delete_point-FailsWith :
      IsRegular z
      → (env : Env) → Healthy env
      → (w : World Db) → w.in_tx ≡ false
      → IsSound ops z track_break w.db
      → (user id : ℕ) → find (owned user id) w.db.points ≡ none
      → FailsWith not_found w (delete_point ops z track_break user id env w)
  delete_point-FailsWith v env h w t s user id n =
      let missed =
        fails_with env h not_found w
          (delete_point-Ensures v ops track_break env (λ x. x ≡ not_found) w.db s user id
            (λ _. refl))
          (λ a d q. none-ne-some _ (sym n ∙ q.found)) in
      (
        missed,
        failed-Unchanged w (delete_point ops z track_break user id env w) missed
            (delete_point-IsAtomic ops z track_break user id env w t),
      )
