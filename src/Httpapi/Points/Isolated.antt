-- ===== src/Httpapi/Points/Isolated.antt =====
-- internal/httpapi/points.go over internal/ingest: what a request for points leaves of the tables.
use travelmap.Base.{ℕ, ◌≡◌, refl, sym, ap, ◌∙◌, Option, none, some, List, [], ◌∷◌, map, filter}
use travelmap.Base.Members.{In, in_cons, of_In-map}
use travelmap.Model.{Time, Float64, Point}
use travelmap.Model.Zone.{Zone}
use travelmap.Geo.{FloatOps}
use travelmap.Store.{Db}
use travelmap.Store.Points.{doomed}
use travelmap.Ingest.{Touch, touch_of}
use travelmap.Ingest.Change.{Created-Changed, update-Changed, delete-Changed, delete_bulk-Changed}
use travelmap.Ingest.Isolated.{Isolated, Isolated-refl, Isolated-of, AllOf}
use travelmap.Ingest.Sound.{IsSound, PointsCreated}
use travelmap.Ingest.Sound.Single.{PointUpdated, PointDeleted, PointsDeleted, touches_of}
use travelmap.Httpapi.Dto.{Feature}
use travelmap.Httpapi.Response.{Std}
use travelmap.Httpapi.Points.{
  point_from_feature, point_of, parse_timestamp, point_at, add_point, parse_locations,
}

-- The points of a batch are the caller's.
pub OwnedBy : ℕ → Option Point → Type 0
OwnedBy user none = Unit
OwnedBy user (some p) = p.user_id ≡ user

point_of-OwnedBy :
    (user : ℕ) (f : Feature) (coordinates : List Float64) (timestamp : Option Time)
    → OwnedBy user (point_of user f coordinates timestamp)
unfolding OwnedBy point_at
point_of-OwnedBy user f [] timestamp = tt
point_of-OwnedBy user f (x ∷ []) timestamp = tt
point_of-OwnedBy user f (x ∷ y ∷ rest) none = tt
point_of-OwnedBy user f (x ∷ y ∷ rest) (some t) = refl

add_point-owned :
    (user : ℕ) (p : Option Point) (ps : List Point)
    → OwnedBy user p
    → ((q : Point) → In q ps → q.user_id ≡ user)
    → (q : Point) → In q (add_point p ps)
    → q.user_id ≡ user
unfolding OwnedBy
add_point-owned user none ps h k = k
add_point-owned user (some p) ps h k = in_cons (λ (q : Point). q.user_id ≡ user) p ps h k

pub parse_locations-owned :
    (std : Std) (fs : List Feature) (user : ℕ) (p : Point)
    → In p (parse_locations std fs user)
    → p.user_id ≡ user
unfolding parse_locations point_from_feature
parse_locations-owned std [] user = λ p i. elim i [ ]
parse_locations-owned std (f ∷ fs) user =
    add_point-owned user (point_from_feature std f user) (parse_locations std fs user)
      (point_of-OwnedBy user f f.geometry.coordinates (parse_timestamp std f.properties.timestamp))
      (parse_locations-owned std fs user)

touches-AllOf : (user : ℕ) (ts : List Time) → AllOf user (touches_of user ts)
touches-AllOf user [] = λ t i. elim i [ ]
touches-AllOf user (x ∷ xs) =
    in_cons (λ (t : Touch). t.user_id ≡ user) _ (touches_of user xs) refl (touches-AllOf user xs)

batch-AllOf :
    (user : ℕ) (ps : List Point)
    → ((p : Point) → In p ps → p.user_id ≡ user)
    → AllOf user (map touch_of ps)
batch-AllOf user ps h t i =
    let r = of_In-map touch_of ps t i in
    ap (λ (x : Touch). x.user_id) (sym r.image) ∙ h r.origin r.is_in

-- From a database in which the invariant of the points holds, it still does, and the rows of other
-- users and the other tables are as they were.
pub record Served (ops : FloatOps) (z : Zone) (track_break user : ℕ) (before after : Db)
    : Type 0 where
  pub sound : IsSound ops z track_break after
  pub isolated : Isolated user before after

module _ (ops : FloatOps) (z : Zone) (track_break user : ℕ) where
  pub Served-refl : (db : Db) → IsSound ops z track_break db → Served ops z track_break user db db
  Served-refl db s = record { sound = s; isolated = Isolated-refl user db }

  pub created-Served :
      (ps : List Point) (before after : Db) (n : ℕ)
      → IsSound ops z track_break before
      → ((p : Point) → In p ps → p.user_id ≡ user)
      → PointsCreated ops z track_break ps before after n
      → Served ops z track_break user before after
  created-Served ps before after n s own c = record {
    sound = c.sound;
    isolated =
        Isolated-of ops z track_break user (Created-Changed s.rows c.created) c.refreshed
          (batch-AllOf user ps own) s.stats;
  }

  pub updated-Served :
      (id latitude longitude : ℕ) (before after : Db) (p : Point)
      → IsSound ops z track_break before
      → PointUpdated ops z track_break user id latitude longitude before p after
      → Served ops z track_break user before after
  updated-Served id latitude longitude before after p s u = record {
    sound = u.sound;
    isolated =
        Isolated-of ops z track_break user
          (update-Changed before s.rows user id u.now latitude longitude u.row u.found) u.refreshed
          (touches-AllOf user (u.row.timestamp ∷ [])) s.stats;
  }

  pub deleted-Served :
      (id : ℕ) (before after : Db)
      → IsSound ops z track_break before
      → PointDeleted ops z track_break user id before after
      → Served ops z track_break user before after
  deleted-Served id before after s d = record {
    sound = d.sound;
    isolated =
        Isolated-of ops z track_break user (delete-Changed before s.rows user id d.row d.found)
          d.refreshed (touches-AllOf user (d.row.timestamp ∷ [])) s.stats;
  }

  pub bulk-Served :
      (ids : List ℕ) (before after : Db) (n : ℕ)
      → IsSound ops z track_break before
      → PointsDeleted ops z track_break user ids before n after
      → Served ops z track_break user before after
  bulk-Served ids before after n s d = record {
    sound = d.sound;
    isolated =
        Isolated-of ops z track_break user (delete_bulk-Changed before s.rows user ids) d.refreshed
          (touches-AllOf user
            (map (λ (p : Point). p.timestamp) (filter (doomed user ids) before.points)))
          s.stats;
  }
