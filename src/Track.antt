-- ===== src/Track.antt =====
-- internal/track: splitting a user's points into tracks, rebuilding them, and the worker that drains
-- the queue of rebuild requests.
pub mod Rounds
mod Tests
pub mod Runs
pub mod Current
pub mod Worker
pub mod Breaks
pub mod Spacing
use travelmap.Base.{
  ℕ, zero, suc, Bool, true, false, Option, none, some, List, [], ◌∷◌, ◌++◌, map, ltb, if◌then◌else◌,
}
use travelmap.Model.{time_sub, Float64, Coordinate, Point, Track}
use travelmap.Geo.{FloatOps, haversine}
use travelmap.Exec.{Env, World, Result, ok, err, pure, tx, ◌>>=◌, ◌>>◌}
use travelmap.Store.{Db, Action}
use travelmap.Store.Points
use travelmap.Store.Tracks

-- What the loop of `finish` keeps: the coordinates so far, the distance so far and the last point.
unfoldable pub measure : FloatOps → Float64 → Option Point → List Point → Float64
unfolding haversine
measure ops distance_km prev [] = distance_km
measure ops distance_km none (p ∷ ps) = measure ops distance_km (some p) ps
measure ops distance_km (some q) (p ∷ ps) =
    measure ops (ops.add distance_km (haversine ops q.latitude q.longitude p.latitude p.longitude))
      (some p) ps

unfoldable pub coordinate : Point → Coordinate
coordinate p = record { longitude = p.longitude; latitude = p.latitude }

unfoldable pub last_of : Point → List Point → Point
last_of p [] = p
last_of p (q ∷ qs) = last_of q qs

-- One run of points as a track; none for fewer than two. The zero values stand for the fields that
-- the store fills in.
unfoldable pub finish : FloatOps → List Point → Option Track
unfolding measure coordinate last_of
finish ops [] = none
finish ops (p ∷ []) = none
finish ops (p ∷ q ∷ ps) = some (record {
  id = 0;
  user_id = p.user_id;
  start_at = p.timestamp;
  end_at = (last_of p (q ∷ ps)).timestamp;
  distance_meters = ops.mul (measure ops (ops.lit 0) none (p ∷ q ∷ ps)) (ops.lit 1000);
  geometry = map coordinate (p ∷ q ∷ ps);
  created_at = 0;
  updated_at = 0;
})

-- The variables of the loop of `build`.
pub record Build : Type 0 where
  pub tracks : List Track
  pub current : List Point
  pub prev : Option Point

unfoldable pub flush : FloatOps → Build → Build
unfolding finish
flush ops b = elim (finish ops b.current) [
  | none ↦ record b { current = [] }
  | some t ↦ record b { tracks = b.tracks ++ t ∷ []; current = [] }
]

-- prev != nil && p.Timestamp.Sub(prev.Timestamp) > trackBreak
unfoldable pub breaks : ℕ → Option Point → Point → Bool
unfolding time_sub
breaks track_break none p = false
breaks track_break (some q) p = ltb track_break (time_sub p.timestamp q.timestamp)

unfoldable pub build_step : FloatOps → ℕ → Build → Point → Build
unfolding flush breaks
build_step ops track_break b p =
    let b' = if breaks track_break b.prev p then flush ops b else b in
    record b' { current = b'.current ++ p ∷ []; prev = some p }

unfoldable pub build_loop : FloatOps → ℕ → Build → List Point → Build
unfolding build_step
build_loop ops track_break b [] = b
build_loop ops track_break b (p ∷ ps) =
    build_loop ops track_break (build_step ops track_break b p) ps

unfoldable pub build : FloatOps → ℕ → List Point → List Track
unfolding build_loop flush
build ops track_break points =
    (flush ops (
      build_loop ops track_break (record { tracks = []; current = []; prev = none }) points)).tracks

-- rebuild.go
unfoldable pub rebuild_user : FloatOps → ℕ → ℕ → Action (Unit {0})
rebuild_user ops user track_break =
    tx do points ← Points.all_ordered user; Tracks.replace_all user (build ops track_break points)

-- recalculate.go
unfoldable pub rebuild_users : FloatOps → ℕ → List ℕ → Action (Unit {0})
unfolding rebuild_user
rebuild_users ops track_break [] = pure tt
rebuild_users ops track_break (user ∷ users) = do
  rebuild_user ops user track_break
  rebuild_users ops track_break users

unfoldable pub recalculate_all : FloatOps → ℕ → Action (Unit {0})
unfolding rebuild_users
recalculate_all ops track_break = do users ← Points.user_ids; rebuild_users ops track_break users

-- worker.go: the transaction of one round of `drain`, which reports whether it claimed a request.
abbrev pub rebuild_claimed : FloatOps → ℕ → Option ℕ → Action Bool
rebuild_claimed ops track_break none = pure false
rebuild_claimed ops track_break (some user) = do rebuild_user ops user track_break; pure true

unfoldable pub drain_one : FloatOps → ℕ → Action Bool
drain_one ops track_break =
    tx do claimed ← Tracks.next_pending; rebuild_claimed ops track_break claimed

-- drain: rounds until the context is done, a round fails or none is pending. The result is whether
-- the loop ended by one of these, `false` that the fuel ran out.
abbrev pub drain_next : (World Db → Bool × World Db) → Result Bool × World Db → Bool × World Db
drain_next rest (err e, w) = (true, w)
drain_next rest (ok false, w) = (true, w)
drain_next rest (ok true, w) = rest w

unfoldable pub drain : FloatOps → ℕ → ℕ → Env → World Db → Bool × World Db
drain ops track_break zero env w = (false, w)
drain ops track_break (suc fuel) env w =
    let rest = drain ops track_break fuel env in
    if env.done w.steps then (true, w) else drain_next rest (drain_one ops track_break env w)
