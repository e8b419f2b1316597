-- ===== src/Track/Runs.antt =====
-- internal/track/build.go `build`: the runs of points that the tracks describe.
use mathlib.Core.List.{append_assoc, append-nil}
use travelmap.Base.{
  ℕ, ◌≡◌, refl, sym, ap, ◌∙◌, true, false, List, [], ◌∷◌, ◌++◌, none, some, map, Bool, ltb, min,
  ◌-◌, inl, inr, Bool-cases, Option-cases,
}
use travelmap.Model.{Float64, Point, Track, max_duration, time_sub}
use travelmap.Geo.{FloatOps, haversine}
use travelmap.Track.{
  measure, coordinate, finish, Build, flush, breaks, build_step, build_loop, build, last_of,
}

-- The lists after one another.
abbrev pub concat : List (List Point) → List Point
concat [] = []
concat (r ∷ rs) = r ++ concat rs

-- What `finish` makes of the runs.
abbrev pub tracks_of : FloatOps → List (List Point) → List Track
tracks_of ops [] = []
tracks_of ops (r ∷ rs) = elim (finish ops r) [
  | none ↦ tracks_of ops rs
  | some t ↦ t ∷ tracks_of ops rs
]

-- The time from `p` to `q`, up to the greatest duration, exceeds the break.
abbrev pub over : ℕ → Point → Point → Bool
over track_break p q = ltb track_break (min (q.timestamp - p.timestamp) max_duration)

-- No gap between neighbours exceeds the break.
abbrev pub Steady : ℕ → Point → List Point → Type 0
Steady track_break p [] = Unit
Steady track_break p (q ∷ qs) = (over track_break p q ≡ false) × Steady track_break q qs

-- Runs that are not empty and steady, each parted by a longer gap from the next, whose first point
-- comes after the last point of the run before it.
pub data Parted (track_break : ℕ) : List (List Point) → Type 0 where
  no_run : Parted track_break []
  last_run :
      (p : Point) (ps : List Point) → Steady track_break p ps → Parted track_break ((p ∷ ps) ∷ [])
  run :
      (p : Point) (ps : List Point) (q : Point) (qs : List Point) (rs : List (List Point))
      → Steady track_break p ps
      → over track_break (last_of p ps) q ≡ true
      → Parted track_break ((q ∷ qs) ∷ rs)
      → Parted track_break ((p ∷ ps) ∷ (q ∷ qs) ∷ rs)

-- The distance along the points after `p`, from the distance so far.
abbrev pub travelled : FloatOps → Float64 → Point → List Point → Float64
travelled ops km p [] = km
travelled ops km p (q ∷ qs) =
    travelled ops (ops.add km (haversine ops p.latitude p.longitude q.latitude q.longitude)) q qs

-- The track of a run: from its first point's time to its last's, in metres, with every point's
-- longitude and latitude.
abbrev pub described : FloatOps → Point → List Point → Track
described ops p ps = record {
  id = 0;
  user_id = p.user_id;
  start_at = p.timestamp;
  end_at = (last_of p ps).timestamp;
  distance_meters = ops.mul (travelled ops (ops.lit 0) p ps) (ops.lit 1000);
  geometry =
      map (λ (x : Point). record { longitude = x.longitude; latitude = x.latitude }) (p ∷ ps);
  created_at = 0;
  updated_at = 0;
}

-- A run of one point has no track.
abbrev pub all_described : FloatOps → List (List Point) → List Track
all_described ops [] = []
all_described ops ([] ∷ rs) = all_described ops rs
all_described ops ((p ∷ []) ∷ rs) = all_described ops rs
all_described ops ((p ∷ q ∷ ps) ∷ rs) = described ops p (q ∷ ps) ∷ all_described ops rs

measure-travelled :
    (ops : FloatOps) (km : Float64) (p : Point) (ps : List Point)
    → measure ops km (some p) ps ≡ travelled ops km p ps
unfolding measure
measure-travelled ops km p [] = refl
measure-travelled ops km p (q ∷ qs) = measure-travelled ops _ q qs

pub tracks_of-described :
    (ops : FloatOps) (rs : List (List Point)) → tracks_of ops rs ≡ all_described ops rs
unfolding finish measure coordinate
tracks_of-described ops [] = refl
tracks_of-described ops ([] ∷ rs) = tracks_of-described ops rs
tracks_of-described ops ((p ∷ []) ∷ rs) = tracks_of-described ops rs
tracks_of-described ops ((p ∷ q ∷ ps) ∷ rs) =
    rw (measure-travelled ops _ q ps)
      (ap (λ ts. described ops p (q ∷ ps) ∷ ts) (tracks_of-described ops rs))

-- The points are these runs, and the tracks are theirs.
pub record Split (ops : FloatOps) (track_break : ℕ) (points : List Point) (tracks : List Track)
    : Type 0 where
  pub runs : List (List Point)
  pub joined : concat runs ≡ points
  pub parted : Parted track_break runs
  pub built : tracks ≡ all_described ops runs

tracks_of-cons :
    (ops : FloatOps) (r : List Point) (rs : List (List Point))
    → tracks_of ops (r ∷ rs) ≡ tracks_of ops (r ∷ []) ++ tracks_of ops rs
tracks_of-cons ops r rs = elim (Option-cases (finish ops r)) [
  | inl e ↦ rw (e, tracks_of) refl
  | inr (t, e) ↦ rw (e, tracks_of) refl
]

flush-eq :
    (ops : FloatOps) (b : Build)
    → flush ops b
      ≡ record { tracks = b.tracks ++ tracks_of ops (b.current ∷ []); current = []; prev = b.prev }
unfolding flush
flush-eq ops b = elim (Option-cases (finish ops b.current)) [
  | inl e ↦
      rw (e, flush, tracks_of)
        (ap (λ ts. record { tracks = ts; current = []; prev = b.prev }) (sym (append-nil b.tracks)))
  | inr (t, e) ↦ rw (e, flush, tracks_of) refl
]

Steady-snoc :
    (track_break : ℕ) (p : Point) (ps : List Point) (q : Point)
    → Steady track_break p ps
    → over track_break (last_of p ps) q ≡ false
    → Steady track_break p (ps ++ q ∷ [])
unfolding last_of
Steady-snoc track_break p [] q s e = (e, tt)
Steady-snoc track_break p (r ∷ rs) q s e = (s.0, Steady-snoc track_break r rs q s.1 e)

last_of-snoc : (p : Point) (ps : List Point) (q : Point) → last_of p (ps ++ q ∷ []) ≡ q
unfolding last_of
last_of-snoc p [] q = refl
last_of-snoc p (r ∷ rs) q = last_of-snoc r rs q

-- What the rest of the loop makes of a run that has begun.
record Onward (ops : FloatOps) (track_break : ℕ) (tracks : List Track) (p : Point)
    (points : List Point) (b : Build) : Type 0 where
  first : List Point
  rest : List (List Point)
  joined : concat ((p ∷ first) ∷ rest) ≡ p ∷ points
  parted : Parted track_break ((p ∷ first) ∷ rest)
  built : (flush ops b).tracks ≡ tracks ++ tracks_of ops ((p ∷ first) ∷ rest)

abbrev begun : List Track → Point → List Point → Build
begun tracks p ps = record { tracks = tracks; current = p ∷ ps; prev = some (last_of p ps) }

module _ (ops : FloatOps) (track_break : ℕ) where
  step-break :
      (tracks : List Track) (p : Point) (ps : List Point) (q : Point)
      → over track_break (last_of p ps) q ≡ true
      → build_step ops track_break (begun tracks p ps) q
        ≡ begun (tracks ++ tracks_of ops ((p ∷ ps) ∷ [])) q []
  unfolding build_step last_of breaks time_sub
  step-break tracks p ps q e = rw (e, flush-eq ops (begun tracks p ps)) refl

  step-steady :
      (tracks : List Track) (p : Point) (ps : List Point) (q : Point)
      → over track_break (last_of p ps) q ≡ false
      → build_step ops track_break (begun tracks p ps) q ≡ begun tracks p (ps ++ q ∷ [])
  unfolding build_step breaks time_sub
  step-steady tracks p ps q e = rw (e, last_of-snoc p ps q) refl

  onward :
      (tracks : List Track) (p : Point) (ps : List Point)
      → Steady track_break p ps
      → (qs : List Point)
      → Onward ops track_break tracks p
          (ps ++ qs)
          (build_loop ops track_break (begun tracks p ps) qs)
  unfolding build_loop
  onward tracks p ps s [] = record {
    first = ps;
    rest = [];
    joined = refl;
    parted = last_run p ps s;
    built = ap (λ (b : Build). b.tracks) (flush-eq ops (begun tracks p ps));
  }
  onward tracks p ps s (q ∷ qs) = elim (Bool-cases (over track_break (last_of p ps) q)) [
    | inl e ↦ rw (step-break tracks p ps q e) (
        let o = onward (tracks ++ tracks_of ops ((p ∷ ps) ∷ [])) q [] tt qs in
        record {
          first = ps;
          rest = (q ∷ o.first) ∷ o.rest;
          joined = ap (λ xs. p ∷ ps ++ xs) o.joined;
          parted = run p ps q o.first o.rest s e o.parted;
          built =
              o.built
              ∙ append_assoc tracks (tracks_of ops ((p ∷ ps) ∷ []))
                  (tracks_of ops ((q ∷ o.first) ∷ o.rest))
              ∙ ap (λ xs. tracks ++ xs)
                  (sym (tracks_of-cons ops (p ∷ ps) ((q ∷ o.first) ∷ o.rest)));
        })
    | inr e ↦ rw (step-steady tracks p ps q e) (
        let o = onward tracks p (ps ++ q ∷ []) (Steady-snoc track_break p ps q s e) qs in
        record {
          first = o.first;
          rest = o.rest;
          joined = o.joined ∙ ap (λ xs. p ∷ xs) (append_assoc ps (q ∷ []) qs);
          parted = o.parted;
          built = o.built;
        })
  ]

  -- Build cuts the points into consecutive runs that are not empty, with no gap over the break
  -- inside a run and one between each run and the next, and its tracks are, in their order,
  -- one for each run of two points or more: from the first point's time to the last's, with
  -- the length of the way along the points and the place of each.
  pub build-Split :
      (points : List Point) → Split ops track_break points (build ops track_break points)
  unfolding build build_step last_of
  build-Split [] = record { runs = []; joined = refl; parted = no_run; built = refl }
  build-Split (p ∷ ps) =
      let o = onward [] p [] tt ps in
      record {
        runs = (p ∷ o.first) ∷ o.rest;
        joined = o.joined;
        parted = o.parted;
        built = o.built ∙ tracks_of-described ops ((p ∷ o.first) ∷ o.rest);
      }
