-- ===== src/Track/Spacing.antt =====
-- internal/track/build.go `build`, on a user's history in its order: where the tracks lie in time.
use travelmap.Base.{
  ℕ, ◌+◌, ◌≤◌, ◌<◌, ◌≡◌, refl, sym, ◌∙◌, subst, true, List, [], ◌∷◌, ◌++◌, Option, none, some, inl,
  inr, Option-cases, arith, length, filter, ◌==◌,
}
use mathlib.Core.Option.{some-injective, none-ne-some}
use travelmap.Base.Sort.{Ascending, sort-Ascending}
use travelmap.Model.{Time, Point, Track, max_duration}
use travelmap.Geo.{FloatOps}
use travelmap.Store.Points.{at_time, select_ordered}
use travelmap.Track.{finish, build, last_of}
use travelmap.Track.Runs.{
  over, concat, tracks_of, Parted, no_run, last_run, run, build-Split, tracks_of-described,
}

-- Later than a bound, if there is one.
abbrev Later : Option Time → Time → Type 0
Later none t = Unit
Later (some b) t = b < t

-- Tracks of two points or more, in the order of time, each more than the break after the last.
abbrev pub Spaced : ℕ → Option Time → List Track → Type 0
Spaced track_break bound [] = Unit
Spaced track_break bound (t ∷ ts) =
    Later bound t.start_at
    × (t.start_at ≤ t.end_at)
    × (2 ≤ length t.geometry)
    × Spaced track_break (some (t.end_at + track_break)) ts

-- A run that is a track: its ends, and its coordinates.
record Spans (p : Point) (ps : List Point) (t : Track) : Type 0 where
  start : t.start_at ≡ p.timestamp
  end_at : t.end_at ≡ (last_of p ps).timestamp
  drawn : 2 ≤ length t.geometry

finish-Spans :
    (ops : FloatOps) (p : Point) (ps : List Point) (t : Track)
    → finish ops (p ∷ ps) ≡ some t
    → Spans p ps t
unfolding finish
finish-Spans ops p [] t h = absurd (none-ne-some _ h)
finish-Spans ops p (q ∷ qs) t h =
    subst (Spans p (q ∷ qs)) (some-injective _ _ h)
      (record { start = refl; end_at = refl; drawn = omega arith })

last_of-late :
    (p : Point) (ps : List Point)
    → Ascending at_time p.timestamp ps
    → p.timestamp ≤ (last_of p ps).timestamp
unfolding last_of
last_of-late p [] a = omega arith
last_of-late p (q ∷ qs) a = omega (arith, a.0, last_of-late q qs a.1)

later_run :
    (p : Point) (ps : List Point) (rest : List Point) (b : ℕ)
    → Ascending at_time b (ps ++ rest)
    → Ascending at_time b ps
later_run p [] rest b a = tt
later_run p (q ∷ qs) rest b a = (a.0, later_run q qs rest q.timestamp a.1)

after_run :
    (p : Point) (ps : List Point) (rest : List Point)
    → Ascending at_time p.timestamp (ps ++ rest)
    → Ascending at_time (last_of p ps).timestamp rest
unfolding last_of
after_run p [] rest a = a
after_run p (q ∷ qs) rest a = after_run q qs rest a.1

far :
    (track_break : ℕ) (p q : Point)
    → track_break < max_duration
    → over track_break p q ≡ true
    → p.timestamp + track_break < q.timestamp
far track_break p q h e = ground (arith, h, e)

Later-than : (bound : Option Time) (t u : Time) → Later bound t → t ≤ u → Later bound u
Later-than none t u h k = tt
Later-than (some b) t u h k = omega (arith, h, k)

module _ (ops : FloatOps) (track_break : ℕ) (bounded : track_break < max_duration) where
  -- One run, with the spacing of the tracks of the runs after it.
  add_run :
      (bound : Option Time) (p : Point) (ps : List Point) (rs : List (List Point))
      → Later bound p.timestamp
      → Ascending at_time p.timestamp ps
      → (Spaced track_break (some ((last_of p ps).timestamp + track_break)) (tracks_of ops rs))
      → Spaced track_break bound (tracks_of ops rs)
      → Spaced track_break bound (tracks_of ops ((p ∷ ps) ∷ rs))
  add_run bound p ps rs h a after without = elim (Option-cases (finish ops (p ∷ ps))) [
    | inl e ↦ rw (e, tracks_of) without
    | inr (t, e) ↦
        rw (e, tracks_of)
          (let s = finish-Spans ops p ps t e in
            (
              subst (Later bound) (sym s.start) h,
              omega (arith, s.start, s.end_at, last_of-late p ps a),
              s.drawn,
              subst (λ x. Spaced track_break (some (x + track_break)) (tracks_of ops rs))
                  (sym s.end_at) after,
            ))
  ]

  Spaced-runs :
      (bound : Option Time) {p : Point} {ps : List Point} {rs : List (List Point)}
      → Parted track_break ((p ∷ ps) ∷ rs)
      → Later bound p.timestamp
      → Ascending at_time p.timestamp (ps ++ concat rs)
      → Spaced track_break bound (tracks_of ops ((p ∷ ps) ∷ rs))
  Spaced-runs bound (last_run p ps s) h a =
      add_run bound p ps [] h (later_run p ps [] p.timestamp a) tt tt
  Spaced-runs bound (run p ps q qs rs s e next) h a =
      let b = after_run p ps (concat ((q ∷ qs) ∷ rs)) a in
      let early = later_run p ps (concat ((q ∷ qs) ∷ rs)) p.timestamp a in
      add_run bound p ps ((q ∷ qs) ∷ rs) h early
        (Spaced-runs (some ((last_of p ps).timestamp + track_break)) next
          (far track_break (last_of p ps) q bounded e) b.1)
        (Spaced-runs bound next
          (Later-than bound p.timestamp q.timestamp h (omega (arith, last_of-late p ps early, b.0)))
          b.1)

  split-Spaced :
      {runs : List (List Point)}
      → Parted track_break runs
      → Ascending at_time 0 (concat runs)
      → Spaced track_break none (tracks_of ops runs)
  split-Spaced no_run a = tt
  split-Spaced (last_run p ps s) a = Spaced-runs none (last_run p ps s) tt a.1
  split-Spaced (run p ps q qs rs s e next) a = Spaced-runs none (run p ps q qs rs s e next) tt a.1

  -- For a break under the greatest duration, the tracks that build makes of a user's ordered
  -- points each have two coordinates or more and end no earlier than they start, and each
  -- starts later than the end of the one before plus the break.
  pub build-Spaced :
      (user : ℕ) (points : List Point)
      → Spaced track_break none (build ops track_break (select_ordered user points))
  unfolding select_ordered
  build-Spaced user points =
      let s = build-Split ops track_break (select_ordered user points) in
      subst (Spaced track_break none) (sym (s.built ∙ sym (tracks_of-described ops s.runs))) (
        split-Spaced s.parted (
          subst (Ascending at_time 0) (sym s.joined)
            (sort-Ascending at_time (filter (λ (p : Point). p.user_id == user) points))))
