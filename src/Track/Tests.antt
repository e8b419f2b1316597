-- ===== src/Track/Tests.antt =====
-- internal/track at concrete points.
use travelmap.Base.{◌*◌, ◌+◌, ◌<◌, ◌≡◌, refl, not, some, none, arith, length, List, [], ◌∷◌}
use travelmap.Model.{Point, second}
use travelmap.Exec.{outside}
use travelmap.Store.{unix_time}
use travelmap.Store.Points.{select_ordered}
use travelmap.Store.DailyStats.{within_break}
use travelmap.Track.{breaks, build, drain}
use travelmap.Track.Runs.{Split, build-Split}
use travelmap.Track.Spacing.{Spaced, build-Spaced}
use travelmap.Track.Breaks.{breaks-within_break}
use travelmap.Track.Worker.{Drained, drain-Drained}
use travelmap.Fixture.{at, day, env, filled, filled-IsSound, minutes, whole_numbers}

-- Two runs of two points.
abbrev trip : List Point
trip = at 0 ∷ at (60 * second) ∷ at (day + 60 * second) ∷ at (day + 120 * second) ∷ []

build-Split_example : Split whole_numbers minutes trip (build whole_numbers minutes trip)
build-Split_example = build-Split whole_numbers minutes trip

build-Spaced_example : Spaced minutes none (build whole_numbers minutes (select_ordered 1 trip))
build-Spaced_example = build-Spaced whole_numbers minutes (omega arith) 1 trip

whole_minute : unix_time (60 * second) ≡ 60 * second
unfolding unix_time
whole_minute = refl

whole_day : unix_time (day + 60 * second) ≡ day + 60 * second
unfolding unix_time
whole_day = refl

breaks-within_break_example :
    breaks minutes (some (at (60 * second))) (at (day + 60 * second))
    ≡ not (within_break minutes (at (60 * second)) (at (day + 60 * second)))
breaks-within_break_example =
    breaks-within_break minutes (at (60 * second)) (at (day + 60 * second)) (omega arith)
      whole_minute whole_day

one_request : length filled.jobs < 2
unfolding travelmap.Ingest.create_points travelmap.Store.Points.create
    travelmap.Store.Points.next_timestamp travelmap.Store.DailyStats.rebuild
    travelmap.Store.Tracks.enqueue
one_request = omega arith

drain-Drained_example :
    Drained whole_numbers minutes env filled
      (drain whole_numbers minutes 2 env (outside filled)).0
      (drain whole_numbers minutes 2 env (outside filled)).1.db
drain-Drained_example =
    drain-Drained whole_numbers minutes env 2 (outside filled) refl filled-IsSound.tracks
      one_request
