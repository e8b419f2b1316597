-- ===== src/Store/Tracks.antt =====
-- internal/store/sqlite/tracks.go: the repository of the tracks table and of the queue of rebuild
-- requests, track_split_jobs.
use travelmap.Base.{
  ℕ, suc, Bool, true, ◌&&◌, not, Option, none, some, List, [], ◌∷◌, ◌++◌, ltb, leb, ◌==◌,
  if◌then◌else◌, any, filter, find, length,
}
use travelmap.Base.Sort.{sort}
use travelmap.Base.Extremes.{first_by}
use travelmap.Model.{Time, Track}
use travelmap.Exec.{Result, ok, err, not_found, foreign_key, pure, statement, with_now, ◌>>=◌, ◌>>◌}
use travelmap.Store.{Db, Action, Job, unix_time, known_user}
use travelmap.Store.Points.{page_of}

unfoldable pub track_row : ℕ → ℕ → Time → Track → Track
unfolding unix_time
track_row id user now t = record t {
  id = id;
  user_id = user;
  start_at = unix_time t.start_at;
  end_at = unix_time t.end_at;
  created_at = unix_time now;
  updated_at = unix_time now;
}

unfoldable pub insert_track : ℕ → Time → Track → Db → Result (Unit {0}) × Db
unfolding track_row known_user
insert_track user now t db =
    if known_user db user
    then (
      ok tt,
      record db {
        tracks = db.tracks ++ track_row (suc db.track_seq) user now t ∷ [];
        track_seq = suc db.track_seq;
      },
    )
    else (err foreign_key, db)

unfoldable pub insert_tracks : ℕ → Time → List Track → Action (Unit {0})
unfolding insert_track statement ◌>>=◌
insert_tracks user now [] = pure tt
insert_tracks user now (t ∷ ts) = do statement (insert_track user now t); insert_tracks user now ts

unfoldable pub replace_all : ℕ → List Track → Action (Unit {0})
unfolding insert_tracks statement ◌>>=◌
replace_all user tracks = do
  statement λ db.
      (ok tt, record db { tracks = filter (λ (t : Track). not (t.user_id == user)) db.tracks })
  with_now λ now. insert_tracks user now tracks

-- The WHERE of `List`.
unfoldable pub overlaps : ℕ → Option Time → Option Time → Track → Bool
unfolding unix_time
overlaps user start_at end_at t =
    t.user_id == user
    && elim start_at [ none ↦ true | some s ↦ leb (unix_time s) t.end_at ]
    && elim end_at [ none ↦ true | some e ↦ ltb t.start_at (unix_time e) ]

unfoldable pub list : ℕ → Option Time → Option Time → ℕ → ℕ → Action (List Track × ℕ)
unfolding overlaps page_of sort statement ◌>>=◌
list user start_at end_at page per_page = do
  total ← statement λ db. (ok (length (filter (overlaps user start_at end_at) db.tracks)), db)
  tracks ← statement λ db. (
    ok (
        page_of page per_page (
          sort (λ (t u : Track). ltb t.start_at u.start_at)
            (filter (overlaps user start_at end_at) db.tracks))),
    db,
  )
  pure (tracks, total)

unfoldable pub by_id : ℕ → ℕ → Action Track
unfolding statement
by_id user id = statement λ db.
    elim (find (λ (t : Track). t.id == id && t.user_id == user) db.tracks) [
      | none ↦ (err not_found, db)
      | some t ↦ (ok t, db)
    ]

-- INSERT ... ON CONFLICT (user_id) DO UPDATE SET requested_at: the request keeps its id,
-- and the AUTOINCREMENT id that a new one would have had is taken.
unfoldable pub touch_job : ℕ → Time → List Job → List Job
touch_job user now [] = []
touch_job user now (j ∷ js) =
    (if j.user_id == user then record j { requested_at = now } else j) ∷ touch_job user now js

unfoldable pub insert_job : ℕ → Time → Db → Result (Unit {0}) × Db
unfolding touch_job known_user
insert_job user now db =
    if any (λ (j : Job). j.user_id == user) db.jobs
    then (ok tt, record db { jobs = touch_job user now db.jobs; job_seq = suc db.job_seq })
    else if known_user db user
    then (
      ok tt,
      record db {
        jobs = db.jobs ++ record { id = suc db.job_seq; user_id = user; requested_at = now } ∷ [];
        job_seq = suc db.job_seq;
      },
    )
    else (err foreign_key, db)

unfoldable pub enqueue : ℕ → Action (Unit {0})
unfolding insert_job unix_time statement
enqueue user = with_now λ now. statement (insert_job user (unix_time now))

-- DELETE ... WHERE id = (SELECT id ... ORDER BY id LIMIT 1) RETURNING user_id
abbrev pub job_id : Job → ℕ
job_id j = j.id

unfoldable pub claim : Db → Result (Option ℕ) × Db
unfolding first_by
claim db = elim (first_by job_id db.jobs) [
  | none ↦ (ok none, db)
  | some j ↦
      (ok (some j.user_id), record db { jobs = filter (λ (k : Job). not (k.id == j.id)) db.jobs })
]

unfoldable pub next_pending : Action (Option ℕ)
unfolding claim statement
next_pending = statement claim
