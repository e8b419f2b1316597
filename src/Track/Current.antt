-- ===== src/Track/Current.antt =====
-- internal/track/rebuild.go and worker.go: which users' tracks are those of their points, and what
-- a rebuild and a round of the worker do to that.
use mathlib.Core.List.{append_assoc, append-nil}
use travelmap.Base.{
  ==_refl, ==_comm, map-append, ℕ, suc, ◌≡◌, refl, sym, ap, ◌∙◌, subst, Bool, true, false, not,
  List, [], ◌∷◌, ◌++◌, map, ◌==◌, filter, filter-append, arith,
}
use travelmap.Model.{Time, Track}
use travelmap.Geo.{FloatOps}
use travelmap.Exec.{Env, Error}
use travelmap.Exec.Ensures.{
  Ensures, Ensures-pure, Ensures-statement, Ensures-read, Ensures-now, Ensures-bind, Ensures-weaken,
  Ensures-given, Ensures-from, Ensures-tx, Outcome,
}
use travelmap.Store.{Db, known_user, unix_time}
use travelmap.Store.Points.{select_ordered, all_ordered}
use travelmap.Store.Tracks.{track_row, insert_track, insert_tracks, replace_all}
use travelmap.Track.{build, rebuild_user}

abbrev pub of_user : ℕ → Track → Bool
of_user user t = t.user_id == user

-- A row of the table without its id and the times of its writing.
abbrev pub anonymous : Track → Track
anonymous t = record t { id = 0; created_at = 0; updated_at = 0 }

abbrev pub stored_tracks : ℕ → Db → List Track
stored_tracks user db = map anonymous (filter (of_user user) db.tracks)

-- A track as a row holds it.
abbrev pub rows_of : ℕ → List Track → List Track
rows_of user tracks = map (track_row 0 user 0) tracks

-- The user's tracks are those of the user's points.
abbrev pub IsCurrent : FloatOps → ℕ → ℕ → Db → Type 0
IsCurrent ops track_break user db =
    stored_tracks user db ≡ rows_of user (build ops track_break (select_ordered user db.points))

-- The tracks of one user were replaced, and nothing else.
pub record Replaced (user : ℕ) (tracks : List Track) (before after : Db) : Type 0 where
  pub rest : after ≡ record before { tracks = after.tracks; track_seq = after.track_seq }
  pub own : stored_tracks user after ≡ rows_of user tracks
  pub others : (v : ℕ) → (v == user) ≡ false → stored_tracks v after ≡ stored_tracks v before

-- Rows of the user were added.
record Appended (user : ℕ) (tracks : List Track) (before after : Db) : Type 0 where
  rest : after ≡ record before { tracks = after.tracks; track_seq = after.track_seq }
  own : stored_tracks user after ≡ stored_tracks user before ++ rows_of user tracks
  others : (v : ℕ) → (v == user) ≡ false → stored_tracks v after ≡ stored_tracks v before

known_rest :
    (d d₁ : Db) (user : ℕ)
    → d₁ ≡ record d { tracks = d₁.tracks; track_seq = d₁.track_seq }
    → known_user d₁ user ≡ known_user d user
unfolding known_user
known_rest d d₁ user h = ap (λ (x : Db). known_user x user) h

row-own :
    (id user now : ℕ) (t : Track)
    → map anonymous (filter (of_user user) (track_row id user now t ∷ []))
      ≡ track_row 0 user 0 t ∷ []
unfolding track_row unix_time
row-own id user now t = rw (==_refl user) refl

row-other :
    (id user now v : ℕ) (t : Track)
    → (v == user) ≡ false
    → map anonymous (filter (of_user v) (track_row id user now t ∷ [])) ≡ []
unfolding track_row
row-other id user now v t h = rw (==_comm user v ∙ h) refl

stored-append :
    (v : ℕ) (ts us : List Track)
    → map anonymous (filter (of_user v) (ts ++ us))
      ≡ map anonymous (filter (of_user v) ts) ++ map anonymous (filter (of_user v) us)
stored-append v ts us =
    ap (map anonymous) (filter-append (of_user v) ts us)
    ∙ map-append anonymous (filter (of_user v) ts) (filter (of_user v) us)

Appended-after :
    (user : ℕ) (t : Track) (ts : List Track) (d d₁ d₂ : Db)
    → Appended user (t ∷ []) d d₁
    → Appended user ts d₁ d₂
    → Appended user (t ∷ ts) d d₂
Appended-after user t ts d d₁ d₂ a b = record {
  rest = b.rest ∙ ap (λ (x : Db). record x { tracks = d₂.tracks; track_seq = d₂.track_seq }) a.rest;
  own =
      b.own
      ∙ ap (λ x. x ++ rows_of user ts) a.own
      ∙ append_assoc (stored_tracks user d) (rows_of user (t ∷ [])) (rows_of user ts);
  others = λ v h. b.others v h ∙ a.others v h;
}

module _ (env : Env) (C : Error → Type 0) (user : ℕ) where
  insert_track-Appended :
      (now : Time) (t : Track) (db : Db)
      → known_user db user ≡ true
      → Outcome env
          (λ _ d. Appended user (t ∷ []) db d)
          C
          (insert_track user now t db).0
          (insert_track user now t db).1
  unfolding insert_track
  insert_track-Appended now t db known = rw known (record {
    rest = refl;
    own =
        stored-append user db.tracks (track_row (suc db.track_seq) user now t ∷ [])
        ∙ ap (λ x. stored_tracks user db ++ x) (row-own (suc db.track_seq) user now t);
    others = λ v h.
        stored-append v db.tracks (track_row (suc db.track_seq) user now t ∷ [])
        ∙ ap (λ x. stored_tracks v db ++ x) (row-other (suc db.track_seq) user now v t h)
        ∙ append-nil (stored_tracks v db);
  })

  insert_tracks-Appended :
      (now : Time) (ts : List Track) (db : Db)
      → known_user db user ≡ true
      → Ensures env (λ d. d ≡ db) (insert_tracks user now ts) (λ _ d. Appended user ts db d) C
  unfolding insert_tracks
  insert_tracks-Appended now [] db known = Ensures-pure env C tt (λ d e. rw e (record {
    rest = refl;
    own = sym (append-nil (stored_tracks user db));
    others = λ v h. refl;
  }))
  insert_tracks-Appended now (t ∷ ts) db known =
      Ensures-bind env C {R = λ _ d. Appended user (t ∷ []) db d}
        (Ensures-statement env C (insert_track user now t)
          (λ d e. rw e (insert_track-Appended now t db known)))
        (λ _. Ensures-from env C (λ d₁ a.
          Ensures-weaken env C (λ d e. e) (λ _ d b. Appended-after user t ts db d₁ d a b)
            (insert_tracks-Appended now ts d₁ (known_rest db d₁ user a.rest ∙ known))))

  cleared-own :
      (ts : List Track)
      → filter (of_user user) (filter (λ (t : Track). not (t.user_id == user)) ts) ≡ []
  cleared-own [] = refl
  cleared-own (t ∷ ts) = ground (arith, cleared-own ts)

  cleared-other :
      (v : ℕ)
      → (v == user) ≡ false
      → (ts : List Track)
      → filter (of_user v) (filter (λ (t : Track). not (t.user_id == user)) ts)
        ≡ filter (of_user v) ts
  cleared-other v h [] = refl
  cleared-other v h (t ∷ ts) = ground (arith, h, cleared-other v h ts)

  Replaced-of :
      (ts : List Track) (db d : Db)
      → Appended user ts
          (record db { tracks = filter (λ (t : Track). not (t.user_id == user)) db.tracks })
          d
      → Replaced user ts db d
  Replaced-of ts db d a = record {
    rest = a.rest;
    own = a.own ∙ ap (λ x. map anonymous x ++ rows_of user ts) (cleared-own db.tracks);
    others = λ v h. a.others v h ∙ ap (map anonymous) (cleared-other v h db.tracks);
  }

  known-cleared :
      (db : Db) (ts : List Track)
      → known_user db user ≡ true
      → known_user (record db { tracks = ts }) user ≡ true
  unfolding known_user
  known-cleared db ts h = h

  replace_all-Replaced :
      (ts : List Track) (db : Db)
      → known_user db user ≡ true
      → Ensures env (λ d. d ≡ db) (replace_all user ts) (λ _ d. Replaced user ts db d) C
  unfolding replace_all
  replace_all-Replaced ts db known =
      Ensures-bind env C
        {R = λ _ d.
          d ≡ record db { tracks = filter (λ (t : Track). not (t.user_id == user)) db.tracks }}
        (Ensures-statement env C _ (λ d e. rw e refl))
        (λ _.
          Ensures-now env C (λ now. insert_tracks user now ts)
            (λ now.
              Ensures-weaken env C (λ d e. e) (λ _ d a. Replaced-of ts db d a)
                (insert_tracks-Appended now ts
                  (record db { tracks = filter (λ (t : Track). not (t.user_id == user)) db.tracks })
                  (known-cleared db (filter (λ (t : Track). not (t.user_id == user)) db.tracks)
                    known))))

  -- A rebuild that succeeds replaces the user's tracks by those of the user's points.
  pub rebuild_user-Replaced :
      (ops : FloatOps) (track_break : ℕ) (db : Db)
      → known_user db user ≡ true
      → Ensures env
          (λ d. d ≡ db)
          (rebuild_user ops user track_break)
          (λ _ d. Replaced user (build ops track_break (select_ordered user db.points)) db d)
          C
  unfolding rebuild_user all_ordered
  rebuild_user-Replaced ops track_break db known = Ensures-tx env C (
      Ensures-bind env C (Ensures-read env C db (λ d. select_ordered user d.points)) (λ points.
        Ensures-given env C (λ d p. p.1)
          (λ e.
            Ensures-weaken env C (λ d p. p.0)
              (λ _ d r. subst (λ ps. Replaced user (build ops track_break ps) db d) e r)
              (replace_all-Replaced (build ops track_break points) db known))))
