-- ===== src/Ingest/Repeated.antt =====
-- internal/ingest/create.go: a batch that is sent again.
use travelmap.Base.{
  ℕ, suc, ◌+◌, ◌≡◌, refl, sym, ap, ◌∙◌, subst, true, List, [], ◌∷◌, map, any, arith,
}
use travelmap.Base.Members.{In, here, there, any_of_In}
use travelmap.Model.{Time, Point}
use travelmap.Model.Zone.{Zone, IsRegular}
use travelmap.Geo.{FloatOps}
use travelmap.Exec.{Env, Error, Result, ok}
use travelmap.Exec.Ensures.{
  Ensures, Ensures-pure, Ensures-statement, Ensures-now, Ensures-bind, Ensures-given, Ensures-from,
  Ensures-weaken, Ensures-tx, Ensures-both, Outcome,
}
use travelmap.Store.{Db, known_user}
use travelmap.Store.Points
use travelmap.Store.Points.{same_key, row_of, insert_point, create_rows}
use travelmap.Ingest.{touch_of, create_points}
use travelmap.Ingest.Changes.{RowOf, Reports}
use travelmap.Ingest.Change.{Created-Changed}
use travelmap.Ingest.Create.{create-Created}
use travelmap.Ingest.Sound.{IsSound, refresh}

RowOf-same_key :
    (id : ℕ) (now : Time) (p : Point) (points : List Point) (r : RowOf points (touch_of p))
    → same_key (row_of id now p) r.row ≡ true
unfolding same_key row_of
RowOf-same_key id now p points r = ground (arith, r.owner, r.time)

taken :
    (id : ℕ) (now : Time) (p : Point) (points : List Point)
    → RowOf points (touch_of p)
    → any (same_key (row_of id now p)) points ≡ true
taken id now p points r =
    any_of_In (same_key (row_of id now p)) points r.row r.is_in (RowOf-same_key id now p points r)

insert-taken :
    (now : Time) (p : Point) (db : Db)
    → RowOf db.points (touch_of p)
    → insert_point now p db ≡ (ok 0, record db { point_seq = suc db.point_seq })
unfolding insert_point
insert-taken now p db r = rw (taken (suc db.point_seq) now p db.points r) refl

module _ (env : Env) (C : Error → Type 0) (db : Db) where
  abbrev Same : Db → Type 0
  Same d = d.points ≡ db.points

  create_rows-again :
      (now : Time) (ps : List Point) (inserted : ℕ)
      → Reports (map touch_of ps) db.points
      → Ensures env Same (create_rows now ps inserted) (λ n d. (n ≡ inserted) × Same d) C
  unfolding create_rows
  create_rows-again now [] inserted r = Ensures-pure env C inserted (λ d e. (refl, e))
  create_rows-again now (p ∷ ps) inserted r =
      Ensures-bind env C
        (Ensures-statement env C {Q = λ n d. (n ≡ 0) × Same d} (insert_point now p) (λ d e.
          subst (λ (x : Result ℕ × Db). Outcome env (λ n d. (n ≡ 0) × Same d) C x.0 x.1)
            (sym (
              insert-taken now p d
                (subst (λ ps. RowOf ps (touch_of p)) (sym e) (r (touch_of p) (here refl)))))
            (refl, e)))
        (λ n.
          Ensures-given env C (λ d q. q.0)
            (λ zero.
              Ensures-weaken env C (λ d q. q.1) (λ m d q. (q.0 ∙ omega (arith, zero), q.1))
                (create_rows-again now ps (inserted + n) (λ t i. r t (there i)))))

  create-again :
      (ps : List Point)
      → Reports (map touch_of ps) db.points
      → Ensures env (λ d. d ≡ db) (Points.create ps) (λ n d. (n ≡ 0) × Same d) C
  unfolding Points.create
  create-again ps r =
      Ensures-now env C (λ now. create_rows now ps 0)
        (λ now.
          Ensures-weaken env C (λ d e. ap (λ (x : Db). x.points) e) (λ n d q. q)
            (create_rows-again now ps 0 r))

module _ {z : Zone} (v : IsRegular z) (ops : FloatOps) (track_break : ℕ) (env : Env)
    (C : Error → Type 0) where
  -- Every point of the batch has its row: none is added.
  pub create_points-again :
      (ps : List Point) (db : Db)
      → ((p : Point) → In p ps → known_user db p.user_id ≡ true)
      → IsSound ops z track_break db
      → Reports (map touch_of ps) db.points
      → Ensures env
          (λ d. d ≡ db)
          (create_points ops z track_break ps)
          (λ n d. (n ≡ 0) × (d.points ≡ db.points))
          C
  unfolding create_points
  create_points-again ps db known s reported = Ensures-tx env C (
      Ensures-bind env C
        (Ensures-both env C (create-Created env C ps db (λ p i e. absurd (cc (e, known p i))))
          (create-again env C db ps reported))
        (λ n. Ensures-from env C (λ mid c.
          Ensures-bind env C
            (refresh v ops track_break env C (map touch_of ps) db mid (Created-Changed s.rows c.0)
              s)
            (λ _.
              Ensures-pure env C n (λ d r. (c.1.0, ap (λ (x : Db). x.points) r.0.rest ∙ c.1.1))))))
