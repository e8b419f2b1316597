-- ===== src/Ingest/Create.antt =====
-- internal/store/sqlite/points.go `Create`, as `CreatePoints` uses it: the rows that it adds, against
-- the batch.
use mathlib.Core.List.{append_assoc, append-nil}
use travelmap.Base.{
  ℕ, suc, ◌+◌, ◌*◌, ◌/◌, ◌≡◌, refl, sym, ap, ◌∙◌, subst, true, false, inl, inr, List, [], ◌∷◌, ◌++◌,
  map, any, arith, length, length-append, Bool-cases,
}
use travelmap.Base.Members.{
  In, here, there, any-In, In-append, In-append_left, In-append_right, in_cons,
}
use travelmap.Model.{Time, second, Point}
use travelmap.Exec.{Env, Error, foreign_key}
use travelmap.Exec.Ensures.{
  Ensures, Ensures-pure, Ensures-statement, Ensures-bind, Ensures-weaken, Ensures-from, Ensures-now,
  Outcome,
}
use travelmap.Store.{Db, known_user, unix_time}
use travelmap.Store.WellFormed.{PointsIsWellFormed}
use travelmap.Store.Points.{same_key, row_of, insert_point, create_rows, create}
use travelmap.Store.Points.Inserted.{with_row, with_row-IsWellFormed}
use travelmap.Ingest.{Touch, touch_of}
use travelmap.Ingest.Touches.{hits}
use travelmap.Ingest.Changes.{RowOf, Reports}

-- A point as a row is expected to hold it, with times in whole seconds.
abbrev pub entered : ℕ → Time → Point → Point
entered id now p = record p {
  id = id;
  timestamp = p.timestamp / second * second;
  created_at = now / second * second;
  updated_at = now / second * second;
}

-- The row holds a point of the batch.
pub record CopyOf (ps : List Point) (r : Point) : Type 0 where
  pub point : Point
  pub is_in : In point ps
  pub id : ℕ
  pub now : Time
  pub row : r ≡ entered id now point

-- `count` rows of the batch were added, the others were there.
pub record Created (ps : List Point) (before after : Db) (count : ℕ) : Type 0 where
  pub new : List Point
  pub points : after.points ≡ before.points ++ new
  pub counted : count ≡ length new
  pub rest : after ≡ record before { points = after.points; point_seq = after.point_seq }
  pub copied : (r : Point) → In r new → CopyOf ps r
  pub reported : (r : Point) → In r new → hits (map touch_of ps) r ≡ true
  pub reports : Reports (map touch_of ps) after.points
  pub well_formed : PointsIsWellFormed before → PointsIsWellFormed after

same_key-RowOf :
    (id : ℕ) (now : Time) (p r : Point) (points : List Point)
    → In r points
    → same_key (row_of id now p) r ≡ true
    → RowOf points (touch_of p)
unfolding same_key row_of
same_key-RowOf id now p r points i h = record {
  row = r;
  is_in = i;
  owner = ground (arith, h);
  time = ground (arith, h);
}

new-RowOf :
    (id : ℕ) (now : Time) (p : Point) (points : List Point)
    → In (row_of id now p) points
    → RowOf points (touch_of p)
unfolding row_of
new-RowOf id now p points i = record { row = row_of id now p; is_in = i; owner = refl; time = refl }

row-hits : (id : ℕ) (now : Time) (p : Point) → hits (touch_of p ∷ []) (row_of id now p) ≡ true
unfolding row_of
row-hits id now p = ground arith

abbrev only : (P : Touch → Type 0) (t : Touch) → P t → (x : Touch) → In x (t ∷ []) → P x
only P t h x i = in_cons P t [] h (λ y n. elim n [ ]) x i

insert-dup :
    (now : Time) (p : Point) (db : Db)
    → any (same_key (row_of (suc db.point_seq) now p)) db.points ≡ true
    → Created (p ∷ []) db (record db { point_seq = suc db.point_seq }) 0
unfolding known_user
insert-dup now p db h = record {
  new = [];
  points = sym (append-nil db.points);
  counted = refl;
  rest = refl;
  reported = λ r i. elim i [ ];
  copied = λ r i. elim i [ ];
  reports =
      let (r, i, k) = any-In (same_key (row_of (suc db.point_seq) now p)) db.points h in
      only (RowOf db.points) (touch_of p) (same_key-RowOf (suc db.point_seq) now p r db.points i k);
  well_formed = λ v. record {
    ids = v.ids;
    fresh = λ q i. omega (arith, v.fresh q i);
    keys = v.keys;
    whole = v.whole;
    known = v.known;
  };
}

insert-new :
    (now : Time) (p : Point) (db : Db)
    → any (same_key (row_of (suc db.point_seq) now p)) db.points ≡ false
    → known_user db p.user_id ≡ true
    → Created (p ∷ []) db (with_row db (row_of (suc db.point_seq) now p)) 1
unfolding row_of unix_time
insert-new now p db h known = record {
  new = row_of (suc db.point_seq) now p ∷ [];
  points = refl;
  counted = refl;
  rest = refl;
  copied =
      in_cons (CopyOf (p ∷ [])) (row_of (suc db.point_seq) now p) []
        (record { point = p; is_in = here refl; id = suc db.point_seq; now = now; row = refl })
        (λ y n. elim n [ ]);
  reported = λ r i.
      in_cons (λ x. hits (touch_of p ∷ []) x ≡ true) (row_of (suc db.point_seq) now p) []
        (row-hits (suc db.point_seq) now p) (λ y n. elim n [ ]) r i;
  reports = only (RowOf (db.points ++ row_of (suc db.point_seq) now p ∷ [])) (touch_of p) (
      new-RowOf (suc db.point_seq) now p (db.points ++ row_of (suc db.point_seq) now p ∷ [])
        (In-append_right db.points (row_of (suc db.point_seq) now p ∷ []) _ (here refl)));
  well_formed = λ v. with_row-IsWellFormed now p db v h known;
}

-- One point of the batch after another.
Created-after :
    {p : Point} {ps : List Point} {d₀ d₁ d₂ : Db} {m n : ℕ}
    → Created (p ∷ []) d₀ d₁ m
    → Created ps d₁ d₂ n
    → Created (p ∷ ps) d₀ d₂ (m + n)
Created-after {p} {ps} {d₀} {d₁} {d₂} {m} {n} a b = record {
  new = a.new ++ b.new;
  points = b.points ∙ ap (λ x. x ++ b.new) a.points ∙ append_assoc d₀.points a.new b.new;
  counted = omega (arith, a.counted, b.counted, length-append a.new b.new);
  rest = b.rest ∙ ap (λ (x : Db). record x { points = d₂.points; point_seq = d₂.point_seq }) a.rest;
  copied = λ r i. elim (In-append a.new b.new r i) [
    | inl j ↦
        let c = a.copied r j in
        record {
          point = c.point;
          is_in = In-append_left (p ∷ []) ps c.point c.is_in;
          id = c.id;
          now = c.now;
          row = c.row;
        }
    | inr j ↦
        let c = b.copied r j in
        record { point = c.point; is_in = there c.is_in; id = c.id; now = c.now; row = c.row }
  ];
  reported = λ r i. elim (In-append a.new b.new r i) [
    | inl j ↦ ground (arith, a.reported r j)
    | inr j ↦ ground (arith, b.reported r j)
  ];
  reports =
      in_cons (RowOf d₂.points) (touch_of p) (map touch_of ps)
        (stays (touch_of p) (a.reports (touch_of p) (here refl))) b.reports;
  well_formed = λ v. b.well_formed (a.well_formed v);
}
  where
    stays : (t : Touch) → RowOf d₁.points t → RowOf d₂.points t
    stays t r = record {
      row = r.row;
      is_in = subst (In r.row) (sym b.points) (In-append_left d₁.points b.new r.row r.is_in);
      owner = r.owner;
      time = r.time;
    }

known_rest :
    (d d₁ : Db) (u : ℕ)
    → d₁ ≡ record d { points = d₁.points; point_seq = d₁.point_seq }
    → known_user d₁ u ≡ known_user d u
unfolding known_user
known_rest d d₁ u h = ap (λ (x : Db). known_user x u) h

module _ (env : Env) (C : Error → Type 0) where
  insert_point-Created :
      (now : Time) (p : Point) (db : Db)
      → (known_user db p.user_id ≡ false → C foreign_key)
      → Outcome env
          (λ n d. Created (p ∷ []) db d n)
          C
          (insert_point now p db).0
          (insert_point now p db).1
  unfolding insert_point
  insert_point-Created now p db refuse =
      elim (Bool-cases (any (same_key (row_of (suc db.point_seq) now p)) db.points)) [
        | inl e ↦ rw e (insert-dup now p db e)
        | inr e ↦ elim (Bool-cases (known_user db p.user_id)) [
          | inl k ↦ rw (e, k) (insert-new now p db e k)
          | inr k ↦ rw (e, k) (inr (refuse k))
        ]
      ]

  create_rows-Created :
      (now : Time) (ps : List Point) (inserted : ℕ) (db : Db)
      → ((p : Point) → In p ps → known_user db p.user_id ≡ false → C foreign_key)
      → Ensures env
          (λ d. d ≡ db)
          (create_rows now ps inserted)
          (λ n d. (m : ℕ) × (n ≡ inserted + m) × Created ps db d m)
          C
  unfolding create_rows
  create_rows-Created now [] inserted db refuse = Ensures-pure env C inserted (λ d p. (
    0,
    omega arith,
    rw p (record {
      new = [];
      points = sym (append-nil db.points);
      counted = refl;
      rest = refl;
      reported = λ r i. elim i [ ];
      copied = λ r i. elim i [ ];
      reports = λ t i. elim i [ ];
      well_formed = λ v. v;
    }),
  ))
  create_rows-Created now (p ∷ ps) inserted db refuse =
      Ensures-bind env C {R = λ n d. Created (p ∷ []) db d n}
        (Ensures-statement env C (insert_point now p)
          (λ d e. rw e (insert_point-Created now p db (refuse p (here refl)))))
        (λ affected. Ensures-from env C (λ d₁ c.
          Ensures-weaken env C (λ d e. e)
            (λ n d r. (affected + r.0, omega (arith, r.1), Created-after c r.2))
            (create_rows-Created now ps (inserted + affected) d₁
              (λ q i k. refuse q (there i) (sym (known_rest db d₁ q.user_id c.rest) ∙ k)))))

  -- The count is that of the rows that were added.
  pub create-Created :
      (ps : List Point) (db : Db)
      → ((p : Point) → In p ps → known_user db p.user_id ≡ false → C foreign_key)
      → Ensures env (λ d. d ≡ db) (create ps) (λ n d. Created ps db d n) C
  unfolding create
  create-Created ps db refuse =
      Ensures-now env C (λ now. create_rows now ps 0)
        (λ now.
          Ensures-weaken env C (λ d e. e)
            (λ n d r. subst (Created ps db d) (sym (r.1 ∙ omega arith)) r.2)
            (create_rows-Created now ps 0 db refuse))
