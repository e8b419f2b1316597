-- ===== src/Ingest/Change.antt =====
-- What the statements of internal/store/sqlite/points.go that change points do to the table, as
-- internal/ingest reports it.
use travelmap.Base.{
  ℕ, ◌≡◌, refl, sym, ap, ◌∙◌, subst, Bool, true, false, not, ◌⊎◌, inl, inr, List, [], ◌∷◌, map,
  some, arith, filter, find, Bool-cases,
}
use travelmap.Base.Members.{
  In, in_cons, In-find, In-map, of_In-filter, In-filter, any_of_In, of_In-map,
}
use travelmap.Model.{Time, Point}
use travelmap.Store.{Db, unix_time, known_user}
use travelmap.Store.WellFormed.{PointsIsWellFormed}
use travelmap.Store.Points.{same_key, owned, doomed, update_row, move_to}
use travelmap.Ingest.{Touch, touch_of}
use travelmap.Ingest.Touches.{hits, hit_by, Touches}
use travelmap.Ingest.Changes.{RowOf, Reports, added_Touches, removed_Touches, moved_Touches}
use travelmap.Ingest.Create.{Created}

-- A statement changed the points, and only the rows that `ts` reports.
pub record Changed (ts : List Touch) (before after : Db) : Type 0 where
  pub touches : Touches ts before.points after.points
  pub rest : after ≡ record before { points = after.points; point_seq = after.point_seq }
  pub well_formed : PointsIsWellFormed after
  pub known : (t : Touch) → In t ts → known_user after t.user_id ≡ true

pub Created-Changed :
    {ps : List Point} {before after : Db} {n : ℕ}
    → PointsIsWellFormed before
    → Created ps before after n
    → Changed (map touch_of ps) before after
Created-Changed {ps} {before} {after} v c = record {
  touches = subst (Touches (map touch_of ps) before.points) (sym c.points) (
      added_Touches before.points c.new c.reported
        (subst (Reports (map touch_of ps)) c.points c.reports));
  rest = c.rest;
  well_formed = c.well_formed v;
  known = λ t i.
      let r = c.reports t i in
      subst (λ u. known_user after u ≡ true) r.owner ((c.well_formed v).known r.row r.is_in);
}

abbrev pub with_points : Db → List Point → Db
with_points db points = record db { points = points }

known-with_points :
    (db : Db) (points : List Point) (u : ℕ) → known_user (with_points db points) u ≡ known_user db u
unfolding known_user
known-with_points db points u = refl

module _ (db : Db) (v : PointsIsWellFormed db) where
  known-Reports :
      (ts : List Touch) (points : List Point)
      → Reports ts db.points
      → (t : Touch) → In t ts
      → known_user (with_points db points) t.user_id ≡ true
  known-Reports ts points reports t i =
      let r = reports t i in
      known-with_points db points t.user_id
      ∙ subst (λ u. known_user db u ≡ true) r.owner (v.known r.row r.is_in)

  removed-Changed :
      (ts : List Touch) (keep : Point → Bool)
      → ((r : Point) → In r db.points → keep r ≡ false → hits ts r ≡ true)
      → Reports ts db.points
      → Changed ts db (with_points db (filter keep db.points))
  removed-Changed ts keep reported reports = record {
    touches = removed_Touches db.points keep reported reports;
    rest = refl;
    well_formed = record {
      ids = λ p q i j e. v.ids p q (was p i) (was q j) e;
      fresh = λ p i. v.fresh p (was p i);
      keys = λ p q i j e. v.keys p q (was p i) (was q j) e;
      whole = λ p i. v.whole p (was p i);
      known = λ p i. known-with_points db (filter keep db.points) p.user_id ∙ v.known p (was p i);
    };
    known = known-Reports ts (filter keep db.points) reports;
  }
    where
      was : (p : Point) → In p (filter keep db.points) → In p db.points
      was p i = (of_In-filter keep db.points p i).0

  -- The report of a row of the table, by its owner and its time.
  row-RowOf :
      (r : Point) (user : ℕ)
      → In r db.points
      → r.user_id ≡ user
      → RowOf db.points (record { user_id = user; timestamp = r.timestamp })
  row-RowOf r user i e = record { row = r; is_in = i; owner = e; time = sym (v.whole r i) }

  row-hits :
      (r : Point) (user : ℕ)
      → In r db.points
      → r.user_id ≡ user
      → hit_by r (record { user_id = user; timestamp = r.timestamp }) ≡ true
  row-hits r user i e = ground (arith, v.whole r i, e)

  owned_parts :
      (user id : ℕ) (p : Point) → owned user id p ≡ true → (p.id ≡ id) × (p.user_id ≡ user)
  owned_parts user id p h = ground arith

  pub delete-Changed :
      (user id : ℕ) (p : Point)
      → find (owned user id) db.points ≡ some p
      → Changed
          (record { user_id = user; timestamp = p.timestamp } ∷ [])
          db
          (with_points db (filter (λ q. not (owned user id q)) db.points))
  delete-Changed user id p h =
      let (i, k) = In-find (owned user id) db.points p h in
      let (pid, pu) = owned_parts user id p k in
      removed-Changed (record { user_id = user; timestamp = p.timestamp } ∷ [])
        (λ q. not (owned user id q))
        (λ r j e.
          let (rid, ru) = owned_parts user id r (negated (owned user id r) e) in
          subst
            (λ (x : Point). hits (record { user_id = user; timestamp = x.timestamp } ∷ []) r ≡ true)
            (v.ids r p j i (rid ∙ sym pid)) (ground (arith, row-hits r user j ru)))
        (in_cons (RowOf db.points) _ [] (row-RowOf p user i pu) (λ y n. elim n [ ]))
    where
      negated : (b : Bool) → not b ≡ false → b ≡ true
      negated b e = ground arith

  abbrev pub bulk_touches : ℕ → List ℕ → List Touch
  bulk_touches user ids =
      map (λ ts. record { user_id = user; timestamp = ts })
        (map (λ (p : Point). p.timestamp) (filter (doomed user ids) db.points))

  pub delete_bulk-Changed :
      (user : ℕ) (ids : List ℕ)
      → Changed
          (bulk_touches user ids)
          db
          (with_points db (filter (λ p. not (doomed user ids p)) db.points))
  delete_bulk-Changed user ids =
      removed-Changed (bulk_touches user ids) (λ p. not (doomed user ids p))
        (λ r j e.
          let d = negated (doomed user ids r) e in
          any_of_In (hit_by r) (bulk_touches user ids) (touch r)
            (In-map touch_at (map at (filter (doomed user ids) db.points)) r.timestamp (
              In-map at (filter (doomed user ids) db.points) r
                (In-filter (doomed user ids) db.points r j d)))
            (row-hits r user j (owner r d)))
        (λ t i.
          let a = of_In-map touch_at (map at (filter (doomed user ids) db.points)) t i in
          let b = of_In-map at (filter (doomed user ids) db.points) a.origin a.is_in in
          let (j, d) = of_In-filter (doomed user ids) db.points b.origin b.is_in in
          subst (RowOf db.points) (ap touch_at b.image ∙ a.image)
            (row-RowOf b.origin user j (owner b.origin d)))
    where
      at : Point → Time
      at p = p.timestamp

      touch_at : Time → Touch
      touch_at ts = record { user_id = user; timestamp = ts }

      touch : Point → Touch
      touch p = touch_at p.timestamp

      owner : (r : Point) → doomed user ids r ≡ true → r.user_id ≡ user
      owner r d = ground (arith, d)

      negated : (b : Bool) → not b ≡ false → b ≡ true
      negated b e = ground arith

  -- A rewriting of the rows that keeps ids, owners and times keeps the table well-formed.
  module _ (g : Point → Point) (id_kept : (r : Point) → (g r).id ≡ r.id)
      (owner : (r : Point) → (g r).user_id ≡ r.user_id)
      (time : (r : Point) → (g r).timestamp ≡ r.timestamp) where
    same_key-moved : (q r : Point) → same_key (g q) (g r) ≡ same_key q r
    unfolding same_key
    same_key-moved q r = rw (owner q, owner r, time q, time r)

    moved-IsWellFormed : PointsIsWellFormed (with_points db (map g db.points))
    moved-IsWellFormed = record {
      ids = λ p q i j e.
          let a = of_In-map g db.points p i in
          let b = of_In-map g db.points q j in
          sym a.image
          ∙ ap g (
              v.ids a.origin b.origin a.is_in b.is_in (
                sym (id_kept a.origin)
                ∙ ap (λ (x : Point). x.id) a.image
                ∙ e
                ∙ sym (ap (λ (x : Point). x.id) b.image)
                ∙ id_kept b.origin))
          ∙ b.image;
      fresh = λ p i.
          let a = of_In-map g db.points p i in
          omega
            (arith, v.fresh a.origin a.is_in, id_kept a.origin, ap (λ (x : Point). x.id) a.image);
      keys = λ p q i j e.
          let a = of_In-map g db.points p i in
          let b = of_In-map g db.points q j in
          sym a.image
          ∙ ap g (
              v.keys a.origin b.origin a.is_in b.is_in (
                sym (same_key-moved a.origin b.origin)
                ∙ subst (λ x. same_key x (g b.origin) ≡ true) (sym a.image)
                    (subst (λ x. same_key p x ≡ true) (sym b.image) e)))
          ∙ b.image;
      whole = λ p i.
          let a = of_In-map g db.points p i in
          subst (λ (x : Point). unix_time x.timestamp ≡ x.timestamp) a.image
            (subst (λ t. unix_time t ≡ t) (sym (time a.origin)) (v.whole a.origin a.is_in));
      known = λ p i.
          let a = of_In-map g db.points p i in
          known-with_points db (map g db.points) p.user_id
          ∙ subst (λ (x : Point). known_user db x.user_id ≡ true) a.image
              (subst (λ u. known_user db u ≡ true) (sym (owner a.origin))
                (v.known a.origin a.is_in));
    }

  pub update-Changed :
      (user id now latitude longitude : ℕ) (p : Point)
      → find (owned user id) db.points ≡ some p
      → Changed
          (record { user_id = user; timestamp = p.timestamp } ∷ [])
          db
          (with_points db (map (update_row user id (move_to now latitude longitude)) db.points))
  update-Changed user id now latitude longitude p h = record {
    touches = moved_Touches db.points g owner time reported reports;
    rest = refl;
    well_formed = moved-IsWellFormed g id_kept owner time;
    known =
        known-Reports (record { user_id = user; timestamp = p.timestamp } ∷ []) (map g db.points)
          reports;
  }
    where
      g : Point → Point
      g = update_row user id (move_to now latitude longitude)

      id_kept : (r : Point) → (g r).id ≡ r.id
      id_kept r = ground arith

      owner : (r : Point) → (g r).user_id ≡ r.user_id
      owner r = ground arith

      time : (r : Point) → (g r).timestamp ≡ r.timestamp
      time r = ground arith

      found : In p db.points × (owned user id p ≡ true)
      found = In-find (owned user id) db.points p h

      reports : Reports (record { user_id = user; timestamp = p.timestamp } ∷ []) db.points
      reports =
          in_cons (RowOf db.points) _ []
            (row-RowOf p user found.0 (owned_parts user id p found.1).1) (λ y n. elim n [ ])

      same_row : (r : Point) → In r db.points → owned user id r ≡ true → p ≡ r
      same_row r j e =
          v.ids p r found.0 j ((owned_parts user id p found.1).0 ∙ sym (owned_parts user id r e).0)

      reported :
          (r : Point)
          → In r db.points
          → (g r ≡ r) ⊎ (hits (record { user_id = user; timestamp = p.timestamp } ∷ []) r ≡ true)
      reported r j = elim (Bool-cases (owned user id r)) [
        | inl e ↦ inr (
            subst
              (λ (x : Point).
                hits (record { user_id = user; timestamp = p.timestamp } ∷ []) x ≡ true)
              (same_row r j e)
              (ground (arith, row-hits p user found.0 (owned_parts user id p found.1).1)))
        | inr e ↦ inl (rw e)
      ]
