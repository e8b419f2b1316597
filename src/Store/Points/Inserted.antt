-- ===== src/Store/Points/Inserted.antt =====
-- internal/store/sqlite/points.go `Create`: the table after one INSERT.
use mathlib.Core.Bool.{false≢true}
use travelmap.Base.{
  ℕ, suc, ◌≤◌, ◌≡◌, refl, sym, ap, ◌∙◌, subst, true, false, ◌⊎◌, inl, inr, [], ◌∷◌, ◌++◌, any,
  arith,
}
use travelmap.Base.Members.{In, of_In_snoc, any_of_In}
use travelmap.Model.{Time, Point}
use travelmap.Store.{Db, unix_time, known_user}
use travelmap.Store.Times.{unix_time-unix_time}
use travelmap.Store.WellFormed.{PointsIsWellFormed}
use travelmap.Store.Points.{same_key, row_of}

same_key_sym : (p q : Point) → same_key p q ≡ true → same_key q p ≡ true
unfolding same_key
same_key_sym p q h = ground arith

abbrev pub with_row : Db → Point → Db
with_row db row = record db { points = db.points ++ row ∷ []; point_seq = suc db.point_seq }

known-with_row : (db : Db) (row : Point) (u : ℕ) → known_user (with_row db row) u ≡ known_user db u
unfolding known_user
known-with_row db row u = refl

module _ (now : Time) (p : Point) (db : Db) (v : PointsIsWellFormed db)
    (new : any (same_key (row_of (suc db.point_seq) now p)) db.points ≡ false)
    (known : known_user db p.user_id ≡ true) where
  abbrev row : Point
  row = row_of (suc db.point_seq) now p

  fresh_row : (q : Point) → In q db.points → q.id ≡ row.id → ⊥
  unfolding row_of
  fresh_row q i e = absurd (omega (arith, v.fresh q i))

  new_key : (q : Point) → In q db.points → same_key row q ≡ true → ⊥
  new_key q i e = false≢true (sym new ∙ any_of_In (same_key row) db.points q i e)

  ids_of :
      (q r : Point) → In q db.points ⊎ (row ≡ q) → In r db.points ⊎ (row ≡ r) → q.id ≡ r.id → q ≡ r
  ids_of q r (inl i) (inl j) e = v.ids q r i j e
  ids_of q r (inl i) (inr j) e = absurd (fresh_row q i (e ∙ sym (ap (λ (x : Point). x.id) j)))
  ids_of q r (inr i) (inl j) e = absurd (fresh_row r j (sym e ∙ sym (ap (λ (x : Point). x.id) i)))
  ids_of q r (inr i) (inr j) e = sym i ∙ j

  keys_of :
      (q r : Point)
      → In q db.points ⊎ (row ≡ q)
      → In r db.points ⊎ (row ≡ r)
      → same_key q r ≡ true
      → q ≡ r
  keys_of q r (inl i) (inl j) e = v.keys q r i j e
  keys_of q r (inl i) (inr j) e =
      absurd (new_key q i (same_key_sym q row (subst (λ x. same_key q x ≡ true) (sym j) e)))
  keys_of q r (inr i) (inl j) e = absurd (new_key r j (subst (λ x. same_key x r ≡ true) (sym i) e))
  keys_of q r (inr i) (inr j) e = sym i ∙ j

  fresh_of : (q : Point) → In q db.points ⊎ (row ≡ q) → q.id ≤ suc db.point_seq
  unfolding row_of
  fresh_of q (inl i) = omega (arith, v.fresh q i)
  fresh_of q (inr e) = omega (arith, ap (λ (x : Point). x.id) e)

  whole_of : (q : Point) → In q db.points ⊎ (row ≡ q) → unix_time q.timestamp ≡ q.timestamp
  unfolding row_of
  whole_of q (inl i) = v.whole q i
  whole_of q (inr e) =
      subst (λ (x : Point). unix_time x.timestamp ≡ x.timestamp) e (unix_time-unix_time p.timestamp)

  known_of : (q : Point) → In q db.points ⊎ (row ≡ q) → known_user db q.user_id ≡ true
  unfolding row_of
  known_of q (inl i) = v.known q i
  known_of q (inr e) = subst (λ (x : Point). known_user db x.user_id ≡ true) e known

  -- A row with a new key, of a known user, keeps the table well-formed.
  pub with_row-IsWellFormed : PointsIsWellFormed (with_row db row)
  with_row-IsWellFormed = record {
    ids = λ q r i j. ids_of q r (of_In_snoc db.points row q i) (of_In_snoc db.points row r j);
    fresh = λ q i. fresh_of q (of_In_snoc db.points row q i);
    keys = λ q r i j. keys_of q r (of_In_snoc db.points row q i) (of_In_snoc db.points row r j);
    whole = λ q i. whole_of q (of_In_snoc db.points row q i);
    known = λ q i. known-with_row db row q.user_id ∙ known_of q (of_In_snoc db.points row q i);
  }
