-- ===== src/Ingest/Changes.antt =====
-- The three ways in which a statement changes the points: rows are added, removed, or rewritten in
-- place.
use mathlib.Core.Bool.{false≢true}
use mathlib.Core.List.{append-nil}
use mathlib.Core.Option
use travelmap.Base.{
  ℕ, ◌≤◌, ◌<◌, ◌≡◌, sym, ap, ◌∙◌, subst, Bool, true, false, ◌⊎◌, inl, inr, List, ◌++◌, map, some,
  ◌==◌, ◌&&◌, arith, any, filter, filter-append, filter-eq-nil, Bool-cases, Option-cases,
}
use travelmap.Base.Extremes.{
  last_by, last_by-IsLast, last_by-eq-none, last_by-append, last_by-filter, last_by-map,
}
use travelmap.Base.Members.{
  In, In-filter, of_In-filter, any-In, filter_comm, filter_kept, filter-map_kept, filter-map_inv,
  of_In-map,
}
use travelmap.Model.{Point}
use travelmap.Store.{unix_time}
use travelmap.Store.Points.{at_time}
use travelmap.Store.DailyStats.{before_day}
use travelmap.Ingest.{Touch}
use travelmap.Ingest.Touches.{hits, Nearest, same, hit, Touches}

-- A row at the owner and second of a report.
pub record RowOf (points : List Point) (t : Touch) : Type 0 where
  pub row : Point
  pub is_in : In row points
  pub owner : row.user_id ≡ t.user_id
  pub time : row.timestamp ≡ unix_time t.timestamp

-- Every report has its row.
abbrev pub Reports : List Touch → List Point → Type 0
Reports ts points = (t : Touch) → In t ts → RowOf points t

before_day_of : (u s : ℕ) (p : Point) → p.user_id ≡ u → p.timestamp < s → before_day u s p ≡ true
unfolding before_day
before_day_of u s p h k = ground arith

module _ (ts : List Touch) (u s : ℕ) where
  -- The last row before `s` bounds the reports before `s`.
  Reports-le :
      (points : List Point) (q : Point)
      → last_by at_time (filter (before_day u s) points) ≡ some q
      → Reports ts points
      → (t : Touch) → In t ts
      → t.user_id ≡ u
      → unix_time t.timestamp < s
      → unix_time t.timestamp ≤ q.timestamp
  Reports-le points q e reports t i h lt =
      let r = reports t i in
      subst (λ x. x ≤ q.timestamp) r.time
        ((last_by-IsLast at_time (filter (before_day u s) points) q e).latest r.row (
          In-filter (before_day u s) points r.row r.is_in
            (before_day_of u s r.row (r.owner ∙ h) (subst (λ x. x < s) (sym r.time) lt))))

  rows_le :
      (points : List Point) (q : Point)
      → last_by at_time (filter (before_day u s) points) ≡ some q
      → (r : Point) → In r points
      → before_day u s r ≡ true
      → r.timestamp ≤ q.timestamp
  rows_le points q e r i b =
      (last_by-IsLast at_time (filter (before_day u s) points) q e).latest r
        (In-filter (before_day u s) points r i b)

  last_before :
      (points : List Point) (q : Point)
      → last_by at_time (filter (before_day u s) points) ≡ some q
      → In q points × (before_day u s q ≡ true)
  last_before points q e =
      of_In-filter (before_day u s) points q
        (last_by-IsLast at_time (filter (before_day u s) points) q e).is_in

module _ {ts : List Touch} (points : List Point) where
  -- Rows are added.
  module _ (new : List Point) (reported : (r : Point) → In r new → hits ts r ≡ true)
      (reports : Reports ts (points ++ new)) where
    added_stays :
        (p : Point → Bool)
        → ((r : Point) → p r ≡ true → hits ts r ≡ false)
        → filter p (points ++ new) ≡ filter p points
    added_stays p h =
        filter-append p points new
        ∙ ap (λ x. filter p points ++ x) (filter-eq-nil p new none_of)
        ∙ append-nil (filter p points)
      where
        none_of : any p new ≡ false
        none_of = elim (Bool-cases (any p new)) [
          | inl e ↦
              let (r, i, t) = any-In p new e in absurd (false≢true (sym (h r t) ∙ reported r i))
          | inr e ↦ e
        ]

    added-Nearest : (u s : ℕ) → Nearest ts u s points (points ++ new)
    added-Nearest u s =
        elim (last_by-append at_time (filter (before_day u s) points)
          (filter (before_day u s) new)) [
            | inl e ↦ same (ap (last_by at_time) split ∙ e)
            | inr (q, i, e) ↦
                let f = ap (last_by at_time) split ∙ e in
                let (j, b) = of_In-filter (before_day u s) new q i in
                hit q (reported q j) b (rows_le ts u s (points ++ new) q f)
                  (Reports-le ts u s (points ++ new) q f reports)
          ]
      where
        split :
            filter (before_day u s) (points ++ new)
            ≡ filter (before_day u s) points ++ filter (before_day u s) new
        split = filter-append (before_day u s) points new

    pub added_Touches : Touches ts points (points ++ new)
    added_Touches = record { stays = added_stays; nearest = added-Nearest }

  -- Rows are removed.
  module _ (keep : Point → Bool)
      (reported : (r : Point) → In r points → keep r ≡ false → hits ts r ≡ true)
      (reports : Reports ts points) where
    removed_stays :
        (p : Point → Bool)
        → ((r : Point) → p r ≡ true → hits ts r ≡ false)
        → filter p (filter keep points) ≡ filter p points
    removed_stays p h = filter_kept p keep points λ r i t. elim (Bool-cases (keep r)) [
      | inl e ↦ e
      | inr e ↦ absurd (false≢true (sym (h r t) ∙ reported r i e))
    ]

    removed-Nearest : (u s : ℕ) → Nearest ts u s points (filter keep points)
    removed-Nearest u s = elim (Option-cases (last_by at_time (filter (before_day u s) points))) [
      | inl e ↦ same (
          rw (
            filter_comm (before_day u s) keep points,
            last_by-eq-none at_time (filter (before_day u s) points) e,
          ))
      | inr (q, e) ↦ elim (Bool-cases (keep q)) [
        | inl k ↦ same (
            ap (last_by at_time) (filter_comm (before_day u s) keep points)
            ∙ last_by-filter at_time keep (filter (before_day u s) points) q e k
            ∙ sym e)
        | inr k ↦
            let (j, b) = last_before ts u s points q e in
            hit q (reported q j k) b
              (λ r i. rows_le ts u s points q e r (of_In-filter keep points r i).0)
              (Reports-le ts u s points q e reports)
      ]
    ]

    pub removed_Touches : Touches ts points (filter keep points)
    removed_Touches = record { stays = removed_stays; nearest = removed-Nearest }

  -- Rows are rewritten by `g`, which keeps owners and times.
  module _ (g : Point → Point) (owner : (r : Point) → (g r).user_id ≡ r.user_id)
      (time : (r : Point) → (g r).timestamp ≡ r.timestamp)
      (reported : (r : Point) → In r points → (g r ≡ r) ⊎ (hits ts r ≡ true))
      (reports : Reports ts points) where
    hits_moved : (r : Point) → hits ts (g r) ≡ hits ts r
    hits_moved r =
        ap (λ (f : Touch → Bool). any f ts)
          (λ i t. t.user_id == owner r i && unix_time t.timestamp == time r i)

    moved_stays :
        (p : Point → Bool)
        → ((r : Point) → p r ≡ true → hits ts r ≡ false)
        → filter p (map g points) ≡ filter p points
    moved_stays p h = filter-map_kept p g points λ r i. elim (reported r i) [
      | inl e ↦ inl e
      | inr e ↦ inr (miss r e, miss (g r) (hits_moved r ∙ e))
    ]
      where
        miss : (r : Point) → hits ts r ≡ true → p r ≡ false
        miss r e = elim (Bool-cases (p r)) [
          | inl t ↦ absurd (false≢true (sym (h r t) ∙ e))
          | inr t ↦ t
        ]

    before_moved : (u s : ℕ) (r : Point) → before_day u s (g r) ≡ before_day u s r
    unfolding before_day
    before_moved u s r = rw (owner r, time r)

    moved_last :
        (u s : ℕ)
        → last_by at_time (filter (before_day u s) (map g points))
          ≡ Option.map g (last_by at_time (filter (before_day u s) points))
    moved_last u s =
        ap (last_by at_time) (filter-map_inv (before_day u s) g points (before_moved u s))
        ∙ last_by-map at_time g (filter (before_day u s) points) time

    moved-Nearest : (u s : ℕ) → Nearest ts u s points (map g points)
    moved-Nearest u s = elim (Option-cases (last_by at_time (filter (before_day u s) points))) [
      | inl e ↦ same (moved_last u s ∙ ap (Option.map g) e ∙ sym e)
      | inr (q, e) ↦
          let (j, b) = last_before ts u s points q e in
          elim (reported q j) [
            | inl k ↦ same (moved_last u s ∙ ap (Option.map g) e ∙ ap some k ∙ sym e)
            | inr k ↦ hit q k b (λ r i c. moved_le q e r i c) (Reports-le ts u s points q e reports)
          ]
    ]
      where
        moved_le :
            (q : Point)
            → last_by at_time (filter (before_day u s) points) ≡ some q
            → (r : Point) → In r (map g points)
            → before_day u s r ≡ true
            → r.timestamp ≤ q.timestamp
        moved_le q e r i c =
            let o = of_In-map g points r i in
            subst (λ (x : Point). x.timestamp ≤ q.timestamp) o.image
              (subst (λ x. x ≤ q.timestamp) (sym (time o.origin))
                (rows_le ts u s points q e o.origin o.is_in
                  (sym (before_moved u s o.origin) ∙ ap (before_day u s) o.image ∙ c)))

    pub moved_Touches : Touches ts points (map g points)
    moved_Touches = record { stays = moved_stays; nearest = moved-Nearest }
