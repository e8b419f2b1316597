-- ===== src/Geo.antt =====
-- internal/geo/geo.go: the great-circle distance, over the floating-point operations of Go and of
-- SQLite, which are a parameter.
use travelmap.Base.{ℕ, List}
use travelmap.Model.{Float64}

-- `lit` is a numeral of the source; `radians`, `power` and `sum` are SQLite's functions, the others
-- are IEEE 754 arithmetic and those of Go's `math`.
pub record FloatOps : Type 0 where
  pub lit : ℕ → Float64
  pub pi : Float64
  pub earth_radius_km : Float64
  pub add : Float64 → Float64 → Float64
  pub sub : Float64 → Float64 → Float64
  pub mul : Float64 → Float64 → Float64
  pub div : Float64 → Float64 → Float64
  pub sin : Float64 → Float64
  pub cos : Float64 → Float64
  pub sqrt : Float64 → Float64
  pub atan2 : Float64 → Float64 → Float64
  pub radians : Float64 → Float64
  pub power : Float64 → Float64 → Float64
  pub sum : List Float64 → Float64

unfoldable pub rad : FloatOps → Float64 → Float64
rad ops deg = ops.div (ops.mul deg ops.pi) (ops.lit 180)

unfoldable pub haversine : FloatOps → Float64 → Float64 → Float64 → Float64 → Float64
unfolding rad
haversine ops lat1 lon1 lat2 lon2 =
    let d_lat = rad ops (ops.sub lat2 lat1) in
    let d_lon = rad ops (ops.sub lon2 lon1) in
    let a =
      ops.add (ops.mul (ops.sin (ops.div d_lat (ops.lit 2))) (ops.sin (ops.div d_lat (ops.lit 2))))
        (ops.mul
          (ops.mul (ops.mul (ops.cos (rad ops lat1)) (ops.cos (rad ops lat2)))
            (ops.sin (ops.div d_lon (ops.lit 2))))
          (ops.sin (ops.div d_lon (ops.lit 2)))) in
    ops.mul (ops.mul ops.earth_radius_km (ops.lit 2))
      (ops.atan2 (ops.sqrt a) (ops.sqrt (ops.sub (ops.lit 1) a)))
