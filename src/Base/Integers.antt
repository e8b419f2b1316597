-- ===== src/Base/Integers.antt =====
-- Signed integers over the native numbers, and strconv.ParseInt in base 10 for 64 bits.
use Prim.Native.Nat.{ℕ, suc, ◌+◌, ◌-◌, ◌*◌}
use Prim.Native.Char.{code}
use Prim.Native.String.{String, [], ◌∷◌}
use mathlib.Core.Bool.{◌&&◌}
use mathlib.Core.Option.{Option, none, some}
use travelmap.Base.Tests.{leb, ◌==◌, if◌then◌else◌}

-- `negsuc n` is -(n + 1).
pub data ℤ : Type 0 where
  pos negsuc : ℕ → ℤ

abbrev pub max_int : ℕ
max_int = 9_223_372_036_854_775_807

-- The digits of a text, after the number that was read so far.
unfoldable pub parse_digits : ℕ → String → Option ℕ
parse_digits n [] = some n
parse_digits n (c ∷ s) =
    let rest = parse_digits (n * 10 + (code c - 48)) s in
    if leb 48 (code c) && leb (code c) 57 then rest else none

-- At least one digit.
unfoldable pub parse_number : String → Option ℕ
unfolding parse_digits
parse_number [] = none
parse_number (c ∷ s) = parse_digits 0 (c ∷ s)

abbrev pub positive : Option ℕ → Option ℤ
positive none = none
positive (some n) = if leb n max_int then some (ℤ.pos n) else none

abbrev pub negative : Option ℕ → Option ℤ
negative none = none
negative (some n) =
    if n == 0 then some (ℤ.pos 0) else if leb n (suc max_int) then some (ℤ.negsuc (n - 1)) else none

-- strconv.ParseInt(s, 10, 64), and strconv.Atoi, whose int has 64 bits.
unfoldable pub parse_int : String → Option ℤ
unfolding parse_number
parse_int [] = none
parse_int (c ∷ s) =
    let unsigned = positive (parse_number (c ∷ s)) in
    if code c == 45
    then negative (parse_number s)
    else if code c == 43
    then positive (parse_number s)
    else unsigned

-- An int64 as its 64 bits: an id that is negative is greater than any that is given out.
abbrev pub bits : ℤ → ℕ
bits (ℤ.pos n) = n
bits (ℤ.negsuc n) = 18_446_744_073_709_551_615 - n
