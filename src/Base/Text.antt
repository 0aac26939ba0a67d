-- ===== src/Base/Text.antt =====
-- Go strings as lists of code points: literals, strconv.Itoa of a natural number and strconv.Atoi.
use Prim.Native.Nat.{ℕ, zero, suc, ◌+◌, ◌-◌, ◌*◌, ◌/◌, ◌%◌, ◌^◌}
use Prim.Native.Char.{code}
use Prim.Native.String.{String}
use mathlib.Core.List.{List, [], ◌∷◌}
use order_processing_system.Base.Tests.{ltb, ◌==◌, if◌then◌else◌}
use order_processing_system.Base.Int.{ℤ, pos, negate}
use mathlib.Core.Bool.{◌||◌}
use mathlib.Core.Option.{Option, none, some}

-- The code points of a literal.
abbrev pub codes : String → List ℕ
codes String.[] = []
codes (String.◌∷◌ c s) = code c ∷ codes s

-- Decimal digits in front of `rest`; a number below the fuel never runs out of it.
unfoldable pub digits : ℕ → ℕ → List ℕ → List ℕ
digits zero n rest = rest
digits (suc fuel) n rest =
    let d = b'0' + n % 10 in
    let more = digits fuel (n / 10) (d ∷ rest) in if ltb n 10 then d ∷ rest else more

unfoldable pub itoa : ℕ → List ℕ
unfolding digits
itoa n = digits (suc n) n []

-- The number that decimal digits spell behind `n`.
unfoldable pub digits_value : List ℕ → ℕ → Option ℕ
digits_value [] n = some n
digits_value (c ∷ s) n =
    let rest = digits_value s (n * 10 + (c - b'0')) in
    if ltb c b'0' || ltb b'9' c then none else rest

-- One digit at least, and a value below the limit.
unfoldable pub bounded_value : ℕ → List ℕ → Option ℕ
unfolding digits_value
bounded_value limit [] = none
bounded_value limit (c ∷ s) = elim (digits_value (c ∷ s) 0) [
  | none ↦ none
  | some n ↦ if ltb n limit then some n else none
]

abbrev pub as_pos : Option ℕ → Option ℤ
as_pos none = none
as_pos (some n) = some (pos n)

abbrev pub as_neg : Option ℕ → Option ℤ
as_neg none = none
as_neg (some n) = some (negate n)

-- strconv.Atoi: a sign and digits, in the range of int64.
unfoldable pub atoi : List ℕ → Option ℤ
unfolding bounded_value
atoi [] = none
atoi (c ∷ s) =
    let positive = as_pos (bounded_value (2 ^ 63) (c ∷ s)) in
    if c == b'-'
    then as_neg (bounded_value (2 ^ 63 + 1) s)
    else if c == b'+'
    then as_pos (bounded_value (2 ^ 63) s)
    else positive
