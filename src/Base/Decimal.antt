-- ===== src/Base/Decimal.antt =====
-- A decimal text in front of a text that does not go on with a digit is read back, so it is determined.
use Prim.Native.Nat.{ℕ, zero, suc, ◌+◌, ◌-◌, ◌*◌, ◌/◌, ◌%◌, ◌<◌}
use mathlib.Core.Path.{◌≡◌, refl, ap, ◌∙◌}
use mathlib.Core.Logic.{inl, inr}
use mathlib.Core.List.{List, [], ◌∷◌, ◌++◌}
use mathlib.Core.Bool.{Bool, false, ◌||◌, not}
use native.Mathlib.Omega.{arith}
use order_processing_system.Base.Tests.{ltb, if◌then◌else◌, Bool-cases}
use order_processing_system.Base.Text.{digits, itoa}

abbrev pub is_digit : ℕ → Bool
is_digit c = not (ltb c b'0' || ltb b'9' c)

-- The digits at the front, behind the number `acc`, and what follows them.
unfoldable pub read : List ℕ → ℕ → ℕ × List ℕ
read [] acc = (acc, [])
read (c ∷ s) acc =
    let more = read s (acc * 10 + (c - b'0')) in if is_digit c then more else (acc, c ∷ s)

digits-append : (fuel n : ℕ) (xs ys : List ℕ) → digits fuel n xs ++ ys ≡ digits fuel n (xs ++ ys)
unfolding digits
digits-append zero n xs ys = refl
digits-append (suc fuel) n xs ys =
    let rest = digits-append fuel (n / 10) ((b'0' + n % 10) ∷ xs) ys in ground (arith, rest)

read-digit : (d acc : ℕ) (s : List ℕ) → d < 10 → read ((b'0' + d) ∷ s) acc ≡ read s (acc * 10 + d)
unfolding read
read-digit d acc s h =
    let same : acc * 10 + (b'0' + d - b'0') ≡ acc * 10 + d = omega arith in
    ground (arith, h, ap (read s) same)

read-digits : (fuel n : ℕ) (rest : List ℕ) → n < fuel → read (digits fuel n rest) 0 ≡ read rest n
unfolding digits
read-digits zero n rest h = absurd (omega (arith, h))
read-digits (suc fuel) n rest h = elim (Bool-cases (ltb n 10)) [
  | inl small ↦
      let whole : 0 * 10 + n % 10 ≡ n = ground (arith, small) in
      rw small (read-digit (n % 10) 0 rest (omega arith) ∙ ap (read rest) whole)
  | inr large ↦
      let whole : n / 10 * 10 + n % 10 ≡ n = omega arith in
      let left : n / 10 < fuel = ground (arith, large, h) in
      rw large (
        read-digits fuel (n / 10) ((b'0' + n % 10) ∷ rest) left
        ∙ read-digit (n % 10) (n / 10) rest (omega arith)
        ∙ ap (read rest) whole)
]

pub read-itoa : (n : ℕ) (rest : List ℕ) → read (itoa n ++ rest) 0 ≡ read rest n
unfolding itoa
read-itoa n rest =
    ap (λ s. read s 0) (digits-append (suc n) n [] rest) ∙ read-digits (suc n) n rest (omega arith)

pub read-stop : (c acc : ℕ) (s : List ℕ) → is_digit c ≡ false → read (c ∷ s) acc ≡ (acc, c ∷ s)
unfolding read
read-stop c acc s h = ground (arith, h)
