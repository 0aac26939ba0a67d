-- ===== src/Services/Fulfillment/Backoff.antt =====
-- The delay between two charges, `backoff` of internal/services/fulfillment.go, in int64.
use order_processing_system.Base.{
  ℕ, zero, suc, ◌+◌, ◌-◌, ◌*◌, ◌/◌, ◌%◌, ◌^◌, ◌≤◌, ◌<◌, ◌≡◌, ◌||◌, if◌then◌else◌, leb, ltb, arith,
  inl, inr, Bool-cases,
}
use Prim.Native.Nat.{min}
use native.Mathlib.Nat.{pow-suc}
use order_processing_system.Base.Int.{ℤ, pos, negsuc, ltb_ℤ, leb_ℤ, shl64, half}
use order_processing_system.Config.{WorkerConfig}

-- d<=0 guards against shift overflow
abbrev cap_delay : ℤ → ℤ → ℤ
cap_delay max d = if leb_ℤ d (pos 0) || ltb_ℤ max d then max else d

-- BaseBackoff * 2^(attempt-1), capped at MaxBackoff
unfoldable pub capped : WorkerConfig → ℕ → ℤ
capped cfg attempt = cap_delay cfg.max_backoff (shl64 cfg.base_backoff (attempt - 1))

-- half + rand.Int63n(half+1), for a positive half; `random` is the generator's number, which
-- Int63n brings into its range.
abbrev jittered : ℕ → ℤ → ℤ
jittered random (pos h) = pos (h + random % (h + 1))
jittered random (negsuc h) = negsuc h

unfoldable pub backoff : WorkerConfig → ℕ → ℕ → ℤ
backoff cfg random attempt =
    let d = capped cfg attempt in if leb_ℤ (half d) (pos 0) then d else jittered random (half d)

cap_delay_range :
    (max d : ℤ) (m : ℕ)
    → max ≡ pos m
    → 0 < m
    → (n : ℕ) × (cap_delay max d ≡ pos n) × (0 < n) × (n ≤ m)
cap_delay_range max (negsuc n) m e h = (m, rw e (ground arith), h, omega arith)
cap_delay_range max (pos n) m e h = elim (Bool-cases (leb n 0 || ltb m n)) [
  | inl over ↦ (m, rw e (ground arith), h, omega arith)
  | inr within ↦ (n, rw e (ground arith), ground arith, ground arith)
]

-- The delay that is drawn for a capped value.
drawn : ℕ → ℕ → ℕ
drawn random n = if leb (n / 2) 0 then n else n / 2 + random % (n / 2 + 1)

drawn_bounds : (random n : ℕ) → (n / 2 ≤ drawn random n) × (drawn random n ≤ n)
unfolding drawn
drawn_bounds random n = elim (Bool-cases (leb (n / 2) 0)) [
  | inl zero_half ↦ rw zero_half (omega arith)
  | inr more ↦ let r : random % (n / 2 + 1) < n / 2 + 1 = grind arith in rw more (omega (arith, r))
]

backoff-drawn :
    (cfg : WorkerConfig) (random attempt n : ℕ)
    → capped cfg attempt ≡ pos n
    → backoff cfg random attempt ≡ pos (drawn random n)
unfolding backoff drawn
backoff-drawn cfg random attempt n e = rw e (ground arith)

-- With a positive cap, in int64 with its overflow, the capped delay d is between 1 and the cap and
-- the drawn delay lies in [d/2, d].
pub backoff_bounds :
    (cfg : WorkerConfig) (random attempt m : ℕ)
    → cfg.max_backoff ≡ pos m
    → 0 < m
    → (d r : ℕ) × (capped cfg attempt ≡ pos d)
      × (backoff cfg random attempt ≡ pos r)
      × (0 < d)
      × (d ≤ m)
      × (d / 2 ≤ r)
      × (r ≤ d)
unfolding capped
backoff_bounds cfg random attempt m e h =
    let (n, c, positive, within) =
      cap_delay_range cfg.max_backoff (shl64 cfg.base_backoff (attempt - 1)) m e h in
    let (low, high) = drawn_bounds random n in
    (n, drawn random n, c, backoff-drawn cfg random attempt n c, positive, within, low, high)

pow_pos : (k : ℕ) → 1 ≤ 2 ^ k
pow_pos zero = omega arith
pow_pos (suc k) = simp pow-suc (omega (arith, pow_pos k))

shl64_fits : (b k : ℕ) → b * 2 ^ k < 2 ^ 63 → shl64 (pos b) k ≡ pos (b * 2 ^ k)
shl64_fits b k fits =
    let small : b < 2 ^ 64 = grind (arith, pow_pos k) in
    let same : b % 2 ^ 64 ≡ b = omega arith in rw same (ground arith)

-- With a positive BaseBackoff, a MaxBackoff that is not negative and a shift that fits in int64,
-- the capped delay is the smaller of BaseBackoff * 2^(attempt-1) and MaxBackoff.
pub capped-eq-min :
    (cfg : WorkerConfig) (k b m : ℕ)
    → cfg.base_backoff ≡ pos b
    → cfg.max_backoff ≡ pos m
    → 0 < b
    → b * 2 ^ k < 2 ^ 63
    → capped cfg (suc k) ≡ pos (min (b * 2 ^ k) m)
unfolding capped
capped-eq-min cfg k b m eb em hb fits =
    let shift : suc k - 1 ≡ k = omega arith in
    let p : 0 < b * 2 ^ k = grind (arith, pow_pos k) in
    rw (shift, eb, em) (rw (shl64_fits b k fits) (ground arith))
