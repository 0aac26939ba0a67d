-- ===== src/Auth.antt =====
-- internal/auth/token.go: the token manager over the JWT library, which is a parameter. A token carries
-- seconds; times elsewhere are nanoseconds.
use order_processing_system.Base.{
  ℕ, suc, ◌+◌, ◌-◌, ◌*◌, ◌/◌, ◌<◌, ◌≡◌, Bool, true, false, All, itoa, ◌≢◌, [], refl, inl, inr,
  arith,
}
use order_processing_system.Base.Int.{ℤ, pos, negsuc}
use order_processing_system.Models.{Text, Time, Error, Result, ok, err, driver, Result-cases}

pub record Claims : Type 0 where
  pub user_id : ℕ
  pub role : Text
  pub subject : Text
  pub issued_at : ℕ
  pub expires_at : ℕ

pub record TokenManager : Type 0 where
  pub generate : Time → ℕ → Text → Result (Text × Time)
  pub parse : Time → Text → Result Claims

abbrev pub second : ℕ
second = 1000000000

-- jwt.NewNumericDate keeps whole seconds.
abbrev pub numeric_date : Time → ℕ
numeric_date t = t / second

-- time.Add
abbrev pub add_time : Time → ℤ → Time
add_time t (pos d) = t + d
add_time t (negsuc d) = t - suc d

-- No character of a token is a space or a control character.
abbrev pub IsVisible : ℕ → Type 0
IsVisible c = (32 < c) × (c < 127)

-- golang-jwt/v5 with HS256. A parse asks the key function, which is told whether the token's method is an
-- HMAC. What is used of it: a token that was signed with the key that the key function gives is read back
-- while its expiry lies ahead, and a token is a text of base64url and dots, not empty.
pub record JwtLibrary : Type 0 where
  pub sign : Text → Claims → Result Text
  pub parse_with_claims : Time → Text → (Bool → Result Text) → Result Claims
  pub sign_parse :
      (secret token : Text) (claims : Claims) (now : Time) (key : Bool → Result Text)
      → sign secret claims ≡ ok token
      → key true ≡ ok secret
      → now < claims.expires_at * second
      → parse_with_claims now token key ≡ ok claims
  pub sign_visible :
      (secret token : Text) (claims : Claims)
      → sign secret claims ≡ ok token
      → (token ≢ []) × All IsVisible token

-- unexpected signing method
abbrev pub unexpected_method : Error
unexpected_method = driver 1

abbrev pub new_claims : Time → ℤ → ℕ → Text → Claims
new_claims now ttl user_id role = record {
  user_id = user_id;
  role = role;
  subject = itoa user_id;
  issued_at = numeric_date now;
  expires_at = numeric_date (add_time now ttl);
}

-- The key function of Parse: only an HMAC gets the secret.
abbrev pub key_for : Text → Bool → Result Text
key_for secret true = ok secret
key_for secret false = err unexpected_method

module _ (jwt : JwtLibrary) (secret : Text) (ttl : ℤ) where
  unfoldable pub generate : Time → ℕ → Text → Result (Text × Time)
  generate now user_id role = elim (jwt.sign secret (new_claims now ttl user_id role)) [
    | err e ↦ err e
    | ok token ↦ ok (token, add_time now ttl)
  ]

  unfoldable pub parse : Time → Text → Result Claims
  parse now token = jwt.parse_with_claims now token (key_for secret)

  unfoldable pub jwt_manager : TokenManager
  unfolding generate parse
  jwt_manager = record { generate = generate; parse = parse }

  pub generate-eq-ok :
      (now : Time) (user_id : ℕ) (role token : Text) (expires_at : Time)
      → generate now user_id role ≡ ok (token, expires_at)
      → (jwt.sign secret (new_claims now ttl user_id role) ≡ ok token)
        × (add_time now ttl ≡ expires_at)
  unfolding generate
  generate-eq-ok now user_id role token expires_at made =
      elim (Result-cases (jwt.sign secret (new_claims now ttl user_id role))) [
        | inl (t, signed) ↦ ground (arith, signed, made)
        | inr (x, failed) ↦ ground (arith, failed, made)
      ]

  -- Round trip.
  pub parse-generate :
      (now later : Time) (user_id : ℕ) (role token : Text) (expires_at : Time)
      → generate now user_id role ≡ ok (token, expires_at)
      → later < expires_at / second * second
      → parse later token ≡ ok (new_claims now ttl user_id role)
  unfolding parse
  parse-generate now later user_id role token expires_at made live =
      let (signed, ends) = generate-eq-ok now user_id role token expires_at made in
      jwt.sign_parse secret token (new_claims now ttl user_id role) later (key_for secret) signed
        refl (rw ends live)

  pub generate-IsVisible :
      (now : Time) (user_id : ℕ) (role token : Text) (expires_at : Time)
      → generate now user_id role ≡ ok (token, expires_at)
      → (token ≢ []) × All IsVisible token
  generate-IsVisible now user_id role token expires_at made =
      jwt.sign_visible secret token (new_claims now ttl user_id role)
        (generate-eq-ok now user_id role token expires_at made).0
