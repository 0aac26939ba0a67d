-- ===== src/Api/Middleware/Bearer.antt =====
-- The header that a client makes of its token, at `bearer` of internal/api/middleware/auth.go, and the token of
-- a login at Authenticate.
use mathlib.Core.List.{reverse, reverse_aux, reverse-reverse}
use order_processing_system.Base.{
  ℕ, ◌≡◌, ◌≢◌, refl, ap, ◌∙◌, inr, false, some, [], ◌∷◌, ◌++◌, All, arith, codes,
}
use order_processing_system.Models.{Text, Time, text_eq, ok}
use order_processing_system.Auth.{Claims, TokenManager, IsVisible}
use order_processing_system.Api.Middleware.{
  is_space, trim_left, trim_space, cut_space, bearer, authenticate,
}

visible_not_space : (c : ℕ) → IsVisible c → is_space c ≡ false
visible_not_space c v = ground (arith, v)

visible-trim_left : (s : Text) → All IsVisible s → trim_left s ≡ s
visible-trim_left [] v = refl
visible-trim_left (c ∷ s) v = rw (visible_not_space c v.0) refl

All-reverse_aux : (s t : Text) → All IsVisible s → All IsVisible t → All IsVisible (reverse_aux s t)
All-reverse_aux [] t hs ht = ht
All-reverse_aux (c ∷ s) t hs ht = All-reverse_aux s (c ∷ t) hs.1 (hs.0, ht)

visible-trim_space : (s : Text) → All IsVisible s → trim_space s ≡ s
visible-trim_space s v =
    ap (λ t. reverse (trim_left (reverse t))) (visible-trim_left s v)
    ∙ ap reverse (visible-trim_left (reverse s) (All-reverse_aux s [] v tt))
    ∙ reverse-reverse s

-- The header of a token.
abbrev pub bearer_header : Text → Text
bearer_header token = codes "Bearer " ++ token

bearer_header-cut : (token : Text) → cut_space (bearer_header token) ≡ some (codes "Bearer", token)
bearer_header-cut token = refl

not_empty : (s : Text) → s ≢ [] → text_eq s [] ≡ false
not_empty [] h = absurd (h refl)
not_empty (c ∷ s) h = refl

pub bearer-header :
    (token : Text) → token ≢ [] → All IsVisible token → bearer (bearer_header token) ≡ inr token
unfolding bearer
bearer-header token some_token v =
    let same = visible-trim_space token v in
    let there = not_empty token some_token in rw (same, there) refl

pub authenticate-header :
    (tokens : TokenManager) (now : Time) (token : Text) (claims : Claims)
    → token ≢ []
    → All IsVisible token
    → tokens.parse now token ≡ ok claims
    → authenticate tokens now (bearer_header token) ≡ inr claims
unfolding authenticate
authenticate-header tokens now token claims some_token v parsed =
    let read = bearer-header token some_token v in ground (arith, read, parsed)
