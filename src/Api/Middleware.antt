-- ===== src/Api/Middleware.antt =====
-- internal/api/middleware/auth.go. The principal that the middleware stores is what it hands to the
-- handler behind it. A missing header is the empty text.
pub mod Bearer
use order_processing_system.Base.{
  ◌⊎◌, inl, inr, ℕ, ◌+◌, Bool, ◌||◌, ◌&&◌, not, Option, none, some, [], ◌∷◌, ◌==◌, leb,
  if◌then◌else◌, codes, map,
}
use mathlib.Core.List.{reverse}
use order_processing_system.Models.{Text, Time, text_eq, admin, ok, err}
use order_processing_system.Auth.{Claims, TokenManager}
use order_processing_system.Api.Http.{Response, respond, message}

-- unicode.IsSpace
abbrev pub is_space : ℕ → Bool
is_space c =
    leb 9 c && leb c 13
    || c == 32
    || c == 133
    || c == 160
    || c == 5760
    || leb 8192 c && leb c 8202
    || c == 8232
    || c == 8233
    || c == 8239
    || c == 8287
    || c == 12288

abbrev pub trim_left : Text → Text
trim_left [] = []
trim_left (c ∷ s) = let rest = trim_left s in if is_space c then rest else c ∷ s

-- strings.TrimSpace
abbrev pub trim_space : Text → Text
trim_space s = reverse (trim_left (reverse (trim_left s)))

-- strings.Cut at the first space
abbrev pub in_front : ℕ → Option (Text × Text) → Option (Text × Text)
in_front c none = none
in_front c (some (before, after)) = some (c ∷ before, after)

abbrev pub cut_space : Text → Option (Text × Text)
cut_space [] = none
cut_space (c ∷ s) = let rest = cut_space s in if c == 32 then some ([], s) else in_front c rest

abbrev pub lower : ℕ → ℕ
lower c = if leb b'A' c && leb c b'Z' then c + 32 else c

-- strings.EqualFold with a text of Latin letters none of which folds to another letter than its own case
abbrev pub equal_fold : Text → Text → Bool
equal_fold s t = text_eq (map lower s) (map lower t)

abbrev pub unauthorized : Text → Response
unauthorized text = respond 401 (message text)

-- The token of "Bearer <token>", or the text of the refusal.
unfoldable pub bearer : Text → Text ⊎ Text
bearer [] = inl (codes "authorization header required")
bearer (c ∷ s) = elim (cut_space (c ∷ s)) [
  | none ↦ inl (codes "invalid authorization header")
  | some (scheme, token) ↦
      if not (equal_fold scheme (codes "Bearer")) || text_eq (trim_space token) []
      then inl (codes "invalid authorization header")
      else inr (trim_space token)
]

-- Authenticate: the claims of the request, or the response that ends it.
unfoldable pub authenticate : TokenManager → Time → Text → Response ⊎ Claims
unfolding bearer
authenticate tokens now header = elim (bearer header) [
  | inl text ↦ inl (unauthorized text)
  | inr token ↦ elim (tokens.parse now token) [
    | err e ↦ inl (unauthorized (codes "invalid or expired token"))
    | ok claims ↦ inr claims
  ]
]

-- RequireRole, behind Authenticate
unfoldable pub require_role : Text → Claims → Response ⊎ Claims
require_role role claims =
    if text_eq claims.role role
    then inr claims
    else inl (respond 403 (message (codes "insufficient permissions")))

unfoldable pub require_admin : Claims → Response ⊎ Claims
unfolding require_role
require_admin = require_role admin

-- The chain of Authenticate and RequireAdmin.
unfoldable pub authenticate_admin : TokenManager → Time → Text → Response ⊎ Claims
unfolding authenticate require_admin
authenticate_admin tokens now header = elim (authenticate tokens now header) [
  | inl response ↦ inl response
  | inr claims ↦ require_admin claims
]
