-- ===== src/Models.antt =====
-- internal/models: the rows of the database, and internal/apperrors: the errors of the domain.
-- Ids, quantities and times are natural numbers: identity columns start at 1, a quantity is checked
-- positive before it reaches the services, and a time counts nanoseconds. A `float64` is its IEEE
-- bit pattern, so that its arithmetic can be a parameter. A string is its list of code points.
use order_processing_system.Base.{
  ◌≡◌, refl, ◌⊎◌, inl, inr, ℕ, Option, List, [], ◌∷◌, Bool, true, false, ◌==◌, ◌&&◌, ◌||◌, arith,
  codes,
}

abbrev pub Text : Type 0
Text = List ℕ

-- string equality
abbrev pub text_eq : Text → Text → Bool
text_eq [] [] = true
text_eq [] (d ∷ t) = false
text_eq (c ∷ s) [] = false
text_eq (c ∷ s) (d ∷ t) = c == d && text_eq s t

pub text_eq_refl : (s : Text) → text_eq s s ≡ true
text_eq_refl [] = refl
text_eq_refl (c ∷ s) = ground (arith, text_eq_refl s)

pub text_eq_sound : (s t : Text) → text_eq s t ≡ true → s ≡ t
text_eq_sound [] [] h = refl
text_eq_sound [] (d ∷ t) h = cc
text_eq_sound (c ∷ s) [] h = cc
text_eq_sound (c ∷ s) (d ∷ t) h = ground (arith, text_eq_sound s t)

abbrev pub Float64 : Type 0
Float64 = ℕ

abbrev pub Time : Type 0
Time = ℕ

pub data OrderStatus : Type 0 where
  pending confirmed shipped delivered cancelled : OrderStatus

pub data PaymentStatus : Type 0 where
  pending paid failed refunded : PaymentStatus

pub data NotificationStatus : Type 0 where
  pending sent failed : NotificationStatus

abbrev pub customer : Text
customer = codes "customer"

abbrev pub admin : Text
admin = codes "admin"

-- A role is its text; user_role of the database has these two.
abbrev pub is_role : Text → Bool
is_role role = text_eq role customer || text_eq role admin

pub record User : Type 0 where
  pub id : ℕ
  pub name : Text
  pub email : Text
  pub password : Text
  pub role : Text
  pub created_at : Time
  pub updated_at : Time

pub record Inventory : Type 0 where
  pub id : ℕ
  pub product_id : ℕ
  pub quantity : ℕ
  pub updated_at : Time

pub record Product : Type 0 where
  pub id : ℕ
  pub name : Text
  pub image : Option Text
  pub description : Option Text
  pub price : Float64
  pub inventory : Option Inventory
  pub created_at : Time
  pub updated_at : Time

pub record OrderItem : Type 0 where
  pub id : ℕ
  pub order_id : ℕ
  pub product_id : ℕ
  pub quantity : ℕ
  pub price_at_purchase : Float64

pub record Order : Type 0 where
  pub id : ℕ
  pub user_id : ℕ
  pub status : OrderStatus
  pub total_price : Float64
  pub items : List OrderItem
  pub created_at : Time
  pub updated_at : Time

pub record Payment : Type 0 where
  pub id : ℕ
  pub order_id : ℕ
  pub idempotency_key : Text
  pub status : PaymentStatus
  pub amount : Float64
  pub provider_txn_id : Option Text
  pub created_at : Time
  pub updated_at : Time

pub record Notification : Type 0 where
  pub id : ℕ
  pub order_id : ℕ
  pub message : Text
  pub status : NotificationStatus
  pub created_at : Time
  pub sent_at : Option Time

-- The sentinels of apperrors and gorm, and `driver code` for whatever else a call may fail with.
pub data Error : Type 0 where
  user_not_found order_not_found duplicate_order duplicate_line_item invalid_credentials : Error
  no_pending_payment : Error
  product_not_found : ℕ → Error
  insufficient_stock : ℕ → Error
  record_not_found foreign_key_violated duplicated_key check_violated empty_slice : Error
  -- a text that is no value of an enum's type, and an id that only the sequence may give
  invalid_value generated_id : Error
  driver : ℕ → Error
  -- the gateway's errors: its context ended, or a transient failure for an order
  deadline_exceeded : Error
  transient_failure : ℕ → Error

-- What a Go function of results (T, error) returns.
pub data Result {ℓ} (A : Type ℓ) : Type ℓ where
  ok : A → Result A
  err : Error → Result A

pub Result-cases {ℓ} :
    {A : Type ℓ} (r : Result A) → ((a : A) × (r ≡ ok a)) ⊎ ((e : Error) × (r ≡ err e))
Result-cases (ok a) = inl (a, refl)
Result-cases (err e) = inr (e, refl)
