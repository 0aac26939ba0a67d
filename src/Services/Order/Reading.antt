-- ===== src/Services/Order/Reading.antt =====
-- The text that idempotencyKey of internal/services/order.go hashes determines the customer and the cart.
use mathlib.Core.List.{Permᴰ}
use mathlib.Core.List.Permᴰ as Permutation
use order_processing_system.Base.{
  ℕ, ◌≡◌, refl, sym, ap, ◌∙◌, List, [], ◌∷◌, ◌++◌, codes, itoa, arith, subst, leb, inl, inr,
  Bool-cases,
}
use order_processing_system.Base.Decimal.{read, read-itoa, read-stop}
use order_processing_system.Models.{Text}
use order_processing_system.Services.Order.{
  OrderItemRequest, lines_text, insert_request, sort_requests, idempotency_key,
}

-- Two numbers with the same text, in front of texts that are read no further.
same_number :
    (m n : ℕ) (s t : Text)
    → read s m ≡ (m, s)
    → read t n ≡ (n, t)
    → itoa m ++ s ≡ itoa n ++ t
    → (m ≡ n) × (s ≡ t)
same_number m n s t stop_s stop_t e =
    let whole : (m, s) ≡ (n, t) =
      sym stop_s ∙ sym (read-itoa m s) ∙ ap (λ u. read u 0) e ∙ read-itoa n t ∙ stop_t in
    (ap (λ (p : ℕ × Text). p.0) whole, ap (λ (p : ℕ × Text). p.1) whole)

read-lines :
    (items : List OrderItemRequest) (n : ℕ) → read (lines_text items) n ≡ (n, lines_text items)
unfolding read
read-lines [] n = refl
read-lines (item ∷ items) n = read-stop b'|' n _ refl

tail_of : Text → Text
tail_of [] = []
tail_of (c ∷ s) = s

same_tail : (c : ℕ) (s t : Text) → c ∷ s ≡ c ∷ t → s ≡ t
unfolding tail_of
same_tail c s t e = ap tail_of e

same_line :
    (x y : OrderItemRequest) (s t : Text)
    → read s x.quantity ≡ (x.quantity, s)
    → read t y.quantity ≡ (y.quantity, t)
    → itoa x.product_id ++ (codes ":" ++ (itoa x.quantity ++ s))
      ≡ itoa y.product_id ++ (codes ":" ++ (itoa y.quantity ++ t))
    → (x ≡ y) × (s ≡ t)
same_line x y s t stop_s stop_t e =
    let (product, after) =
      same_number x.product_id y.product_id _ _
        (read-stop b':' x.product_id (itoa x.quantity ++ s) refl)
        (read-stop b':' y.product_id (itoa y.quantity ++ t) refl) e in
    let (quantity, rest) =
      same_number x.quantity y.quantity s t stop_s stop_t (same_tail b':' _ _ after) in
    (ground (arith, product, quantity), rest)

lines_text-determines : (xs ys : List OrderItemRequest) → lines_text xs ≡ lines_text ys → xs ≡ ys
lines_text-determines [] [] e = refl
lines_text-determines [] (y ∷ ys) e = absurd cc
lines_text-determines (x ∷ xs) [] e = absurd cc
lines_text-determines (x ∷ xs) (y ∷ ys) e =
    let (line, rest) =
      same_line x y (lines_text xs) (lines_text ys) (read-lines xs x.quantity)
        (read-lines ys y.quantity) (same_tail b'|' _ _ e) in
    let more = lines_text-determines xs ys rest in ground (arith, line, more)

insert_request-Perm :
    (x : OrderItemRequest) (ys : List OrderItemRequest) → Permᴰ (insert_request x ys) (x ∷ ys)
unfolding insert_request
insert_request-Perm x [] = Permutation.refl (x ∷ [])
insert_request-Perm x (y ∷ ys) = elim (Bool-cases (leb x.product_id y.product_id)) [
  | inl front ↦ rw front (Permutation.refl (x ∷ y ∷ ys))
  | inr later ↦
      rw later (Permᴰ.trans (Permᴰ.cons refl (insert_request-Perm x ys)) (Permᴰ.swap refl refl))
]

sort_requests-itself : (xs : List OrderItemRequest) → Permᴰ (sort_requests xs) xs
unfolding sort_requests
sort_requests-itself [] = Permᴰ.nil
sort_requests-itself (x ∷ xs) =
    Permᴰ.trans (insert_request-Perm x (sort_requests xs))
      (Permᴰ.cons refl (sort_requests-itself xs))

sort_requests-same :
    (xs ys : List OrderItemRequest) → sort_requests xs ≡ sort_requests ys → Permᴰ xs ys
sort_requests-same xs ys e =
    Permᴰ.trans (Permutation.symm (sort_requests-itself xs))
      (subst (λ zs. Permᴰ zs ys) (sym e) (sort_requests-itself ys))

-- What is hashed.
abbrev pub key_text : ℕ → List OrderItemRequest → Text
key_text user items = codes "u:" ++ (itoa user ++ lines_text (sort_requests items))

-- Where the hash does not collide on the texts of two carts, equal idempotency keys come from the
-- same customer and from carts with the same lines in some order: the hashed text can be read back.
pub idempotency_key-determines :
    (hash : Text → Text) (user other : ℕ) (items items' : List OrderItemRequest)
    → (hash (key_text user items) ≡ hash (key_text other items')
        → key_text user items ≡ key_text other items')
    → idempotency_key hash user items ≡ idempotency_key hash other items'
    → (user ≡ other) × Permᴰ items items'
unfolding idempotency_key
idempotency_key-determines hash user other items items' no_collision e =
    let text = no_collision e in
    let (who, lines) =
      same_number user other _ _ (read-lines (sort_requests items) user)
        (read-lines (sort_requests items') other) (same_tail b':' _ _ (same_tail b'u' _ _ text)) in
    (
      who,
      sort_requests-same items items'
          (lines_text-determines (sort_requests items) (sort_requests items') lines),
    )
