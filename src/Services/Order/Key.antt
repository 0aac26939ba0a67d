-- ===== src/Services/Order/Key.antt =====
-- The idempotency key of internal/services/order.go: it does not depend on the order of the lines, so
-- a cart that is sent again is refused while the store holds its key.
use mathlib.Core.List.{Permᴰ}
use order_processing_system.Base.{
  ℕ, ◌≡◌, ◌≢◌, refl, sym, ap, ◌∙◌, true, false, List, [], ◌∷◌, arith, All, subst,
}
use order_processing_system.Models.{Text, Result, ok, err, duplicate_order}
use order_processing_system.Database.{Engine}
use order_processing_system.Idempotency.{Store, Exclusive}
use order_processing_system.Services.Order.{
  OrderItemRequest, OrderResponse, OrderProcessor, Arithmetic, World, idempotency_ttl, is_seen,
  has_duplicate, insert_request, sort_requests, idempotency_key, reserved, create_order,
}
use order_processing_system.Services.Order.Place.{Refused}
use order_processing_system.Services.Order.Outcome.{OrderOutcome, create_order-outcome}
use order_processing_system.Repository.Order.Ledger.{Consistent}

-- Lines that name different products.
abbrev Others : OrderItemRequest → List OrderItemRequest → Type 0
Others x = All (λ y. y.product_id ≢ x.product_id)

abbrev pub DistinctLines : List OrderItemRequest → Type 0
DistinctLines [] = Unit {0}
DistinctLines (x ∷ xs) = Others x xs × DistinctLines xs

insert_request_comm :
    (x y : OrderItemRequest) (xs : List OrderItemRequest)
    → y.product_id ≢ x.product_id
    → insert_request x (insert_request y xs) ≡ insert_request y (insert_request x xs)
unfolding insert_request
insert_request_comm x y [] h = ground arith
insert_request_comm x y (z ∷ zs) h = ground (arith, insert_request_comm x y zs)

All-Perm {κ} :
    (P : OrderItemRequest → Type κ) {xs ys : List OrderItemRequest}
    → Permᴰ xs ys
    → All P xs
    → All P ys
All-Perm P Permᴰ.nil h = h
All-Perm P (Permᴰ.cons e p) h = (rw (← e) h.0, All-Perm P p h.1)
All-Perm P (Permᴰ.swap e e') h = (rw (← e') h.1.0, (rw (← e) h.0, h.1.1))
All-Perm P (Permᴰ.trans p q) h = All-Perm P q (All-Perm P p h)

DistinctLines-Perm :
    {xs ys : List OrderItemRequest} → Permᴰ xs ys → DistinctLines xs → DistinctLines ys
DistinctLines-Perm Permᴰ.nil d = d
DistinctLines-Perm (Permᴰ.cons {l₁ = l₁} {l₂ = l₂} e p) d =
    (rw (← e) (All-Perm _ p d.0), DistinctLines-Perm p d.1)
DistinctLines-Perm (Permᴰ.swap {l = l} e e') d =
    let apart = rw (e, e') at d.0.0 in
    (
      (λ h. apart (sym h), subst (λ x. Others x l) e' d.1.0),
      (subst (λ x. Others x l) e d.0.1, d.1.1),
    )
DistinctLines-Perm (Permᴰ.trans p q) d = DistinctLines-Perm q (DistinctLines-Perm p d)

sort_requests-Perm :
    {xs ys : List OrderItemRequest}
    → Permᴰ xs ys
    → DistinctLines xs
    → sort_requests xs ≡ sort_requests ys
unfolding sort_requests
sort_requests-Perm Permᴰ.nil d = refl
sort_requests-Perm (Permᴰ.cons e p) d = rw (e, sort_requests-Perm p d.1) refl
sort_requests-Perm (Permᴰ.swap {a = a} {b = b} {l = l} e e') d =
    rw (← e, ← e') (insert_request_comm a b (sort_requests l) d.0.0)
sort_requests-Perm (Permᴰ.trans p q) d =
    sort_requests-Perm p d ∙ sort_requests-Perm q (DistinctLines-Perm p d)

is_seen-Others :
    (seen : List ℕ) (x : ℕ) (items : List OrderItemRequest)
    → All (λ i. is_seen i.product_id (x ∷ seen) ≡ false) items
    → All (λ i. i.product_id ≢ x) items
is_seen-Others seen x [] h = tt
is_seen-Others seen x (i ∷ is) h = (ground arith, is_seen-Others seen x is h.1)

is_seen-later :
    (seen : List ℕ) (x : ℕ) (items : List OrderItemRequest)
    → All (λ i. is_seen i.product_id (x ∷ seen) ≡ false) items
    → All (λ i. is_seen i.product_id seen ≡ false) items
is_seen-later seen x [] h = tt
is_seen-later seen x (i ∷ is) h = (ground arith, is_seen-later seen x is h.1)

has_duplicate-distinct :
    (seen : List ℕ) (items : List OrderItemRequest)
    → has_duplicate seen items ≡ false
    → All (λ i. is_seen i.product_id seen ≡ false) items × DistinctLines items
has_duplicate-distinct seen [] h = (tt, tt)
has_duplicate-distinct seen (x ∷ xs) h =
    let (unseen, d) = has_duplicate-distinct (x.product_id ∷ seen) xs (ground arith) in
    (
      (ground arith, is_seen-later seen x.product_id xs unseen),
      (is_seen-Others seen x.product_id xs unseen, d),
    )

is_seen-more :
    (seen : List ℕ) (x : ℕ) (items : List OrderItemRequest)
    → All (λ i. is_seen i.product_id seen ≡ false) items
    → All (λ i. i.product_id ≢ x) items
    → All (λ i. is_seen i.product_id (x ∷ seen) ≡ false) items
is_seen-more seen x [] h n = tt
is_seen-more seen x (i ∷ is) h n = (ground arith, is_seen-more seen x is h.1 n.1)

distinct-has_duplicate :
    (seen : List ℕ) (items : List OrderItemRequest)
    → All (λ i. is_seen i.product_id seen ≡ false) items
    → DistinctLines items
    → has_duplicate seen items ≡ false
distinct-has_duplicate seen [] h d = refl
distinct-has_duplicate seen (x ∷ xs) h d =
    let rest =
      distinct-has_duplicate (x.product_id ∷ seen) xs (is_seen-more seen x.product_id xs h.1 d.0)
        d.1 in
    ground (arith, rest)

-- The idempotency key of a cart without a repeated product does not depend on the order of its
-- lines.
pub idempotency_key-Perm :
    (hash : Text → Text) (user_id : ℕ) {items items' : List OrderItemRequest}
    → Permᴰ items items'
    → has_duplicate [] items ≡ false
    → idempotency_key hash user_id items' ≡ idempotency_key hash user_id items
unfolding idempotency_key
idempotency_key-Perm hash user_id {items} p once =
    rw (sort_requests-Perm p (has_duplicate-distinct [] items once).1) refl

has_duplicate-Perm :
    {items items' : List OrderItemRequest}
    → Permᴰ items items'
    → has_duplicate [] items ≡ false
    → has_duplicate [] items' ≡ false
has_duplicate-Perm {items} {items'} p once =
    let (unseen, d) = has_duplicate-distinct [] items once in
    distinct-has_duplicate [] items' (All-Perm _ p unseen) (DistinctLines-Perm p d)

module _ {S Q : Type 0} (engine : Engine) (store : Store S) (contract : Exclusive store)
    (processor : OrderProcessor Q) (hash : Text → Text) (float : Arithmetic) where
  held_key-Refused :
      (uuid : Text) (user_id : ℕ) (items : List OrderItemRequest) (w : World S Q)
      → has_duplicate [] items ≡ false
      → contract.held w.store (idempotency_key hash user_id items) ≡ true
      → let p = create_order engine store processor hash float uuid user_id items w in
        (p.0 ≡ err duplicate_order) × Refused processor w p.1
  unfolding create_order reserved
  held_key-Refused uuid user_id items w once held =
      rw (once, contract.excludes (idempotency_key hash user_id items) idempotency_ttl w.store held)
        (refl, (refl, refl))

  accepted-store :
      (user_id : ℕ) (items : List OrderItemRequest) (w : World S Q)
      (p : Result OrderResponse × World S Q) (resp : OrderResponse)
      → OrderOutcome engine store processor hash float user_id items w p
      → p.0 ≡ ok resp
      → (has_duplicate [] items ≡ false)
        × (p.1.store
            ≡ (store.reserve (idempotency_key hash user_id items) idempotency_ttl w.store).1)
  accepted-store user_id items w (ok r, w') resp (accepted, once, free, s) e = (once, s)
  accepted-store user_id items w (err x, w') resp o e = cc

  -- With an exclusive store, a cart that was accepted with its key claimed on consistent tables is
  -- refused as a duplicate when it is sent again at once, its lines in any order, and changes
  -- neither the tables nor the queue.
  pub resubmit-Refused :
      (uuid uuid' : Text) (user_id : ℕ) (items items' : List OrderItemRequest)
      (resp : OrderResponse) (w : World S Q)
      → Consistent w.db.tables w.db.seq
      → Permᴰ items items'
      → let first = create_order engine store processor hash float uuid user_id items w in
        first.0 ≡ ok resp
        → (store.reserve (idempotency_key hash user_id items) idempotency_ttl w.store).0 ≡ ok true
        → let again = create_order engine store processor hash float uuid' user_id items' first.1 in
          (again.0 ≡ err duplicate_order) × Refused processor first.1 again.1
  resubmit-Refused uuid uuid' user_id items items' resp w c p done claimed =
      let first = create_order engine store processor hash float uuid user_id items w in
      let key = idempotency_key hash user_id items in
      let (once, s) =
        accepted-store user_id items w first resp
          (create_order-outcome engine store processor hash float uuid user_id items w c) done in
      let held : contract.held first.1.store key ≡ true =
        ap (λ t. contract.held t key) s ∙ contract.claims key idempotency_ttl w.store claimed in
      held_key-Refused uuid' user_id items' first.1 (has_duplicate-Perm p once)
        (ap (contract.held first.1.store) (idempotency_key-Perm hash user_id p once) ∙ held)
