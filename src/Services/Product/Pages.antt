-- ===== src/Services/Product/Pages.antt =====
-- The pages of ListProducts of internal/services/product.go cut the catalogue without gap or overlap.
use native.Mathlib.Nat.{suc-mul}
use order_processing_system.Base.{
  ℕ, zero, suc, ◌+◌, ◌-◌, ◌*◌, ◌^◌, ◌%◌, ◌≤◌, ◌<◌, ◌≡◌, refl, sym, ap, ◌∙◌, List, [], ◌∷◌, ◌++◌,
  map, take, drop, length, arith,
}
use order_processing_system.Base.Int.{pos, pos_part, of_bits64}
use order_processing_system.Models.{ok}
use order_processing_system.Database.{Db, Engine}
use order_processing_system.Repository.Product.{preload_inventory, list_products as list_rows}
use order_processing_system.Services.Product.{
  ProductResponse, ListProductsRequest, ListProductsResponse, max_page_size, to_product_response,
  page_of, page_size_of, offset_of, list_products,
}

take_nil : {A : Type 0} (n : ℕ) → take {A = A} n [] ≡ []
take_nil zero = refl
take_nil (suc n) = refl

take-plus : {A : Type 0} (m n : ℕ) (xs : List A) → take m xs ++ take n (drop m xs) ≡ take (m + n) xs
take-plus {A} zero n xs = ap (λ k. take k xs) (omega arith)
take-plus {A} (suc m) n [] = take_nil n ∙ sym (take_nil (suc m + n))
take-plus {A} (suc m) n (x ∷ xs) =
    let e : suc m + n ≡ suc (m + n) = omega arith in
    ap (λ ys. x ∷ ys) (take-plus m n xs) ∙ sym (ap (λ k. take k (x ∷ xs)) e)

map-take : {A B : Type 0} (f : A → B) (n : ℕ) (xs : List A) → map f (take n xs) ≡ take n (map f xs)
map-take f zero xs = refl
map-take f (suc n) [] = refl
map-take f (suc n) (x ∷ xs) = ap (λ ys. f x ∷ ys) (map-take f n xs)

map-drop : {A B : Type 0} (f : A → B) (n : ℕ) (xs : List A) → map f (drop n xs) ≡ drop n (map f xs)
map-drop f zero xs = refl
map-drop f (suc n) [] = refl
map-drop f (suc n) (x ∷ xs) = map-drop f n xs

page_positive : (req : ListProductsRequest) → 1 ≤ page_of req
unfolding page_of
page_positive req = ground arith

page_size_range :
    (req : ListProductsRequest) → (1 ≤ page_size_of req) × (page_size_of req ≤ max_page_size)
unfolding page_size_of
page_size_range req = ground arith

of_bits64_fits : (n : ℕ) → n < 2 ^ 63 → of_bits64 (n % 2 ^ 64) ≡ pos n
of_bits64_fits n h = let same : n % 2 ^ 64 ≡ n = omega arith in rw same (ground arith)

offset-fits :
    (req : ListProductsRequest)
    → (page_of req - 1) * page_size_of req < 2 ^ 63
    → offset_of req ≡ pos ((page_of req - 1) * page_size_of req)
unfolding offset_of
offset-fits req fits = of_bits64_fits _ fits

-- The whole catalogue as responses.
abbrev pub catalogue : Db → List ProductResponse
catalogue db = map to_product_response (map (preload_inventory db) db.tables.products)

cut : ℕ → ℕ → Db → List ProductResponse
cut m n db =
    map to_product_response (map (preload_inventory db) (take n (drop m db.tables.products)))

cut-catalogue : (m n : ℕ) (db : Db) → cut m n db ≡ take n (drop m (catalogue db))
unfolding cut
cut-catalogue m n db =
    let f = to_product_response in
    let g = preload_inventory db in
    let xs = db.tables.products in
    ap (map f) (map-take g n (drop m xs) ∙ ap (take n) (map-drop g m xs))
    ∙ map-take f n (drop m (map g xs))
    ∙ ap (take n) (map-drop f m (map g xs))

list_products-cut :
    (engine : Engine) (req : ListProductsRequest) (db : Db) (resp : ListProductsResponse)
    → (list_products engine req db).0 ≡ ok resp
    → (resp.items ≡ cut (pos_part (offset_of req)) (page_size_of req) db)
      × (resp.total ≡ length db.tables.products)
      × (resp.page ≡ page_of req)
      × (resp.page_size ≡ page_size_of req)
unfolding list_products list_rows cut
list_products-cut engine req db resp e = ground arith

next_page : (p n : ℕ) → 1 ≤ p → (p - 1) * n + n ≡ p * n
next_page zero n h = absurd (omega (arith, h))
next_page (suc q) n h =
    let e : suc q - 1 ≡ q = omega arith in ap (λ k. k * n + n) e ∙ sym (suc-mul q n)

length-map : {A B : Type 0} (f : A → B) (xs : List A) → length (map f xs) ≡ length xs
length-map f [] = refl
length-map f (x ∷ xs) = ap suc (length-map f xs)

length-catalogue : (db : Db) → length (catalogue db) ≡ length db.tables.products
length-catalogue db =
    length-map to_product_response (map (preload_inventory db) db.tables.products)
    ∙ length-map (preload_inventory db) db.tables.products

-- As long as the offset fits in int64, a page that ListProducts returns has a number of at least 1
-- and a size between 1 and 100, comes with the count of the catalogue, and continues the catalogue
-- where the pages before it end.
pub list_products-pages :
    (engine : Engine) (req : ListProductsRequest) (db : Db) (resp : ListProductsResponse)
    → (page_of req - 1) * page_size_of req < 2 ^ 63
    → (list_products engine req db).0 ≡ ok resp
    → (1 ≤ resp.page)
      × (1 ≤ resp.page_size)
      × (resp.page_size ≤ max_page_size)
      × (resp.total ≡ length (catalogue db))
      × (take ((resp.page - 1) * resp.page_size) (catalogue db) ++ resp.items
          ≡ take (resp.page * resp.page_size) (catalogue db))
list_products-pages engine req db resp fits e =
    let (items, total, page, size) = list_products-cut engine req db resp e in
    let p = page_of req in
    let n = page_size_of req in
    let m = (p - 1) * n in
    let positive = page_positive req in
    let (low, high) = page_size_range req in
    let here : resp.items ≡ take n (drop m (catalogue db)) =
      items ∙ ap (λ o. cut (pos_part o) n db) (offset-fits req fits) ∙ cut-catalogue m n db in
    let next : m + n ≡ p * n = next_page p n positive in
    rw (page, size)
      (
        positive,
        low,
        high,
        total ∙ sym (length-catalogue db),
        ap (λ ys. take m (catalogue db) ++ ys) here
            ∙ take-plus m n (catalogue db)
            ∙ ap (λ k. take k (catalogue db)) next,
      )
