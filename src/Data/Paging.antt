-- ===== src/Data/Paging.antt =====
-- The bounds of a page, and all pages of a list together.
use trustflow_backend.Prelude.{
  ℕ, zero, suc, ◌+◌, ◌-◌, ◌*◌, ◌≤◌, min, max, ◌≡◌, refl, sym, ap, ◌∙◌, Option, none, some, List, [],
  ◌∷◌, ◌++◌, arith, length, take, drop, length-take-le,
}
use trustflow_backend.Data.Page.{
  RawNumber, not_finite, below_zero, whole, PaginationQuery, positive_integer, normalize_pagination,
  query_of, paginate,
}

suc_add : (m n : ℕ) → suc m + n ≡ suc (m + n)
suc_add m n = omega arith

positive_integer-le : (o : Option RawNumber) (d : ℕ) → 1 ≤ d → 1 ≤ positive_integer o d
unfolding positive_integer
positive_integer-le none d h = h
positive_integer-le (some not_finite) d h = h
positive_integer-le (some below_zero) d h = omega arith
positive_integer-le (some (whole n)) d h = omega arith

module _ {ℓ} {A : Type ℓ} where
  -- Whatever page and limit a query asks for, the page that it gets is at least 1, its limit lies between
  -- 1 and 100, it has no more items than its limit, and its total is the number of all items.
  pub paginate_bounds :
      (items : List A) (query : PaginationQuery)
      → (1 ≤ (paginate items query).page)
        × (1 ≤ (paginate items query).limit)
        × ((paginate items query).limit ≤ 100)
        × (length (paginate items query).items ≤ (paginate items query).limit)
        × ((paginate items query).total ≡ length items)
  unfolding paginate normalize_pagination
  paginate_bounds items query =
      let first = positive_integer-le query.page 1 (omega arith) in
      let least = positive_integer-le query.limit 20 (omega arith) in
      (first, omega (arith, least), omega (arith), length-take-le _ _, refl)

  -- The items of the first pages, one page after another.
  unfoldable pub first_pages : ℕ → ℕ → List A → List A
  first_pages zero limit items = []
  first_pages (suc n) limit items =
      first_pages n limit items
      ++ (paginate items (query_of (record { page = suc n; limit = limit }))).items

  abbrev empty : List A
  empty = []

  take_nil : (n : ℕ) → take n empty ≡ []
  take_nil zero = refl
  take_nil (suc n) = refl

  take-add : (m n : ℕ) (xs : List A) → take (m + n) xs ≡ take m xs ++ take n (drop m xs)
  take-add zero n xs = ap (λ k. take k xs) (omega arith)
  take-add (suc m) n [] = ap (λ k. take k empty) (suc_add m n) ∙ sym (take_nil n)
  take-add (suc m) n (x ∷ xs) =
      ap (λ k. take k (x ∷ xs)) (suc_add m n) ∙ ap (λ ys. x ∷ ys) (take-add m n xs)

  take_all : (n : ℕ) (xs : List A) → length xs ≤ n → take n xs ≡ xs
  take_all zero [] h = refl
  take_all zero (x ∷ xs) h = absurd (omega (arith, h))
  take_all (suc n) [] h = refl
  take_all (suc n) (x ∷ xs) h = ap (λ ys. x ∷ ys) (take_all n xs (omega (arith, h)))

  first_pages-take :
      (n limit : ℕ) (items : List A)
      → 1 ≤ limit
      → limit ≤ 100
      → first_pages n limit items ≡ take (n * limit) items
  unfolding first_pages paginate normalize_pagination positive_integer
  first_pages-take zero limit items lo hi =
      let none_yet : 0 ≡ 0 * limit = omega arith in ap (λ k. take k items) none_yet
  first_pages-take (suc n) limit items lo hi =
      let page_limit : min (max 1 limit) 100 ≡ limit = omega arith in
      let page : (max 1 (suc n)) - 1 ≡ n = omega arith in
      let count : n * limit + limit ≡ suc n * limit = ground arith in
      rw (page_limit, page, first_pages-take n limit items lo hi)
        (sym (take-add (n * limit) limit items) ∙ ap (λ k. take k items) count)

  -- For a limit between 1 and 100, the pages of a list one after another are the list: no item is left
  -- out, none comes twice, and none is out of order.
  pub pages_cover :
      (n limit : ℕ) (items : List A)
      → 1 ≤ limit
      → limit ≤ 100
      → length items ≤ n * limit
      → first_pages n limit items ≡ items
  pages_cover n limit items lo hi enough =
      first_pages-take n limit items lo hi ∙ take_all (n * limit) items enough
