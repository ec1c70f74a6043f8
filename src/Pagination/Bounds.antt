-- ===== src/Pagination/Bounds.antt =====
-- The page counts and offsets of app/http/pagination.py.
use rapid_inbox.Base.{
  ℕ, zero, suc, ◌+◌, ◌-◌, ◌*◌, ◌/◌, ◌≤◌, ◌<◌, min, ◌≡◌, refl, ◌⊎◌, inl, inr, false, none, some,
  arith, ltb, eqb, Bool-cases,
}
use native.Mathlib.Nat.{div-add-mod', mod-lt}
use rapid_inbox.Pagination.Context.{PageContext, build_pagination_context}

-- `n / l` is where `n` falls between the multiples of `l`.
div_bounds : (n l : ℕ) → 0 < l → (n / l * l ≤ n) × (n < n / l * l + l)
div_bounds n l h = omega (arith, div-add-mod' n l, mod-lt n h)

pages_enough :
    (total l : ℕ)
    → 0 < l
    → 0 < total
    → ((total + l - 1) / l * l < total + l) × (total ≤ (total + l - 1) / l * l)
pages_enough total l h n =
    let (low, high) = div_bounds (total + l - 1) l h in
    (omega (arith, low, high), omega (arith, low, high))

mul_lt_cancel : (a b l : ℕ) → a * l < b * l → a < b
mul_lt_cancel a b l h = grind arith

rest_page : (q l : ℕ) {k : ℕ} → k < q → (q - 1) * l + l ≡ q * l
rest_page zero l h = elim h [ ]
rest_page (suc q) l h = grind arith

module _ {U : Type 0} where
  -- For an offset inside a list: the pages are as few as hold all items, the last offset is that
  -- of an existing item, and the current page is one of them, the one that holds the offset.
  pub page_bounds :
      (url : ℕ → U) (limit offset total count : ℕ) (c : PageContext U)
      → build_pagination_context url limit offset total count ≡ c
      → 0 < limit
      → offset < total
      → (c.total_pages * limit < total + limit)
        × (total ≤ c.total_pages * limit)
        × (1 ≤ c.current_page)
        × (c.current_page ≤ c.total_pages)
        × (offset < c.current_page * limit)
        × (c.current_page * limit ≤ offset + limit)
        × (last : ℕ) × (c.last_offset ≡ some last)
        × (last < total)
        × (total ≤ last + limit)
  unfolding build_pagination_context
  page_bounds url limit offset total count c e l o =
      let q = (total + limit - 1) / limit in
      let k = offset / limit in
      let some_items : eqb total 0 ≡ false = ground arith in
      let (less, enough) = pages_enough total limit l (omega arith) in
      let (low, high) = div_bounds offset limit l in
      let within : k < q = mul_lt_cancel k q limit (omega arith) in
      let some_page : eqb q 0 ≡ false = ground arith in
      let whole : (q - 1) * limit + limit ≡ q * limit = rest_page q limit within in
      rw (← e) (
        rw (some_items, some_page)
          (
            less,
            enough,
            omega arith,
            omega arith,
            omega (arith, high),
            omega (arith, low),
            (q - 1) * limit,
            refl,
            omega (arith, whole),
            omega (arith, whole),
          ))

  -- A full page, or the rest of the list: there is a next page exactly when items are left, and
  -- then its offset is that of an existing item; the previous offset is that of an earlier item.
  pub neighbours_exist :
      (url : ℕ → U) (limit offset total : ℕ) (c : PageContext U)
      → build_pagination_context url limit offset total (min limit (total - offset)) ≡ c
      → 0 < limit
      → offset < total
      → ((c.next_offset ≡ none) × (total ≤ offset + limit)
          ⊎ (next : ℕ) × (c.next_offset ≡ some next) × (offset < next) × (next < total))
        × ((c.previous_offset ≡ none) × (offset ≡ 0)
            ⊎ (previous : ℕ) × (c.previous_offset ≡ some previous) × (previous < offset))
        × (c.start_index ≤ c.end_index)
        × (c.end_index ≤ total)
  unfolding build_pagination_context
  neighbours_exist url limit offset total c e l o = rw (← e) (
    elim (Bool-cases (ltb (offset + min limit (total - offset)) total)) [
      | inl more ↦ rw more (inr (offset + limit, refl, omega arith, ground arith))
      | inr end ↦ rw end (inl (refl, ground arith))
    ],
    elim (Bool-cases (ltb 0 offset)) [
      | inl inside ↦ rw inside (inr (offset - limit, refl, ground arith))
      | inr start ↦ rw start (inl (refl, ground arith))
    ],
    ground arith,
    omega arith,
  )
