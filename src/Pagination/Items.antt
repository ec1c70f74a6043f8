-- ===== src/Pagination/Items.antt =====
-- What the page bar of app/http/pagination.py shows.
use rapid_inbox.Base.{
  subst, ℕ, zero, suc, ◌+◌, ◌-◌, ◌*◌, ◌≤◌, ◌<◌, ◌≡◌, refl, ap, ◌↔◌, ◌⊎◌, inl, inr, Bool, true,
  false, ◌||◌, Option, none, some, List, [], ◌∷◌, arith, any, ltb, leb, eqb, Bool-cases,
}
use rapid_inbox.Pagination.Context.{
  PageItem, ellipsis, page, range_from, insert_page, window_start, window_end, visible_pages,
  items_from, build_page_items,
}

abbrev pub shows : ℕ → List ℕ → Bool
shows p pages = any (eqb p) pages

-- Strictly increasing, and all above `low`.
abbrev pub Increasing : ℕ → List ℕ → Type 0
Increasing low [] = Unit
Increasing low (p ∷ pages) = (low < p) × Increasing p pages

shows-insert_page :
    (p q : ℕ) (pages : List ℕ) → shows p (insert_page q pages) ≡ (eqb p q || shows p pages)
unfolding insert_page
shows-insert_page p q [] = refl
shows-insert_page p q (r ∷ pages) = ground (arith, shows-insert_page p q pages)

Increasing-insert_page :
    (low p : ℕ) (pages : List ℕ)
    → low < p
    → Increasing low pages
    → Increasing low (insert_page p pages)
unfolding insert_page
Increasing-insert_page low p [] h i = (h, tt)
Increasing-insert_page low p (q ∷ pages) h (lq, i) =
    ground (arith, Increasing-insert_page q p pages)

shows-range_from :
    (p start n : ℕ) → (shows p (range_from start n) ≡ true) ↔ ((start ≤ p) × (p < start + n))
unfolding range_from
shows-range_from p start zero = ground arith
shows-range_from p start (suc n) = ground (arith, shows-range_from p (suc start) n)

Increasing-range_from : (low start n : ℕ) → low < start → Increasing low (range_from start n)
unfolding range_from
Increasing-range_from low start zero h = tt
Increasing-range_from low start (suc n) h =
    (h, Increasing-range_from start (suc start) n (omega arith))

insert_page-one :
    (pages : List ℕ) → Increasing 0 pages → (rest : List ℕ) × (insert_page 1 pages ≡ 1 ∷ rest)
unfolding insert_page
insert_page-one [] h = ([], refl)
insert_page-one (p ∷ pages) (above, h) = elim (Bool-cases (ltb 1 p)) [
  | inl later ↦ (p ∷ pages, rw later)
  | inr first ↦
      let not_later : ltb 1 p ≡ false = first in let one : p ≡ 1 = ground arith in (pages, rw one)
]

module _ {U : Type 0} where
  -- The page numbers of a bar, ellipses aside.
  unfoldable pub numbers : List (PageItem U) → List ℕ
  numbers [] = []
  numbers (ellipsis ∷ items) = numbers items
  numbers (page p _ _ _ ∷ items) = p ∷ numbers items

  -- After page `a` stands page `a + 1`, or an ellipsis and a later page: an ellipsis stands exactly
  -- where pages are left out. The offset of page `p` is that of its first item, its link is to that
  -- offset, and the current page alone is marked.
  abbrev pub IsSpaced : (ℕ → U) → ℕ → ℕ → ℕ → List (PageItem U) → Type 0
  IsSpaced url current limit a [] = Unit
  IsSpaced url current limit a (page p o u c ∷ items) =
      (p ≡ a + 1)
      × (o ≡ (p - 1) * limit)
      × (u ≡ url o)
      × (c ≡ eqb p current)
      × IsSpaced url current limit p items
  IsSpaced url current limit a (ellipsis ∷ page p o u c ∷ items) =
      (a + 1 < p)
      × (o ≡ (p - 1) * limit)
      × (u ≡ url o)
      × (c ≡ eqb p current)
      × IsSpaced url current limit p items
  IsSpaced url current limit a (ellipsis ∷ _) = ⊥

  numbers-items_from :
      (url : ℕ → U) (current limit : ℕ) (previous : Option ℕ) (pages : List ℕ)
      → numbers (items_from url current limit previous pages) ≡ pages
  unfolding numbers items_from
  numbers-items_from url current limit previous [] = refl
  numbers-items_from url current limit none (p ∷ pages) =
      ap (λ r. p ∷ r) (numbers-items_from url current limit (some p) pages)
  numbers-items_from url current limit (some q) (p ∷ pages) =
      ground (arith, numbers-items_from url current limit (some p) pages)

  items_from-IsSpaced :
      (url : ℕ → U) (current limit a : ℕ) (pages : List ℕ)
      → Increasing a pages
      → IsSpaced url current limit a (items_from url current limit (some a) pages)
  unfolding items_from
  items_from-IsSpaced url current limit a [] h = tt
  items_from-IsSpaced url current limit a (p ∷ pages) (above, h) =
      elim (Bool-cases (ltb 1 (p - a))) [
        | inl far ↦
            rw far (ground arith, refl, refl, refl, items_from-IsSpaced url current limit p pages h)
        | inr near ↦
            rw near
              (ground arith, refl, refl, refl, items_from-IsSpaced url current limit p pages h)
      ]

  -- The bar of a list with at least one page: the page numbers strictly increase; they are the
  -- first page, the last one and those at most two away from the current one; and from page 1 on
  -- an ellipsis stands exactly where pages are left out, each page carries the offset and the
  -- link of its first item, and the current page alone is marked.
  pub build_page_items_shown :
      (url : ℕ → U) (current total limit p : ℕ)
      → 0 < total
      → Increasing 0 (numbers (build_page_items url current total limit))
        × ((shows p (numbers (build_page_items url current total limit)) ≡ true) ↔ (
            (p ≡ 1) ⊎ (p ≡ total) ⊎ (1 ≤ p) × (p ≤ total) × (current ≤ p + 2) × (p ≤ current + 2)))
        × IsSpaced url current limit 0 (build_page_items url current total limit)
  unfolding build_page_items visible_pages
  build_page_items_shown url current total limit p n =
      let low = window_start current in
      let size = window_end current total + 1 - low in
      let middle = range_from low size in
      let inc =
        Increasing-insert_page 0 total middle (omega arith)
          (Increasing-range_from 0 low size (omega arith)) in
      let all = Increasing-insert_page 0 1 (insert_page total middle) (omega arith) inc in
      let some_page : leb total 0 ≡ false = ground arith in
      let listed = numbers-items_from url current limit none (visible_pages current total) in
      let (rest, starts) = insert_page-one (insert_page total middle) inc in
      let spaced : IsSpaced url current limit 0 (items_from url current limit (some 0) (1 ∷ rest)) =
        items_from-IsSpaced url current limit 0 (1 ∷ rest) (subst (Increasing 0) starts all) in
      (
        rw (some_page, listed) all,
        rw (some_page, listed)
            (ground (
              arith,
              shows-insert_page p 1 (insert_page total middle),
              shows-insert_page p total middle,
              shows-range_from p low size,
            )),
        rw (some_page, starts) (unfold items_from in spaced),
      )
