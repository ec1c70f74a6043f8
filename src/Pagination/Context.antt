-- ===== src/Pagination/Context.antt =====
-- `build_pagination_context` and `_build_page_items` of app/http/pagination.py. Offsets and counts
-- are natural numbers. The URL of an offset, which the source encodes with the standard library, is
-- a parameter.
use rapid_inbox.Base.{
  ℕ, zero, suc, ◌+◌, ◌-◌, ◌*◌, ◌/◌, min, max, Bool, Option, none, some, List, [], ◌∷◌, ltb, leb,
  eqb, if◌then◌else◌,
}

abbrev pub page_window_radius : ℕ
page_window_radius = 2

pub data PageItem {ℓ} (U : Type ℓ) : Type ℓ where
  ellipsis : PageItem U
  page : (number offset : ℕ) → U → (is_current : Bool) → PageItem U

-- `range(start, start + n)`
unfoldable pub range_from : ℕ → ℕ → List ℕ
range_from start zero = []
range_from start (suc n) = start ∷ range_from (suc start) n

-- an element of a Python set, kept in the order that `sorted` gives
unfoldable pub insert_page : ℕ → List ℕ → List ℕ
insert_page p [] = p ∷ []
insert_page p (q ∷ pages) =
    let rest = insert_page p pages in
    if ltb p q then p ∷ q ∷ pages else if eqb p q then q ∷ pages else q ∷ rest

abbrev pub window_start : ℕ → ℕ
window_start current = max (current - page_window_radius) 1

abbrev pub window_end : ℕ → ℕ → ℕ
window_end current total = min (current + page_window_radius) total

unfoldable pub visible_pages : ℕ → ℕ → List ℕ
unfolding range_from insert_page
visible_pages current total = insert_page 1 (
    insert_page total
      (range_from (window_start current) (window_end current total + 1 - window_start current)))

module _ {ℓ} {U : Type ℓ} where
  abbrev pub gap : Option ℕ → ℕ → List (PageItem U) → List (PageItem U)
  gap none p items = items
  gap (some previous) p items = if ltb 1 (p - previous) then ellipsis ∷ items else items

  -- the loop over `sorted(visible_pages)`
  unfoldable pub items_from : (ℕ → U) → ℕ → ℕ → Option ℕ → List ℕ → List (PageItem U)
  items_from build_url current limit previous [] = []
  items_from build_url current limit previous (p ∷ pages) =
      let offset = (p - 1) * limit in
      gap previous p (
        page p offset (build_url offset) (eqb p current)
        ∷ items_from build_url current limit (some p) pages)

  unfoldable pub build_page_items : (ℕ → U) → ℕ → ℕ → ℕ → List (PageItem U)
  unfolding items_from visible_pages
  build_page_items build_url current total limit =
      if leb total 0
      then []
      else items_from build_url current limit none (visible_pages current total)

pub record PageContext {ℓ} (U : Type ℓ) : Type ℓ where
  pub limit : ℕ
  pub offset : ℕ
  pub total_count : ℕ
  pub item_count : ℕ
  pub start_index : ℕ
  pub end_index : ℕ
  pub has_previous : Bool
  pub has_next : Bool
  pub previous_offset : Option ℕ
  pub next_offset : Option ℕ
  pub first_offset : Option ℕ
  pub last_offset : Option ℕ
  pub previous_page_url : Option U
  pub next_page_url : Option U
  pub first_page_url : Option U
  pub last_page_url : Option U
  pub current_page : ℕ
  pub total_pages : ℕ
  pub page_items : List (PageItem U)

abbrev url_of {ℓ} : {U : Type ℓ} → (ℕ → U) → Option ℕ → Option U
url_of build_url none = none
url_of build_url (some offset) = some (build_url offset)

unfoldable pub build_pagination_context {ℓ} :
    {U : Type ℓ} → (ℕ → U) → (limit offset total_count item_count : ℕ) → PageContext U
unfolding build_page_items
build_pagination_context build_url limit offset total_count item_count =
    let has_previous = ltb 0 offset in
    let has_next = ltb (offset + item_count) total_count in
    let previous_offset : Option ℕ = if has_previous then some (offset - limit) else none in
    let next_offset : Option ℕ = if has_next then some (offset + limit) else none in
    let current_page : ℕ = if eqb total_count 0 then 0 else offset / limit + 1 in
    let total_pages : ℕ = if eqb total_count 0 then 0 else (total_count + limit - 1) / limit in
    let first_offset : Option ℕ = if eqb total_pages 0 then none else some 0 in
    let last_offset : Option ℕ =
      if eqb total_pages 0 then none else some ((total_pages - 1) * limit) in
    record {
      limit = limit;
      offset = offset;
      total_count = total_count;
      item_count = item_count;
      start_index = if eqb item_count 0 then 0 else offset + 1;
      end_index = offset + item_count;
      has_previous = has_previous;
      has_next = has_next;
      previous_offset = previous_offset;
      next_offset = next_offset;
      first_offset = first_offset;
      last_offset = last_offset;
      previous_page_url = url_of build_url previous_offset;
      next_page_url = url_of build_url next_offset;
      first_page_url = url_of build_url first_offset;
      last_page_url = url_of build_url last_offset;
      current_page = current_page;
      total_pages = total_pages;
      page_items = build_page_items build_url current_page total_pages limit;
    }
