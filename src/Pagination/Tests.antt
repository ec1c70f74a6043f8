-- ===== src/Pagination/Tests.antt =====
-- Page bars and page contexts at concrete inputs.
use rapid_inbox.Base.{ℕ, ◌+◌, ◌*◌, ◌≤◌, ◌<◌, ◌≡◌, refl, ◌↔◌, ◌⊎◌, true, none, some, [], ◌∷◌, arith}
use rapid_inbox.Pagination.Context.{PageContext, build_page_items, build_pagination_context}
use rapid_inbox.Pagination.Items.{shows, Increasing, numbers, IsSpaced, build_page_items_shown}
use rapid_inbox.Pagination.Bounds.{page_bounds, neighbours_exist}

abbrev url : ℕ → ℕ
url offset = offset

-- Page 6 of 20.
bar : numbers (build_page_items url 6 20 10) ≡ 1 ∷ 4 ∷ 5 ∷ 6 ∷ 7 ∷ 8 ∷ 20 ∷ []
unfolding build_page_items numbers
bar = refl

abbrev context : PageContext ℕ
context = build_pagination_context url 20 40 95 20

numbers_of_context :
    (context.current_page ≡ 3)
    × (context.total_pages ≡ 5)
    × (context.last_offset ≡ some 80)
    × (context.next_offset ≡ some 60)
unfolding build_pagination_context
numbers_of_context = (refl, refl, refl, refl)

build_page_items_shown_example :
    Increasing 0 (numbers (build_page_items url 6 20 10))
    × ((shows 5 (numbers (build_page_items url 6 20 10)) ≡ true)
        ↔ ((◌≡◌ {A = ℕ} 5 1) ⊎ (◌≡◌ {A = ℕ} 5 20) ⊎ (1 ≤ 5) × (5 ≤ 20) × (6 ≤ 5 + 2) × (5 ≤ 6 + 2)))
    × IsSpaced url 6 10 0 (build_page_items url 6 20 10)
build_page_items_shown_example = build_page_items_shown url 6 20 10 5 (omega arith)

first_pages :
    (context.total_pages * 20 < 95 + 20)
    × (95 ≤ context.total_pages * 20)
    × (1 ≤ context.current_page)
    × (context.current_page ≤ context.total_pages)
    × (40 < context.current_page * 20)
    × (context.current_page * 20 ≤ 40 + 20)
    × (last : ℕ) × (context.last_offset ≡ some last)
    × (last < 95)
    × (95 ≤ last + 20)
first_pages = page_bounds url 20 40 95 20 context refl (omega arith) (omega arith)

two_neighbours :
    ((context.next_offset ≡ none) × (95 ≤ 40 + 20)
      ⊎ (next : ℕ) × (context.next_offset ≡ some next) × (40 < next) × (next < 95))
    × ((context.previous_offset ≡ none) × (◌≡◌ {A = ℕ} 40 0)
        ⊎ (previous : ℕ) × (context.previous_offset ≡ some previous) × (previous < 40))
    × (context.start_index ≤ context.end_index)
    × (context.end_index ≤ 95)
two_neighbours = neighbours_exist url 20 40 95 context refl (omega arith) (omega arith)
