-- ===== src/Paging/Tests.antt =====
-- Pages of two rows.
use stellances.Base.{refl, none, some, [], ◌∷◌, ◌≡◌, List, Option, ℕ, length, ◌≤◌}
use stellances.Paging.{paged}
use stellances.Paging.Cover.{pages, pages_cover}

abbrev five : List ℕ
five = 1 ∷ 2 ∷ 3 ∷ 4 ∷ 5 ∷ []

three_pages : (paged (record { page = some 2; limit = some 2 }) five).rows ≡ 3 ∷ 4 ∷ []
unfolding paged
three_pages = refl

pages_cover_example :
    (pages (some 2) (paged (record { page = none; limit = some 2 }) five).total_pages five ≡ five)
    × ((page : Option ℕ) → length (paged (record { page = page; limit = some 2 }) five).rows ≤ 100)
pages_cover_example = pages_cover (some 2) five
