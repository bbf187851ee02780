-- ===== src/Examples/Pages.antt =====
-- The page file at a new file of one page.
use zadodb.Prelude.{ℕ, ◌<◌, ◌≤◌, ◌^◌, ◌≢◌, ◌≡◌, []}
use zadodb.Errors.{ok, err, negative_offset}
use zadodb.Page.{Page, new, page_id, finalize, page_type_btree_leaf}
use zadodb.Page.Fields.{new-IsPage}
use zadodb.Page.Pager.{Manager, Meta, write_page, write_page_int64, read_page_int64}
use zadodb.Page.Pager.Laws.{Holds, read_page_int64-write_page_int64}
use zadodb.Examples.{adding}

abbrev pub empty_file : Manager
empty_file = record { file = []; num_pages = 1 }

abbrev third : Page
third = new 3 page_type_btree_leaf

read_page_int64-write_page_int64_example :
    (page_id third < 2 ^ 51
      → (m' : Manager) × (write_page_int64 adding empty_file third ≡ ok m')
        × (read_page_int64 adding m' (page_id third) ≡ ok (finalize adding third))
        × ((j : ℕ)
            → j < 2 ^ 51
            → j ≢ page_id third
            → Holds adding empty_file j
            → read_page_int64 adding m' j ≡ read_page_int64 adding empty_file j))
    × (2 ^ 51 ≤ page_id third
        → page_id third < 2 ^ 52
        → write_page_int64 adding empty_file third ≡ err negative_offset)
read_page_int64-write_page_int64_example =
    read_page_int64-write_page_int64 adding empty_file third (new-IsPage 3 page_type_btree_leaf)

abbrev some_meta : Meta
some_meta = record { root = 7; last_applied = 12; pages = 0 }

abbrev two_pages : Manager
two_pages = write_page adding empty_file (new 1 page_type_btree_leaf)
