-- ===== src/Btree/Store/OnFile.antt =====
-- `page.Manager` is a page store: it meets the laws that the tree relies on.
use zadodb.Prelude.{ℕ, ◌*◌, ◌≤◌, ◌<◌, ◌≡◌, refl, ◌∙◌, arith, length}
use zadodb.Wal.Log.{Crc}
use zadodb.Errors.{ok}
use zadodb.Page.{Page, page_size, page_id, type_of, payload, finalize}
use zadodb.Page.Fields.{IsPage, fields-finalize}
use zadodb.Page.Pager.{Manager, allocate, write_page, read_page, read_at}
use zadodb.Page.Pager.Laws.{
  Holds, read_page-write_page_self, read_page-write_page_ne, length-write_page,
}
use zadodb.Btree.Store.{PageStore, Laws}

module _ (crc : Crc) where
  abbrev pub file_store : PageStore Manager
  file_store = record {
    read_page = read_page crc;
    allocate = allocate crc;
    write_page = write_page crc;
  }

  -- A page that could be read lies whole in the file.
  pub Holds-read_page : (m : Manager) (j : ℕ) (q : Page) → read_page crc m j ≡ ok q → Holds crc m j
  unfolding read_page read_at
  Holds-read_page m j q h = ground arith

  -- The file does not reach past the pages that were allocated.
  abbrev pub WithinPages : Manager → Type 0
  WithinPages m = length m.file ≤ m.num_pages * page_size

  below_of_read :
      (m : Manager) (j : ℕ) (q : Page) → WithinPages m → read_page crc m j ≡ ok q → j < m.num_pages
  below_of_read m j q v h = omega (arith, Holds-read_page m j q h)

  num_pages-write_page : (m : Manager) (p : Page) → (write_page crc m p).num_pages ≡ m.num_pages
  unfolding write_page
  num_pages-write_page m p = refl

  written :
      (m : Manager) (p : Page)
      → IsPage p
      → (q : Page) × (read_page crc (write_page crc m p) (page_id p) ≡ ok q)
        × (type_of q ≡ type_of p)
        × (payload q ≡ payload p)
  written m p v = (
    finalize crc p,
    read_page-write_page_self crc m p v,
    (fields-finalize crc p).1,
    (fields-finalize crc p).2,
  )

  -- The manager's read, allocate and write meet every law of a page store, with a file that ends
  -- within the allocated pages for its valid states.
  pub file_laws : Laws file_store
  unfolding allocate
  file_laws = record {
    next = λ m. m.num_pages;
    Valid = WithinPages;
    valid_below = below_of_read;
    allocate_id = λ m. refl;
    allocate_next = λ m. refl;
    allocate_read = λ m j. unfold read_page in refl;
    allocate_valid = λ m v. omega arith;
    write_next = num_pages-write_page;
    write_valid =
        λ m p w lt v. rw (num_pages-write_page m p) (length-write_page crc m p m.num_pages w lt v);
    write_self = written;
    write_ne =
        λ m p j q w ne h. read_page-write_page_ne crc m p j w ne (Holds-read_page m j q h) ∙ h;
  }

  pub Valid_file : (m : Manager) → WithinPages m → file_laws.Valid m
  unfolding file_laws
  Valid_file m h = h

  pub next_file : (m : Manager) → file_laws.next m ≡ m.num_pages
  unfolding file_laws
  next_file m = refl
