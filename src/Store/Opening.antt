-- ===== src/Store/Opening.antt =====
-- internal/store/store.go: `Open`, `Close` and `migrate`. The file system and the driver answer as
-- they like; a file that has no table of resources yet gets an empty one.
use komari_bridge.Base.{
  ℕ, ◌+◌, ◌≡◌, refl, String, Bool, true, false, not, Option, none, some, [], get_or, if◌then◌else◌,
  Result, ok, err, arith,
}
use komari_bridge.Store.{Table}
use komari_bridge.Store.Keys.{IsTable}

-- `filepath.Dir`, and whether `os.MkdirAll`, `sql.Open`, the migration and `os.Chmod` succeed; `rows`
-- is the table of resources in the database file at a path, if it has one.
pub record Disk : Type 0 where
  pub directory : String → String
  pub makes_directory : String → Bool
  pub opens : String → Bool
  pub rows : String → Option Table
  pub migrates : Bool
  pub secures : String → Bool

pub data OpenError : Type 0 where
  create_directory_failed open_failed migrate_failed secure_failed : OpenError

-- How many handles of a database were opened, and how many closed.
pub record Handles : Type 0 where
  pub opened : ℕ
  pub closed : ℕ

abbrev opened_one : Handles → Handles
opened_one h = record h { opened = h.opened + 1 }

-- `Close`
unfoldable pub close : Handles → Handles
close h = record h { closed = h.closed + 1 }

-- `CREATE TABLE IF NOT EXISTS` leaves the rows that are there.
abbrev pub migrate : Option Table → Table
migrate rows = get_or rows []

unfoldable pub open_store : Disk → String → Handles → Result OpenError Table × Handles
unfolding close
open_store disk path h =
    if not (disk.makes_directory (disk.directory path))
    then (err create_directory_failed, h)
    else if not (disk.opens path)
    then (err open_failed, h)
    else if not disk.migrates
    then (err migrate_failed, close (opened_one h))
    else if not (disk.secures path)
    then (err secure_failed, close (opened_one h))
    else (ok (migrate (disk.rows path)), opened_one h)

-- Does the call return a store?
abbrev is_ok : {E A : Type 0} → Result E A → Bool
is_ok (ok a) = true
is_ok (err e) = false

-- `Open` leaves one handle of the database open if it returns a store, and none if it fails,
-- wherever it fails.
pub open_store_handles :
    (disk : Disk) (path : String) (h : Handles)
    → h.opened ≡ h.closed
    → (open_store disk path h).1.opened
      ≡ (open_store disk path h).1.closed + (if is_ok (open_store disk path h).0 then 1 else 0)
unfolding open_store close
open_store_handles disk path h none_open = ground arith

migrate-IsTable :
    (rows : Option Table) → ((t : Table) → rows ≡ some t → IsTable t) → IsTable (migrate rows)
migrate-IsTable none kept = record { keys = tt; uuids = tt }
migrate-IsTable (some t) kept = kept t refl

opened-migrate :
    (disk : Disk) (path : String) (h : Handles) (t : Table)
    → (open_store disk path h).0 ≡ ok t
    → migrate (disk.rows path) ≡ t
unfolding open_store
opened-migrate disk path h t e = ground arith

-- The opened store keeps its constraints if the table in the file does, and in a new file.
pub open_store-IsTable :
    (disk : Disk) (path : String) (h : Handles) (t : Table)
    → ((rows : Table) → disk.rows path ≡ some rows → IsTable rows)
    → (open_store disk path h).0 ≡ ok t
    → IsTable t
open_store-IsTable disk path h t kept e =
    rw⁻¹ (opened-migrate disk path h t e) (migrate-IsTable (disk.rows path) kept)
