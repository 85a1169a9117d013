-- ===== src/Library/Steps.antt =====
-- What changes the index while the server runs: scans, the events of the file watcher, merges by
-- ISBN, and the administrator's clearing of the library.
use my_eink_library.Common.{count, exists, Text, ℕ, refl, Bool, false, List, arith}
use my_eink_library.Library.Scan.{clear_library, Meta, Walk, scan}
use my_eink_library.Library.{Index}
use my_eink_library.Library.Sound.{IsSound}
use my_eink_library.Library.Files.{CoverSaver, FileState, upsert_if_changed}
use my_eink_library.Library.Sound.Scanned.{scan-IsSound, upsert_if_changed-IsSound}
use my_eink_library.Library.Prune.{delete_by_path}
use my_eink_library.Library.Sound.Pruned.{delete_by_path-IsSound}
use my_eink_library.Library.Merge.{merge_duplicate_isbn}
use my_eink_library.Library.Sound.Merged.{merge_duplicate_isbn-IsSound}

-- One call on the index; the program makes them one at a time.
pub data Step (d : Index) : Index → Type 0 where
  scanned :
      (beyond : ℕ → ℕ) (saver : CoverSaver) (force foreign_keys : Bool) (now : ℕ)
      (walks : List Walk)
      → Step d (scan beyond saver force foreign_keys now walks d).1
  file_written :
      (beyond : ℕ → ℕ) (now : ℕ) (root rel_path : Text) (file : FileState) (saver : CoverSaver)
      → Step d (upsert_if_changed beyond now root rel_path file saver false d)
  file_removed :
      (foreign_keys : Bool) (now : ℕ) (root rel_path : Text)
      → Step d (delete_by_path foreign_keys now root rel_path d)
  isbn_merged :
      (foreign_keys : Bool) (now : ℕ) (roots : List Text) (id : ℕ)
      → Step d (merge_duplicate_isbn foreign_keys now roots id d).1
  cleared : (rows : Meta) → Step d (clear_library d rows).0

pub data Reachable (d : Index) : Index → Type 0 where
  here : Reachable d d
  after : (e f : Index) → Reachable d e → Step e f → Reachable d f

cleared-IsSound : (rows : Meta) (d : Index) → IsSound (clear_library d rows).0
unfolding clear_library count exists
cleared-IsSound rows d = record {
  ids_unique = λ id. omega arith;
  ids_below = λ id h. refl;
  files_unique = λ root path. omega arith;
  locations_owned = refl;
}

Step-IsSound : (d e : Index) → Step d e → IsSound d → IsSound e
Step-IsSound d _ (scanned beyond saver force foreign_keys now walks) v =
    scan-IsSound beyond saver force foreign_keys now walks d v
Step-IsSound d _ (file_written beyond now root rel_path file saver) v =
    upsert_if_changed-IsSound beyond now root rel_path file saver false d v
Step-IsSound d _ (file_removed foreign_keys now root rel_path) v =
    delete_by_path-IsSound foreign_keys now root rel_path d v
Step-IsSound d _ (isbn_merged foreign_keys now roots id) v =
    merge_duplicate_isbn-IsSound foreign_keys now roots id d v
Step-IsSound d _ (cleared rows) v = cleared-IsSound rows d

-- Whatever scans, file events, merges by ISBN and clearings happen to a sound index in whatever order,
-- a file stays in at most one row of books and locations, ids stay unique, and no location is left
-- without its book.
pub Reachable-IsSound : (d e : Index) → Reachable d e → IsSound d → IsSound e
Reachable-IsSound d _ here v = v
Reachable-IsSound d f (after e _ before last) v =
    Step-IsSound e f last (Reachable-IsSound d e before v)
