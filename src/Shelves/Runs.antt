-- ===== src/Shelves/Runs.antt =====
-- Every method of internal/index/shelves.go that changes the tables, as one type of operations, and
-- sequences of them.
use my_eink_library.Common.{Text, ℕ, List, [], ◌∷◌}
use my_eink_library.Shelves.{Visibility, Db}
use my_eink_library.Shelves.Consistent.{IsConsistent}
use my_eink_library.Shelves.Manage.{
  ensure_system_shelf, create_shelf, rename_shelf_by, delete_shelf_by, set_shelf_visibility_by,
}
use my_eink_library.Shelves.Keeps.{
  ensure_system_shelf-IsConsistent, create_shelf-IsConsistent, rename_shelf_by-IsConsistent,
  delete_shelf_by-IsConsistent, set_shelf_visibility_by-IsConsistent,
  add_book_to_shelf-IsConsistent, remove_book_from_shelf-IsConsistent,
}
use my_eink_library.Shelves.Members.{add_shelf_member, remove_shelf_member, delete_user_shelves}
use my_eink_library.Shelves.Sharing.{
  add_shelf_member-IsConsistent, remove_shelf_member-IsConsistent, delete_user_shelves-IsConsistent,
}
use my_eink_library.Shelves.Contents.{add_book_to_shelf, remove_book_from_shelf}

-- The first number of an operation is the clock, where the method reads it.
pub data ShelfOperation : Type 0 where
  op_ensure : ℕ → Text → Text → Text → ShelfOperation
  op_create_shelf : ℕ → Text → Text → ℕ → ShelfOperation
  op_rename : ℕ → Text → Text → ShelfOperation
  op_delete_shelf : ℕ → Text → ShelfOperation
  op_set_visibility : ℕ → Text → Visibility → ShelfOperation
  op_add_member : ℕ → Text → ℕ → Text → ShelfOperation
  op_remove_member : Text → ℕ → Text → ShelfOperation
  op_delete_user : Text → ShelfOperation
  op_add_book : ℕ → ℕ → ℕ → ShelfOperation
  op_remove_book : ℕ → ℕ → ℕ → ShelfOperation

module _ (beyond : ℕ → ℕ) where
  unfoldable pub perform : ShelfOperation → Db → Db
  perform (op_ensure now username slug name) d = (ensure_system_shelf now username slug name d).1
  perform (op_create_shelf now username name limit) d =
      (create_shelf beyond now username name limit d).1
  perform (op_rename id username name) d = (rename_shelf_by id username name d).1
  perform (op_delete_shelf id username) d = (delete_shelf_by id username d).1
  perform (op_set_visibility id username v) d = (set_shelf_visibility_by id username v d).1
  perform (op_add_member now owner_name id name) d = (add_shelf_member now owner_name id name d).1
  perform (op_remove_member owner_name id name) d = (remove_shelf_member owner_name id name d).1
  perform (op_delete_user username) d = delete_user_shelves username d
  perform (op_add_book now shelf_id book_id) d = add_book_to_shelf now shelf_id book_id d
  perform (op_remove_book now shelf_id book_id) d = remove_book_from_shelf now shelf_id book_id d

  unfoldable pub perform_all : List ShelfOperation → Db → Db
  perform_all [] d = d
  perform_all (o ∷ os) d = perform_all os (perform o d)

  perform-IsConsistent : (o : ShelfOperation) (d : Db) → IsConsistent d → IsConsistent (perform o d)
  unfolding perform
  perform-IsConsistent (op_ensure now username slug name) d v =
      ensure_system_shelf-IsConsistent now username slug name d v
  perform-IsConsistent (op_create_shelf now username name limit) d v =
      create_shelf-IsConsistent beyond now username name limit d v
  perform-IsConsistent (op_rename id username name) d v =
      rename_shelf_by-IsConsistent id username name d v
  perform-IsConsistent (op_delete_shelf id username) d v =
      delete_shelf_by-IsConsistent id username d v
  perform-IsConsistent (op_set_visibility id username w) d v =
      set_shelf_visibility_by-IsConsistent id username w d v
  perform-IsConsistent (op_add_member now owner_name id name) d v =
      add_shelf_member-IsConsistent now owner_name id name d v
  perform-IsConsistent (op_remove_member owner_name id name) d v =
      remove_shelf_member-IsConsistent owner_name id name d v
  perform-IsConsistent (op_delete_user username) d v = delete_user_shelves-IsConsistent username d v
  perform-IsConsistent (op_add_book now shelf_id book_id) d v =
      add_book_to_shelf-IsConsistent now shelf_id book_id d v
  perform-IsConsistent (op_remove_book now shelf_id book_id) d v =
      remove_book_from_shelf-IsConsistent now shelf_id book_id d v

  -- Whatever methods on shelves are called in whatever order on consistent tables, they stay
  -- consistent: slugs and personal names are unique for each user, and every membership is of a
  -- personal shelf of another user that exists.
  pub perform_all-IsConsistent :
      (os : List ShelfOperation) (d : Db) → IsConsistent d → IsConsistent (perform_all os d)
  unfolding perform_all
  perform_all-IsConsistent [] d v = v
  perform_all-IsConsistent (o ∷ os) d v =
      perform_all-IsConsistent os (perform o d) (perform-IsConsistent o d v)
