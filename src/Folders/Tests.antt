-- ===== src/Folders/Tests.antt =====
-- The theorems on folders at a concrete tree, and runs of an edit.
use infram.Prelude.{
  ℕ, suc, ◌≡◌, refl, inl, inr, none, some, [], ◌∷◌, Result, ok, err, arith, find_one, ◌==◌,
  Bool-cases,
}
use infram.Folders.{Folder, Tree, folder_at, climb, access}
use infram.Folders.Edit.{
  Edit, to_root, under, write, move, move_under, move_to_root, relocate, may_move, edit_folder,
}
use infram.Folders.Moves.{parent_of, IsTree, missing, root, child}
use infram.Folders.Loops.{edit_folder-IsTree}
use infram.Folders.Enough.{UniqueFolders, heights, edit_folder-total}

-- Folders 2 and 3 of account 1; 2 is below 3.
abbrev top : Folder
top = record { id = 3; name = 30; account_id = some 1; organization_id = none; parent_id = none }

abbrev below : Folder
below = record {
  id = 2;
  name = 20;
  account_id = some 1;
  organization_id = none;
  parent_id = some 3;
}

abbrev forest : Tree
forest = record {
  folders = top ∷ below ∷ [];
  entries = [];
  entry_identities = [];
  identities = [];
  members = [];
  manager = record { sessions = []; share_index = [] };
}

abbrev to_top : Edit
to_top = record { name = none; place = to_root none }

abbrev loop : Edit
loop = record { name = none; place = under 2 }

abbrev moved : Tree
moved = write 2 to_top forest

edit_folder-forest : edit_folder 5 1 2 to_top forest ≡ some (ok moved)
unfolding edit_folder folder_at find_one access move move_to_root relocate write
edit_folder-forest = refl

-- A folder is not moved below itself.
refused : edit_folder 5 1 3 loop forest ≡ some (err 400)
unfolding edit_folder folder_at find_one access move move_under may_move climb
refused = refl

forest-IsTree : IsTree forest.folders
unfolding parent_of folder_at find_one
forest-IsTree c = elim (Bool-cases (3 == c)) [
  | inl y ↦ root (ground arith)
  | inr n ↦ elim (Bool-cases (2 == c)) [
    | inl y ↦ child {p = 3} (ground arith) (root refl)
    | inr n' ↦ missing (ground arith)
  ]
]

forest-UniqueFolders : UniqueFolders forest.folders
unfolding folder_at find_one
forest-UniqueFolders f (inl e) = rw e refl
forest-UniqueFolders f (inr (inl e)) = rw e refl
forest-UniqueFolders f (inr (inr z)) = elim z [ ]

edit_folder-IsTree_example : IsTree moved.folders
edit_folder-IsTree_example =
    edit_folder-IsTree 5 1 2 to_top forest moved edit_folder-forest forest-IsTree

abbrev fuel : ℕ
fuel = suc (heights forest-IsTree forest.folders)

edit_folder-total_example : (r : Result Tree) × (edit_folder fuel 1 2 to_top forest ≡ some r)
edit_folder-total_example =
    edit_folder-total fuel 1 2 to_top forest forest-IsTree forest-UniqueFolders (omega arith)
