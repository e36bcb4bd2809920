-- ===== src/Tags.antt =====
-- server/controllers/tag.js: the tags of an account, and the entries that have them. Names and
-- colours are numbers, since they are only compared; `none` stands for one that is missing or empty.
pub mod Names
pub mod Assignments
pub mod Calls
mod Tests
use infram.Prelude.{
  ℕ, Bool, true, false, not, ◌&&◌, ◌||◌, Option, none, some, List, [], ◌∷◌, ◌++◌, ◌==◌, is_some,
  if◌then◌else◌, any, find_one, find_all, destroy, update, Result, err, ok, or_err, guard, ◌>>=◌,
  ◌>>◌,
}
use infram.Folders.{Tree}
use infram.Entries.{entry_at, validate_entry_access}

pub record Tag : Type 0 where
  pub id : ℕ
  pub account_id : ℕ
  pub name : ℕ
  pub color : ℕ

pub record EntryTag : Type 0 where
  pub entry_id : ℕ
  pub tag_id : ℕ

pub record Tagging : Type 0 where
  pub tree : Tree
  pub tags : List Tag
  pub entry_tags : List EntryTag

abbrev pub is_tag : ℕ → Tag → Bool
is_tag id t = t.id == id

abbrev pub is_named : (account name : ℕ) → Tag → Bool
is_named account name t = t.account_id == account && t.name == name

-- `where: { accountId, name, id: { [Op.ne]: tagId } }`
abbrev pub is_taken : (account name id : ℕ) → Tag → Bool
is_taken account name id t = is_named account name t && not (t.id == id)

abbrev pub is_assigned : (entry tag : ℕ) → EntryTag → Bool
is_assigned entry tag l = l.entry_id == entry && l.tag_id == tag

unfoldable pub create_tag :
    (account fresh : ℕ) → (name color : Option ℕ) → Tagging → Result (Tagging × Tag)
create_tag account fresh name color v = do
  n ← or_err name 400
  c ← or_err color 400
  guard (not (any (is_named account n) v.tags)) 409
  let t : Tag = record { id = fresh; account_id = account; name = n; color = c }
  ok (record v { tags = v.tags ++ t ∷ [] }, t)

-- `findAll` in the order of the database, which is a parameter.
unfoldable pub list_tags : (ordered : List Tag → List Tag) → (account : ℕ) → Tagging → List Tag
list_tags ordered account v = ordered (find_all (λ t. t.account_id == account) v.tags)

abbrev or_old : Option ℕ → ℕ → ℕ
or_old none old = old
or_old (some n) old = n

-- Is the name changed to one that another tag of the account has?
abbrev pub is_clash : (account id : ℕ) → (name : Option ℕ) → Tag → List Tag → Bool
is_clash account id none t tags = false
is_clash account id (some n) t tags = not (n == t.name) && any (is_taken account n id) tags

abbrev pub with_data : (name color : Option ℕ) → Tag → Tag
with_data name color t = record t { name = or_old name t.name; color = or_old color t.color }

unfoldable pub update_tag : (account id : ℕ) → (name color : Option ℕ) → Tagging → Result Tagging
update_tag account id name color v = do
  t ← or_err (find_one (is_tag id) v.tags) 404
  guard (t.account_id == account) 403
  guard (not (is_clash account id name t v.tags)) 409
  ok (record v { tags = update (is_tag id) (with_data name color) v.tags })

unfoldable pub delete_tag : (account id : ℕ) → Tagging → Result Tagging
delete_tag account id v = do
  t ← or_err (find_one (is_tag id) v.tags) 404
  guard (t.account_id == account) 403
  ok (record v {
    tags = destroy (is_tag id) v.tags;
    entry_tags = destroy (λ l. l.tag_id == id) v.entry_tags;
  })

unfoldable pub assign_tag_to_entry : (account entry tag : ℕ) → Tagging → Result Tagging
assign_tag_to_entry account entry tag v = do
  e ← validate_entry_access account (entry_at entry v.tree.entries) v.tree
  t ← or_err (find_one (is_tag tag) v.tags) 404
  guard (t.account_id == account) 403
  guard (not (any (is_assigned entry tag) v.entry_tags)) 409
  ok (record v { entry_tags = v.entry_tags ++ record { entry_id = entry; tag_id = tag } ∷ [] })

unfoldable pub remove_tag_from_entry : (account entry tag : ℕ) → Tagging → Result Tagging
remove_tag_from_entry account entry tag v = do
  e ← validate_entry_access account (entry_at entry v.tree.entries) v.tree
  t ← or_err (find_one (is_tag tag) v.tags) 404
  guard (t.account_id == account) 403
  ok (record v { entry_tags = destroy (is_assigned entry tag) v.entry_tags })
