-- ===== src/Tags/Calls.antt =====
-- What the calls of tag.js keep.
use infram.Prelude.{
  ℕ, ◌≡◌, subst, ap, ◌∙◌, inl, inr, true, false, not, Option, none, some, List, [], ◌∷◌, ◌==◌, any,
  find_one, update, arith, Bool-cases, Result, ok, or_err, or_err-ok, bind-ok, guard-ok,
  ok-injective, ◌>>=◌,
}
use infram.Entries.{entry_at, validate_entry_access}
use infram.Tags.{
  Tag, Tagging, is_tag, is_named, is_assigned, is_clash, with_data, create_tag, update_tag,
  delete_tag, assign_tag_to_entry, remove_tag_from_entry,
}
use infram.Tags.Names.{
  UniqueTags, unique-append, unique-destroy, unique-rename, unique-recolor, none_foreign,
}
use infram.Tags.Assignments.{
  AreAssigned, assigned-tags, assigned-update, assigned-destroy, assigned-keep, assigned-append,
}

-- A request of an account.
pub data Call : Type 0 where
  creates : (name color : Option ℕ) → Call
  updates : (id : ℕ) (name color : Option ℕ) → Call
  deletes : (id : ℕ) → Call
  assigns : (entry tag : ℕ) → Call
  removes : (entry tag : ℕ) → Call

abbrev pub perform : (account fresh : ℕ) → Call → Tagging → Result Tagging
perform account fresh (creates name color) v = create_tag account fresh name color v >>= λ r. ok r.0
perform account fresh (updates id name color) v = update_tag account id name color v
perform account fresh (deletes id) v = delete_tag account id v
perform account fresh (assigns entry tag) v = assign_tag_to_entry account entry tag v
perform account fresh (removes entry tag) v = remove_tag_from_entry account entry tag v

-- An account has no two tags of one name, no two tags have one identifier, and the entries have
-- tags that are there, each once.
abbrev pub IsSound : Tagging → Type 0
IsSound v = UniqueTags v.tags × AreAssigned v.tags v.entry_tags

unique-update :
    (account id : ℕ) (name color : Option ℕ) (t : Tag) (l : List Tag)
    → UniqueTags l
    → find_one (is_tag id) l ≡ some t
    → (t.account_id == account) ≡ true
    → not (is_clash account id name t l) ≡ true
    → UniqueTags (update (is_tag id) (with_data name color) l)
unique-update account id none color t l u e g c = unique-recolor id color l u
unique-update account id (some n) color t l u e g c =
    let (f, k) = none_foreign id t l u e in
    let same : t.account_id ≡ account = ground arith in
    let f' = rw same at f in
    let k' = rw same at k in
    elim (Bool-cases (n == t.name)) [
      | inl y ↦
          let it : n ≡ t.name = ground arith in unique-rename account id n color l (rw it k') f' u
      | inr d ↦ unique-rename account id n color l (ground arith) f' u
    ]

there :
    (id : ℕ) (t : Tag) (l : List Tag) → find_one (is_tag id) l ≡ some t → any (is_tag id) l ≡ true
unfolding find_one any
there id t [] e = ground arith
there id t (s ∷ l) e = ground (arith, there id t l)

create_tag-IsSound :
    (account fresh : ℕ) (name color : Option ℕ) (v w : Tagging)
    → any (is_tag fresh) v.tags ≡ false
    → IsSound v
    → perform account fresh (creates name color) v ≡ ok w
    → IsSound w
unfolding create_tag
create_tag-IsSound account fresh name color v w f (u, a) h =
    let (r, e, h0) = bind-ok (create_tag account fresh name color v) _ h in
    let (n, e1, h1) = bind-ok (or_err name 400) _ e in
    let (c, e2, h2) = bind-ok (or_err color 400) _ h1 in
    let (g, h3) = guard-ok (not (any (is_named account n) v.tags)) 409 _ h2 in
    let t : Tag = record { id = fresh; account_id = account; name = n; color = c } in
    let one = ap (λ x. x.0) (ok-injective h3) ∙ ok-injective h0 in
    subst IsSound one
      (unique-append t v.tags (ground arith) f u, assigned-tags v.tags (t ∷ []) v.entry_tags a)

-- The names of an account's tags stay different, and the assignments stay of tags that are there,
-- whatever a request for tags does. A new tag's identifier is assumed to be of no other tag.
pub perform-IsSound :
    (account fresh : ℕ) (c : Call) (v w : Tagging)
    → any (is_tag fresh) v.tags ≡ false
    → IsSound v
    → perform account fresh c v ≡ ok w
    → IsSound w
unfolding update_tag delete_tag assign_tag_to_entry remove_tag_from_entry
perform-IsSound account fresh (creates name color) v w f a h =
    create_tag-IsSound account fresh name color v w f a h
perform-IsSound account fresh (updates id name color) v w f (u, a) h =
    let (t, e, h1) = bind-ok (or_err (find_one (is_tag id) v.tags) 404) _ h in
    let (g, h2) = guard-ok (t.account_id == account) 403 _ h1 in
    let (c, h3) = guard-ok (not (is_clash account id name t v.tags)) 409 _ h2 in
    subst IsSound (ok-injective h3) (
      unique-update account id name color t v.tags u (or_err-ok _ 404 t e) g c,
      assigned-update id name color v.tags v.entry_tags a,
    )
perform-IsSound account fresh (deletes id) v w f (u, a) h =
    let (t, e, h1) = bind-ok (or_err (find_one (is_tag id) v.tags) 404) _ h in
    let (g, h2) = guard-ok (t.account_id == account) 403 _ h1 in
    subst IsSound (ok-injective h2)
      (unique-destroy (is_tag id) v.tags u, assigned-destroy id v.tags v.entry_tags a)
perform-IsSound account fresh (assigns entry tag) v w f (u, a) h =
    let (x, e0, h0) =
      bind-ok (validate_entry_access account (entry_at entry v.tree.entries) v.tree) _ h in
    let (t, e, h1) = bind-ok (or_err (find_one (is_tag tag) v.tags) 404) _ h0 in
    let (g, h2) = guard-ok (t.account_id == account) 403 _ h1 in
    let (k, h3) = guard-ok (not (any (is_assigned entry tag) v.entry_tags)) 409 _ h2 in
    subst IsSound (ok-injective h3) (
      u,
      assigned-append (record { entry_id = entry; tag_id = tag }) v.tags v.entry_tags (ground arith)
          (there tag t v.tags (or_err-ok _ 404 t e)) a,
    )
perform-IsSound account fresh (removes entry tag) v w f (u, a) h =
    let (x, e0, h0) =
      bind-ok (validate_entry_access account (entry_at entry v.tree.entries) v.tree) _ h in
    let (t, e, h1) = bind-ok (or_err (find_one (is_tag tag) v.tags) 404) _ h0 in
    let (g, h2) = guard-ok (t.account_id == account) 403 _ h1 in
    subst IsSound (ok-injective h2) (u, assigned-keep (is_assigned entry tag) v.tags v.entry_tags a)
