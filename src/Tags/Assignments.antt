-- ===== src/Tags/Assignments.antt =====
-- The assignments of tags to entries under the changes that tag.js makes to the tables.
use infram.Prelude.{
  ℕ, ◌≡◌, refl, ◌∙◌, inl, inr, Bool, true, false, Option, List, [], ◌∷◌, ◌++◌, ◌==◌, any, destroy,
  update, arith, Bool-cases, any-append,
}
use infram.Tags.{Tag, EntryTag, is_tag, is_assigned, with_data}
use infram.Tags.Names.{none-destroy}

-- Every assignment is of a tag that is there, and there once.
abbrev pub AreAssigned : List Tag → List EntryTag → Type 0
AreAssigned tags [] = Unit
AreAssigned tags (l ∷ ls) =
    (any (is_tag l.tag_id) tags ≡ true)
    × (any (is_assigned l.entry_id l.tag_id) ls ≡ false)
    × AreAssigned tags ls

there-update :
    (id : ℕ) (name color : Option ℕ) (k : ℕ) (l : List Tag)
    → any (is_tag k) (update (is_tag id) (with_data name color) l) ≡ any (is_tag k) l
unfolding any update
there-update id name color k [] = refl
there-update id name color k (t ∷ l) = ground (arith, there-update id name color k l)

there-destroy :
    (id k : ℕ) (l : List Tag)
    → (k == id) ≡ false
    → any (is_tag k) (destroy (is_tag id) l) ≡ any (is_tag k) l
unfolding any destroy
there-destroy id k [] n = refl
there-destroy id k (t ∷ l) n = ground (arith, there-destroy id k l n)

pub assigned-tags :
    (tags more : List Tag) (ls : List EntryTag)
    → AreAssigned tags ls
    → AreAssigned (tags ++ more) ls
assigned-tags tags more [] a = tt
assigned-tags tags more (l ∷ ls) (h, once, a) =
    (any-append (is_tag l.tag_id) tags more ∙ ground arith, once, assigned-tags tags more ls a)

pub assigned-update :
    (id : ℕ) (name color : Option ℕ) (tags : List Tag) (ls : List EntryTag)
    → AreAssigned tags ls
    → AreAssigned (update (is_tag id) (with_data name color) tags) ls
assigned-update id name color tags [] a = tt
assigned-update id name color tags (l ∷ ls) (h, once, a) =
    (there-update id name color l.tag_id tags ∙ h, once, assigned-update id name color tags ls a)

pub assigned-destroy :
    (id : ℕ) (tags : List Tag) (ls : List EntryTag)
    → AreAssigned tags ls
    → AreAssigned (destroy (is_tag id) tags) (destroy (λ l. l.tag_id == id) ls)
unfolding destroy
assigned-destroy id tags [] a = tt
assigned-destroy id tags (l ∷ ls) (h, once, a) = elim (Bool-cases (l.tag_id == id)) [
  | inl y ↦ rw y (assigned-destroy id tags ls a)
  | inr n ↦ rw n (
    there-destroy id l.tag_id tags n ∙ h,
    none-destroy (is_assigned l.entry_id l.tag_id) (λ l. l.tag_id == id) ls once,
    assigned-destroy id tags ls a,
  )
]

pub assigned-keep :
    (q : EntryTag → Bool) (tags : List Tag) (ls : List EntryTag)
    → AreAssigned tags ls
    → AreAssigned tags (destroy q ls)
unfolding destroy
assigned-keep q tags [] a = tt
assigned-keep q tags (l ∷ ls) (h, once, a) = elim (Bool-cases (q l)) [
  | inl y ↦ rw y (assigned-keep q tags ls a)
  | inr n ↦
      rw n (h, none-destroy (is_assigned l.entry_id l.tag_id) q ls once, assigned-keep q tags ls a)
]

pub assigned-append :
    (n : EntryTag) (tags : List Tag) (ls : List EntryTag)
    → any (is_assigned n.entry_id n.tag_id) ls ≡ false
    → any (is_tag n.tag_id) tags ≡ true
    → AreAssigned tags ls
    → AreAssigned tags (ls ++ n ∷ [])
unfolding any
assigned-append n tags [] k t a = (t, refl, tt)
assigned-append n tags (l ∷ ls) k t (h, once, a) = (
  h,
  any-append (is_assigned l.entry_id l.tag_id) ls (n ∷ []) ∙ ground arith,
  assigned-append n tags ls (ground arith) t a,
)
