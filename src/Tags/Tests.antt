-- ===== src/Tags/Tests.antt =====
-- The theorem on tags at a concrete input.
use infram.Prelude.{ℕ, ◌≡◌, refl, none, some, [], ◌∷◌, any, ok, err, find_one, update}
use infram.Entries.Tests.{estate}
use infram.Tags.{Tag, Tagging, update_tag}
use infram.Tags.Calls.{updates, IsSound, perform-IsSound}

abbrev tag : (id name : ℕ) → Tag
tag id name = record { id = id; account_id = 1; name = name; color = 7 }

-- Two tags of account 1, the first one on entry 8.
abbrev tagged : Tagging
tagged = record {
  tree = estate;
  tags = tag 1 20 ∷ tag 2 30 ∷ [];
  entry_tags = record { entry_id = 8; tag_id = 1 } ∷ [];
}

abbrev renamed_tag : Tagging
renamed_tag = record tagged { tags = tag 1 40 ∷ tag 2 30 ∷ [] }

update_tag-tagged : update_tag 1 1 (some 40) none tagged ≡ ok renamed_tag
unfolding update_tag find_one any update
update_tag-tagged = refl

-- A name of another tag of the account is refused.
update_tag-taken : update_tag 1 1 (some 30) none tagged ≡ err 409
unfolding update_tag find_one any
update_tag-taken = refl

tagged-IsSound : IsSound tagged
unfolding any
tagged-IsSound = ((refl, (refl, tt)), (refl, refl, tt))

perform-IsSound_example : IsSound renamed_tag
unfolding any
perform-IsSound_example =
    perform-IsSound 1 3 (updates 1 (some 40) none) tagged renamed_tag refl tagged-IsSound
      update_tag-tagged
