-- ===== src/Keys/Tests.antt =====
-- Keys that are close and keys that are not, and the theorems at concrete keys.
use kyb.Common.{
  ℕ, ◌≤◌, ◌≡◌, refl, none, some, [], ◌∷◌, codes, ◌==◌, length, leb, if◌then◌else◌, All,
  strip_prefix, text_cmp,
}
use kyb.Common.Sorts.{sort_by, insert_by}
use kyb.Keys.{
  key_shape, shape, edit_distance_within, last_row, first_row, next_row, least, near_keys,
  similar_keys,
}
use kyb.Keys.Distance.{lev, reverse_onto, edit_distance_within_lem}
use kyb.Keys.Similar.{IsNear, similar_keys_lem}

-- A run of digits is one mark, and the prefix of a task is dropped.
key_shape-digits : key_shape (codes "task-run14") ≡ codes "run#"
unfolding key_shape shape strip_prefix
key_shape-digits = refl

edit_distance_within-near : edit_distance_within (codes "kitten") (codes "sitting") 3 ≡ some 3
unfolding edit_distance_within last_row first_row next_row least
edit_distance_within-near = refl

edit_distance_within-far : edit_distance_within (codes "kitten") (codes "sitting") 2 ≡ none
unfolding edit_distance_within last_row first_row next_row least
edit_distance_within-far = refl

edit_distance_example :
    let d = lev (reverse_onto (codes "kitten") []) (reverse_onto (codes "sitting") []) in
    edit_distance_within (codes "kitten") (codes "sitting") 3 ≡ (if leb d 3 then some d else none)
edit_distance_example = edit_distance_within_lem (codes "kitten") (codes "sitting") 3

two_off : ℕ → ℕ
two_off n = 2

-- A near twin is named, and the next of a series is not.
similar_keys-twin :
    similar_keys two_off (codes "run-1") (codes "run-2" ∷ codes "runs-1" ∷ codes "other" ∷ [])
    ≡ codes "runs-1" ∷ []
unfolding similar_keys near_keys two_off edit_distance_within last_row first_row next_row least
    key_shape shape strip_prefix ◌==◌ sort_by insert_by text_cmp
similar_keys-twin = refl

similar_keys_example :
    All
      (IsNear two_off (codes "run-1") (codes "run-2" ∷ codes "runs-1" ∷ []))
      (similar_keys two_off (codes "run-1") (codes "run-2" ∷ codes "runs-1" ∷ []))
    × (length (similar_keys two_off (codes "run-1") (codes "run-2" ∷ codes "runs-1" ∷ [])) ≤ 3)
similar_keys_example =
    similar_keys_lem two_off (codes "run-1") (codes "run-2" ∷ codes "runs-1" ∷ [])
