-- ===== src/PrefixTree/Tests.antt =====
-- Runs of `PrefixTree`, and the theorems at inputs that meet their hypotheses.
use bre_utils.Prelude.{◌≡◌, refl, true, false, none, some, List, [], ◌∷◌, Bytes, codes, arith}
use bre_utils.PrefixTree.{Node, root, insert, search, start_with, or_null, insert_at, walk}
use bre_utils.PrefixTree.Build.{insert_all, member, is_prefix_of_some, search-insert_all}

abbrev words : List Bytes
words = codes "tea" ∷ codes "ten" ∷ codes "in" ∷ []

searches :
    (or_null (insert_all root words) (λ t. search t (codes "ten")) ≡ some true)
    × (or_null (insert_all root words) (λ t. search t (codes "te")) ≡ some false)
    × (or_null (insert_all root words) (λ t. start_with t (codes "te")) ≡ some true)
    × (or_null (insert_all root words) (λ t. start_with t (codes "tend")) ≡ some false)
unfolding insert_all insert insert_at search start_with walk
searches = (refl, refl, refl, refl)

-- A zero character in the tree: the walk reads on behind the end of a shorter text.
zero_character : or_null (insert root (b'a' ∷ 0 ∷ [])) (λ t. search t (b'a' ∷ [])) ≡ none
unfolding insert insert_at search walk
zero_character = refl

search-insert_all_example :
    (t : Node) × (insert_all root words ≡ some t)
    × (search t (codes "ten") ≡ some (member (codes "ten") words))
    × (start_with t (codes "ten") ≡ some (is_prefix_of_some (codes "ten") words))
search-insert_all_example = search-insert_all words b't' (codes "en") (ground arith)
