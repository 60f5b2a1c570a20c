-- ===== src/PrefixTree/Build.antt =====
-- A tree into which texts were inserted one by one, against the list of these texts.
use bre_utils.Prelude.{
  ℕ, ◌≡◌, ◌≢◌, refl, ap, ◌∙◌, Bool, true, false, ◌||◌, Option, some, List, [], ◌∷◌, Bytes, equal,
  starts_with, All, arith,
}
use bre_utils.PrefixTree.{Node, root, or_null, insert, search, start_with}
use bre_utils.PrefixTree.Words.{has_word, has_prefix, IsSafe, search_lem, start_with_lem}
use bre_utils.PrefixTree.Insert.{IsText, insert_lem, new_words, leaf_zeros, leaf-reads}

-- `insert` of each text in turn.
unfoldable pub insert_all : Node → List Bytes → Option Node
insert_all t [] = some t
insert_all t (s ∷ words) = or_null (insert t s) λ t'. insert_all t' words

-- Is the text among these? Does one of these start with it?
unfoldable pub member : Bytes → List Bytes → Bool
member q [] = false
member q (s ∷ words) = equal s q || member q words

unfoldable pub is_prefix_of_some : Bytes → List Bytes → Bool
is_prefix_of_some q [] = false
is_prefix_of_some q (s ∷ words) = starts_with q s || is_prefix_of_some q words

-- A text that is not empty and holds no zero character.
abbrev pub IsWord : Bytes → Type 0
IsWord s = IsText s × (s ≢ [])

record Built (t : Node) (words : List Bytes) : Type 0 where
  tree : Node
  done : insert_all t words ≡ some tree
  safe : IsSafe tree
  words_of : (q : Bytes) → has_word tree q ≡ (member q words || has_word t q)
  prefixes_of : (q : Bytes) → has_prefix tree q ≡ (is_prefix_of_some q words || has_prefix t q)

grown_from : (words : List Bytes) (t : Node) → IsSafe t → All IsWord words → Built t words
unfolding insert_all member is_prefix_of_some
grown_from [] t safe h = record {
  tree = t;
  done = refl;
  safe = safe;
  words_of = λ q. refl;
  prefixes_of = λ q. refl;
}
grown_from ([] ∷ words) t safe h = absurd (h.0.1 refl)
grown_from ((c ∷ s) ∷ words) t safe h =
    let (t', done, safe', w, p) = insert_lem t c s safe h.0.0 in
    let b = grown_from words t' safe' h.1 in
    record {
      tree = b.tree;
      done = rw (done, b.done);
      safe = b.safe;
      words_of = λ q. b.words_of q ∙ ground (arith, w q);
      prefixes_of = λ q. b.prefixes_of q ∙ ground (arith, p q);
    }

pub root-IsSafe : IsSafe root
root-IsSafe = leaf_zeros 0 false

-- After any texts, none empty and none with a zero character, went into a new tree, `search` finds a
-- text that is not empty exactly if it is one of them, and `startWith` exactly if one of them starts
-- with it. All the calls end, and none follows a null pointer or reads past the end of a text.
pub search-insert_all :
    (words : List Bytes) (c : ℕ) (q : Bytes)
    → All IsWord words
    → (t : Node) × (insert_all root words ≡ some t)
      × (search t (c ∷ q) ≡ some (member (c ∷ q) words))
      × (start_with t (c ∷ q) ≡ some (is_prefix_of_some (c ∷ q) words))
search-insert_all words c q h =
    let b = grown_from words root root-IsSafe h in
    (
      b.tree,
      b.done,
      search_lem b.tree c q b.safe
          ∙ ap some (b.words_of (c ∷ q) ∙ ground (arith, new_words 0 (c ∷ q))),
      start_with_lem b.tree c q b.safe
          ∙ ap some (b.prefixes_of (c ∷ q) ∙ ground (arith, leaf-reads (λ _. true) 0 false c q)),
    )
