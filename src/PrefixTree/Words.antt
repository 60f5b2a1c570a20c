-- ===== src/PrefixTree/Words.antt =====
-- The words and prefixes that a tree holds, with no fault: what `search` and `startWith` return on
-- a tree with no node for the zero character.
use bre_utils.Prelude.{
  ℕ, ◌≡◌, refl, ap, ◌∙◌, sym, Bool, true, false, ◌&&◌, Option, none, some, [], ◌∷◌, Bytes, ◌==◌,
  arith, Bool-cases, inl, inr,
}
use bre_utils.PrefixTree.{
  Node, Nodes, nil, cons, word, is_end, nodes, get_index_at_char, contain, map_some, walk, is_nil,
  search, start_with,
}

abbrev pub at_child : Option Node → (Node → Bool) → Bool
at_child none k = false
at_child (some p) k = k p

-- The reading of a text below a node; `end` is asked of the node where the text ends.
unfoldable pub reads : (Node → Bool) → Node → Bytes → Bool
reads end n [] = end n
reads end n (c ∷ cs) = at_child (get_index_at_char (nodes n) c) (λ p. reads end p cs)

-- The words of a tree, and the prefixes of its words.
abbrev pub has_word : Node → Bytes → Bool
has_word = reads is_end

abbrev pub has_prefix : Node → Bytes → Bool
has_prefix = reads (λ _. true)

abbrev pub has_zero : Node → Bool
has_zero p = contain (nodes p) 0

-- No node has a child for the zero character.
abbrev pub IsSafe : Node → Type 0
IsSafe t = (q : Bytes) → reads has_zero t q ≡ false

pub contain-none : (ns : Nodes) (c : ℕ) → contain ns c ≡ false → get_index_at_char ns c ≡ none
unfolding contain get_index_at_char
contain-none nil c h = refl
contain-none (cons n ns) c h = ground (arith, contain-none ns c)

pub contain-some :
    (ns : Nodes) (c : ℕ)
    → contain ns c ≡ true
    → (p : Node) × (get_index_at_char ns c ≡ some p) × (word p ≡ c)
unfolding contain get_index_at_char
contain-some nil c h = absurd (cc)
contain-some (cons n ns) c h = elim (Bool-cases (word n == c)) [
  | inl e ↦ (n, rw e, ground arith)
  | inr e ↦ let (p, f, g) = contain-some ns c (ground arith) in (p, rw e f, g)
]

pub IsSafe-child :
    (t : Node) {p : Node} (c : ℕ) → IsSafe t → get_index_at_char (nodes t) c ≡ some p → IsSafe p
unfolding reads
IsSafe-child t {p} c safe e q =
    ap (λ o. at_child o (λ n. reads has_zero n q)) (sym e) ∙ safe (c ∷ q)

-- Where the walk of a safe tree ends tells what the tree reads.
pub walk-reads :
    (end : Node → Bool) (q : Bytes) (t : Node)
    → IsSafe t
    → map_some (λ (r : Bytes × Node). is_nil r.0 && end r.1) (walk t q) ≡ some (reads end t q)
unfolding walk reads
walk-reads end [] t safe = rw (safe [])
walk-reads end (c ∷ q) t safe = elim (Bool-cases (contain (nodes t) c)) [
  | inl e ↦
      let (p, f, g) = contain-some (nodes t) c e in
      rw (e, f) (walk-reads end q p (IsSafe-child t c safe f))
  | inr e ↦ rw (e, contain-none (nodes t) c e)
]

map_is_nil :
    (o : Option (Bytes × Node))
    → map_some (λ (r : Bytes × Node). is_nil r.0) o
      ≡ map_some (λ (r : Bytes × Node). is_nil r.0 && true) o
map_is_nil none = refl
map_is_nil (some ([], p)) = refl
map_is_nil (some (c ∷ q, p)) = refl

-- On a safe tree `search` finds exactly the words, and `startWith` the prefixes, of a text that is
-- not empty.
pub search_lem :
    (t : Node) (c : ℕ) (q : Bytes) → IsSafe t → search t (c ∷ q) ≡ some (has_word t (c ∷ q))
unfolding search
search_lem t c q safe = walk-reads is_end (c ∷ q) t safe

pub start_with_lem :
    (t : Node) (c : ℕ) (q : Bytes) → IsSafe t → start_with t (c ∷ q) ≡ some (has_prefix t (c ∷ q))
unfolding start_with
start_with_lem t c q safe = map_is_nil (walk t (c ∷ q)) ∙ walk-reads (λ _. true) (c ∷ q) t safe
