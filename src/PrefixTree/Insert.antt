-- ===== src/PrefixTree/Insert.antt =====
-- What `insert` adds to a tree: one word, and the prefixes of it.
use bre_utils.Prelude.{
  ℕ, ◌≡◌, ◌≢◌, refl, ap, ◌∙◌, Bool, true, false, ◌||◌, Option, none, some, [], ◌∷◌, Bytes, ◌==◌,
  if◌then◌else◌, equal, starts_with, All, arith, Bool-cases, inl, inr,
}
use bre_utils.PrefixTree.{
  Node, node, Nodes, nil, cons, word, is_end, new_node, get_index_at_char, contain, push_back,
  update, set_end, grow, insert_at, insert,
}
use bre_utils.PrefixTree.Words.{
  at_child, reads, has_word, has_prefix, has_zero, IsSafe, IsSafe-child, contain-none, contain-some,
}

-- Characters of a text: none is the terminating zero.
abbrev pub IsText : Bytes → Type 0
IsText = All (λ c. c ≢ 0)

get-push_back :
    (ns : Nodes) (n : Node) (d : ℕ)
    → get_index_at_char ns (word n) ≡ none
    → get_index_at_char (push_back ns n) d
      ≡ (if word n == d then some n else get_index_at_char ns d)
unfolding get_index_at_char push_back
get-push_back nil n d h = refl
get-push_back (cons m ns) n d h = ground (arith, get-push_back ns n d)

contain-push_back :
    (ns : Nodes) (n : Node) (d : ℕ) → contain (push_back ns n) d ≡ (contain ns d || word n == d)
unfolding contain push_back
contain-push_back nil n d = ground arith
contain-push_back (cons m ns) n d = ground (arith, contain-push_back ns n d)

get-update :
    (ns : Nodes) (c : ℕ) (n : Node) (d : ℕ)
    → contain ns c ≡ true
    → word n ≡ c
    → get_index_at_char (update ns c n) d ≡ (if c == d then some n else get_index_at_char ns d)
unfolding get_index_at_char update contain
get-update nil c n d h e = cc
get-update (cons m ns) c n d h e = ground (arith, get-update ns c n d)

contain-update :
    (ns : Nodes) (c : ℕ) (n : Node) (d : ℕ) → word n ≡ c → contain (update ns c n) d ≡ contain ns d
unfolding update contain
contain-update nil c n d e = refl
contain-update (cons m ns) c n d e = ground (arith, contain-update ns c n d)

word-grow : (n : Node) (s : Bytes) → word (grow n s) ≡ word n
unfolding grow set_end
word-grow (node w e ns) [] = refl
word-grow (node w e ns) (c ∷ s) = refl

-- What a tree reads after a word went in, against the tree, or the place, that was there before.
record Inserted (o : Option Node) (s : Bytes) (t' : Node) : Type 0 where
  words : (q : Bytes) → has_word t' q ≡ (equal s q || at_child o (λ t. has_word t q))
  prefixes : (q : Bytes) → has_prefix t' q ≡ (starts_with q s || at_child o (λ t. has_prefix t q))
  zeros : (q : Bytes) → reads has_zero t' q ≡ at_child o (λ t. reads has_zero t q)

-- A node whose child for `c` now holds the rest of the word.
module _ (w : ℕ) (e : Bool) (ns ns' : Nodes) (c : ℕ) (s : Bytes) {o : Option Node} {p' : Node}
    (old : get_index_at_char ns c ≡ o)
    (new : (d : ℕ) → get_index_at_char ns' d ≡ (if c == d then some p' else get_index_at_char ns d))
    (zero_child : contain ns' 0 ≡ contain ns 0) (child : Inserted o s p') where
  step_words :
      (q : Bytes) → has_word (node w e ns') q ≡ (equal (c ∷ s) q || has_word (node w e ns) q)
  unfolding reads equal
  step_words [] = refl
  step_words (d ∷ q) = ground (arith, new d, child.words q, old)

  step_prefixes :
      (q : Bytes)
      → has_prefix (node w e ns') q ≡ (starts_with q (c ∷ s) || has_prefix (node w e ns) q)
  unfolding reads starts_with
  step_prefixes [] = refl
  step_prefixes (d ∷ q) = ground (arith, new d, child.prefixes q, old)

  step_zeros : (q : Bytes) → reads has_zero (node w e ns') q ≡ reads has_zero (node w e ns) q
  unfolding reads
  step_zeros [] = zero_child
  step_zeros (d ∷ q) = ground (arith, new d, child.zeros q, old)

  step_Inserted : Inserted (some (node w e ns)) (c ∷ s) (node w e ns')
  step_Inserted = record { words = step_words; prefixes = step_prefixes; zeros = step_zeros }

-- A new child at the end of the list, for a character that had none.
push_back-Inserted :
    (w : ℕ) (e : Bool) (ns : Nodes) (c : ℕ) (s : Bytes) {n : Node}
    → get_index_at_char ns c ≡ none
    → c ≢ 0
    → word n ≡ c
    → Inserted none s n
    → Inserted (some (node w e ns)) (c ∷ s) (node w e (push_back ns n))
push_back-Inserted w e ns c s {n} old ne wn child =
    step_Inserted w e ns (push_back ns n) c s old
      (λ d. ground (arith, get-push_back ns n d (ap (get_index_at_char ns) wn ∙ old)))
      (ground (arith, contain-push_back ns n 0)) child

-- A node with no children reads nothing but the empty text.
module _ (end : Node → Bool) (c : ℕ) (b : Bool) where
  pub leaf-reads : (d : ℕ) (q : Bytes) → reads end (node c b nil) (d ∷ q) ≡ false
  unfolding reads get_index_at_char
  leaf-reads d q = refl

pub leaf_zeros : (c : ℕ) (b : Bool) (q : Bytes) → reads has_zero (node c b nil) q ≡ false
unfolding reads contain
leaf_zeros c b [] = refl
leaf_zeros c b (d ∷ q) = leaf-reads has_zero c b d q

pub new_words : (c : ℕ) (q : Bytes) → has_word (new_node c) q ≡ false
unfolding reads
new_words c [] = refl
new_words c (d ∷ q) = leaf-reads is_end c false d q

leaf_words : (c : ℕ) (q : Bytes) → has_word (node c true nil) q ≡ (equal [] q || false)
unfolding reads equal
leaf_words c [] = refl
leaf_words c (d ∷ q) = leaf-reads is_end c true d q

leaf_prefixes : (c : ℕ) (q : Bytes) → has_prefix (node c true nil) q ≡ (starts_with q [] || false)
unfolding reads starts_with
leaf_prefixes c [] = refl
leaf_prefixes c (d ∷ q) = leaf-reads (λ _. true) c true d q

new_prefixes :
    (c : ℕ) (s q : Bytes)
    → (starts_with q s || has_prefix (new_node c) q) ≡ (starts_with q s || false)
unfolding starts_with
new_prefixes c s [] = refl
new_prefixes c s (d ∷ q) = rw (leaf-reads (λ _. true) c false d q)

-- A chain of new nodes holds one word.
grow_new : (c : ℕ) (s : Bytes) → IsText s → Inserted none s (grow (new_node c) s)
unfolding grow set_end
grow_new c [] h = record {
  words = leaf_words c;
  prefixes = leaf_prefixes c;
  zeros = leaf_zeros c true;
}
grow_new c (d ∷ s) h =
    let i =
      push_back-Inserted c false nil d s {n = grow (new_node d) s}
        (unfold get_index_at_char in refl) h.0 (word-grow (new_node d) s) (grow_new d s h.1) in
    record {
      words = λ q. i.words q ∙ ap (λ b. equal (d ∷ s) q || b) (new_words c q);
      prefixes = λ q. i.prefixes q ∙ new_prefixes c (d ∷ s) q;
      zeros = λ q. i.zeros q ∙ leaf_zeros c false q;
    }

record Done (t : Node) (s : Bytes) : Type 0 where
  tree : Node
  done : insert_at t s ≡ some tree
  same_word : word tree ≡ word t
  inserted : Inserted (some t) s tree

module _ (w : ℕ) (e : Bool) (ns : Nodes) where
  end_words : (q : Bytes) → has_word (node w true ns) q ≡ (equal [] q || has_word (node w e ns) q)
  unfolding reads equal
  end_words [] = refl
  end_words (d ∷ q) = refl

  end_prefixes :
      (q : Bytes) → has_prefix (node w true ns) q ≡ (starts_with q [] || has_prefix (node w e ns) q)
  unfolding reads starts_with
  end_prefixes [] = refl
  end_prefixes (d ∷ q) = refl

  end_zeros : (q : Bytes) → reads has_zero (node w true ns) q ≡ reads has_zero (node w e ns) q
  unfolding reads
  end_zeros [] = refl
  end_zeros (d ∷ q) = refl

  no_zero : IsSafe (node w e ns) → contain ns 0 ≡ false
  unfolding reads
  no_zero safe = safe []

-- `insert` on a safe tree and a text ends, and adds the word.
insert_at_Done : (s : Bytes) (t : Node) → IsSafe t → IsText s → Done t s
unfolding insert_at grow set_end
insert_at_Done [] (node w e ns) safe h = record {
  tree = node w true ns;
  done = rw (no_zero w e ns safe);
  same_word = refl;
  inserted = record {
    words = end_words w e ns;
    prefixes = end_prefixes w e ns;
    zeros = end_zeros w e ns;
  };
}
insert_at_Done (c ∷ s) (node w e ns) safe h = elim (Bool-cases (contain ns c)) [
  | inl k ↦
      let (p, f, g) = contain-some ns c k in
      let d = insert_at_Done s p (IsSafe-child (node w e ns) c safe f) h.1 in
      record {
        tree = node w e (update ns c d.tree);
        done = rw (k, f, d.done);
        same_word = refl;
        inserted =
            step_Inserted w e ns (update ns c d.tree) c s f
              (λ x. get-update ns c d.tree x k (d.same_word ∙ g))
              (contain-update ns c d.tree 0 (d.same_word ∙ g)) d.inserted;
      }
  | inr k ↦ record {
    tree = grow (node w e ns) (c ∷ s);
    done = rw k;
    same_word = refl;
    inserted =
        push_back-Inserted w e ns c s (contain-none ns c k) h.0 (word-grow (new_node c) s)
          (grow_new c s h.1);
  }
]

-- `insert` of a text that is not empty, on a tree with no node for the zero character, ends. The
-- tree then has just one more word, and just the prefixes of that word more, and still no such node.
pub insert_lem :
    (t : Node) (c : ℕ) (s : Bytes)
    → IsSafe t
    → IsText (c ∷ s)
    → (t' : Node) × (insert t (c ∷ s) ≡ some t')
      × IsSafe t'
      × ((q : Bytes) → has_word t' q ≡ (equal (c ∷ s) q || has_word t q))
      × ((q : Bytes) → has_prefix t' q ≡ (starts_with q (c ∷ s) || has_prefix t q))
unfolding insert
insert_lem t c s safe h =
    let d = insert_at_Done (c ∷ s) t safe h in
    (d.tree, d.done, λ q. d.inserted.zeros q ∙ safe q, d.inserted.words, d.inserted.prefixes)
