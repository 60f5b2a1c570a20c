-- ===== src/PrefixTree.antt =====
-- breUtils/prefixTree.hpp: `Node` and `PrefixTree`. Each node is owned by one parent, so a pointer
-- walk that changes a node is a function that rebuilds the path to it. A `char` and the `char32_t`
-- that it converts to are one number here: the conversion is injective. The members `times` and
-- `vecContains` are never used. `none` is a run that C++ leaves undefined: a read behind the
-- terminating zero of the text, or of a null pointer.
pub mod Words
pub mod Insert
pub mod Build
mod Tests
use bre_utils.Prelude.{
  ℕ, Bool, true, false, ◌&&◌, ◌||◌, Option, none, some, List, [], ◌∷◌, ◌++◌, Bytes, ◌==◌,
  if◌then◌else◌,
}

-- `word`, `isWord` and `nodes`.
mutual
  pub data Node : Type 0 where
    node : ℕ → Bool → Nodes → Node

  pub data Nodes : Type 0 where
    nil : Nodes
    cons : Node → Nodes → Nodes

abbrev pub word : Node → ℕ
word (node w e ns) = w

abbrev pub is_end : Node → Bool
is_end (node w e ns) = e

abbrev pub nodes : Node → Nodes
nodes (node w e ns) = ns

unfoldable pub set_end : Node → Node
set_end (node w e ns) = node w true ns

-- `Node(ch)`
abbrev pub new_node : ℕ → Node
new_node ch = node ch false nil

unfoldable pub get_index_at_char : Nodes → ℕ → Option Node
get_index_at_char nil ch = none
get_index_at_char (cons n ns) ch = if word n == ch then some n else get_index_at_char ns ch

unfoldable pub contain : Nodes → ℕ → Bool
contain nil ch = false
contain (cons n ns) ch = word n == ch || contain ns ch

-- `nodes.push_back`
unfoldable pub push_back : Nodes → Node → Nodes
push_back nil n = cons n nil
push_back (cons m ns) n = cons m (push_back ns n)

-- The children with the one that `getIndexAtChar` points to changed into `n`.
unfoldable pub update : Nodes → ℕ → Node → Nodes
update nil ch n = nil
update (cons m ns) ch n = if word m == ch then cons n ns else cons m (update ns ch n)

-- The second loop of `insert` and `setEnd`: a chain of new nodes for the rest of the text.
unfoldable pub grow : Node → Bytes → Node
unfolding set_end push_back
grow n [] = set_end n
grow (node w e ns) (c ∷ cs) = node w e (push_back ns (grow (new_node c) cs))

abbrev pub or_null {ℓ} : {A : Type ℓ} → Option Node → (Node → Option A) → Option A
or_null none k = none
or_null (some n) k = k n

abbrev pub map_some {ℓ κ} : {A : Type ℓ} {B : Type κ} → (A → B) → Option A → Option B
map_some f none = none
map_some f (some a) = some (f a)

-- `insert` from the node `p` on. At the end of the text the first loop reads its terminating zero:
-- with a child for it the next read is out of range.
unfoldable pub insert_at : Node → Bytes → Option Node
unfolding grow contain get_index_at_char update
insert_at (node w e ns) [] = if contain ns 0 then none else some (grow (node w e ns) [])
insert_at (node w e ns) (c ∷ cs) =
    let deeper =
      or_null (get_index_at_char ns c)
        λ p. map_some (λ p'. node w e (update ns c p')) (insert_at p cs) in
    if contain ns c then deeper else some (grow (node w e ns) (c ∷ cs))

-- Where the loop of `search` and `startWith` stops: the text that is left and the node.
unfoldable pub walk : Node → Bytes → Option (Bytes × Node)
unfolding contain get_index_at_char
walk n [] = if contain (nodes n) 0 then none else some ([], n)
walk n (c ∷ cs) =
    let deeper = or_null (get_index_at_char (nodes n) c) λ p. walk p cs in
    if contain (nodes n) c then deeper else some (c ∷ cs, n)

abbrev pub is_nil : Bytes → Bool
is_nil [] = true
is_nil (c ∷ cs) = false

-- `PrefixTree()`
abbrev pub root : Node
root = new_node 0

unfoldable pub insert : Node → Bytes → Option Node
insert t [] = some t
insert t (c ∷ cs) = insert_at t (c ∷ cs)

unfoldable pub search : Node → Bytes → Option Bool
search t [] = some false
search t (c ∷ cs) = map_some (λ (rest, p). is_nil rest && is_end p) (walk t (c ∷ cs))

unfoldable pub start_with : Node → Bytes → Option Bool
start_with t [] = some false
start_with t (c ∷ cs) = map_some (λ (rest, p). is_nil rest) (walk t (c ∷ cs))
