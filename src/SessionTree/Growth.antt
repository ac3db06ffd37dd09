-- ===== src/SessionTree/Growth.antt =====
-- Trees that appends and forks have grown.
use looplet.Prelude.{
  Bool-cases, List, Option, String, [], eq_refl, inl, inr, is_some, none, or_else, refl, some, true,
  ◌∙◌, ◌∷◌, ◌≡◌,
}
use looplet.Prelude.Dict.{Dict, insert, lookup, lookup-insert}
use looplet.SessionTree.{
  Entry, SessionTree, TreeNode, append, fork, new_node, parent_of, session_tree,
}

-- Nodes as appends put them there: a root, and then each node under one that is there already.
pub data Grown : Dict TreeNode → Type 0 where
  root : (n : TreeNode) → n.parent_id ≡ none → Grown ((n.id, n) ∷ [])
  grow :
      {nodes : Dict TreeNode} (n : TreeNode) (p : String)
      → Grown nodes
      → n.parent_id ≡ some p
      → is_some (lookup p nodes) ≡ true
      → lookup n.id nodes ≡ none
      → Grown (insert n.id n nodes)

-- A tree that appends have grown, with an active node that is in it.
pub record IsTree (tree : SessionTree) : Type 0 where
  pub grown : Grown tree.nodes
  pub active_known : is_some (lookup tree.active_id tree.nodes) ≡ true

pub lookup_new : {V : Type 0} → (k : String) (v : V) (d : Dict V) → lookup k (insert k v d) ≡ some v
lookup_new k v d = lookup-insert k k v d ∙ rw (eq_refl k)

session_tree-IsTree : (new_id label : String) → IsTree (session_tree new_id label)
unfolding session_tree
session_tree-IsTree new_id label = record {
  grown = root _ refl;
  active_known = rw (eq_refl new_id);
}

-- What an append under a fresh id leads to: it raises, or the tree it leaves is a tree.
abbrev pub Leads : Option (TreeNode × SessionTree) → Type 0
Leads none = Unit
Leads (some (n, tree)) = IsTree tree

append-Leads :
    (new_id : String) (entry : Entry) (tree : SessionTree)
    → IsTree tree
    → lookup new_id tree.nodes ≡ none
    → Leads (append new_id entry tree)
unfolding append
append-Leads new_id entry tree t fresh =
    elim (Bool-cases (is_some (lookup (parent_of entry tree) tree.nodes))) [
      | inr e ↦ rw e tt
      | inl e ↦ rw e (record {
        grown =
            grow (new_node new_id (parent_of entry tree) entry) (parent_of entry tree) t.grown refl
              e fresh;
        active_known =
            rw (lookup_new new_id (new_node new_id (parent_of entry tree) entry) tree.nodes);
      })
    ]

-- An operation on a tree; one that raises leaves the tree as it was.
pub data Change : Type 0 where
  appended : String → Entry → Change
  forked : String → Change

abbrev after_append : SessionTree → Option (TreeNode × SessionTree) → SessionTree
after_append tree none = tree
after_append tree (some (n, tree')) = tree'

unfoldable pub run_change : Change → SessionTree → SessionTree
run_change (appended new_id entry) tree = after_append tree (append new_id entry tree)
run_change (forked node_id) tree = or_else (fork node_id tree) tree

unfoldable pub run_changes : List Change → SessionTree → SessionTree
run_changes [] tree = tree
run_changes (c ∷ cs) tree = run_changes cs (run_change c tree)

abbrev pub IsFresh : Change → SessionTree → Type 0
IsFresh (appended new_id entry) tree = lookup new_id tree.nodes ≡ none
IsFresh (forked node_id) tree = Unit

-- every id that is drawn on the way is a new one
abbrev pub AllFresh : List Change → SessionTree → Type 0
AllFresh [] tree = Unit
AllFresh (c ∷ cs) tree = IsFresh c tree × AllFresh cs (run_change c tree)

after_append-IsTree :
    (tree : SessionTree) (o : Option (TreeNode × SessionTree))
    → IsTree tree
    → Leads o
    → IsTree (after_append tree o)
after_append-IsTree tree none t h = t
after_append-IsTree tree (some (n, tree')) t h = h

run_change-IsTree :
    (c : Change) (tree : SessionTree) → IsTree tree → IsFresh c tree → IsTree (run_change c tree)
unfolding run_change fork
run_change-IsTree (appended new_id entry) tree t h =
    after_append-IsTree tree (append new_id entry tree) t (append-Leads new_id entry tree t h)
run_change-IsTree (forked node_id) tree t h =
    elim (Bool-cases (is_some (lookup node_id tree.nodes))) [
      | inl e ↦ rw e (record { grown = t.grown; active_known = e })
      | inr e ↦ rw e t
    ]

-- From a tree, any sequence of appends and forks leads to a tree: every node but the root hangs under
-- an earlier node, and the active node is there. An operation that raises changes nothing, and each
-- id that is drawn is a new one.
pub run_changes-IsTree :
    (cs : List Change) (tree : SessionTree)
    → IsTree tree
    → AllFresh cs tree
    → IsTree (run_changes cs tree)
unfolding run_changes
run_changes-IsTree [] tree t h = t
run_changes-IsTree (c ∷ cs) tree t h =
    run_changes-IsTree cs (run_change c tree) (run_change-IsTree c tree t h.0) h.1
