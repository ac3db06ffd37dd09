-- ===== src/SessionTree/Tests.antt =====
-- A concrete session tree.
use looplet.Prelude.{List, Option, String, [], none, refl, reverse, some, ℕ, ◌∷◌, ◌≡◌}
use looplet.Prelude.Dict.{insert}
use looplet.Value.{end}
use looplet.SessionTree.{Entry, SessionTree, TreeNode, append, fork, path_to, reached}
use looplet.SessionTree.Growth.{
  IsTree, appended, forked, grow, root, run_change, run_changes, run_changes-IsTree,
}
use looplet.SessionTree.Path.{Above, path_to-Above}

abbrev entry_at : ℕ → Option String → Entry
entry_at n parent = record {
  step_num = n;
  tool = "bash";
  args_summary = "";
  error = none;
  parent_id = parent;
  label = "";
  extra = none;
}

abbrev node_at : String → Option String → ℕ → String → String → TreeNode
node_at id parent n tool label = record {
  id = id;
  parent_id = parent;
  step_num = n;
  tool = tool;
  args_summary = "";
  error = none;
  label = label;
  extra = end;
}

-- a root "r" with the steps "a" and, below it, "b"
abbrev grown : SessionTree
grown = record {
  nodes =
      ("r", node_at "r" none 0 "<root>" "root")
      ∷ ("a", node_at "a" (some "r") 1 "bash" "")
      ∷ ("b", node_at "b" (some "a") 2 "bash" "")
      ∷ [];
  children = ("r", "a" ∷ []) ∷ ("a", "b" ∷ []) ∷ ("b", []) ∷ [];
  root_id = "r";
  active_id = "b";
}

grown-IsTree : IsTree grown
grown-IsTree = record {
  grown =
      grow (node_at "b" (some "a") 2 "bash" "") "a"
        (grow (node_at "a" (some "r") 1 "bash" "") "r"
          (root (node_at "r" none 0 "<root>" "root") refl) refl refl refl)
        refl refl refl;
  active_known = refl;
}

path_to-Above_example :
    (chain : List TreeNode) × (path_to "b" grown ≡ reached (reverse chain)) × Above (some "b") chain
path_to-Above_example =
    path_to-Above grown "b" (node_at "b" (some "a") 2 "bash" "") grown-IsTree refl

-- the tree with a branch "c" beside "b"
abbrev branched : SessionTree
branched = record grown {
  nodes = insert "c" (node_at "c" (some "a") 3 "bash" "") grown.nodes;
  children = ("r", "a" ∷ []) ∷ ("a", "b" ∷ "c" ∷ []) ∷ ("b", []) ∷ ("c", []) ∷ [];
  active_id = "c";
}

run_changes-IsTree_example : IsTree (
    run_changes
      (forked "a" ∷ appended "c" (entry_at 3 none) ∷ appended "d" (entry_at 4 (some "z")) ∷ [])
      grown)
unfolding run_change fork append
run_changes-IsTree_example =
    run_changes-IsTree
      (forked "a" ∷ appended "c" (entry_at 3 none) ∷ appended "d" (entry_at 4 (some "z")) ∷ [])
      grown grown-IsTree (tt, (refl, (refl, tt)))
