-- ===== src/SessionTree.antt =====
-- The branching history of runs: `TreeNode` and `SessionTree` of src/looplet/session_tree.py. A new
-- id (`uuid4`) is an argument of what draws it; the time stamp of a node is left out.
pub mod Growth
pub mod Path
mod Tests
use looplet.Prelude.{
  List, Option, String, [], if◌then◌else◌, is_some, keep_if, leb, length, none, or_else, reverse,
  some, str_eq, suc, zero, ℕ, ◌++◌, ◌∷◌,
}
use looplet.Prelude.Dict.{Dict, insert, lookup}
use looplet.Value.{Fields, end}

pub record TreeNode : Type 0 where
  pub id : String
  pub parent_id : Option String
  pub step_num : ℕ
  pub tool : String
  pub args_summary : String
  pub error : Option String
  pub label : String
  pub extra : Fields

pub record SessionTree : Type 0 where
  pub nodes : Dict TreeNode
  pub children : Dict (List String)
  pub root_id : String
  pub active_id : String

-- the constructor
unfoldable pub session_tree : String → String → SessionTree
session_tree new_id root_label = record {
  nodes =
      (
        new_id,
        record {
          id = new_id;
          parent_id = none;
          step_num = 0;
          tool = "<root>";
          args_summary = "";
          error = none;
          label = root_label;
          extra = end;
        },
      )
      ∷ [];
  children = (new_id, []) ∷ [];
  root_id = new_id;
  active_id = new_id;
}

-- the keyword arguments of `append`
pub record Entry : Type 0 where
  pub step_num : ℕ
  pub tool : String
  pub args_summary : String
  pub error : Option String
  pub parent_id : Option String
  pub label : String
  pub extra : Option Fields

-- `parent_id or self._active_id`
abbrev pub parent_of : Entry → SessionTree → String
parent_of entry tree = elim entry.parent_id [
  | none ↦ tree.active_id
  | some p ↦ if str_eq p "" then tree.active_id else p
]

abbrev pub new_node : String → String → Entry → TreeNode
new_node new_id parent entry = record {
  id = new_id;
  parent_id = some parent;
  step_num = entry.step_num;
  tool = entry.tool;
  args_summary = entry.args_summary;
  error = entry.error;
  label = entry.label;
  extra = or_else entry.extra end;
}

-- `children.setdefault(k, [])`
abbrev pub set_default : String → Dict (List String) → Dict (List String)
set_default k d = if is_some (lookup k d) then d else insert k [] d

-- `children.setdefault(parent, []).append(kid)`
abbrev pub add_child : String → String → Dict (List String) → Dict (List String)
add_child parent kid d = insert parent (or_else (lookup parent d) [] ++ kid ∷ []) d

-- `append`; `none` is the `KeyError` of an unknown parent
unfoldable pub append : String → Entry → SessionTree → Option (TreeNode × SessionTree)
append new_id entry tree =
    let parent = parent_of entry tree in
    let node = new_node new_id parent entry in
    if is_some (lookup parent tree.nodes)
    then some (
      node,
      record tree {
        nodes = insert new_id node tree.nodes;
        children = set_default new_id (add_child parent new_id tree.children);
        active_id = new_id;
      },
    )
    else none

-- `fork`
unfoldable pub fork : String → SessionTree → Option SessionTree
fork node_id tree =
    if is_some (lookup node_id tree.nodes) then some (record tree { active_id = node_id }) else none

-- the walk to the root, the tip first
pub data Walk : Type 0 where
  reached : List TreeNode → Walk
  key_error : Walk
  out_of_fuel : Walk

abbrev pub step_up : TreeNode → Walk → Walk
step_up n (reached chain) = reached (n ∷ chain)
step_up n key_error = key_error
step_up n out_of_fuel = out_of_fuel

-- the `while` loop of `path_to`
unfoldable pub climb : ℕ → Dict TreeNode → String → Walk
climb zero nodes cur = out_of_fuel
climb (suc fuel) nodes cur = elim (lookup cur nodes) [
  | none ↦ key_error
  | some n ↦ elim n.parent_id [ none ↦ reached (n ∷ []) | some p ↦ step_up n (climb fuel nodes p) ]
]

abbrev pub reversed : Walk → Walk
reversed (reached chain) = reached (reverse chain)
reversed key_error = key_error
reversed out_of_fuel = out_of_fuel

-- `path_to`, with one turn for each node as fuel
unfoldable pub path_to : String → SessionTree → Walk
path_to node_id tree = reversed (climb (length tree.nodes) tree.nodes node_id)

-- `path_to_step`
unfoldable pub path_to_step : ℕ → SessionTree → Walk
path_to_step step_num tree = elim (path_to tree.active_id tree) [
  | reached chain ↦ reached (keep_if (λ n. leb n.step_num step_num) chain)
  | key_error ↦ key_error
  | out_of_fuel ↦ out_of_fuel
]
