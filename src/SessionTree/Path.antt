-- ===== src/SessionTree/Path.antt =====
-- Paths to the root.
use looplet.Prelude.{
  Bool-cases, List, Option, Option-cases, String, [], ap, eq_iff, inl, inr, is_some, length, none,
  refl, reverse, some, some-injective, str_eq, subst, suc, sym, true, zero, ℕ, ◌∙◌, ◌∷◌, ◌≡◌,
}
use looplet.Prelude.Dict.{Dict, insert, lookup, lookup-insert}
use looplet.SessionTree.{
  Entry, SessionTree, TreeNode, Walk, append, climb, key_error, new_node, out_of_fuel, parent_of,
  path_to, reached, reversed, step_up,
}
use looplet.SessionTree.Growth.{Grown, IsTree, grow, lookup_new, root}

-- Read from the tip: each node is the parent of the one before it, and the last one has no parent.
abbrev pub Above : Option String → List TreeNode → Type 0
Above o [] = o ≡ none
Above o (n ∷ chain) = (o ≡ some n.id) × Above n.parent_id chain

lookup_old :
    {V : Type 0}
    → (k j : String) (v w : V) (d : Dict V) → lookup k d ≡ none
    → lookup j d ≡ some w
    → lookup j (insert k v d) ≡ some w
lookup_old k j v w d fresh h = elim (Bool-cases (str_eq k j)) [
  | inl e ↦ let same : lookup j d ≡ none = rw (← (eq_iff k j).0 e) fresh in cc
  | inr e ↦ lookup-insert k j v d ∙ rw (e, h)
]

length-insert :
    {V : Type 0}
    → (k : String) (v : V) (d : Dict V) → lookup k d ≡ none
    → length (insert k v d) ≡ suc (length d)
length-insert k v [] h = refl
length-insert k v ((j, w) ∷ d) h = elim (Bool-cases (str_eq j k)) [
  | inl e ↦ let found : some w ≡ none = rw e at h in cc
  | inr e ↦ let rest : lookup k d ≡ none = rw e at h in rw e (ap suc (length-insert k v d rest))
]

step_up-reached :
    (n : TreeNode) (w : Walk) (chain : List TreeNode)
    → step_up n w ≡ reached chain
    → (rest : List TreeNode) × (w ≡ reached rest) × (chain ≡ n ∷ rest)
step_up-reached n (reached rest) chain h = (rest, refl, cc)
step_up-reached n key_error chain h = cc
step_up-reached n out_of_fuel chain h = cc

climb_root :
    (fuel : ℕ) (nodes : Dict TreeNode) (id : String) (n : TreeNode)
    → lookup id nodes ≡ some n
    → n.parent_id ≡ none
    → climb (suc fuel) nodes id ≡ reached (n ∷ [])
unfolding climb
climb_root fuel nodes id n l p = simp (climb, l, p)

climb_up :
    (fuel : ℕ) (nodes : Dict TreeNode) (id p : String) (n : TreeNode)
    → lookup id nodes ≡ some n
    → n.parent_id ≡ some p
    → climb (suc fuel) nodes id ≡ step_up n (climb fuel nodes p)
unfolding climb
climb_up fuel nodes id p n l q = simp (climb, l, q)

-- a walk that arrives also arrives in a bigger tree, and with more fuel
climb_later :
    (fuel : ℕ) (nodes nodes' : Dict TreeNode) (id : String) (chain : List TreeNode)
    → ((j : String) (n : TreeNode) → lookup j nodes ≡ some n → lookup j nodes' ≡ some n)
    → climb fuel nodes id ≡ reached chain
    → (climb fuel nodes' id ≡ reached chain) × (climb (suc fuel) nodes' id ≡ reached chain)
unfolding climb
climb_later zero nodes nodes' id chain keeps h = cc
climb_later (suc fuel) nodes nodes' id chain keeps h = elim (Option-cases (lookup id nodes)) [
  | inl e ↦ let lost : key_error ≡ reached chain = rw (climb, e) at h in cc
  | inr (n, e) ↦ elim (Option-cases n.parent_id) [
    | inl p ↦
        let one : reached (n ∷ []) ≡ reached chain = sym (climb_root fuel nodes id n e p) ∙ h in
        (
          climb_root fuel nodes' id n (keeps id n e) p ∙ one,
          climb_root (suc fuel) nodes' id n (keeps id n e) p ∙ one,
        )
    | inr (q, p) ↦
        let (rest, r, c) =
          step_up-reached n (climb fuel nodes q) chain (sym (climb_up fuel nodes id q n e p) ∙ h) in
        let (same, more) = climb_later fuel nodes nodes' q rest keeps r in
        (
          climb_up fuel nodes' id q n (keeps id n e) p ∙ rw (same, c),
          climb_up (suc fuel) nodes' id q n (keeps id n e) p ∙ rw (more, c),
        )
  ]
]

-- what the walk from a node comes to: the branch above it
abbrev Climbed : Dict TreeNode → String → Type 0
Climbed nodes id =
    (chain : List TreeNode) × (climb (length nodes) nodes id ≡ reached chain)
    × Above (some id) chain

some_known : {V : Type 0} → (o : Option V) → is_some o ≡ true → (v : V) × (o ≡ some v)
some_known none h = cc
some_known (some v) h = (v, refl)

-- in a tree that has grown, every walk arrives
Grown-Climbed :
    {nodes : Dict TreeNode}
    → Grown nodes
    → (id : String) (n : TreeNode) → lookup id nodes ≡ some n
    → Climbed nodes id
Grown-Climbed (root r top) id n h = elim (Bool-cases (str_eq r.id id)) [
  | inr e ↦ let lost : none ≡ some n = rw e at h in cc
  | inl e ↦ (
    r ∷ [],
    climb_root 0 ((r.id, r) ∷ []) id r (rw e) top,
    (ap some (sym ((eq_iff r.id id).0 e)), top),
  )
]
Grown-Climbed (grow {nodes = nodes} m p g q known fresh) id n h =
    let keeps : (j : String) (k : TreeNode)
        → lookup j nodes ≡ some k
        → lookup j (insert m.id m nodes) ≡ some k =
      λ j k l. lookup_old m.id j m k nodes fresh l in
    elim (Bool-cases (str_eq m.id id)) [
      | inl e ↦
          let same = (eq_iff m.id id).0 e in
          let (parent, found) = some_known (lookup p nodes) known in
          let (rest, arrived, above) = Grown-Climbed g p parent found in
          (
            m ∷ rest,
            rw (length-insert m.id m nodes fresh) (
                climb_up (length nodes) (insert m.id m nodes) id p m
                  (subst (λ j. lookup j (insert m.id m nodes) ≡ some m) same
                    (lookup_new m.id m nodes))
                  q
                ∙ ap (step_up m) (climb_later (length nodes) nodes _ p rest keeps arrived).0),
            (ap some (sym same), subst (λ o. Above o rest) (sym q) above),
          )
      | inr e ↦
          let old : lookup id nodes ≡ some n = sym (lookup-insert m.id id m nodes ∙ rw e) ∙ h in
          let (rest, arrived, above) = Grown-Climbed g id n old in
          (
            rest,
            rw (length-insert m.id m nodes fresh)
                (climb_later (length nodes) nodes _ id rest keeps arrived).1,
            above,
          )
    ]

-- The walk of `path_to` ends at the root: for every node of a tree that appends have grown it
-- arrives, with a turn for each node at most, and gives the nodes from the root down to that node,
-- each the parent of the next, and the first without a parent.
pub path_to-Above :
    (tree : SessionTree) (id : String) (n : TreeNode)
    → IsTree tree
    → lookup id tree.nodes ≡ some n
    → (chain : List TreeNode) × (path_to id tree ≡ reached (reverse chain)) × Above (some id) chain
unfolding path_to
path_to-Above tree id n t h =
    let (chain, arrived, above) = Grown-Climbed t.grown id n h in (chain, rw arrived, above)

absent : (r : TreeNode × SessionTree) → none ≡ some r → ⊥
absent r h = cc

append_nodes :
    (new_id : String) (entry : Entry) (tree tree' : SessionTree) (node : TreeNode)
    → append new_id entry tree ≡ some (node, tree')
    → tree'.nodes ≡ insert new_id (new_node new_id (parent_of entry tree) entry) tree.nodes
unfolding append
append_nodes new_id entry tree tree' node a =
    elim (Bool-cases (is_some (lookup (parent_of entry tree) tree.nodes))) [
      | inr e ↦ elim (absent (node, tree') (rw (append, e) at a)) [ ]
      | inl e ↦
          ap (λ (r : TreeNode × SessionTree). r.1.nodes)
            (sym (some-injective _ _ (rw (append, e) at a)))
    ]

-- History is never rewritten: when an append under a fresh id succeeds, the path to every node that was
-- there is what it was.
pub append_keeps_path :
    (new_id : String) (entry : Entry) (tree tree' : SessionTree) (node n : TreeNode) (id : String)
    → IsTree tree
    → lookup new_id tree.nodes ≡ none
    → append new_id entry tree ≡ some (node, tree')
    → lookup id tree.nodes ≡ some n
    → path_to id tree' ≡ path_to id tree
unfolding path_to append
append_keeps_path new_id entry tree tree' node n id t fresh a h =
    let nodes' = (append_nodes new_id entry tree tree' node a) in
    let (chain, arrived, above) = Grown-Climbed t.grown id n h in
    let later =
      climb_later (length tree.nodes) tree.nodes
        (insert new_id (new_node new_id (parent_of entry tree) entry) tree.nodes) id chain
        (λ j k l. lookup_old new_id j _ k tree.nodes fresh l) arrived in
    subst
      (λ ns.
        reversed (climb (length ns) ns id) ≡ reversed (climb (length tree.nodes) tree.nodes id))
      (sym nodes')
      (rw (length-insert new_id (new_node new_id (parent_of entry tree) entry) tree.nodes fresh)
        (ap reversed (later.1 ∙ sym arrived)))
