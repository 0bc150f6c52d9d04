-- ===== src/Mdb.antt =====
-- kernel/include/revoke.h and kernel/src/revoke.c: the derivation tree of capabilities.
pub mod Slots
pub mod Delete
pub mod Lookup
pub mod Revoke
use moonlight_os.Prelude.{
  ℕ, zero, suc, ◌+◌, ◌-◌, ◌*◌, ◌%◌, ◌^◌, Bool, true, false, not, ◌&&◌, ◌||◌, Option, none, some,
  Array, set, fill, ◌==◌, ◌!=◌, ltb, leb, if◌then◌else◌, add32, sub32, first, bit_or,
}
use moonlight_os.Types.{KError, ok, invalid_cap, invalid_arg, no_mem, revoke_needed}
use moonlight_os.Cap.{Cap, zero_cap}

abbrev pub max_mdb_nodes : ℕ
max_mdb_nodes = 1024

abbrev pub nil : ℕ
nil = 0xFFFF

-- `mdb_node_t`
pub record Node : Type 0 where
  pub valid : Bool
  pub cptr : ℕ
  pub cnode_id : ℕ
  pub slot : ℕ
  pub parent : ℕ
  pub first_child : ℕ
  pub next_sibling : ℕ
  pub cap : Cap
  pub revocable : Bool

-- `mdb_tree_t`
pub record MdbTree : Type 0 where
  pub nodes : Array Node
  pub count : ℕ
  pub free_head : ℕ

abbrev pub zero_node : Node
zero_node = record {
  valid = false;
  cptr = 0;
  cnode_id = 0;
  slot = 0;
  parent = 0;
  first_child = 0;
  next_sibling = 0;
  cap = zero_cap;
  revocable = false;
}

-- `mdb_init`. The tree is not NULL, here and below.
unfoldable pub init : MdbTree
init = record { nodes = fill (record zero_node { parent = nil }); count = 0; free_head = 0 }

-- The node that `mdb_insert` writes, before it is linked to its parent.
abbrev pub new_node : ℕ → ℕ → Cap → Node
new_node parent_idx cptr cap = record zero_node {
  valid = true;
  cptr = cptr;
  cap = cap;
  parent = parent_idx;
  first_child = nil;
  next_sibling = nil;
  revocable = true;
}

-- `n->next_sibling = mdb->nodes[parent_idx].first_child; mdb->nodes[parent_idx].first_child = idx;`
abbrev pub link_first : Array Node → ℕ → ℕ → Array Node
link_first nodes parent_idx idx =
    let linked =
      set nodes idx (record (nodes idx) { next_sibling = (nodes parent_idx).first_child }) in
    set linked parent_idx (record (linked parent_idx) { first_child = idx })

-- The nodes after `mdb_insert` put `n` at `idx` and linked it as the first child of its parent.
unfoldable pub link : Array Node → ℕ → ℕ → Node → Array Node
link nodes parent_idx idx n =
    let written = set nodes idx n in
    if (parent_idx != nil) && ltb parent_idx max_mdb_nodes && (written parent_idx).valid
    then link_first written parent_idx idx
    else written

-- `while (idx < MAX_MDB_NODES && mdb->nodes[idx].valid) idx++;`, `none` for the end of the table
unfoldable pub free_slot : MdbTree → Option ℕ
free_slot t = first (λ i. not (t.nodes i).valid) (max_mdb_nodes - t.free_head) t.free_head

-- `mdb_insert`: its error, `*out_idx` and the tree.
unfoldable pub insert : MdbTree → ℕ → ℕ → Cap → ℕ → KError × ℕ × MdbTree
insert t parent_idx cptr cap out =
    if leb max_mdb_nodes t.count then (no_mem, out, t) else elim (free_slot t) [
      | none ↦ (no_mem, out, t)
      | some idx ↦ (
        ok,
        idx,
        record {
          nodes = link t.nodes parent_idx idx (new_node parent_idx cptr cap);
          count = add32 t.count 1;
          free_head = if idx == t.free_head then idx + 1 else t.free_head;
        },
      )
    ]

-- `memset(&n->cap, 0, sizeof(cap_t)); n->valid = false;`
abbrev pub dead : Node → Node
dead n = record n { cap = zero_cap; valid = false }

-- The end of `mdb_revoke_recursive`, after its loop.
unfoldable pub clear : MdbTree → ℕ → MdbTree
clear t idx = record {
  nodes = set t.nodes idx (dead (t.nodes idx));
  count = sub32 t.count 1;
  free_head = if ltb idx t.free_head then idx else t.free_head;
}

-- The loop of `mdb_revoke_recursive` and of `mdb_revoke` over a list of siblings, with the loops of the
-- recursive calls, on one fuel for the length of the longest path. `none` is the end of the fuel or an
-- access out of the table.
unfoldable pub revoke_children : ℕ → MdbTree → ℕ → Option MdbTree
revoke_children zero t child = none
revoke_children (suc fuel) t child = elim (child == nil) [
  | true ↦ some t
  | false ↦ elim (ltb child max_mdb_nodes) [
    | false ↦ none
    | true ↦ elim (revoke_children fuel t (t.nodes child).first_child) [
      | none ↦ none
      | some t' ↦ revoke_children fuel (clear t' child) (t.nodes child).next_sibling
    ]
  ]
]

-- `mdb_revoke`. A forest of at most `max_mdb_nodes` nodes needs no more fuel than it has nodes.
unfoldable pub revoke : MdbTree → ℕ → Option (KError × MdbTree)
revoke t idx =
    if leb max_mdb_nodes idx
    then some (invalid_arg, t)
    else if not (t.nodes idx).valid
    then some (invalid_cap, t)
    else elim (revoke_children (max_mdb_nodes + 1) t (t.nodes idx).first_child) [
      | none ↦ none
      | some t' ↦
          some (
            ok,
            record t' { nodes = set t'.nodes idx (record (t'.nodes idx) { first_child = nil }) },
          )
    ]

-- The field that the pointer `p` of `mdb_delete` points to.
pub data Link : Type 0 where
  child_of : (i : ℕ) → Link
  sibling_of : (i : ℕ) → Link

-- `*p`
abbrev pub follow : Array Node → Link → ℕ
follow nodes (child_of i) = (nodes i).first_child
follow nodes (sibling_of i) = (nodes i).next_sibling

-- `*p = v;`
abbrev pub put : Array Node → Link → ℕ → Array Node
put nodes (child_of i) v = set nodes i (record (nodes i) { first_child = v })
put nodes (sibling_of i) v = set nodes i (record (nodes i) { next_sibling = v })

-- The loop of `mdb_delete` over the children of the parent; `none` as in `revoke_children`.
unfoldable pub unlink : ℕ → Array Node → ℕ → Link → Option (Array Node)
unlink zero nodes idx p = none
unlink (suc fuel) nodes idx p = elim (follow nodes p == nil) [
  | true ↦ some nodes
  | false ↦ elim (follow nodes p == idx) [
    | true ↦ some (put nodes p (nodes idx).next_sibling)
    | false ↦ elim (ltb (follow nodes p) max_mdb_nodes) [
      | true ↦ unlink fuel nodes idx (sibling_of (follow nodes p))
      | false ↦ none
    ]
  ]
]

-- `mdb_delete` of a node with a parent, up to the loop's end: the parent's index is not checked.
unfoldable pub unlink_from : Array Node → ℕ → Option (Array Node)
unlink_from nodes idx =
    if (nodes idx).parent == nil
    then some nodes
    else if leb max_mdb_nodes (nodes idx).parent
    then none
    else unlink (max_mdb_nodes + 1) nodes idx (child_of (nodes idx).parent)

-- The end of `mdb_delete`.
unfoldable pub drop_node : MdbTree → Array Node → ℕ → MdbTree
drop_node t nodes idx = record {
  nodes = set nodes idx (record zero_node { parent = nil; first_child = nil; next_sibling = nil });
  count = sub32 t.count 1;
  free_head = if ltb idx t.free_head then idx else t.free_head;
}

-- `mdb_delete`
unfoldable pub delete : MdbTree → ℕ → Option (KError × MdbTree)
delete t idx =
    if leb max_mdb_nodes idx
    then some (invalid_arg, t)
    else if not (t.nodes idx).valid
    then some (invalid_cap, t)
    else if (t.nodes idx).first_child != nil
    then some (revoke_needed, t)
    else elim (unlink_from t.nodes idx) [
      | none ↦ none
      | some nodes ↦ some (ok, drop_node t nodes idx)
    ]

-- The tests of `mdb_lookup` on a node.
abbrev pub matches : Node → ℕ → ℕ → Bool
matches n cnode_id slot =
    n.valid
    && (((n.cnode_id == cnode_id) && (n.slot == slot))
        || ((n.cptr == slot) && (cnode_id == 0))
        || (n.cptr == bit_or (cnode_id * 256 % 2 ^ 32) slot))

-- `mdb_lookup`
unfoldable pub lookup : MdbTree → ℕ → ℕ → ℕ
lookup t cnode_id slot = elim (first (λ i. matches (t.nodes i) cnode_id slot) max_mdb_nodes 0) [
  | some i ↦ i
  | none ↦ nil
]

-- `mdb_is_descendant`, with fuel for the steps to the root; `none` is the end of the fuel.
unfoldable pub is_descendant : ℕ → MdbTree → ℕ → ℕ → Option Bool
is_descendant zero t ancestor cur = none
is_descendant (suc fuel) t ancestor cur = elim (ltb cur max_mdb_nodes) [
  | false ↦ some false
  | true ↦ elim (cur == ancestor) [
    | true ↦ some true
    | false ↦ is_descendant fuel t ancestor (t.nodes cur).parent
  ]
]
