-- ===== src/Routing/Groups.antt =====
-- backend/voidswitch/services/routing.py, _collect_group and its callers: the nodes of a group, its
-- own and those of the groups that it inherits from. A node is its id; the dict of nodes is the list
-- of its keys in the order of insertion, and the set of pinned ids a list too.
use void_switch.Base.{
  ℕ, zero, suc, ◌+◌, Option, none, some, List, [], ◌∷◌, ◌++◌, Bool, ◌==◌, any, if◌then◌else◌,
  length, find,
}

-- A member row: a node, with its pin, or another group, or neither.
pub data Member : Type 0 where
  node : ℕ → Bool → Member
  inherited : ℕ → Member
  empty : Member

pub record Group : Type 0 where
  pub id : ℕ
  pub members : List Member

-- load_group_index: all groups, unique by id.
abbrev pub lookup : ℕ → List Group → Option Group
lookup id groups = find (λ g. g.id == id) groups

abbrev pub has : ℕ → List ℕ → Bool
has n ns = any (λ m. m == n) ns

-- `setdefault` of a key, and of all keys of another dict.
abbrev pub set_default : ℕ → List ℕ → List ℕ
set_default n ns = if has n ns then ns else ns ++ n ∷ []

abbrev pub set_defaults : List ℕ → List ℕ → List ℕ
set_defaults [] ns = ns
set_defaults (m ∷ ms) ns = set_defaults ms (set_default m ns)

abbrev pub Collected : Type 0
Collected = List ℕ × List ℕ

abbrev pub nothing : Collected
nothing = ([], [])

abbrev pub merge_found : Collected → Collected → Collected
merge_found found (nodes, pinned) = (set_defaults found.0 nodes, pinned ++ found.1)

abbrev pub visit_source : (Group → Collected) → Option Group → Collected
visit_source visit none = nothing
visit_source visit (some g) = visit g

-- One turn of the loop over the members; `visit` expands a group.
unfoldable pub add_member : (Group → Collected) → List Group → Member → Collected → Collected
add_member visit groups (node n pin) (nodes, pinned) =
    (set_default n nodes, if pin then pinned ++ n ∷ [] else pinned)
add_member visit groups (inherited id) found =
    merge_found (visit_source visit (lookup id groups)) found
add_member visit groups empty found = found

unfoldable pub add_members : (Group → Collected) → List Group → List Member → Collected → Collected
unfolding add_member
add_members visit groups [] found = found
add_members visit groups (m ∷ ms) found =
    add_members visit groups ms (add_member visit groups m found)

-- `fuel` bounds the depth of the recursion; a group on the path to here is skipped.
unfoldable pub collect_group : ℕ → List Group → List ℕ → Group → Collected
unfolding add_members
collect_group zero groups path g = nothing
collect_group (suc fuel) groups path g =
    let found = add_members (collect_group fuel groups (g.id ∷ path)) groups g.members nothing in
    if has g.id path then nothing else found

-- A path holds no group twice, so one more than the number of groups is enough.
unfoldable pub collect_group_members : List Group → Group → Collected
unfolding collect_group
collect_group_members groups g = collect_group (length groups + 1) groups [] g

unfoldable pub collect_group_nodes : List Group → Group → List ℕ
unfolding collect_group_members
collect_group_nodes groups g = (collect_group_members groups g).0
