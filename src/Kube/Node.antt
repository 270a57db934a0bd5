-- ===== src/Kube/Node.antt =====
-- The class `Node` of openstack_controller/kube.py and the enum `NodeRole` of constants.py.
use openstack_controller.Common.{
  ◌==◌, any, Dict, lookup, String, ◌≡◌, Bool, false, ◌&&◌, none, some, List, [], ◌∷◌, arith, nat_eq,
  string_eq,
}

pub data NodeRole : Type 0 where
  compute gateway controller : NodeRole

-- One entry of `status.conditions`.
pub record Condition : Type 0 where
  pub type : String
  pub status : String

pub record Node : Type 0 where
  pub name : String
  pub labels : Dict String
  pub annotations : Dict String
  pub unschedulable : Bool
  pub conditions : List Condition

-- `settings.OSCTL_OPENSTACK_NODE_LABELS`, which a deployment configures.
abbrev pub RoleLabels : Type 0
RoleLabels = NodeRole → Dict String

abbrev is_ready_condition : Condition → Bool
is_ready_condition c = c.type == "Ready" && c.status == "True"

-- Whether the node has the "Ready" status.
unfoldable pub ready : Node → Bool
ready n = any is_ready_condition n.conditions

abbrev label_is : Dict String → String → String → Bool
label_is labels k v = elim (lookup k labels) [ none ↦ false | some w ↦ w == v ]

-- One label of the role is enough.
unfoldable pub has_role : RoleLabels → Node → NodeRole → Bool
has_role wanted n role = any (λ e. label_is n.labels e.0 e.1) (wanted role)

abbrev pub roles : List NodeRole
roles = compute ∷ gateway ∷ controller ∷ []

unfoldable pub has_os_role : RoleLabels → Node → Bool
unfolding has_role
has_os_role wanted n = any (λ role. has_role wanted n role) roles

-- A node with no labels has no role, whatever the configuration.
pub has_role-no_labels :
    (wanted : RoleLabels) (n : Node) (role : NodeRole)
    → n.labels ≡ []
    → has_role wanted n role ≡ false
unfolding has_role
has_role-no_labels wanted n role e = go (wanted role)
  where
    go : (l : Dict String) → any (λ k. label_is n.labels k.0 k.1) l ≡ false
    go [] = ground arith
    go (k ∷ l) = ground (arith, go l, e)
