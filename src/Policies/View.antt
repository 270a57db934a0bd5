-- ===== src/Policies/View.antt =====
-- `ChildObjectView` of openstack_controller/resource_view.py. The hash of ports, `layers.spec_hash`, is given.
use openstack_controller.Common.{
  Eq, ◌==◌, eq_iff, if◌then◌else◌, Dict, lookup, insert, values, String, ◌≡◌, ◌↔◌, Bool, true, ◌&&◌,
  Option, none, some, List, [], ◌∷◌, ◌++◌, map, arith, ◌>>=◌, nat_eq, string_eq,
}

pub record Port : Type 0 where
  pub protocol : String
  pub number : String

abbrev same_port : (p q : Port) → Bool
same_port p q = p.protocol == q.protocol && p.number == q.number

pub port_reflects : (p q : Port) → (same_port p q ≡ true) ↔ (p ≡ q)
port_reflects p q = ground (arith, eq_iff p.protocol q.protocol, eq_iff p.number q.number)

instance abbrev pub port_eq : Eq Port
port_eq = record { equal = same_port; reflects = port_reflects }

-- `{"to_child_object": ...}`: the identifier of the object and the names of its ports.
pub record Connection : Type 0 where
  pub dst_ident : String
  pub port_names : List String

-- A child object: its pod labels, its ports by name and its egress connections.
pub record Child : Type 0 where
  pub pod_labels : String
  pub ports : Dict Port
  pub egress : List Connection

pub record Policy : Type 0 where
  pub peers : List String
  pub open_ports : List Port

-- `np_ports`: a TypeError where the other object has no such port
unfoldable pub np_ports : Child → List String → Option (List Port)
np_ports dst [] = some []
np_ports dst (name ∷ names) = do
  port ← lookup name dst.ports
  rest ← np_ports dst names
  some (port ∷ rest)

-- The policy of a connection: a KeyError where the other object is not there.
unfoldable pub policy_of : Dict Child → Child → Connection → Option Policy
policy_of childs child connection = do
  dst ← lookup connection.dst_ident childs
  open_ports ← np_ports dst connection.port_names
  some (record { peers = child.pod_labels ∷ []; open_ports = open_ports })

-- The policies under an identifier, none where it is not there.
abbrev pub policies_of : String → Dict (List Policy) → List Policy
policies_of ident policies = elim (lookup ident policies) [ none ↦ [] | some found ↦ found ]

-- `policies.setdefault(ident, []); policies[ident].append(policy)`
unfoldable pub append_policy : String → Policy → Dict (List Policy) → Dict (List Policy)
append_policy ident policy policies =
    insert ident (policies_of ident policies ++ policy ∷ []) policies

-- The inner loop, over a child's connections.
unfoldable pub add_connections :
    Dict Child → Child → List Connection → Dict (List Policy) → Option (Dict (List Policy))
add_connections childs child [] policies = some policies
add_connections childs child (connection ∷ connections) policies = do
  policy ← policy_of childs child connection
  add_connections childs child connections (append_policy connection.dst_ident policy policies)

-- The outer loop, over the children.
unfoldable pub add_children :
    Dict Child → List Child → Dict (List Policy) → Option (Dict (List Policy))
add_children childs [] policies = some policies
add_children childs (child ∷ children) policies = do
  more ← add_connections childs child child.egress policies
  add_children childs children more

module _ (spec_hash : List Port → String) where
  -- `policy_from` and `ports_hashes`, which have the same keys, as one dictionary. The ports are those of
  -- the latest policy.
  unfoldable pub squash_policy : Policy → Dict Policy → Dict Policy
  squash_policy policy [] = (spec_hash policy.open_ports, policy) ∷ []
  squash_policy policy ((h, before) ∷ squashed) =
      if h == spec_hash policy.open_ports
      then (h, record policy { peers = before.peers ++ policy.peers }) ∷ squashed
      else (h, before) ∷ squash_policy policy squashed

  unfoldable pub squash_into : List Policy → Dict Policy → Dict Policy
  squash_into [] squashed = squashed
  squash_into (policy ∷ policies) squashed = squash_into policies (squash_policy policy squashed)

  unfoldable pub squash_policies : List Policy → List Policy
  squash_policies policies = values (squash_into policies [])

  -- `network_policies["ingress"]`
  unfoldable pub get_network_policies : Dict Child → Option (Dict (List Policy))
  get_network_policies childs = do
    policies ← add_children childs (values childs) []
    some (map (λ entry. (entry.0, squash_policies entry.1)) policies)
