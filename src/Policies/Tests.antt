-- ===== src/Policies/Tests.antt =====
-- Two services that connect to a third one.
use openstack_controller.Policies.Declared.{
  AllPoliciesKnown, is_declared, get_network_policies-is_declared,
}
use openstack_controller.Common.{Dict, values, String, ◌≡◌, refl, sym, ◌∙◌, some, List, [], ◌∷◌}
use openstack_controller.Policies.View.{
  squash_policy, policy_of, Port, Policy, Child, port_eq, get_network_policies, add_children,
  policies_of, add_connections, squash_policies, squash_into, append_policy, np_ports,
}
use openstack_controller.Policies.Squash.{admit, Separates}

abbrev api : Port
api = record { protocol = "TCP"; number = "5000" }

abbrev keystone : Child
keystone = record { pod_labels = "app=keystone"; ports = ("api", api) ∷ []; egress = [] }

abbrev client : String → Child
client labels = record {
  pod_labels = labels;
  ports = [];
  egress = record { dst_ident = "keystone"; port_names = "api" ∷ [] } ∷ [];
}

abbrev childs : Dict Child
childs = ("keystone", keystone) ∷ ("nova", client "app=nova") ∷ ("glance", client "app=glance") ∷ []

abbrev first_number : List Port → String
first_number [] = ""
first_number (p ∷ ports) = p.number

abbrev policy : String → Policy
policy labels = record { peers = labels ∷ []; open_ports = api ∷ [] }

abbrev before : Dict (List Policy)
before = ("keystone", policy "app=nova" ∷ policy "app=glance" ∷ []) ∷ []

abbrev result : Dict (List Policy)
result =
    ("keystone", record { peers = "app=nova" ∷ "app=glance" ∷ []; open_ports = api ∷ [] } ∷ []) ∷ []

childs-add_children : add_children childs (values childs) [] ≡ some before
unfolding add_children add_connections append_policy policy_of np_ports
childs-add_children = refl

childs-get_network_policies : get_network_policies first_number childs ≡ some result
unfolding get_network_policies squash_policies squash_into squash_policy add_children
    add_connections append_policy policy_of np_ports
childs-get_network_policies = refl

IsApi : List Port → Type 0
IsApi ports = ports ≡ api ∷ []

Separates-IsApi : Separates first_number IsApi
unfolding IsApi
Separates-IsApi = λ p q is_p is_q same. is_p ∙ sym is_q

AllPoliciesKnown-IsApi : AllPoliciesKnown first_number IsApi before
unfolding IsApi
AllPoliciesKnown-IsApi = ((refl, (refl, tt)), tt)

get_network_policies-is_declared_example :
    admit "app=nova" api (policies_of "keystone" result)
    ≡ is_declared childs "keystone" "app=nova" api (values childs)
get_network_policies-is_declared_example =
    get_network_policies-is_declared first_number IsApi childs before result "keystone" "app=nova"
      api childs-add_children childs-get_network_policies Separates-IsApi AllPoliciesKnown-IsApi
