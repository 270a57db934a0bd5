-- ===== src/Admission/Neutron.antt =====
-- `NeutronValidator` of openstack_controller/admission/validators/neutron.py.
--
-- A feature that is not in the spec is off. That the description of the hardware for ngs fits its
-- JSON schema is what the library for schemas answers.
use openstack_controller.Common.{
  ltb, if◌then◌else◌, All, ◌≤◌, ◌≡◌, refl, Bool, true, false, not, ◌&&◌, ◌||◌, Option, none, some,
  List, [], ◌∷◌, ◌++◌, arith,
}
use openstack_controller.Admission.Versions.{OpenStackVersion, value, yoga, antelope}

pub record Network : Type 0 where
  -- `spec.preset` is compute-tf
  pub tungstenfabric_enabled : Bool
  -- `features.neutron.backend` is ml2/ovn
  pub ovn_enabled : Bool
  pub ipsec : Bool
  pub bgpvpn : Bool
  pub bgpvpn_route_reflector : Bool
  pub bgpvpn_peers : Bool
  pub vpnaas : Bool
  pub dynamic_routing : Bool
  pub portprober : Bool
  -- geneve is one of the tenant network types
  pub geneve : Bool
  pub floating_network : Bool
  pub network_type : Bool
  pub physnet : Bool
  pub segmentation_id : Bool
  -- of `features.neutron.baremetal.ngs`
  pub ngs_hardware : Bool
  pub ngs_devices : Bool
  pub ngs_hardware_fits : Bool

pub data NetworkRefusal : Type 0 where
  physnet_missing bgpvpn_incomplete tf_ipsec tf_bgpvpn tf_floating_network : NetworkRefusal
  ngs_both ngs_schema ovn_version ovn_tf ovn_bgpvpn ovn_ipsec : NetworkRefusal
  vpnaas_version vpnaas_tf dynamic_routing_version dynamic_routing_tf : NetworkRefusal
  portprober_version portprober_tf geneve_without_ovn : NetworkRefusal

-- An `if` that raises.
abbrev pub Guard : Type 0
Guard = Bool × NetworkRefusal

-- One `if` after the other.
unfoldable pub first_refusal : List Guard → Option NetworkRefusal
first_refusal [] = none
first_refusal ((b, r) ∷ guards) = let rest = first_refusal guards in if b then some r else rest

abbrev is_older : OpenStackVersion → OpenStackVersion → Bool
is_older a b = ltb (value a) (value b)

-- `any(network_options) and not all(network_options)`
abbrev is_partial : Network → Bool
is_partial n =
    (n.network_type || n.physnet || n.segmentation_id)
    && not (n.network_type && n.physnet && n.segmentation_id)

-- Under `if not tungstenfabric_enabled` and its `else`
unfoldable pub backend_guards : Network → List Guard
backend_guards n =
    if n.tungstenfabric_enabled
    then (n.ipsec, tf_ipsec)
      ∷ (n.bgpvpn, tf_bgpvpn)
      ∷ (n.floating_network && is_partial n, tf_floating_network)
      ∷ []
    else (n.floating_network && not n.physnet, physnet_missing)
      ∷ (n.bgpvpn && not n.bgpvpn_route_reflector && not n.bgpvpn_peers, bgpvpn_incomplete)
      ∷ []

unfoldable pub feature_guards : Network → OpenStackVersion → List Guard
feature_guards n v =
    (n.ngs_hardware && n.ngs_devices, ngs_both)
    ∷ (n.ngs_hardware && not n.ngs_hardware_fits, ngs_schema)
    ∷ (n.ovn_enabled && is_older v yoga, ovn_version)
    ∷ (n.ovn_enabled && n.tungstenfabric_enabled, ovn_tf)
    ∷ (n.ovn_enabled && n.bgpvpn, ovn_bgpvpn)
    ∷ (n.ovn_enabled && n.ipsec, ovn_ipsec)
    ∷ (n.vpnaas && is_older v yoga, vpnaas_version)
    ∷ (n.vpnaas && n.tungstenfabric_enabled, vpnaas_tf)
    ∷ (n.dynamic_routing && is_older v yoga, dynamic_routing_version)
    ∷ (n.dynamic_routing && n.tungstenfabric_enabled, dynamic_routing_tf)
    ∷ (n.portprober && is_older v antelope, portprober_version)
    ∷ (n.portprober && n.tungstenfabric_enabled, portprober_tf)
    ∷ (n.geneve && not n.ovn_enabled, geneve_without_ovn)
    ∷ []

unfoldable pub validate : Network → OpenStackVersion → Option NetworkRefusal
validate n v = first_refusal (backend_guards n ++ feature_guards n v)

first_refusal-All :
    (guards : List Guard) → first_refusal guards ≡ none → All (λ g. g.0 ≡ false) guards
unfolding first_refusal
first_refusal-All [] h = tt
first_refusal-All ((true, r) ∷ guards) h = cc
first_refusal-All ((false, r) ∷ guards) h = (refl, first_refusal-All guards h)

All-append : {A : Type 0} (P : A → Type 0) (a b : List A) → All P (a ++ b) → All P a × All P b
All-append P [] b h = (tt, h)
All-append P (x ∷ a) b h = let (l, r) = All-append P a b h.1 in ((h.0, l), r)

-- What is sure of a network that is let pass.
pub record IsCompatible (n : Network) (v : OpenStackVersion) : Type 0 where
  pub ovn :
      n.ovn_enabled ≡ true
      → (value yoga ≤ value v)
        × (n.tungstenfabric_enabled ≡ false)
        × (n.bgpvpn ≡ false)
        × (n.ipsec ≡ false)
  pub tungstenfabric :
      n.tungstenfabric_enabled ≡ true
      → (n.ipsec ≡ false)
        × (n.bgpvpn ≡ false)
        × (n.vpnaas ≡ false)
        × (n.dynamic_routing ≡ false)
        × (n.portprober ≡ false)
  pub extensions : (n.vpnaas || n.dynamic_routing) ≡ true → value yoga ≤ value v
  pub portprober : n.portprober ≡ true → value antelope ≤ value v
  pub geneve : n.geneve ≡ true → n.ovn_enabled ≡ true

-- A network that the validator lets pass combines only what goes together: OVN comes from Yoga on and
-- without TungstenFabric, BGPVPN and IPsec; TungstenFabric comes without IPsec, BGPVPN, VPNaaS, dynamic
-- routing and port prober; VPNaaS and dynamic routing come from Yoga on, port prober from Antelope on;
-- and geneve comes with OVN only.
pub validate-IsCompatible :
    (n : Network) (v : OpenStackVersion) → validate n v ≡ none → IsCompatible n v
unfolding validate backend_guards feature_guards
validate-IsCompatible n v h =
    let (b, f) = All-append _ (backend_guards n) (feature_guards n v) (first_refusal-All _ h) in
    record {
      ovn = λ o. (
        ground (arith, f.1.1.0, o),
        ground (arith, f.1.1.1.0, o),
        ground (arith, f.1.1.1.1.0, o),
        ground (arith, f.1.1.1.1.1.0, o),
      );
      tungstenfabric = λ t.
          let tf = backend n t b in
          (
            tf.0,
            tf.1,
            ground (arith, f.1.1.1.1.1.1.1.0, t),
            ground (arith, f.1.1.1.1.1.1.1.1.1.0, t),
            ground (arith, f.1.1.1.1.1.1.1.1.1.1.1.0, t),
          );
      extensions = λ e. ground (arith, f.1.1.1.1.1.1.0, f.1.1.1.1.1.1.1.1.0, e);
      portprober = λ e. ground (arith, f.1.1.1.1.1.1.1.1.1.1.0, e);
      geneve = λ e. ground (arith, f.1.1.1.1.1.1.1.1.1.1.1.1.0, e);
    }
  where
    backend :
        (n : Network)
        → n.tungstenfabric_enabled ≡ true
        → All (λ (g : Guard). g.0 ≡ false) (backend_guards n)
        → (n.ipsec ≡ false) × (n.bgpvpn ≡ false)
    backend n t b = ground (arith, t, b)
