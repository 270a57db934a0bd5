-- ===== src/Admission/Tests.antt =====
-- Requests that the validator gets, and schedules.
use openstack_controller.Admission.Agreed.{storage-accepted, sections-accepted}
use openstack_controller.Admission.Accepted.{accepted}
use openstack_controller.Admission.Right.{
  is_image_section, is_volume_section, is_storage_backend, is_compute_section, is_identity_section,
  is_database_section,
}
use openstack_controller.Admission.Storage.{
  check_conf, ImageBackend, Glance, StorageBackend, Cinder, no_backend_name, two_backup_drivers,
  vcpu_types_version, keycloak_and_federation, conf_field_missing, validate_cinder, validate_manila,
  check_each, check_backend, validate_glance,
}
use openstack_controller.Admission.Features.{
  conf_required, Nova, Keystone, Database, validate_nova, validate_keystone, validate_database,
  check_backup_sync, check_vcpu_type, check_ks_domains, check_remote, check_federation,
}
use openstack_controller.Admission.Neutron
use openstack_controller.Admission.Neutron.{
  Network, IsCompatible, validate-IsCompatible, backend_guards, feature_guards, first_refusal,
}
use openstack_controller.Admission.Upgrade.{IsUpgrade, check_versions-IsUpgrade}
use openstack_controller.Admission.Passed.{Checked, validate-Checked}
use openstack_controller.Admission.Cron.{
  normalized, check_item, split_on, is_schedule, isdigit, int, is_name, check_range, check_step,
  check_list,
}
use openstack_controller.Admission.Rotation.{
  Rotated, validate_credentials-Rotated, validate_credentials-unchecked, are_kept,
}
use openstack_controller.Admission.OpenStack.{
  check_spec, check_manila_allowed, check_operation, Cluster, Spec, same_rest,
  validate_openstack_upgrade, check_update, check_masakari_allowed, check_baremetal_allowed,
  check_panko_allowed, deny_encrypted_api_key, deny_strict_admin_policy, check_schedules, validate,
}
use openstack_controller.Admission.Credentials.{
  check_rotation, validate_credentials, Credentials, rotation_id, same_credentials, check_new,
  check_old,
}
use openstack_controller.Admission.Versions.{
  check_versions, OpenStackVersion, value, yoga, version_of, release_before, bobcat,
  upgrade_max_distance, antelope, queens,
}
use openstack_controller.Common.{
  all, Dict, values, codes, split_char, String, ◌≡◌, refl, ◌↔◌, true, false, none, some, [], ◌∷◌,
  map,
}

abbrev spec_of : String → Spec
spec_of version = record {
  openstack_version = version;
  preset = "compute";
  services = "compute" ∷ "identity" ∷ [];
  strict_admin = false;
  api_key = "";
  cleanup_schedules = [];
  backup_schedule = "0 1 * * sun";
  others = "";
}

abbrev settled : Cluster
settled = record { osdpl_exists = true; applied = true }

abbrev old_credentials : Credentials
old_credentials = ("admin", some 1) ∷ ("service", some 2) ∷ []

abbrev new_credentials : Credentials
new_credentials = ("admin", some 2) ∷ ("service", some 2) ∷ []

program : Unit {0}
unfolding value version_of release_before upgrade_max_distance check_versions split_on isdigit int
    is_name check_item check_range check_step check_list normalized is_schedule same_rest
    validate_openstack_upgrade check_update check_operation check_masakari_allowed
    check_baremetal_allowed check_panko_allowed check_manila_allowed deny_encrypted_api_key
    deny_strict_admin_policy check_schedules check_spec validate rotation_id same_credentials
    check_rotation check_new check_old validate_credentials
program = tt

check_versions-IsUpgrade_example : (check_versions yoga bobcat ≡ none) ↔ IsUpgrade yoga bobcat
check_versions-IsUpgrade_example = check_versions-IsUpgrade yoga bobcat

validate-Checked_example :
    (v : OpenStackVersion) × (w : OpenStackVersion) × (version_of "yoga" ≡ some v)
    × (version_of "antelope" ≡ some w)
    × Checked settled (spec_of "yoga") (spec_of "antelope") v w
unfolding program
validate-Checked_example = validate-Checked settled (spec_of "yoga") (spec_of "antelope") refl

validate_credentials-Rotated_example : Rotated settled old_credentials new_credentials
unfolding program
validate_credentials-Rotated_example =
    validate_credentials-Rotated settled old_credentials new_credentials refl refl refl refl

abbrev half_rotated : Credentials
half_rotated = ("admin", some 1) ∷ ("service", none) ∷ ("other", some 5) ∷ []

abbrev jumped : Credentials
jumped = ("admin", some 7) ∷ ("other", some 1) ∷ []

-- The admin's id goes from 1 to 7, the other's from 5 to 1.
validate_credentials-unchecked_example :
    (validate_credentials settled half_rotated jumped ≡ none)
    ↔ ((true ≡ true) × (are_kept jumped (("admin", some 1) ∷ []) ≡ true))
unfolding same_credentials
validate_credentials-unchecked_example =
    validate_credentials-unchecked settled (("admin", some 1) ∷ []) (("other", some 5) ∷ []) jumped
      "service" refl refl

schedules :
    map
      (λ s. is_schedule (codes s))
      ("@daily" ∷ " 0-5,7 */2 1 JAN * " ∷ "0 1 * * mon,tue" ∷ "60 * * * *" ∷ "5-1 * * * *"
        ∷ "* * * *" ∷ [])
    ≡ true ∷ true ∷ false ∷ false ∷ false ∷ false ∷ []
unfolding program
schedules = refl

-- A step of 0 passes.
step_zero : is_schedule (codes "*/0 * * * *") ≡ true
unfolding program
step_zero = refl

-- OVN with VPNaaS on Antelope.
abbrev ovn_network : Network
ovn_network = record {
  tungstenfabric_enabled = false;
  ovn_enabled = true;
  ipsec = false;
  bgpvpn = false;
  bgpvpn_route_reflector = false;
  bgpvpn_peers = false;
  vpnaas = true;
  dynamic_routing = false;
  portprober = true;
  geneve = true;
  floating_network = true;
  network_type = false;
  physnet = true;
  segmentation_id = false;
  ngs_hardware = false;
  ngs_devices = true;
  ngs_hardware_fits = false;
}

validate-IsCompatible_example : IsCompatible ovn_network antelope
unfolding program Neutron.validate backend_guards feature_guards first_refusal
validate-IsCompatible_example = validate-IsCompatible ovn_network antelope refl

abbrev default_backend : ImageBackend
default_backend = record {
  is_default = true;
  has_cinder_volume_type = true;
  backend_name = none;
  pvc = none;
}

abbrev images : Glance
images = record {
  certificate_validation_on = true;
  signature_enabled = true;
  backends = ("cinder", ("fast", default_backend) ∷ []) ∷ [];
}

abbrev shares : Dict StorageBackend
shares =
    (
      "generic",
      record {
        enabled = true;
        enabled_backends = "one,two";
        conf = ("one", record { has_backend_name = true; has_driver = true }) ∷ [];
      },
    )
    ∷ []

abbrev volumes : Cinder
volumes = record {
  openstack_version = antelope;
  has_backup = true;
  backup_enabled = true;
  drivers = ("s3", true) ∷ ("nfs", true) ∷ [];
  volume_backends = shares;
}

shares-refused : validate_manila shares ≡ some no_backend_name
unfolding validate_manila check_each check_backend check_conf split_char
shares-refused = refl

volumes-refused : validate_cinder volumes ≡ some two_backup_drivers
unfolding validate_cinder check_each check_backend check_conf split_char value
volumes-refused = refl

storage-accepted_example :
    (accepted (validate_glance images) ≡ is_image_section images)
    × (accepted (validate_cinder volumes) ≡ is_volume_section volumes)
    × (accepted (validate_manila shares) ≡ all is_storage_backend (values shares))
storage-accepted_example = storage-accepted images volumes shares

abbrev compute : Nova
compute = record {
  nova_version = queens;
  encryption_enabled = true;
  images_backend = some "lvm";
  vcpu_type = "EPYC,Skylake";
}

compute-refused : validate_nova compute ≡ some vcpu_types_version
unfolding validate_nova check_vcpu_type split_char value
compute-refused = refl

abbrev identity : Keystone
identity = record {
  keycloak_enabled = true;
  keycloak_url = true;
  has_domains = false;
  ks_domains = some (("one", "config" ∷ "enabled" ∷ []) ∷ []);
  federation = some (record { federation_enabled = true; is_oauth20 = true; providers = [] });
}

identity-refused : validate_keystone identity ≡ some keycloak_and_federation
unfolding validate_keystone check_ks_domains check_federation check_each
identity-refused = refl

abbrev database : Database
database = record {
  backend_is_pv_nfs = false;
  has_pv_nfs = false;
  sync_enabled = true;
  remotes =
      (
        "ceph",
        record {
          remote_keys = "conf" ∷ "path" ∷ [];
          remote_conf =
              ("type", "s3")
              ∷ ("provider", "Ceph")
              ∷ ("access_key_id", "a")
              ∷ ("secret_access_key", "b")
              ∷ [];
        },
      )
      ∷ [];
}

database-refused : validate_database database ≡ some conf_field_missing
unfolding validate_database check_backup_sync check_remote check_each conf_required
database-refused = refl

sections-accepted_example :
    (accepted (validate_nova compute) ≡ is_compute_section compute)
    × (accepted (validate_keystone identity) ≡ is_identity_section identity)
    × (accepted (validate_database database) ≡ is_database_section database)
sections-accepted_example = sections-accepted compute identity database
