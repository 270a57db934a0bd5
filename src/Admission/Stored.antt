-- ===== src/Admission/Stored.antt =====
-- Which images, volumes and shares the validators accept.
use openstack_controller.Common.{
  ltb, ◌==◌, if◌then◌else◌, length, select, all, Dict, values, String, ◌≡◌, refl, Bool, true, false,
  not, ◌&&◌, none, nat_eq, string_eq,
}
use openstack_controller.Admission.Storage.{
  check_each, SectionRefusal, Glance, Cinder, StorageBackend, listed, validate_glance, check_conf,
  check_backend, validate_cinder, then_check, conf_of, refuse_on, validate_manila,
}
use openstack_controller.Admission.Versions.{value, yoga}
use openstack_controller.Admission.Accepted.{
  accepted-refuse_on, accepted, is_glance, both_accepted, accepted-check_each,
  validate_glance_backends-accepted,
}

check_conf-accepted :
    (opts : StorageBackend) (backend : String)
    → accepted (check_conf opts backend) ≡ (
        not (not (conf_of opts backend).has_backend_name)
        && not (not (conf_of opts backend).has_driver))
unfolding check_conf
check_conf-accepted opts backend =
    both_accepted _ _ _ _ (accepted-refuse_on _ _) (accepted-refuse_on _ _)

-- The sections of every listed backend have a name and a driver, and one is listed.
abbrev pub is_configured : StorageBackend → Bool
is_configured opts =
    if opts.enabled
    then not (length (listed opts) == 0)
      && all
          (λ backend.
            not (not (conf_of opts backend).has_backend_name)
            && not (not (conf_of opts backend).has_driver))
          (listed opts)
    else true

check_backend-accepted :
    (opts : StorageBackend) → accepted (check_backend opts) ≡ is_configured opts
unfolding check_backend
check_backend-accepted opts = where_enabled opts.enabled
  where
    checked :
        accepted (
          then_check
            (refuse_on (length (listed opts) == 0) SectionRefusal.no_enabled_backends)
            (check_each (check_conf opts) (listed opts)))
        ≡ (not (length (listed opts) == 0)
            && all
                (λ backend.
                  not (not (conf_of opts backend).has_backend_name)
                  && not (not (conf_of opts backend).has_driver))
                (listed opts))
    checked = both_accepted _ _ _ _ (accepted-refuse_on _ _) (
        accepted-check_each (check_conf opts) _ (listed opts)
          (λ backend. check_conf-accepted opts backend))

    where_enabled :
        (b : Bool)
        → accepted (
            if b
            then then_check
                (refuse_on (length (listed opts) == 0) SectionRefusal.no_enabled_backends)
                (check_each (check_conf opts) (listed opts))
            else none)
          ≡ (if b
              then not (length (listed opts) == 0)
                && all
                    (λ backend.
                      not (not (conf_of opts backend).has_backend_name)
                      && not (not (conf_of opts backend).has_driver))
                    (listed opts)
              else true)
    where_enabled true = checked
    where_enabled false = refl

abbrev pub is_cinder : Cinder → Bool
is_cinder cinder =
    not (not (length cinder.drivers == 0) && ltb (value cinder.openstack_version) (value yoga))
    && (not (
          cinder.has_backup
          && cinder.backup_enabled
          && ltb 1 (length (select (λ on. on) (values cinder.drivers))))
        && all is_configured (values cinder.volume_backends))

-- What passes the guards, one by one.
pub storage-passed :
    (glance : Glance) (cinder : Cinder) (shares : Dict StorageBackend)
    → (accepted (validate_glance glance) ≡ is_glance glance)
      × (accepted (validate_cinder cinder) ≡ is_cinder cinder)
      × (accepted (validate_manila shares) ≡ all is_configured (values shares))
unfolding validate_glance validate_cinder validate_manila
storage-passed glance cinder shares = (
  both_accepted _ _ _ _ (accepted-refuse_on _ _)
      (validate_glance_backends-accepted glance.backends),
  both_accepted _ _ _ _ (accepted-refuse_on _ _) (
      both_accepted _ _ _ _ (accepted-refuse_on _ _) (
        accepted-check_each check_backend is_configured (values cinder.volume_backends)
          check_backend-accepted)),
  accepted-check_each check_backend is_configured (values shares) check_backend-accepted,
)
