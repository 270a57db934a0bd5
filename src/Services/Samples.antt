-- ===== src/Services/Samples.antt =====
-- A helm program that does what is asked, for the tests.
use openstack_controller.Common.{
  ◌==◌, eq_refl, if◌then◌else◌, Dict, lookup, insert, remove, lookup-insert, lookup-remove, ℕ,
  String, ◌≡◌, refl, ap, ◌∙◌, true, false, none, some, [], ◌∷◌, arith, nat_eq, string_eq,
}
use openstack_controller.Services.Helm.{
  Program, Command, Reply, install_release, delete_release, rollback_release, get_values,
  list_releases,
}
use openstack_controller.Services.Releases.{IsHelm, concerns}
use openstack_controller.Services.Total.{IsFollowed}
use openstack_controller.Services.Retried.{wants_retry}

abbrev pub fine : Reply
fine = record {
  timeout = false;
  failed = false;
  is_immutable = false;
  matches = [];
  in_progress = false;
  has_stderr = false;
  not_loaded = false;
}

abbrev pub obey : ℕ → Command → Dict String → Reply × Dict String
obey call (install_release name given) releases = (fine, insert name given releases)
obey call (delete_release name) releases = (fine, remove name releases)
obey call command releases = (fine, releases)

abbrev pub helm : Program
helm = record {
  run = obey;
  run_objects = λ call command releases objects. objects;
  manual_kinds = "PersistentVolume" ∷ "PersistentVolumeClaim" ∷ [];
  is_gone = λ o. true;
  attempts = 3;
}

obey-touches :
    (call : ℕ) (command : Command) (releases : Dict String) (name : String)
    → concerns name command ≡ false
    → lookup name (helm.run call command releases).1 ≡ lookup name releases
obey-touches call list_releases releases name h = refl
obey-touches call (get_values other) releases name h = refl
obey-touches call (install_release other given) releases name h =
    lookup-insert other name given releases
    ∙ ap (λ b. if b then some given else lookup name releases) h
obey-touches call (delete_release other) releases name h =
    lookup-remove other name releases ∙ ap (λ b. if b then none else lookup name releases) h
obey-touches call (rollback_release other) releases name h = refl

pub helm-IsHelm : IsHelm helm
helm-IsHelm = record {
  touches = obey-touches;
  installs = λ call name given releases h.
      lookup-insert name name given releases
      ∙ ap (λ b. if b then some given else lookup name releases) (eq_refl name);
  uninstalls = λ call name releases h.
      lookup-remove name name releases
      ∙ ap (λ b. if b then none else lookup name releases) (eq_refl name);
}

pub helm-IsFollowed : IsFollowed helm
helm-IsFollowed command raise_on_error release w = (0, final command, omega arith)
  where
    final :
        (command : Command)
        → wants_retry helm command raise_on_error release (obey w.calls command w.releases).0
          ≡ false
    final list_releases = refl
    final (get_values name) = refl
    final (install_release name given) = refl
    final (delete_release name) = refl
    final (rollback_release name) = refl

-- The first command finds another operation in progress.
abbrev busy : Reply
busy = record fine { failed = true; in_progress = true }

abbrev meet : ℕ → Command → Dict String → Reply × Dict String
meet call command releases = if call == 0 then (busy, releases) else obey call command releases

abbrev pub late_helm : Program
late_helm = record helm { run = meet }
