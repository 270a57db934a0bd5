-- ===== src/Services/Releases.antt =====
-- What applying a service makes of the releases that helm has.
use openstack_controller.Services.Replied.{Replied, run_cmd-Replied}
use openstack_controller.Common.{
  ◌==◌, if◌then◌else◌, Dict, lookup, values, some_inj, ℕ, String, ◌≡◌, refl, ◌∙◌, subst, Bool, true,
  false, not, ◌&&◌, Option, none, some, arith, nat_eq, string_eq,
}
use openstack_controller.Services.World.{
  temporary, ◌>>=◌, continue, World, Result, ok, raised, raise, pure,
}
use openstack_controller.Services.Helm.{
  Program, Command, Reply, install_release, delete_release, rollback_release, get_values,
  list_releases, delete, run_cmd, install, communicate, delete_match, delete_object,
}
use openstack_controller.Services.Keeps.{
  Keeps-raise, Preorder, Keeps, Keeps-retry, Keeps-bind, Keeps-attempt, Keeps-if, Keeps-pure,
}
use openstack_controller.Services.Triple.{Always, Triple, Outcome}

-- The command is about this release.
abbrev pub concerns : String → Command → Bool
concerns name list_releases = false
concerns name (get_values other) = false
concerns name (install_release other values) = other == name
concerns name (delete_release other) = other == name
concerns name (rollback_release other) = other == name

-- What is documented of helm: a command changes no release but its own; one that installs and does not
-- fail leaves the release with its values; one that deletes leaves none, if it does not report an error or
-- reports that there was none.
pub record IsHelm (helm : Program) : Type 0 where
  pub touches :
      (call : ℕ) (command : Command) (releases : Dict String) (name : String)
      → concerns name command ≡ false
      → lookup name (helm.run call command releases).1 ≡ lookup name releases
  pub installs :
      (call : ℕ) (name values : String) (releases : Dict String)
      → (helm.run call (install_release name values) releases).0.failed ≡ false
      → lookup name (helm.run call (install_release name values) releases).1 ≡ some values
  pub uninstalls :
      (call : ℕ) (name : String) (releases : Dict String)
      → ((helm.run call (delete_release name) releases).0.has_stderr
          && not (helm.run call (delete_release name) releases).0.not_loaded)
        ≡ false
      → lookup name (helm.run call (delete_release name) releases).1 ≡ none

-- One release is as it was.
abbrev pub same_release : String → Preorder
same_release name = record {
  Related = λ w v. lookup name v.releases ≡ lookup name w.releases;
  reflexive = λ w. refl;
  transitive = λ p q. q ∙ p;
}

abbrev pub HasRelease : String → Option String → World → Type 0
HasRelease name values w = lookup name w.releases ≡ values

module _ (helm : Program) (is_helm : IsHelm helm) where
  deletes : (name : String) (o : String × String) → Keeps (same_release name) (delete_match helm o)
  unfolding delete_match delete_object
  deletes name o = record { at = λ w. ground arith }

  communicate-other :
      (name : String) (command : Command)
      → concerns name command ≡ false
      → Keeps (same_release name) (communicate helm command)
  unfolding communicate
  communicate-other name command h = record {
    at = λ w. is_helm.touches w.calls command w.releases name h;
  }

  -- A command on another release, with the rollbacks.
  run_cmd-other :
      (name : String) (command : Command) (raise_on_error : Bool) (release : Option String)
      → concerns name command ≡ false
      → ((n : String) → release ≡ some n → (n == name) ≡ false)
      → Keeps (same_release name) (run_cmd helm command raise_on_error release)
  unfolding run_cmd
  run_cmd-other name command raise_on_error release h back =
      let order = same_release name in
      Keeps-retry order helm helm.attempts command raise_on_error release (
        Keeps-attempt order helm command raise_on_error release (deletes name)
          (communicate-other name command h)
          (λ n e. communicate-other name (rollback_release n) (back n e)))

  pub install-other :
      (name : String) (release : String × String)
      → (release.0 == name) ≡ false
      → Keeps (same_release name) (install helm release)
  unfolding install
  install-other name release h =
      Keeps-bind (same_release name)
        (run_cmd-other name _ _ _ h (λ n e. subst (λ m. (m == name) ≡ false) (some_inj e) h))
        (λ reply. Keeps-pure (same_release name) tt)

  pub delete-other :
      (name other : String)
      → (other == name) ≡ false
      → Keeps (same_release name) (delete helm other)
  unfolding delete
  delete-other name other h =
      Keeps-bind (same_release name) (run_cmd-other name _ _ _ h (λ n e. cc)) (λ reply.
        Keeps-if (same_release name) _ (Keeps-raise (same_release name) _)
          (Keeps-pure (same_release name) tt))

  pub install-Triple :
      (name given : String)
      → Triple Always (HasRelease name (some given)) Always (install helm (name, given))
  unfolding install ◌>>=◌ communicate
  install-Triple name given = record {
    at = λ w h. installed (run_cmd helm (install_release name given) true (some name) w) (
        run_cmd-Replied helm (λ reply v. HasRelease name (some given) v)
          (install_release name given) true (some name)
          (λ v fine. is_helm.installs v.calls name given v.releases (no_failure _ fine)) w);
  }
    where
      no_failure : (b : Bool) → (b && true) ≡ false → b ≡ false
      no_failure true h = h
      no_failure false h = h

      installed :
          (r : Result Reply × World)
          → Replied (λ reply v. HasRelease name (some given) v) r
          → Outcome
              (HasRelease name (some given))
              Always
              (continue (λ reply. pure {A = Unit {0}} tt) r.0 r.1)
      installed (ok reply, v) h = h
      installed (raised e, v) h = tt

  pub delete-Triple :
      (name : String) → Triple Always (HasRelease name none) Always (delete helm name)
  unfolding delete ◌>>=◌ communicate
  delete-Triple name = record {
    at = λ w h. deleted (run_cmd helm (delete_release name) false none w) (
        run_cmd-Replied helm Deleted (delete_release name) false none
          (λ v fine clean. is_helm.uninstalls v.calls name v.releases clean) w);
  }
    where
      Deleted : Reply → World → Type 0
      Deleted reply v = (reply.has_stderr && not reply.not_loaded) ≡ false → HasRelease name none v

      judged :
          (b : Bool) (v : World)
          → (b ≡ false → HasRelease name none v)
          → Outcome
              (HasRelease name none)
              Always
              ((if b then raise {A = Unit {0}} temporary else pure tt) v)
      judged true v h = tt
      judged false v h = h refl

      deleted :
          (r : Result Reply × World)
          → Replied Deleted r
          → Outcome (HasRelease name none) Always (
              continue
                (λ reply.
                  if reply.has_stderr && not reply.not_loaded
                  then raise {A = Unit {0}} temporary
                  else pure tt)
                r.0
                r.1)
      deleted (ok reply, v) h = judged (reply.has_stderr && not reply.not_loaded) v h
      deleted (raised e, v) h = tt
