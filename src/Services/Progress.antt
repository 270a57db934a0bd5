-- ===== src/Services/Progress.antt =====
-- `update_osdpl_lcm_progress` of openstack_controller/osdplstatus.py: how many services are up to date.
use openstack_controller.Common.{
  ◌==◌, if◌then◌else◌, length, select, count, all, Dict, values, ℕ, suc, ◌+◌, ◌-◌, ◌≤◌, String, ◌≡◌,
  sym, ◌∙◌, ◌↔◌, Bool, true, false, not, ◌&&◌, ◌||◌, [], ◌∷◌, arith, nat_eq, string_eq,
}
use openstack_controller.Services.World.{State, ServiceStatus, state_applied}

abbrev pub is_applied : State → Bool
is_applied state_applied = true
is_applied _ = false

module _ (fingerprint controller_version : String) where
  -- The test in the loop, of a service that is not ready.
  abbrev pub is_behind : ServiceStatus → Bool
  is_behind status =
      not (fingerprint == status.fingerprint)
      || not (controller_version == status.controller_version)
      || not (is_applied status.state)

  -- The two numbers of `lcm_progress`.
  unfoldable pub lcm_progress : Dict ServiceStatus → ℕ × ℕ
  lcm_progress services =
      let total = length services in (total - length (select is_behind (values services)), total)

  -- The service is applied with this version and this spec.
  abbrev pub is_current : ServiceStatus → Bool
  is_current status =
      fingerprint == status.fingerprint
      && controller_version == status.controller_version
      && is_applied status.state

  behind_or_current : (status : ServiceStatus) → is_behind status ≡ not (is_current status)
  behind_or_current status =
      three (fingerprint == status.fingerprint) (controller_version == status.controller_version)
        (is_applied status.state)
    where
      three : (a b c : Bool) → (not a || not b || not c) ≡ not (a && b && c)
      three a b c = ground arith

  counted :
      (services : Dict ServiceStatus)
      → count is_current (values services) + length (select is_behind (values services))
        ≡ length services
  counted [] = omega arith
  counted ((name, status) ∷ services) =
      split (is_behind status) (is_current status) (behind_or_current status) (counted services)
    where
      split :
          (b c : Bool)
          → b ≡ not c
          → count is_current (values services) + length (select is_behind (values services))
            ≡ length services
          → ((if c then 1 else 0) + count is_current (values services))
              + length (
                  if b
                  then status ∷ select is_behind (values services)
                  else select is_behind (values services))
            ≡ suc (length services)
      split true true e h = cc
      split true false e h = omega (arith, h)
      split false true e h = omega (arith, h)
      split false false e h = cc

  all_counted :
      (services : Dict ServiceStatus)
      → (count is_current (values services) ≡ length services)
        ↔ (all is_current (values services) ≡ true)
  all_counted [] = ground arith
  all_counted ((name, status) ∷ services) =
      split (is_current status) (all_counted services) (at_most services)
    where
      at_most :
          (services : Dict ServiceStatus) → count is_current (values services) ≤ length services
      at_most services = omega (arith, counted services)

      split :
          (b : Bool)
          → (count is_current (values services) ≡ length services)
            ↔ (all is_current (values services) ≡ true)
          → count is_current (values services) ≤ length services
          → ((if b then 1 else 0) + count is_current (values services) ≡ suc (length services))
            ↔ ((b && all is_current (values services)) ≡ true)
      split true (f, g) le = ((λ e. f (omega (arith, e))), (λ e. omega (arith, g e)))
      split false h le = ((λ e. ground (arith, e, le)), (λ e. cc))

  -- The progress is the number of services that are applied with this spec and version, of all services
  -- that have a status, and it is complete exactly where every service is.
  pub lcm_progress-count :
      (services : Dict ServiceStatus)
      → ((lcm_progress services).0 ≡ count is_current (values services))
        × (((lcm_progress services).0 ≡ (lcm_progress services).1)
            ↔ (all is_current (values services) ≡ true))
  unfolding lcm_progress
  lcm_progress-count services =
      let ready =
        number (length services) (length (select is_behind (values services)))
          (count is_current (values services)) (counted services) in
      (ready, moved _ _ _ ready (all_counted services))
    where
      number : (total behind current : ℕ) → current + behind ≡ total → total - behind ≡ current
      number total behind current e = omega (arith, e)

      moved : (a b n : ℕ) {P : Type 0} → a ≡ b → (b ≡ n) ↔ P → (a ≡ n) ↔ P
      moved a b n e (f, g) = ((λ h. f (sym e ∙ h)), (λ p. e ∙ g p))
