-- ===== src/Services/Cleared.antt =====
-- When the migration of servers reports success, and how often it has migrated each.
use openstack_controller.Common.{
  ◌==◌, if◌then◌else◌, length, select, All, ℕ, ◌≤◌, String, ◌≡◌, refl, ◌≢◌, Bool, true, false, not,
  ◌||◌, List, [], ◌∷◌, arith, nat_eq, string_eq,
}
use openstack_controller.Services.Migrate.{
  Compute, Migration, Mode, Outcome, Server, live, manual, skip, migrated, migrate_servers,
  checked_after, check_migration_completed, do_servers_migration, begin,
}
use openstack_controller.Services.Attempts.{
  do_servers_migration-Counted, times, limit, Counted, begin-MayStart,
}

module _ (compute : Compute)
    (shuffles : (P : String → Type 0) (n : ℕ) (l : List String)
      → All P l
      → All P (compute.shuffle n l)) where
  -- The servers on the host are in a state that is safe, or stopped.
  abbrev pub AllClear : Outcome → Type 0
  AllClear migrated = All (λ s. (s.is_safe_state || s.is_stopped) ≡ true) compute.all_servers
  AllClear _ = Unit

  left_clear :
      (servers : List Server)
      → (length (select (λ s. not s.is_stopped) (select (λ s. not s.is_safe_state) servers)) == 0)
        ≡ true
      → All (λ s. (s.is_safe_state || s.is_stopped) ≡ true) servers
  left_clear [] h = tt
  left_clear (s ∷ servers) h = split s.is_safe_state h (left_clear servers)
    where
      left : List Server → List Server
      left l = select (λ s. not s.is_stopped) l

      stopped :
          (c : Bool)
          → (length (
                if not c
                then s ∷ left (select (λ s. not s.is_safe_state) servers)
                else left (select (λ s. not s.is_safe_state) servers))
              == 0)
            ≡ true
          → ((length (left (select (λ s. not s.is_safe_state) servers)) == 0) ≡ true
              → All (λ s. (s.is_safe_state || s.is_stopped) ≡ true) servers)
          → (c ≡ true) × All (λ s. (s.is_safe_state || s.is_stopped) ≡ true) servers
      stopped true e f = (refl, f e)
      stopped false e f = ground (arith, e)

      split :
          (b : Bool)
          → (length (
                left (
                  if not b
                  then s ∷ select (λ s. not s.is_safe_state) servers
                  else select (λ s. not s.is_safe_state) servers))
              == 0)
            ≡ true
          → ((length (left (select (λ s. not s.is_safe_state) servers)) == 0) ≡ true
              → All (λ s. (s.is_safe_state || s.is_stopped) ≡ true) servers)
          → ((b || s.is_stopped) ≡ true)
            × All (λ s. (s.is_safe_state || s.is_stopped) ≡ true) servers
      split true e f = (refl, f e)
      split false e f = stopped s.is_stopped e f

  checked-clear :
      (id : String) (started : List String)
      → times id started ≤ limit compute.attempts
      → (times id (check_migration_completed compute started).1 ≤ limit compute.attempts)
        × AllClear (check_migration_completed compute started).0
  unfolding check_migration_completed
  checked-clear id started h =
      split
        (length
            (select (λ s. not s.is_stopped) (select (λ s. not s.is_safe_state) compute.all_servers))
          == 0)
        (left_clear compute.all_servers)
    where
      Fine : Outcome × List String → Type 0
      Fine (o, l) = (times id l ≤ limit compute.attempts) × AllClear o

      split :
          (b : Bool)
          → (b ≡ true → AllClear migrated)
          → Fine (if b then (migrated, started) else (Outcome.still_present, started))
      split true f = (h, f refl)
      split false f = (h, tt)

  ended-clear :
      (id : String) (r : Bool × Migration)
      → Counted compute shuffles r.1
      → (times id (checked_after compute r).1 ≤ limit compute.attempts)
        × AllClear (checked_after compute r).0
  ended-clear id (true, m) (counts, bounds) = checked-clear id m.started (bounds id)
  ended-clear id (false, m) (counts, bounds) = (bounds id, tt)

  -- However long the servers of a host are migrated, none is migrated more often than the configuration
  -- allows, or than once where it allows none. Where the migration reports success and is not to be
  -- skipped, every server left on the host is in a safe state or stopped. Shuffling a list adds nothing
  -- to it.
  pub migrate_servers-times :
      (mode : Mode) (id : String)
      → mode ≢ skip
      → (times id (migrate_servers compute mode).1 ≤ limit compute.attempts)
        × AllClear (migrate_servers compute mode).0
  unfolding migrate_servers
  migrate_servers-times skip id h = elim (h refl) [ ]
  migrate_servers-times live id h =
      ended-clear id (do_servers_migration compute compute.rounds (begin compute)) (
        do_servers_migration-Counted compute shuffles compute.rounds (begin compute)
          ((λ i. omega arith), (λ i. omega arith)) (begin-MayStart compute shuffles))
  migrate_servers-times manual id h = checked-clear id [] (omega arith)
