-- ===== src/Services/Migrate.antt =====
-- `_migrate_servers` of Nova in openstack_controller/services/__init__.py: the instances leave a host before
-- it is rebooted. What the compute service lists at each round, and the order that random.shuffle gives,
-- are given. The loop runs on fuel: each round is one poll.
use openstack_controller.Common.{
  ltb, ◌==◌, if◌then◌else◌, length, select, contains, Dict, lookup, insert, keys, ℕ, zero, suc, ◌+◌,
  String, Bool, true, false, not, ◌&&◌, Option, none, some, List, [], ◌∷◌, nat_eq, string_eq,
}

pub data Mode : Type 0 where
  live manual skip : Mode

pub record Server : Type 0 where
  -- vm_state is one of SERVER_STATES_SAFE_FOR_REBOOT
  pub is_safe_state : Bool
  -- power_state is one of SERVER_STOPPED_POWER_STATES
  pub is_stopped : Bool

pub record Compute : Type 0 where
  -- by round: the servers that may be migrated live, those that are migrating
  pub valid_for_live_migration : ℕ → List String
  pub in_migrating_state : ℕ → List String
  pub shuffle : ℕ → List String → List String
  -- the servers on the host when the loop has ended
  pub all_servers : List Server
  -- the configuration: `instance_migration_attempts`, `instance_migrate_concurrency`
  pub attempts : ℕ
  pub concurrency : ℕ
  pub rounds : ℕ

pub record Migration : Type 0 where
  pub round : ℕ
  pub servers_to_migrate : List String
  pub servers_migrating_count : Dict ℕ
  -- the calls of live_migrate_server, the latest first
  pub started : List String

-- `servers_migrating_count.get(id, 1)`
abbrev pub count_of : String → Dict ℕ → ℕ
count_of id counts = elim (lookup id counts) [ none ↦ 1 | some n ↦ n ]

-- `pop()`: the last of a list
abbrev pub last_of : List String → Option String
last_of [] = none
last_of (a ∷ []) = some a
last_of (a ∷ b ∷ rest) = last_of (b ∷ rest)

pub data Outcome : Type 0 where
  migrated still_present still_running : Outcome

module _ (compute : Compute) where
  -- `live_migrate_server`, with the count before it. Its error is only logged.
  unfoldable pub start_migration : Option String → Migration → Migration
  start_migration none m = m
  start_migration (some id) m = record m {
    servers_migrating_count =
        insert id (count_of id m.servers_migrating_count + 1) m.servers_migrating_count;
    started = id ∷ m.started;
  }

  -- The `if` on the number of servers that are migrating.
  unfoldable pub migrate_one : Migration → Migration
  migrate_one m =
      if ltb (length (compute.in_migrating_state m.round)) compute.concurrency
      then start_migration (last_of (compute.shuffle m.round m.servers_to_migrate)) m
      else m

  -- The servers of the next round: those that have not had all attempts.
  unfoldable pub next_round : Migration → Migration
  next_round m = record m {
    round = suc m.round;
    servers_to_migrate =
        select
          (λ id. not (
            ltb compute.attempts (count_of id m.servers_migrating_count)
            && contains (keys m.servers_migrating_count) id))
          (compute.valid_for_live_migration (suc m.round));
  }

  abbrev pub is_done : Migration → Bool
  is_done m = length m.servers_to_migrate == 0

  -- `_do_servers_migration`
  unfoldable pub do_servers_migration : (fuel : ℕ) → Migration → Bool × Migration
  do_servers_migration zero m = (false, m)
  do_servers_migration (suc fuel) m =
      let rest = do_servers_migration fuel (next_round (migrate_one m)) in
      if is_done m then (true, m) else rest

  abbrev pub begin : Migration
  begin = record {
    round = 0;
    servers_to_migrate = compute.valid_for_live_migration 0;
    servers_migrating_count = [];
    started = [];
  }

  -- `_check_migration_completed`
  unfoldable pub check_migration_completed : List String → Outcome × List String
  check_migration_completed started =
      if length
          (select (λ s. not s.is_stopped) (select (λ s. not s.is_safe_state) compute.all_servers))
        == 0
      then (migrated, started)
      else (still_present, started)

  abbrev pub checked_after : Bool × Migration → Outcome × List String
  checked_after (true, m) = check_migration_completed m.started
  checked_after (false, m) = (still_running, m.started)

  -- `_migrate_servers`, with the servers that were migrated
  unfoldable pub migrate_servers : Mode → Outcome × List String
  migrate_servers skip = (migrated, [])
  migrate_servers live = checked_after (do_servers_migration compute.rounds begin)
  migrate_servers manual = check_migration_completed []
