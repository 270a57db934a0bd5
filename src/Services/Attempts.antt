-- ===== src/Services/Attempts.antt =====
-- How often a server is migrated.
use openstack_controller.Common.{
  ltb, leb, ◌==◌, eq_iff, if◌then◌else◌, length, select, count, All, contains, Dict, lookup, keys,
  lookup-insert, some_inj, ℕ, zero, suc, ◌+◌, ◌≤◌, ◌<◌, String, ◌≡◌, refl, ap, ◌∙◌, subst, Bool,
  true, false, not, ◌&&◌, ◌||◌, Option, none, some, List, [], ◌∷◌, arith, nat_eq, string_eq,
}
use openstack_controller.Services.Migrate.{
  Compute, Migration, start_migration, count_of, last_of, do_servers_migration, next_round, begin,
  migrate_one, is_done,
}

-- How often the server was migrated.
abbrev pub times : String → List String → ℕ
times id started = count (λ s. s == id) started

-- The allowed number: at least one attempt is made.
abbrev pub limit : ℕ → ℕ
limit attempts = if leb 1 attempts then attempts else 1

All-last_of :
    (P : String → Type 0) (l : List String) (a : String) → All P l → last_of l ≡ some a → P a
All-last_of P [] a h e = cc
All-last_of P (x ∷ []) a (h, t) e = subst P (some_inj e) h
All-last_of P (x ∷ y ∷ rest) a (h, t) e = All-last_of P (y ∷ rest) a t e

All-select :
    (P : String → Type 0) (p : String → Bool) (l : List String)
    → ((a : String) → p a ≡ true → P a)
    → All P (select p l)
All-select P p [] h = tt
All-select P p (x ∷ l) h = chosen (p x) refl (All-select P p l h)
  where
    chosen :
        (b : Bool) → p x ≡ b → All P (select p l) → All P (if b then x ∷ select p l else select p l)
    chosen true e rest = (h x e, rest)
    chosen false e rest = rest

module _ (compute : Compute)
    (shuffles : (P : String → Type 0) (n : ℕ) (l : List String)
      → All P l
      → All P (compute.shuffle n l)) where
  -- The counts are one more than the migrations, no server has had too many, and those that are to be
  -- migrated may be.
  abbrev pub Counted : Migration → Type 0
  Counted m =
      ((id : String) → count_of id m.servers_migrating_count ≡ 1 + times id m.started)
      × ((id : String) → times id m.started ≤ limit compute.attempts)

  abbrev pub MayStart : Migration → Type 0
  MayStart m = All (λ id. times id m.started < limit compute.attempts) m.servers_to_migrate

  recounted :
      (id other : String) (m : Migration)
      → Counted m
      → (b : Bool) → (id == other) ≡ b
      → (elim (if b
          then some (count_of id m.servers_migrating_count + 1)
          else lookup other m.servers_migrating_count) [ none ↦ 1 | some n ↦ n ])
        ≡ 1 + ((if b then 1 else 0) + times other m.started)
  recounted id other m (counts, bounds) true e =
      omega (arith, counts id, ap (λ i. times i m.started) ((eq_iff id other).0 e))
  recounted id other m (counts, bounds) false e = omega (arith, counts other)

  bounded :
      (id other : String) (m : Migration)
      → Counted m
      → times id m.started < limit compute.attempts
      → (b : Bool) → (id == other) ≡ b
      → (if b then 1 else 0) + times other m.started ≤ limit compute.attempts
  bounded id other m (counts, bounds) may true e =
      omega (arith, may, ap (λ i. times i m.started) ((eq_iff id other).0 e))
  bounded id other m (counts, bounds) may false e = omega (arith, bounds other)

  start_migration-Counted :
      (o : Option String) (m : Migration)
      → Counted m
      → ((id : String) → o ≡ some id → times id m.started < limit compute.attempts)
      → Counted (start_migration compute o m)
  unfolding start_migration
  start_migration-Counted none m h may = h
  start_migration-Counted (some id) m h may = (
    (λ other.
        ap (λ o. elim o [ none ↦ 1 | some n ↦ n ])
          (lookup-insert id other (count_of id m.servers_migrating_count + 1)
            m.servers_migrating_count)
        ∙ recounted id other m h (id == other) refl),
    (λ other. bounded id other m h (may id refl) (id == other) refl),
  )

  migrate_one-Counted : (m : Migration) → Counted m → MayStart m → Counted (migrate_one compute m)
  unfolding migrate_one
  migrate_one-Counted m h may =
      tried (ltb (length (compute.in_migrating_state m.round)) compute.concurrency)
    where
      tried :
          (b : Bool)
          → Counted (
              if b
              then start_migration compute
                  (last_of (compute.shuffle m.round m.servers_to_migrate))
                  m
              else m)
      tried true =
          start_migration-Counted (last_of (compute.shuffle m.round m.servers_to_migrate)) m h
            (λ id e.
              All-last_of (λ i. times i m.started < limit compute.attempts)
                (compute.shuffle m.round m.servers_to_migrate) id
                (shuffles (λ i. times i m.started < limit compute.attempts) m.round
                  m.servers_to_migrate may)
                e)
      tried false = h

  -- A server without a count has not been migrated.
  unlisted :
      (counts : Dict ℕ) (id : String) → contains (keys counts) id ≡ false → count_of id counts ≡ 1
  unlisted [] id h = refl
  unlisted ((k, n) ∷ counts) id h = split (k == id) h (unlisted counts id)
    where
      count_in : Option ℕ → ℕ
      count_in o = elim o [ none ↦ 1 | some n ↦ n ]

      split :
          (b : Bool)
          → (b || contains (keys counts) id) ≡ false
          → (contains (keys counts) id ≡ false → count_of id counts ≡ 1)
          → count_in (if b then some n else lookup id counts) ≡ 1
      split true e f = cc
      split false e f = f e

  next_round-MayStart : (m : Migration) → Counted m → MayStart (next_round compute m)
  unfolding next_round
  next_round-MayStart m (counts, bounds) =
      All-select (λ id. times id m.started < limit compute.attempts) _
        (compute.valid_for_live_migration (suc m.round))
        (λ id kept.
          below id (ltb compute.attempts (count_of id m.servers_migrating_count)) refl
            (contains (keys m.servers_migrating_count) id) refl kept)
    where
      below :
          (id : String) (b : Bool)
          → ltb compute.attempts (count_of id m.servers_migrating_count) ≡ b
          → (c : Bool) → contains (keys m.servers_migrating_count) id ≡ c
          → not (b && c) ≡ true
          → times id m.started < limit compute.attempts
      below id true e true f h = cc
      below id true e false f h = ground (arith, counts id, unlisted m.servers_migrating_count id f)
      below id false e c f h = ground (arith, counts id, e)

  pub do_servers_migration-Counted :
      (fuel : ℕ) (m : Migration)
      → Counted m
      → MayStart m
      → Counted (do_servers_migration compute fuel m).1
  unfolding do_servers_migration next_round
  do_servers_migration-Counted zero m h may = h
  do_servers_migration-Counted (suc fuel) m h may = ended (is_done compute m) (
      do_servers_migration-Counted fuel (next_round compute (migrate_one compute m))
        (migrate_one-Counted m h may)
        (next_round-MayStart (migrate_one compute m) (migrate_one-Counted m h may)))
    where
      CountedAfter : Bool × Migration → Type 0
      CountedAfter (b, n) = Counted n

      ended :
          (b : Bool)
          → Counted
              (do_servers_migration compute fuel (next_round compute (migrate_one compute m))).1
          → CountedAfter (
              if b
              then (true, m)
              else do_servers_migration compute fuel (next_round compute (migrate_one compute m)))
      ended true later = h
      ended false later = later

  pub begin-MayStart : MayStart (begin compute)
  begin-MayStart = from_none (compute.valid_for_live_migration 0)
    where
      from_none : (l : List String) → All (λ id. 0 < limit compute.attempts) l
      from_none [] = tt
      from_none (a ∷ l) = (ground arith, from_none l)
