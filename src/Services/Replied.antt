-- ===== src/Services/Replied.antt =====
-- What a command of helm comes to: what is known of its reply and of the world, where it is not an error.
use openstack_controller.Common.{
  if◌then◌else◌, ℕ, zero, suc, String, ◌≡◌, refl, Bool, true, false, ◌&&◌, Option, none, some,
}
use openstack_controller.Services.World.{
  World, Result, ok, raised, ◌>>=◌, continue, pure, timed_out,
}
use openstack_controller.Services.Helm.{
  is_retried, Program, Command, Reply, communicate, classify, raise_failure, attempt, run_cmd,
  retry, retry_if,
}
use openstack_controller.Services.Triple.{Triple, Outcome, Always, Triple-if, Triple-raises}

-- The call gave back a reply of which Q holds, or raised.
abbrev pub Replied : (Q : Reply → World → Type 0) → Result Reply × World → Type 0
Replied Q (ok reply, world) = Q reply world
Replied Q (raised e, world) = Unit

abbrev Never : World → Type 0
Never w = true ≡ false

Never-Replied :
    (Q : Reply → World → Type 0) (r : Result Reply × World) → Outcome Never Always r → Replied Q r
Never-Replied Q (ok reply, w) h = cc
Never-Replied Q (raised e, w) h = tt

module _ (helm : Program) where
  raise_failure-Never :
      (release : Option String) (reply : Reply)
      → Triple Always Never Always (raise_failure helm release reply)
  unfolding raise_failure
  raise_failure-Never none reply =
      Triple-if reply.is_immutable (Triple-raises _ _) (record { at = λ w h. tt })
  raise_failure-Never (some name) reply =
      Triple-if reply.is_immutable (Triple-raises _ _)
        (Triple-if reply.in_progress (Triple-raises _ _) (record { at = λ w h. tt }))

  -- A reply goes on where it is not an error that is to be raised.
  classify-Replied :
      (Q : Reply → World → Type 0) (raise_on_error : Bool) (release : Option String) (reply : Reply)
      (w : World)
      → ((reply.failed && raise_on_error) ≡ false → Q reply w)
      → Replied Q (classify helm raise_on_error release reply w)
  unfolding classify
  classify-Replied Q raise_on_error release reply w h = tested (reply.failed && raise_on_error) h
    where
      tested :
          (b : Bool)
          → (b ≡ false → Q reply w)
          → Replied Q ((if b then raise_failure helm release reply else pure reply) w)
      tested true h =
          Never-Replied Q (raise_failure helm release reply w)
            ((raise_failure-Never release reply).at w tt)
      tested false h = h refl

  module _ (Q : Reply → World → Type 0) (command : Command) (raise_on_error : Bool)
      (release : Option String)
      (finishes : (w : World)
        → ((helm.run w.calls command w.releases).0.failed && raise_on_error) ≡ false
        → Q (helm.run w.calls command w.releases).0 (communicate helm command w).1) where
    attempt-Replied : (w : World) → Replied Q (attempt helm command raise_on_error release w)
    unfolding attempt communicate ◌>>=◌
    attempt-Replied w = timed (helm.run w.calls command w.releases).0.timeout
      where
        timed :
            (b : Bool)
            → Replied Q (
                continue
                  (classify helm raise_on_error release)
                  (if b then raised timed_out else ok (helm.run w.calls command w.releases).0)
                  (communicate helm command w).1)
        timed true = tt
        timed false =
            classify-Replied Q raise_on_error release (helm.run w.calls command w.releases).0
              (communicate helm command w).1 (finishes w)

    retry-Replied :
        (fuel : ℕ) (w : World) → Replied Q (retry helm fuel command raise_on_error release w)
    unfolding retry
    retry-Replied zero w = tt
    retry-Replied (suc fuel) w =
        again (is_retried helm (attempt helm command raise_on_error release w).0)
          (attempt helm command raise_on_error release w) (attempt-Replied w)
          (λ v. retry-Replied fuel v)
      where
        again :
            (b : Bool) (r : Result Reply × World)
            → Replied Q r
            → ((v : World) → Replied Q (retry helm fuel command raise_on_error release v))
            → Replied Q (retry_if helm b (retry helm fuel command raise_on_error release) r)
        again true (result, v) h later = later v
        again false (ok reply, v) h later = h
        again false (raised e, v) h later = tt

    -- What holds after each reply that goes on holds where the command returns.
    pub run_cmd-Replied : (w : World) → Replied Q (run_cmd helm command raise_on_error release w)
    unfolding run_cmd
    run_cmd-Replied w = retry-Replied helm.attempts w
