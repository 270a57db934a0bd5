-- ===== src/Services/Retried.antt =====
-- When the retries of a helm command end.
use openstack_controller.Common.{
  if◌then◌else◌, any, ℕ, zero, suc, ◌≤◌, ◌<◌, String, ◌≡◌, refl, sym, Bool, true, false, not, ◌&&◌,
  ◌||◌, Option, none, some, arith,
}
use openstack_controller.Services.World.{
  Method, World, Result, ok, raised, temporary, timed_out, immutable_field_change, helm_rollback,
  ◌>>=◌, continue, raise, pure,
}
use openstack_controller.Services.Helm.{
  Program, Command, Reply, retry, attempt, is_retried, run_cmd, retry_if, communicate, classify,
  raise_failure, guess_and_delete, rollback_release,
}
use openstack_controller.Services.Objects.{is_manual, guess_and_delete-answer}

module _ (helm : Program) (command : Command) (raise_on_error : Bool)
    (release : Option String) where
  abbrev pub one_attempt : World → Result Reply × World
  one_attempt = attempt helm command raise_on_error release

  -- The world after some attempts.
  abbrev pub after_attempts : ℕ → World → World
  after_attempts zero w = w
  after_attempts (suc n) w = after_attempts n (one_attempt w).1

  -- What helm replies to the attempt after some others.
  abbrev pub reply_at : ℕ → World → Reply
  reply_at n w = let v = after_attempts n w in (helm.run v.calls command v.releases).0

  abbrev pub is_named : Option String → Bool
  is_named none = false
  is_named (some name) = true

  -- A reply for which there is another attempt: none in time; or a failure that the caller wants to
  -- know of, which is either about immutable fields of objects that may be deleted, or about another
  -- operation on a release that the caller has named.
  abbrev pub wants_retry : Reply → Bool
  wants_retry reply =
      reply.timeout
      || ((reply.failed && raise_on_error)
          && (if reply.is_immutable
              then not (any (is_manual helm) reply.matches)
              else (is_named release && reply.in_progress)))

  is_retried-temporary :
      (b : Bool) (r : Result (Unit {0})) (v : World)
      → r ≡ (if b then raised temporary else ok tt)
      → is_retried helm (continue (λ t. raise {A = Reply} immutable_field_change) r v).0 ≡ not b
  is_retried-temporary true (raised e) v h = ground (arith, h)
  is_retried-temporary true (ok a) v h = cc
  is_retried-temporary false (raised e) v h = cc
  is_retried-temporary false (ok a) v h = refl

  -- A rollback that is not done in time is followed by another attempt, too.
  is_retried-rollback :
      (b : Bool) (reply : Reply) (v : World)
      → is_retried helm
          (continue
            (λ r. raise {A = Reply} helm_rollback)
            (if b then raised timed_out else ok reply)
            v).0
        ≡ true
  is_retried-rollback true reply v = refl
  is_retried-rollback false reply v = refl

  abbrev another : Option String → Reply → Bool
  another name reply =
      if reply.is_immutable
      then not (any (is_manual helm) reply.matches)
      else (is_named name && reply.in_progress)

  abbrev modified : Reply → Method Reply
  modified reply =
      guess_and_delete helm reply.matches >>= λ t. raise {A = Reply} immutable_field_change

  abbrev rolled_back : String → Method Reply
  rolled_back name =
      communicate helm (rollback_release name) >>= λ t. raise {A = Reply} helm_rollback

  is_retried-failure :
      (name : Option String) (reply : Reply) (w : World)
      → is_retried helm (raise_failure helm name reply w).0 ≡ another name reply
  unfolding raise_failure ◌>>=◌ communicate
  is_retried-failure none reply w = split reply.is_immutable (
      is_retried-temporary (any (is_manual helm) reply.matches) _ _
        (guess_and_delete-answer helm reply.matches w))
    where
      split :
          (b : Bool)
          → is_retried helm (modified reply w).0 ≡ not (any (is_manual helm) reply.matches)
          → is_retried helm ((if b then modified reply else raise temporary) w).0
            ≡ (if b then not (any (is_manual helm) reply.matches) else false)
      split true h = h
      split false h = refl
  is_retried-failure (some name) reply w =
      split reply.is_immutable reply.in_progress
        (is_retried-temporary (any (is_manual helm) reply.matches) _ _
          (guess_and_delete-answer helm reply.matches w))
        (is_retried-rollback _ _ _)
    where
      split :
          (b c : Bool)
          → is_retried helm (modified reply w).0 ≡ not (any (is_manual helm) reply.matches)
          → is_retried helm (rolled_back name w).0 ≡ true
          → is_retried helm
              ((if b then modified reply else (if c then rolled_back name else raise temporary))
                w).0
            ≡ (if b then not (any (is_manual helm) reply.matches) else c)
      split true c h back = h
      split false true h back = back
      split false false h back = refl

  attempt-is_retried :
      (w : World)
      → is_retried helm (one_attempt w).0 ≡ wants_retry (helm.run w.calls command w.releases).0
  unfolding attempt communicate classify ◌>>=◌
  attempt-is_retried w =
      let reply = (helm.run w.calls command w.releases).0 in
      split reply reply.timeout (reply.failed && raise_on_error) (communicate helm command w).1
        (is_retried-failure release reply (communicate helm command w).1)
    where
      split :
          (reply : Reply) (b c : Bool) (v : World)
          → is_retried helm (raise_failure helm release reply v).0 ≡ another release reply
          → is_retried helm
              (continue
                (λ (r : Reply).
                  if r.failed && raise_on_error then raise_failure helm release r else pure r)
                (if b then raised timed_out else ok reply)
                v).0
            ≡ (b || ((reply.failed && raise_on_error) && another release reply))
      split reply true c v h = refl
      split reply false c v h = judged (reply.failed && raise_on_error) h
        where
          judged :
              (d : Bool)
              → is_retried helm (raise_failure helm release reply v).0 ≡ another release reply
              → is_retried helm ((if d then raise_failure helm release reply else pure reply) v).0
                ≡ (d && another release reply)
          judged true h = h
          judged false h = refl

  -- The retries end with the first reply for which there is no other attempt.
  abbrev pub EndsBy : ℕ → World → Result Reply × World → Type 0
  EndsBy n w result =
      (k : ℕ) × (k ≤ n)
      × (result ≡ one_attempt (after_attempts k w))
      × (wants_retry (reply_at k w) ≡ false)
      × ((j : ℕ) → j < k → wants_retry (reply_at j w) ≡ true)

  retry-EndsBy :
      (fuel n : ℕ) (w : World)
      → wants_retry (reply_at n w) ≡ false
      → n < fuel
      → EndsBy n w (retry helm fuel command raise_on_error release w)
  unfolding retry
  retry-EndsBy zero n w h less = ground (arith, less)
  retry-EndsBy (suc fuel) n w h less =
      first (is_retried helm (one_attempt w).0) (sym (attempt-is_retried w)) n h less
        (λ m later. retry-EndsBy fuel m (one_attempt w).1 later)
    where
      first :
          (b : Bool)
          → wants_retry (helm.run w.calls command w.releases).0 ≡ b
          → (n : ℕ) → wants_retry (reply_at n w) ≡ false
          → n < suc fuel
          → ((m : ℕ)
              → wants_retry (reply_at m (one_attempt w).1) ≡ false
              → m < fuel
              → EndsBy m
                  (one_attempt w).1
                  (retry helm fuel command raise_on_error release (one_attempt w).1))
          → EndsBy n w
              (retry_if helm b (retry helm fuel command raise_on_error release) (one_attempt w))
      first false e n h less later = (0, omega arith, refl, e, λ j l. absurd (omega (arith, l)))
      first true e zero h less later = cc
      first true e (suc n) h less later =
          let (k, le, same, ends, before) = later n h (omega (arith, less)) in
          (suc k, omega (arith, le), same, ends, λ j. earlier k before j)
        where
          earlier :
              (k : ℕ)
              → ((j : ℕ) → j < k → wants_retry (reply_at j (one_attempt w).1) ≡ true)
              → (j : ℕ) → j < suc k
              → wants_retry (reply_at j w) ≡ true
          earlier k before zero l = e
          earlier k before (suc j) l = before j (omega (arith, l))

  pub run_cmd-EndsBy :
      (n : ℕ) (w : World)
      → wants_retry (reply_at n w) ≡ false
      → n < helm.attempts
      → EndsBy n w (run_cmd helm command raise_on_error release w)
  unfolding run_cmd
  run_cmd-EndsBy n w h less = retry-EndsBy helm.attempts n w h less
