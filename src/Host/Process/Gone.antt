-- ===== src/Host/Process/Gone.antt =====
-- What a termination that succeeds leaves of the process.
use spawnr.Prelude.{
  ℕ, zero, suc, ◌≡◌, refl, sym, ap, ◌∙◌, Bool, true, false, not, leb, Result, ok, err, ensure,
  Bool-cases, inl, inr,
}
use spawnr.Prelude.Actions.{
  Action, ◌>>=◌, ◌>>◌, give, always, After, Triple, >>=-Triple, give-Triple, consequence,
}
use spawnr.Host.Process
use spawnr.Host.Process.{ProcessIdentity, matches_running_process, Host}
use spawnr.Host.Process.Status.{Runs, matches_running_process-Runs}
use spawnr.Host.Process.Os.{
  Os, Helper, Signal, sigterm, sigkill, Failure, changed_identity, did_not_exit, out_of_fuel, lift,
  call,
}
use spawnr.Host.Process.Signals.{
  is_current, send_if, send_signal_checked, sleep_unless, look_again, wait_loop, rounds, wait_until,
  has_exited, wait_for_exit, wait_for_child, kill_if, wait_if, terminate, kill_child_if,
  terminate_child_if, terminate_spawned,
}

-- What the kernel documents of the process `p`, a child that was spawned for `h`: procfs shows it while
-- it runs, a signal is answered with ESRCH and a wait with its status only when it runs no more.
pub record Observed (o : Os) (h : Helper) (p : ProcessIdentity) : Type 0 where
  pub live : o.World → Bool
  pub shows : (w : o.World) → live (o.procfs w).1 ≡ true → Runs (o.procfs w).0 p
  pub no_such_fd :
      (s : Signal) (w : o.World)
      → (o.pidfd_send p.pid s w).0 ≡ ok false
      → live (o.pidfd_send p.pid s w).1 ≡ false
  pub no_such :
      (s : Signal) (w : o.World)
      → (o.kill p.pid s w).0 ≡ ok false
      → live (o.kill p.pid s w).1 ≡ false
  pub waited : (w : o.World) → (o.try_wait h w).0 ≡ ok true → live (o.try_wait h w).1 ≡ false

module _ (o : Os) (h : Helper) (p : ProcessIdentity) (k : Observed o h p) where
  abbrev Any : o.World → Type 0
  Any w = Unit {0}

  abbrev Ended : o.World → Type 0
  Ended w = k.live w ≡ false

  -- When the answer is `c`, the process runs no more.
  abbrev EndedIf : Bool → Bool → o.World → Type 0
  EndedIf c b w = b ≡ c → Ended w

  abbrev Tells : Bool → Action o.World Failure Bool → Type 0
  Tells c m = Triple Any Any m (EndedIf c)

  told :
      (c : Bool) (v : Result Process.Error Bool) (w : o.World)
      → (v ≡ ok c → Ended w)
      → After Any (EndedIf c) (lift v) w
  told c (ok b) w f = λ e. f (ap ok e)
  told c (err x) w f = tt

  call-Tells :
      (c : Bool) (op : o.World → Result Process.Error Bool × o.World)
      → ((w : o.World) → (op w).0 ≡ ok c → Ended (op w).1)
      → Tells c (call op)
  unfolding call
  call-Tells c op f = record { holds = λ w u. told c (op w).0 (op w).1 (f w) }

  anything : {A : Type 0} (v : Result Failure A) (w : o.World) → After Any (λ a. Any) v w
  anything (ok a) w = tt
  anything (err e) w = tt

  skip :
      {A B : Type 0} (m : Action o.World Failure A) {f : A → Action o.World Failure B}
      {Q : B → o.World → Type 0}
      → ((a : A) → Triple Any Any (f a) Q)
      → Triple Any Any (m >>= f) Q
  skip m g = >>=-Triple (record { holds = λ w u. anything (m w).0 (m w).1 }) g

  seen : (w : o.World) → matches_running_process (o.procfs w).0 p ≡ ok false → Ended (o.procfs w).1
  seen w e = elim (Bool-cases (k.live (o.procfs w).1)) [
    | inl runs ↦
        absurd (differ (sym (matches_running_process-Runs (o.procfs w).0 p (k.shows w runs)) ∙ e))
    | inr ended ↦ ended
  ]
    where
      differ : ◌≡◌ {A = Result Process.Error Bool} (ok true) (ok false) → ⊥
      differ e = cc

  is_current-Tells : Tells false (is_current o p)
  unfolding is_current always give ◌>>=◌
  is_current-Tells = record {
    holds = λ w u. told false (matches_running_process (o.procfs w).0 p) (o.procfs w).1 (seen w);
  }

  has_exited-Tells : Tells true (has_exited o p)
  has_exited-Tells =
      >>=-Triple is_current-Tells (λ b. give-Triple (ok (not b)) (λ w f e. f (negated b e)))
    where
      negated : (b : Bool) → not b ≡ true → b ≡ false
      negated true e = cc
      negated false e = refl

  send_if-Tells :
      (fd : Bool) (s : Signal) (b : Bool)
      → Triple Any (EndedIf false b) (send_if o fd p s b) (EndedIf false)
  send_if-Tells fd s false = give-Triple (ok false) (λ w f e. f refl)
  send_if-Tells true s true =
      consequence (λ w f. tt) (λ w u. u) (λ b w f. f)
        (call-Tells false (o.pidfd_send p.pid s) (k.no_such_fd s))
  send_if-Tells false s true =
      consequence (λ w f. tt) (λ w u. u) (λ b w f. f)
        (call-Tells false (o.kill p.pid s) (k.no_such s))

  send_signal_checked-Tells : (s : Signal) → Tells false (send_signal_checked o p s)
  unfolding send_signal_checked
  send_signal_checked-Tells s =
      skip _ (λ fd. >>=-Triple is_current-Tells (λ b. send_if-Tells fd s b))

  no_answer : (w : o.World) → ◌≡◌ {A = Bool} false true → Ended w
  no_answer w e = cc

  sleep_unless-Tells :
      (again : Action o.World Failure Bool) (past : Bool)
      → Tells true again
      → Tells true (sleep_unless o again past)
  sleep_unless-Tells again true t = give-Triple (ok false) (λ w u e. no_answer w e)
  sleep_unless-Tells again false t = skip _ (λ done. t)

  look_again-Tells :
      (deadline : ℕ) (again : Action o.World Failure Bool) (b : Bool)
      → Tells true again
      → Triple Any (EndedIf true b) (look_again o deadline again b) (EndedIf true)
  look_again-Tells deadline again true t = give-Triple (ok true) (λ w f e. f refl)
  look_again-Tells deadline again false t =
      consequence (λ w f. tt) (λ w u. u) (λ b w f. f)
        (skip _ (λ now. sleep_unless-Tells again (leb deadline now) t))

  wait_loop-Tells :
      (gone : Action o.World Failure Bool) (deadline fuel : ℕ)
      → Tells true gone
      → Tells true (wait_loop o gone deadline fuel)
  unfolding wait_loop
  wait_loop-Tells gone deadline zero t = give-Triple (err out_of_fuel) (λ w u. tt)
  wait_loop-Tells gone deadline (suc fuel) t =
      >>=-Triple t (λ b. look_again-Tells deadline _ b (wait_loop-Tells gone deadline fuel t))

  wait_until-Tells :
      (gone : Action o.World Failure Bool) (timeout : ℕ)
      → Tells true gone
      → Tells true (wait_until o gone timeout)
  unfolding wait_until
  wait_until-Tells gone timeout t = skip _ (λ start. wait_loop-Tells gone _ (rounds o timeout) t)

  wait_for_exit-Tells : (timeout : ℕ) → Tells true (wait_for_exit o p timeout)
  unfolding wait_for_exit
  wait_for_exit-Tells timeout = wait_until-Tells (has_exited o p) timeout has_exited-Tells

  wait_for_child-Tells : (timeout : ℕ) → Tells true (wait_for_child o h timeout)
  unfolding wait_for_child
  wait_for_child-Tells timeout =
      wait_until-Tells (call (o.try_wait h)) timeout (call-Tells true (o.try_wait h) k.waited)

  exited :
      (b : Bool) (e : Failure) → Triple Any (EndedIf true b) (give (ensure b e)) (λ done. Ended)
  exited true e = give-Triple (ok tt) (λ w f. f refl)
  exited false e = give-Triple (err e) (λ w f. tt)

  -- SIGKILL, and a wait that tells when the process has ended.
  killed :
      (wait : Action o.World Failure Bool)
      → Tells true wait
      → Triple Any Any
          (send_signal_checked o p sigkill >>= λ sent.
            give (ensure sent (changed_identity sigkill))
            >> (wait >>= λ gone. give (ensure gone (did_not_exit sigkill))))
          (λ done. Ended)
  killed wait t =
      skip _ (λ sent. skip _ (λ done. >>=-Triple t (λ gone. exited gone (did_not_exit sigkill))))

  kill_if-Ended : (b : Bool) → Triple Any (EndedIf true b) (kill_if o p b) (λ done. Ended)
  unfolding kill_if
  kill_if-Ended true = give-Triple (ok tt) (λ w f. f refl)
  kill_if-Ended false =
      consequence (λ w f. tt) (λ w u. u) (λ b w f. f)
        (killed (wait_for_exit o p 2000) (wait_for_exit-Tells 2000))

  wait_if-Ended :
      (timeout : ℕ) (b : Bool)
      → Triple Any (EndedIf false b) (wait_if o p timeout b) (λ done. Ended)
  unfolding wait_if
  wait_if-Ended timeout false = give-Triple (ok tt) (λ w f. f refl)
  wait_if-Ended timeout true =
      consequence (λ w f. tt) (λ w u. u) (λ b w f. f)
        (>>=-Triple (wait_for_exit-Tells timeout) (λ b. kill_if-Ended b))

  terminate-Ended : (timeout : ℕ) → Triple Any Any (terminate o p timeout) (λ done. Ended)
  unfolding terminate
  terminate-Ended timeout =
      >>=-Triple (send_signal_checked-Tells sigterm) (λ b. wait_if-Ended timeout b)

  kill_child_if-Ended :
      (b : Bool) → Triple Any (EndedIf true b) (kill_child_if o h p b) (λ done. Ended)
  unfolding kill_child_if
  kill_child_if-Ended true = give-Triple (ok tt) (λ w f. f refl)
  kill_child_if-Ended false =
      consequence (λ w f. tt) (λ w u. u) (λ b w f. f)
        (killed (wait_for_child o h 2000) (wait_for_child-Tells 2000))

  terminate_child_if-Ended :
      (timeout : ℕ) (b : Bool)
      → Triple Any (EndedIf true b) (terminate_child_if o h p timeout b) (λ done. Ended)
  unfolding terminate_child_if
  terminate_child_if-Ended timeout true = give-Triple (ok tt) (λ w f. f refl)
  terminate_child_if-Ended timeout false =
      consequence (λ w f. tt) (λ w u. u) (λ b w f. f)
        (skip _ (λ sent.
          skip _ (λ done. >>=-Triple (wait_for_child-Tells timeout) (λ b. kill_child_if-Ended b))))

  terminate_spawned-Ended :
      (timeout : ℕ) → Triple Any Any (terminate_spawned o h p timeout) (λ done. Ended)
  unfolding terminate_spawned
  terminate_spawned-Ended timeout =
      >>=-Triple (call-Tells true (o.try_wait h) k.waited) (λ b. terminate_child_if-Ended timeout b)

  ended_of :
      (v : Result Failure (Unit {0})) (w : o.World)
      → After Any (λ done. Ended) v w
      → v ≡ ok tt
      → Ended w
  ended_of (ok u) w d e = d
  ended_of (err x) w d e = cc

  -- Where procfs shows a process while it runs, and ESRCH is answered only when it runs no more: after
  -- a termination that succeeds, by whichever of its branches, the process does not run.
  pub terminate_not_live :
      (timeout : ℕ) (w : o.World)
      → (terminate o p timeout w).0 ≡ ok tt
      → k.live (terminate o p timeout w).1 ≡ false
  terminate_not_live timeout w e = ended_of _ _ ((terminate-Ended timeout).holds w tt) e

  -- Where procfs shows a process while it runs, ESRCH is answered only when it runs no more, and a wait
  -- gives the status of a child only when it has ended: after the termination of a spawned child that
  -- succeeds, by whichever of its branches, the child does not run.
  pub terminate_spawned_not_live :
      (timeout : ℕ) (w : o.World)
      → (terminate_spawned o h p timeout w).0 ≡ ok tt
      → k.live (terminate_spawned o h p timeout w).1 ≡ false
  terminate_spawned_not_live timeout w e =
      ended_of _ _ ((terminate_spawned-Ended timeout).holds w tt) e
