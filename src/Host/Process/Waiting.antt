-- ===== src/Host/Process/Waiting.antt =====
-- The waiting loops of process.rs end: with a clock that goes on while a loop sleeps, their rounds
-- suffice for the deadline.
pub mod InTime
use spawnr.Prelude.{
  arith, ℕ, zero, suc, ◌+◌, ◌*◌, ◌/◌, ◌≤◌, ◌<◌, ◌≡◌, refl, ap, Bool, true, false, leb, Result, ok,
  err, ensure,
}
use spawnr.Prelude.Actions.{Action, ◌>>=◌, give, always, rest}
use spawnr.Host.Process
use spawnr.Host.Process.{ProcessIdentity}
use spawnr.Host.Process.Os.{
  Os, os, Helper, Signal, sigterm, sigkill, Failure, changed_identity, did_not_exit, out_of_fuel,
  call, lift,
}
use spawnr.Host.Process.Signals.{
  is_current, send_if, send_signal_checked, sleep_unless, look_again, wait_loop, wait_until,
  has_exited, wait_for_exit, wait_for_child, kill_if, wait_if, terminate, kill_child_if,
  terminate_child_if, terminate_spawned,
}

le_trans : (a b c : ℕ) → a ≤ b → b ≤ c → a ≤ c
le_trans a b c x y = omega arith

err-injective : {B : Type 0} {e f : Failure} → ◌≡◌ {A = Result Failure B} (err e) (err f) → e ≡ f
err-injective x = cc

add_mono : (t a b : ℕ) → a ≤ b → a + t ≤ b + t
add_mono t a b x = omega arith

too_early : (deadline a b : ℕ) → deadline ≤ a + 50 * 0 → a ≤ b → b < deadline → ⊥
too_early deadline a b x y z = omega arith

rounds_left :
    (deadline k a b e : ℕ) → deadline ≤ a + 50 * suc k → a ≤ b → b + 50 ≤ e → deadline ≤ e + 50 * k
rounds_left deadline k a b e x y z = omega arith

enough_rounds : (t n a b : ℕ) → n ≡ a → a ≤ b → n + t ≤ b + 50 * suc (t / 50)
enough_rounds t n a b e x = omega arith

-- An error, at another type of values.
err_other :
    {A B : Type 0} (e f : Failure)
    → ◌≡◌ {A = Result Failure B} (err e) (err f)
    → ◌≡◌ {A = Result Failure A} (err e) (err f)
err_other e f x = ap err (err-injective x)

os-ne_fuel :
    {A : Type 0} (e : Process.Error) → ◌≡◌ {A = Result Failure A} (err (os e)) (err out_of_fuel) → ⊥
os-ne_fuel e x = cc

-- The clock does not go back.
pub record Steady {W A : Type 0} (time : W → ℕ) (op : W → A × W) : Type 0 where
  pub steady : (w : W) → time w ≤ time (op w).1

pub record Clock (o : Os) : Type 0 where
  pub time : o.World → ℕ
  pub now_reads : (w : o.World) → (o.now w).0 ≡ time w
  pub of_now : Steady time o.now
  pub sleeps : (t : ℕ) (w : o.World) → time w + t ≤ time (o.sleep t w)
  pub of_procfs : Steady time o.procfs
  pub of_pidfd_open : (n : ℕ) → Steady time (o.pidfd_open n)
  pub of_pidfd_send : (n : ℕ) (s : Signal) → Steady time (o.pidfd_send n s)
  pub of_kill : (n : ℕ) (s : Signal) → Steady time (o.kill n s)
  pub of_try_wait : (h : Helper) → Steady time (o.try_wait h)

module _ (o : Os) (c : Clock o) where
  -- The computation does not run out of rounds, and the clock does not go back.
  pub record Ends {A : Type 0} (act : Action o.World Failure A) : Type 0 where
    pub later : (w : o.World) → c.time w ≤ c.time (act w).1
    pub ends : (w : o.World) → (act w).0 ≡ err out_of_fuel → ⊥

  rest_later :
      {A B : Type 0} (r : Result Failure A) (w : o.World) (f : A → Action o.World Failure B)
      → ((a : A) → Ends (f a))
      → c.time w ≤ c.time (rest r w f).1
  rest_later (ok a) w f h = (h a).later w
  rest_later (err e) w f h = omega arith

  rest-Ends :
      {A B : Type 0} (r : Result Failure A) (w : o.World) (f : A → Action o.World Failure B)
      → (r ≡ err out_of_fuel → ⊥)
      → ((a : A) → Ends (f a))
      → (rest r w f).0 ≡ err out_of_fuel
      → ⊥
  rest-Ends (ok a) w f x h e = (h a).ends w e
  rest-Ends (err f') w f x h e = x (err_other f' out_of_fuel e)

  pub >>=-Ends :
      {A B : Type 0} {act : Action o.World Failure A} {f : A → Action o.World Failure B}
      → Ends act
      → ((a : A) → Ends (f a))
      → Ends (act >>= f)
  unfolding ◌>>=◌
  >>=-Ends {act = act} {f = f} x h = record {
    later = λ w. le_trans _ _ _ (x.later w) (rest_later (act w).0 (act w).1 f h);
    ends = λ w. rest-Ends (act w).0 (act w).1 f (x.ends w) h;
  }

  pub always-Ends : {A : Type 0} {op : o.World → A × o.World} → Steady c.time op → Ends (always op)
  unfolding always
  always-Ends s = record { later = s.steady; ends = λ w e. cc }

  pub lift_ends : {A : Type 0} (r : Result Process.Error A) → lift r ≡ err out_of_fuel → ⊥
  lift_ends (ok a) e = cc
  lift_ends (err f) e = os-ne_fuel f e

  pub call-Ends :
      {A : Type 0} {op : o.World → Result Process.Error A × o.World}
      → Steady c.time op
      → Ends (call op)
  unfolding call
  call-Ends {op = op} s = record { later = s.steady; ends = λ w. lift_ends (op w).0 }

  pub give-Ends : {A : Type 0} (r : Result Failure A) → (r ≡ err out_of_fuel → ⊥) → Ends (give r)
  unfolding give
  give-Ends r x = record { later = λ w. omega arith; ends = λ w. x }

  -- From this state on, as `Ends`.
  record EndsAt {A : Type 0} (act : Action o.World Failure A) (w : o.World) : Type 0 where
    later_at : c.time w ≤ c.time (act w).1
    ends_at : (act w).0 ≡ err out_of_fuel → ⊥

  rest-EndsAt :
      {A B : Type 0} (r : Result Failure A) (v w : o.World) (f : A → Action o.World Failure B)
      → c.time v ≤ c.time w
      → (r ≡ err out_of_fuel → ⊥)
      → ((a : A) → EndsAt (f a) w)
      → (c.time v ≤ c.time (rest r w f).1) × ((rest r w f).0 ≡ err out_of_fuel → ⊥)
  rest-EndsAt (ok a) v w f l x h = (le_trans _ _ _ l (h a).later_at, (h a).ends_at)
  rest-EndsAt (err e) v w f l x h = (l, λ y. x (err_other e out_of_fuel y))

  >>=-EndsAt :
      {A B : Type 0} {act : Action o.World Failure A} {f : A → Action o.World Failure B}
      (w : o.World)
      → Ends act
      → ((a : A) → EndsAt (f a) (act w).1)
      → EndsAt (act >>= f) w
  unfolding ◌>>=◌
  >>=-EndsAt {act = act} {f = f} w x h =
      let (l, e) = rest-EndsAt (act w).0 w (act w).1 f (x.later w) (x.ends w) h in
      record { later_at = l; ends_at = e }

  Ends-EndsAt :
      {A : Type 0} {act : Action o.World Failure A} (w : o.World) → Ends act → EndsAt act w
  Ends-EndsAt w x = record { later_at = x.later w; ends_at = x.ends w }

  -- The loop goes on only before the deadline, and then from 50 ms later.
  from_later : (w u : o.World) (t n : ℕ) → c.time w + t ≤ c.time u → c.time u ≤ n → c.time w ≤ n
  from_later w u t n x y = omega arith

  before_deadline :
      (deadline : ℕ) (w : o.World) → leb deadline (o.now w).0 ≡ false → c.time w < deadline
  before_deadline deadline w e = ground (arith, c.now_reads w)

  sleep_unless-EndsAt :
      (again : Action o.World Failure Bool) (past : Bool) (w : o.World)
      → (past ≡ false → (u : o.World) → c.time w + 50 ≤ c.time u → EndsAt again u)
      → EndsAt (sleep_unless o again past) w
  unfolding always ◌>>=◌ give
  sleep_unless-EndsAt again true w h = record { later_at = omega arith; ends_at = λ e. cc }
  sleep_unless-EndsAt again false w h =
      let r = h refl (o.sleep 50 w) (c.sleeps 50 w) in
      record {
        later_at = from_later w (o.sleep 50 w) 50 _ (c.sleeps 50 w) r.later_at;
        ends_at = r.ends_at;
      }

  look_again-EndsAt :
      (deadline : ℕ) (again : Action o.World Failure Bool) (exited : Bool) (w : o.World)
      → (c.time w < deadline → (u : o.World) → c.time w + 50 ≤ c.time u → EndsAt again u)
      → EndsAt (look_again o deadline again exited) w
  unfolding always ◌>>=◌ give
  look_again-EndsAt deadline again true w h = record { later_at = omega arith; ends_at = λ e. cc }
  look_again-EndsAt deadline again false w h =
      let r = sleep_unless-EndsAt again (leb deadline (o.now w).0) (o.now w).1 (λ e u l.
        h (before_deadline deadline w e) u
          (le_trans _ _ _ (add_mono 50 _ _ (c.of_now.steady w)) l)) in
      record { later_at = le_trans _ _ _ (c.of_now.steady w) r.later_at; ends_at = r.ends_at }

  -- A loop of `k` rounds and one more, from which `k` sleeps reach the deadline.
  wait_loop-EndsAt :
      (gone : Action o.World Failure Bool)
      → Ends gone
      → (deadline k : ℕ) (w : o.World) → deadline ≤ c.time w + 50 * k
      → EndsAt (wait_loop o gone deadline (suc k)) w
  unfolding wait_loop
  wait_loop-EndsAt gone x deadline zero w l = >>=-EndsAt w x (λ exited.
      look_again-EndsAt deadline _ exited (gone w).1
        (λ b u y. elim (too_early deadline _ _ l (x.later w) b) [ ]))
  wait_loop-EndsAt gone x deadline (suc k) w l = >>=-EndsAt w x (λ exited.
      look_again-EndsAt deadline _ exited (gone w).1 (λ b u y.
        wait_loop-EndsAt gone x deadline k u (rounds_left deadline k _ _ _ l (x.later w) y)))

  from_now :
      (timeout : ℕ) (w : o.World)
      → (o.now w).0 + timeout ≤ c.time (o.now w).1 + 50 * suc (timeout / 50)
  from_now timeout w =
      enough_rounds timeout (o.now w).0 (c.time w) _ (c.now_reads w) (c.of_now.steady w)

  wait_until-EndsAt :
      (gone : Action o.World Failure Bool) (timeout : ℕ)
      → Ends gone
      → (w : o.World) → EndsAt (wait_until o gone timeout) w
  unfolding wait_until always ◌>>=◌
  wait_until-EndsAt gone timeout x w =
      let r =
        wait_loop-EndsAt gone x ((o.now w).0 + timeout) (suc (timeout / 50)) (o.now w).1
          (from_now timeout w) in
      record { later_at = le_trans _ _ _ (c.of_now.steady w) r.later_at; ends_at = r.ends_at }

  pub wait_until-Ends :
      (gone : Action o.World Failure Bool) (timeout : ℕ)
      → Ends gone
      → Ends (wait_until o gone timeout)
  wait_until-Ends gone timeout x = record {
    later = λ w. (wait_until-EndsAt gone timeout x w).later_at;
    ends = λ w. (wait_until-EndsAt gone timeout x w).ends_at;
  }
