-- ===== src/Server/Missed.antt =====
-- A Shutdown of server/server.go that comes before ServeForever assigns `http`.
use jelly.Base.{
  ℕ, ◌≡◌, ◌≢◌, ◌≤◌, refl, sym, subst, List, [], Option, none, Bool, true, false, ◌==◌, ◌+◌, ◌-◌,
  arith,
}
use jelly.Auth.Errors.{Error}
use jelly.Server.Lifecycle.{
  Life, ApiEnd, begin_serving, set_http, end_serving, end_apis, shut_down, shut_down_serving, Step,
  begin, listen, return, panic, shutdown, Reachable, after, IsSound, reachable-IsSound, Unreturned,
  still, onward, life_of,
}

Unreturned-Reachable : {m k : Life} → Reachable m → Unreturned m k → Reachable k
Unreturned-Reachable r still = r
Unreturned-Reachable r (onward u step running) = after (Unreturned-Reachable r u) step

-- The life after it, while the call of ServeForever listens.
abbrev missed : Life
missed = record { serving = true; closing = true; http = true; running = 1; starting = 0 }

missed-step : {k l : Life} → k ≡ missed → Step k l → (l.running == 0) ≡ false → l ≡ missed
unfolding begin_serving end_serving shut_down
missed-step e (begin {l}) r = subst (λ x. (begin_serving x).1 ≡ missed) (sym e) refl
missed-step e (listen {l} f) r =
    let settled : (missed.starting == 0) ≡ false = subst (λ x. (x.starting == 0) ≡ false) e f in cc
missed-step e (return {l} f g) r =
    let ended : ((end_serving missed).running == 0) ≡ false =
      subst (λ x. ((end_serving x).running == 0) ≡ false) e r in
    cc
missed-step e (panic {l} f) r =
    let settled : (missed.starting == 0) ≡ false = subst (λ x. (x.starting == 0) ≡ false) e f in cc
missed-step e (shutdown {l} stopped ended apis) r =
    subst (λ x. (shut_down stopped ended apis x).1 ≡ missed) (sym e) refl

missed-Unreturned : {m k : Life} → m ≡ missed → Unreturned m k → k ≡ missed
missed-Unreturned e still = e
missed-Unreturned e (onward u step r) = missed-step (missed-Unreturned e u) step r

abbrev begun_and_shut : Bool → List ApiEnd → Life → List Error × Life
begun_and_shut ended apis l = shut_down none ended apis (begin_serving l).1

missed-counts :
    (r st : ℕ)
    → r ≡ 0
    → st ≤ r
    → record { serving = true; closing = true; http = true; running = r + 1; starting = st + 1 - 1 }
      ≡ missed
missed-counts r st e f =
    let one : r + 1 ≡ 1 = omega arith in
    let none_starting : st + 1 - 1 ≡ 0 = omega arith in
    λ i. record {
      serving = true;
      closing = true;
      http = true;
      running = one i;
      starting = none_starting i;
    }

begun_and_shut-missed :
    (ended : Bool) (apis : List ApiEnd) (s c h : Bool) (r st : ℕ)
    → end_apis apis ≡ []
    → s ≡ false
    → IsSound (life_of s c h r st)
    → ((begun_and_shut ended apis (life_of s c h r st)).0 ≡ [])
      × (set_http (begun_and_shut ended apis (life_of s c h r st)).1 ≡ missed)
      × (((begun_and_shut ended apis (life_of s c h r st)).1.starting == 0) ≡ false)
unfolding begin_serving set_http shut_down shut_down_serving
begun_and_shut-missed ended apis true c h r st silent e x = cc
begun_and_shut-missed ended apis false true h r st silent e x = let bad = x.closes in cc
begun_and_shut-missed ended apis false false true r st silent e x =
    (silent, missed-counts r st x.one x.started, ground arith)
begun_and_shut-missed ended apis false false false r st silent e x =
    (silent, missed-counts r st x.one x.started, ground arith)

-- Let ServeForever start in a reachable life in which the server is not serving, and let a Shutdown
-- come before it assigns `http`, in which the loop over the APIs has no error and the HTTP server of
-- an earlier call of ServeForever, if there is one, stops without an error. That Shutdown returns
-- without an error. The call of ServeForever then assigns `http`, and as long as it does not return,
-- whatever steps are taken, the server is serving with `http` set, and every Shutdown returns an
-- error and changes nothing.
pub shut_down-missed :
    (l k : Life) (ended again_ended : Bool) (apis again_apis : List ApiEnd)
    (again_stopped : Option Error)
    → Reachable l
    → l.serving ≡ false
    → end_apis apis ≡ []
    → Unreturned (set_http (shut_down none ended apis (begin_serving l).1).1) k
    → ((shut_down none ended apis (begin_serving l).1).0 ≡ [])
      × Reachable k
      × (k.serving ≡ true)
      × (k.http ≡ true)
      × ((shut_down again_stopped again_ended again_apis k).1 ≡ k)
      × ((shut_down again_stopped again_ended again_apis k).0 ≢ [])
unfolding shut_down
shut_down-missed l k ended again_ended apis again_apis again_stopped reached idle silent u =
    let (quiet, same, starts) =
      begun_and_shut-missed ended apis l.serving l.closing l.http l.running l.starting silent idle
        (reachable-IsSound l reached) in
    let at_k = missed-Unreturned same u in
    let listening =
      after (after (after reached begin) (shutdown none ended apis)) (listen starts) in
    (
      quiet,
      Unreturned-Reachable listening u,
      rw at_k refl,
      rw at_k refl,
      subst (λ x. (shut_down again_stopped again_ended again_apis x).1 ≡ x) (sym at_k) refl,
      subst (λ x. (shut_down again_stopped again_ended again_apis x).0 ≢ []) (sym at_k) (λ e. cc),
    )
