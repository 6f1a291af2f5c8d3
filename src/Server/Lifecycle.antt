-- ===== src/Server/Lifecycle.antt =====
-- The life cycle of a server: ServeForever and Shutdown of server/server.go, as steps on the fields
-- that they share. Each step runs under the mutex of the server, or is the assignment of `http`.
use jelly.Base.{
  ℕ, ◌+◌, ◌-◌, ◌≤◌, ◌≡◌, refl, List, [], ◌∷◌, Option, none, some, Bool, true, false, not, ◌&&◌,
  bytes, if◌then◌else◌, ◌==◌, arith,
}
use jelly.Auth.Errors.{Error, foreign}
use jelly.Server.Requests.{errorf}

-- Whether `http` is set, and how many calls of ServeForever are past the test at their start, of
-- which how many have not set `http` yet.
pub record Life : Type 0 where
  pub serving : Bool
  pub closing : Bool
  pub http : Bool
  pub running : ℕ
  pub starting : ℕ

abbrev pub new_life : Life
new_life = record { serving = false; closing = false; http = false; running = 0; starting = 0 }

-- The start of ServeForever: the error, if it returns one at once.
unfoldable pub begin_serving : Life → Option Error × Life
begin_serving l =
    if l.serving
    then (some (foreign (bytes "server is already running")), l)
    else (none, record l { serving = true; running = l.running + 1; starting = l.starting + 1 })

-- `rs.http = &http.Server{...}`, before ListenAndServe
unfoldable pub set_http : Life → Life
set_http l = record l { http = true; starting = l.starting - 1 }

-- The deferred function of ServeForever, after ListenAndServe.
unfoldable pub end_serving : Life → Life
end_serving l = record l { closing = false; serving = false; running = l.running - 1 }

-- The deferred function of ServeForever, after a panic of routeAllAPIs, before `http` is set.
unfoldable pub end_panicking : Life → Life
unfolding end_serving
end_panicking l = record (end_serving l) { starting = l.starting - 1 }

-- An API that Shutdown comes to: whether it is enabled, whether the context is done then, and what
-- its own Shutdown returns.
pub record ApiEnd : Type 0 where
  pub enabled : Bool
  pub ctx_err : Option Error
  pub result : Option Error

abbrev errors_of : Option Error → List Error
errors_of none = []
errors_of (some err) = errorf (bytes "shutdown API") err ∷ []

abbrev append_errors : List Error → List Error → List Error
append_errors [] rest = rest
append_errors (e ∷ es) rest = e ∷ append_errors es rest

-- The loop over the APIs: the errors that the one that is returned consists of.
unfoldable pub end_apis : List ApiEnd → List Error
end_apis [] = []
end_apis (api ∷ rest) =
    let others = end_apis rest in
    if not api.enabled then others else elim api.ctx_err [
      | some err ↦ err ∷ []
      | none ↦ append_errors (errors_of api.result) others
    ]

abbrev stop_errors : Option Error → List Error
stop_errors none = []
stop_errors (some err) = errorf (bytes "stop HTTP server") err ∷ []

-- Whether Shutdown returns at once: the HTTP server returns an error that is that of the context.
abbrev stops_early : Option Error → Bool → Bool
stops_early none ended = false
stops_early (some err) ended = ended

-- `Shutdown` of a server that is serving. `stopped` is what Shutdown of the HTTP server returns, and
-- `ended` tells whether that is the error of the context.
unfoldable pub shut_down_serving : Option Error → Bool → List ApiEnd → Life → List Error × Life
unfolding end_apis
shut_down_serving stopped ended apis l =
    let closed = record l { closing = true } in
    if l.http
    then (if stops_early stopped ended
        then (stop_errors stopped, record closed { http = false })
        else (append_errors (stop_errors stopped) (end_apis apis), record closed { http = false }))
    else (end_apis apis, closed)

unfoldable pub shut_down : Option Error → Bool → List ApiEnd → Life → List Error × Life
unfolding shut_down_serving
shut_down stopped ended apis l =
    if l.closing
    then (foreign (bytes "close already in-progress in another goroutine") ∷ [], l)
    else if not l.serving
    then (foreign (bytes "server is not running") ∷ [], l)
    else shut_down_serving stopped ended apis l

-- A step of one of the goroutines. The assignment of `http` takes no mutex. Where it falls into a
-- Shutdown, the fields are afterwards as if it came before, if that Shutdown finds `http` set, by
-- this call or an earlier one, and unsets it later, and else as if it came after.
pub data Step : Life → Life → Type 0 where
  begin : {l : Life} → Step l (begin_serving l).1
  listen : {l : Life} → (l.starting == 0) ≡ false → Step l (set_http l)
  return : {l : Life} → (l.running == 0) ≡ false → (l.starting == 0) ≡ true → Step l (end_serving l)
  panic : {l : Life} → (l.starting == 0) ≡ false → Step l (end_panicking l)
  shutdown :
      {l : Life} (stopped : Option Error) (ended : Bool) (apis : List ApiEnd)
      → Step l (shut_down stopped ended apis l).1

pub data Reachable : Life → Type 0 where
  fresh : Reachable new_life
  after : {k l : Life} → Reachable k → Step k l → Reachable l

-- A call of ServeForever is running exactly if the server is serving, at most one at a time, and the
-- server is closing only while it is serving.
pub record IsSound (l : Life) : Type 0 where
  pub one : l.running ≡ (if l.serving then 1 else 0)
  pub started : l.starting ≤ l.running
  pub closes : (l.closing && not l.serving) ≡ false

abbrev pub life_of : (serving closing http : Bool) → (running starting : ℕ) → Life
life_of s c h r st = record { serving = s; closing = c; http = h; running = r; starting = st }

begin_serving-IsSound :
    (s c h : Bool) (r st : ℕ)
    → IsSound (life_of s c h r st)
    → IsSound (begin_serving (life_of s c h r st)).1
unfolding begin_serving
begin_serving-IsSound true c h r st x = x
begin_serving-IsSound false true h r st x = let bad = x.closes in cc
begin_serving-IsSound false false h r st x =
    let none_running : r ≡ 0 = x.one in
    let few : st ≤ r = x.started in
    record { one = omega arith; started = omega arith; closes = refl }

end_serving-IsSound :
    (s c h : Bool) (r st : ℕ)
    → (r == 0) ≡ false
    → (st == 0) ≡ true
    → IsSound (life_of s c h r st)
    → IsSound (end_serving (life_of s c h r st))
unfolding end_serving
end_serving-IsSound true c h r st e f x =
    let one_running : r ≡ 1 = x.one in
    let settled : st ≡ 0 = ground arith in
    record { one = omega arith; started = omega arith; closes = refl }
end_serving-IsSound false c h r st e f x = let none_running : r ≡ 0 = x.one in ground arith

end_panicking-IsSound :
    (s c h : Bool) (r st : ℕ)
    → (st == 0) ≡ false
    → IsSound (life_of s c h r st)
    → IsSound (end_panicking (life_of s c h r st))
unfolding end_panicking end_serving
end_panicking-IsSound s c h r st f x =
    let few : st ≤ r = x.started in
    let some_starting : 1 ≤ st = ground arith in
    let most : r ≤ 1 = ground (arith, x.one) in
    record { one = omega arith; started = omega arith; closes = refl }

shut_down-IsSound :
    (s c h : Bool) (r st : ℕ) (stopped : Option Error) (ended : Bool) (apis : List ApiEnd)
    → IsSound (life_of s c h r st)
    → IsSound (shut_down stopped ended apis (life_of s c h r st)).1
unfolding shut_down shut_down_serving
shut_down-IsSound s true h r st stopped ended apis x = x
shut_down-IsSound false false h r st stopped ended apis x = x
shut_down-IsSound true false true r st none ended apis x = record {
  one = x.one;
  started = x.started;
  closes = refl;
}
shut_down-IsSound true false true r st (some err) true apis x = record {
  one = x.one;
  started = x.started;
  closes = refl;
}
shut_down-IsSound true false true r st (some err) false apis x = record {
  one = x.one;
  started = x.started;
  closes = refl;
}
shut_down-IsSound true false false r st stopped ended apis x = record {
  one = x.one;
  started = x.started;
  closes = refl;
}

set_http-IsSound : (l : Life) → IsSound l → IsSound (set_http l)
unfolding set_http
set_http-IsSound l x =
    let few : l.starting ≤ l.running = x.started in
    record { one = x.one; started = omega arith; closes = x.closes }

step-IsSound : {k l : Life} → IsSound k → Step k l → IsSound l
step-IsSound x (begin {l}) = begin_serving-IsSound l.serving l.closing l.http l.running l.starting x
step-IsSound x (listen {l} e) = set_http-IsSound l x
step-IsSound x (return {l} e f) =
    end_serving-IsSound l.serving l.closing l.http l.running l.starting e f x
step-IsSound x (panic {l} f) =
    end_panicking-IsSound l.serving l.closing l.http l.running l.starting f x
step-IsSound x (shutdown {l} stopped ended apis) =
    shut_down-IsSound l.serving l.closing l.http l.running l.starting stopped ended apis x

-- In every life that a new server reaches by steps of any number of goroutines, a call of
-- ServeForever is running exactly if the server is serving, and then only one, and the server is
-- closing only while it is serving.
pub reachable-IsSound : (l : Life) → Reachable l → IsSound l
reachable-IsSound l fresh = record { one = refl; started = omega arith; closes = refl }
reachable-IsSound l (after {k} r step) = step-IsSound (reachable-IsSound k r) step

-- The lives that follow one while its call of ServeForever does not return.
pub data Unreturned (m : Life) : Life → Type 0 where
  still : Unreturned m m
  onward : {k l : Life} → Unreturned m k → Step k l → (l.running == 0) ≡ false → Unreturned m l
