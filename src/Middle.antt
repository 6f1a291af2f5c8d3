-- ===== src/Middle.antt =====
-- The middleware of internal/middle/middle.go. An authenticator looks at a request and at a state,
-- which is that of the users it knows. Names that messages quote are left out of these.
pub mod Access
use jelly.Base.{
  ℕ, List, [], ◌∷◌, Option, none, some, Bool, true, false, not, ◌&&◌, Bytes, bytes, bytes_eq, Run,
  done, panics, starved, ◌>>=◌, if◌then◌else◌, to_lower,
}
use jelly.Auth.Errors.{Error, foreign, error_text}
use jelly.Auth.User.{AuthUser, Result, success, failure}
use jelly.Auth.Service.{zero_auth_user}
use jelly.Server.Requests.{Context, Request}
use jelly.Server.Responses.{HttpResult, unauthorized, text_err}

abbrev some_user : Option AuthUser → Run (AuthUser × Bool)
some_user none = panics
some_user (some user) = done (user, true)

-- `GetLoggedInUser`
unfoldable pub get_logged_in_user : Request → Run (AuthUser × Bool)
get_logged_in_user req = elim req.context.logged_in [
  | none ↦ done (zero_auth_user, false)
  | some logged_in ↦ if logged_in then some_user req.context.user else done (zero_auth_user, false)
]

-- What an Authenticator answers: the user, whether it is logged in, and the error, if any.
pub record Answer : Type 0 where
  pub user : AuthUser
  pub logged_in : Bool
  pub err : Option Error

-- The delay is in nanoseconds.
pub record Authenticator (S : Type 0) : Type 0 where
  pub authenticate : Request → S → Answer
  pub unauth_delay : ℕ

-- Names of authenticators are lower-case in the map.
pub record Provider (S : Type 0) : Type 0 where
  pub authenticators : List (Bytes × Authenticator S)
  pub main_authenticator : Bytes

abbrev no_authenticator_called : Bytes → Error
no_authenticator_called name = foreign (bytes "no authenticator of that name has been registered")

module _ {S : Type 0} where
  unfoldable pub named_authenticator :
      Bytes → List (Bytes × Authenticator S) → Option (Authenticator S)
  named_authenticator name [] = none
  named_authenticator name ((n, a) ∷ rest) =
      let others = named_authenticator name rest in if bytes_eq n name then some a else others

  -- noopAuthenticator
  abbrev pub noop_authenticator : Authenticator S
  noop_authenticator = record {
    authenticate = λ req s. record {
      user = zero_auth_user;
      logged_in = false;
      err = some (foreign (bytes "no authenticator provider is specified for this project"));
    };
    unauth_delay = 0;
  }

  -- The loop of SelectAuthenticator.
  unfoldable pub first_named :
      List Bytes → List (Bytes × Authenticator S) → Option (Authenticator S)
  unfolding named_authenticator
  first_named [] known = none
  first_named (name ∷ from) known =
      let later = first_named from known in
      elim (named_authenticator (to_lower name) known) [ none ↦ later | some a ↦ some a ]

  -- `getMainAuth`: none stands for a nil Authenticator.
  unfoldable pub get_main_auth : Provider S → Option (Authenticator S)
  unfolding named_authenticator
  get_main_auth p =
      if bytes_eq p.main_authenticator []
      then some noop_authenticator
      else named_authenticator p.main_authenticator p.authenticators

  abbrev or_panics : Option (Authenticator S) → Run (Option (Authenticator S))
  or_panics none = panics
  or_panics (some a) = done (some a)

  unfoldable pub select_authenticator : Provider S → List Bytes → Run (Option (Authenticator S))
  unfolding get_main_auth first_named
  select_authenticator p [] = done (get_main_auth p)
  select_authenticator p (name ∷ from) = or_panics (first_named (name ∷ from) p.authenticators)

  -- `RegisterMainAuthenticator`, which looks for the name as it is given.
  unfoldable pub register_main_authenticator : Bytes → Provider S → Result (Provider S)
  unfolding named_authenticator
  register_main_authenticator name p = elim (named_authenticator name p.authenticators) [
    | none ↦ failure (no_authenticator_called name)
    | some a ↦ success (record p { main_authenticator = to_lower name })
  ]

  -- `RegisterAuthenticator`; none stands for a nil Authenticator.
  unfoldable pub register_authenticator :
      Bytes → Option (Authenticator S) → Provider S → Result (Provider S)
  unfolding named_authenticator
  register_authenticator [] authen p =
      failure (foreign (bytes "authenticator name cannot be empty"))
  register_authenticator (c ∷ name) authen p =
      elim (named_authenticator (to_lower (c ∷ name)) p.authenticators) [
        | some a ↦ failure (foreign (bytes "authenticator of that name already exists"))
        | none ↦ elim authen [
          | none ↦ failure (foreign (bytes "authenticator cannot be nil"))
          | some a ↦
              success (record p { authenticators = (to_lower (c ∷ name), a) ∷ p.authenticators })
        ]
      ]

-- What authHandler does with a request: it answers itself, after a delay, or calls `next`.
pub data Served (B A : Type 0) : Type 0 where
  refused : ℕ → HttpResult B → Served B A
  passed : A → Served B A

abbrev message_of : Option Error → Run Bytes
message_of none = done (bytes "authorization is required")
message_of (some err) = error_text err

-- The request with the keys that the handler adds to its context.
abbrev pub with_user : Request → Answer → Request
with_user req a = record req {
  context = record { logged_in = some a.logged_in; user = some a.user };
}

module _ {S B A : Type 0} (required : Bool) (provider : Authenticator S)
    (next : Request → S → A) where
  -- ServeHTTP after the call of Authenticate.
  unfoldable pub serve_answered : Request → S → Answer → Run (Served B A)
  serve_answered req s a =
      if required && not a.logged_in
      then (message_of a.err >>= λ msg. done (refused provider.unauth_delay (unauthorized [])))
      else done (passed (next (with_user req a) s))

  -- `authHandler.ServeHTTP`
  unfoldable pub serve_http : Request → S → Run (Served B A)
  unfolding serve_answered
  serve_http req s = serve_answered req s (provider.authenticate req s)

-- `DontPanic`: a panic of the handler becomes a response.
unfoldable pub dont_panic : {B : Type 0} → Run (HttpResult B) → Run (HttpResult B)
unfolding text_err
dont_panic (done r) = done r
dont_panic panics = done (text_err 500 (bytes "An internal server error occurred"))
dont_panic starved = starved

-- `RequiredAuth` and `OptionalAuth`, which differ in `required`
unfoldable pub auth_middleware :
    {S B A : Type 0}
    → Bool
    → Provider S
    → List Bytes
    → (Request → S → A)
    → Request
    → S
    → Run (Served B A)
unfolding select_authenticator serve_http
auth_middleware required p names next req s = select_authenticator p names >>= λ chosen.
    elim chosen [ none ↦ panics | some a ↦ serve_http required a next req s ]
