-- ===== src/Auth/Api/Refusals.antt =====
-- Updates that the handlers of auth/api.go do not answer with success.
use jelly.Base.{
  ℕ, ◌≡◌, refl, Bool, true, Bytes, Run, done, panics, starved, ◌>>=◌, leb, if◌then◌else◌,
  Bool-cases, inl, inr,
}
use jelly.Time.{Time}
use jelly.Auth.Errors.{Error, is, error_text, err_not_found, err_already_exists}
use jelly.Auth.User.{AuthUser, Result, success, failure, AuthUserRepo}
use jelly.Auth.Service.{Outside, get_user}
use jelly.Auth.Service.Users.{update_user, update_password}
use jelly.Auth.Api.{
  UserUpdateRequest, Reply, Web, Api, Handled, with_value, after_call, after_check, internal_error,
  bad_request_error, acts_on_other,
}
use jelly.Auth.Api.Changes.{
  new_value, update_role, missing_error, update_error, password_answer, finish_update,
  update_existing, update_user_as, http_update_user,
}
use jelly.Middle.{get_logged_in_user}
use jelly.Server.Requests.{Request, parse_json_request, require_id_param}
use jelly.Server.Responses.{
  HttpResult, internal_server_error, bad_request, not_found, forbidden, conflict,
}

-- The call does not return a result with a status below 400.
abbrev pub refused : Run (HttpResult Reply) → Bool
refused (done r) = leb 400 r.status
refused panics = true
refused starved = true

refused->>= :
    (m : Run Bytes) (f : Bytes → HttpResult Reply)
    → ((t : Bytes) → leb 400 (f t).status ≡ true)
    → refused (m >>= λ t. done (f t)) ≡ true
refused->>= (done t) f high = high t
refused->>= panics f high = refl
refused->>= starved f high = refl

module _ {S : Type 0} where
  internal_error-refused : (err : Error) (s : S) → refused (internal_error err s).0 ≡ true
  unfolding internal_error internal_server_error
  internal_error-refused err s = refused->>= (error_text err) _ (λ t. refl)

  bad_request_error-refused : (err : Error) (s : S) → refused (bad_request_error err s).0 ≡ true
  unfolding bad_request_error bad_request
  bad_request_error-refused err s = refused->>= (error_text err) _ (λ t. refl)

  missing_error-refused : (err : Error) (s : S) → refused (missing_error err s).0 ≡ true
  unfolding missing_error not_found
  missing_error-refused err s = elim (Bool-cases (is err err_not_found)) [
    | inl e ↦ rw (missing_error, e) refl
    | inr e ↦ rw (missing_error, e) (internal_error-refused err s)
  ]

  update_error-refused : (err : Error) (s : S) → refused (update_error err s).0 ≡ true
  unfolding update_error conflict
  update_error-refused err s = elim (Bool-cases (is err err_already_exists)) [
    | inl e ↦ rw (update_error, e) (refused->>= (error_text err) _ (λ t. refl))
    | inr e ↦ rw (update_error, e) (missing_error-refused err s)
  ]

  password_answer-refused : (r : Result AuthUser × S) → refused (password_answer r).0 ≡ true
  unfolding password_answer
  password_answer-refused (success u, s) = refl
  password_answer-refused (failure err, s) = missing_error-refused err s

  with_value-refused :
      {A : Type 0} (m : Run A) (s : S) (f : A → Handled S)
      → ((a : A) → refused (f a).0 ≡ true)
      → refused (with_value m s f).0 ≡ true
  with_value-refused (done a) s f all = all a
  with_value-refused panics s f all = refl
  with_value-refused starved s f all = refl

  after_check-refused :
      {A : Type 0} (r : Result A) (s : S) (on_error : Error → S → Handled S) (f : A → Handled S)
      → ((err : Error) (t : S) → refused (on_error err t).0 ≡ true)
      → ((a : A) → refused (f a).0 ≡ true)
      → refused (after_check r s on_error f).0 ≡ true
  after_check-refused (success a) s on_error f errors all = all a
  after_check-refused (failure err) s on_error f errors all = errors err s

  after_call-refused :
      {A : Type 0} (r : Result A × S) (on_error : Error → S → Handled S) (f : A → S → Handled S)
      → ((err : Error) (t : S) → refused (on_error err t).0 ≡ true)
      → ((a : A) (t : S) → refused (f a t).0 ≡ true)
      → refused (after_call r on_error f).0 ≡ true
  after_call-refused (success a, s) on_error f errors all = all a s
  after_call-refused (failure err, s) on_error f errors all = errors err s

module _ {S : Type 0} (o : Outside) (w : Web) (api : Api) (repo : AuthUserRepo S) (now later : Time)
    (upd : UserUpdateRequest) (asked : upd.password.update ≡ true) where
  finish_update-refused :
      (u : AuthUser) (s : S) → refused (finish_update o w api repo later upd.password u s).0 ≡ true
  unfolding finish_update
  finish_update-refused u s =
      rw (finish_update, asked)
        (password_answer-refused
          (update_password o repo later (w.uuid_string u.id) upd.password.value s))

  update_existing-refused :
      (id role : ℕ) (existing : AuthUser) (s : S)
      → refused (update_existing o w api repo now later id upd role existing s).0 ≡ true
  unfolding update_existing
  update_existing-refused id role existing s =
      after_call-refused
        (update_user o repo now (w.uuid_string id) (new_value upd.id (w.uuid_string existing.id))
          (new_value upd.username existing.username) (new_value upd.email existing.email)
          (if upd.role.update then role else existing.role) s)
        update_error (finish_update o w api repo later upd.password) update_error-refused
        finish_update-refused

  update_user_as-refused :
      (id : ℕ) (user : AuthUser) (req : Request) (s : S)
      → parse_json_request w.unmarshal_update req ≡ success upd
      → refused (update_user_as o w api repo now later id user req s).0 ≡ true
  unfolding update_user_as forbidden
  update_user_as-refused id user req s parsed = elim (Bool-cases (acts_on_other id user)) [
    | inl e ↦ rw (update_user_as, e) refl
    | inr e ↦
        rw (update_user_as, e, parsed)
          (after_check-refused (update_role upd.role) s bad_request_error _
            bad_request_error-refused
            (λ role.
              after_check-refused (get_user o repo (w.uuid_string id) s) s missing_error _
                missing_error-refused (λ existing. update_existing-refused id role existing s)))
  ]

  -- A request to httpUpdateUser whose body asks for an update of the password is never answered with
  -- success, over any repository and in any state: the handler panics or its result has a status of
  -- 400 or more.
  pub http_update_user-password :
      (req : Request) (s : S)
      → parse_json_request w.unmarshal_update req ≡ success upd
      → refused (http_update_user o w api repo now later req s).0 ≡ true
  unfolding http_update_user
  http_update_user-password req s parsed =
      with_value-refused (require_id_param o.parse_uuid req) s _ (λ id.
        with_value-refused (get_logged_in_user req) s _
          (λ u. update_user_as-refused id u.0 req s parsed))
