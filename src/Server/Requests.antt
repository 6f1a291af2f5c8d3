-- ===== src/Server/Requests.antt =====
-- Requests, as far as handlers read them, and the helpers of helpers.go that do so.
use jelly.Base.{
  ℕ, [], ◌∷◌, Option, none, some, Bool, not, Bytes, bytes, bytes_eq, Run, done, panics,
  if◌then◌else◌, to_lower,
}
use jelly.Auth.Errors.{
  Error, sentinel, foreign, err_body_unmarshal, err_bad_argument, new_error, no_causes, more_causes,
}
use jelly.Auth.User.{AuthUser, Result, success, failure}

-- The values under the two keys that internal/middle/ puts into the context of a request.
pub record Context : Type 0 where
  pub logged_in : Option Bool
  pub user : Option AuthUser

-- The headers Content-Type and Authorization, the parameter `id` of the path, each empty if it is
-- missing, and what io.ReadAll gives for the body.
pub record Request : Type 0 where
  pub content_type : Bytes
  pub authorization : Bytes
  pub id_param : Bytes
  pub body : Result Bytes
  pub context : Context

-- `fmt.Errorf(msg + ": %w", err)`, which prints and unwraps as NewError does
abbrev pub errorf : Bytes → Error → Error
errorf msg err = new_error msg (more_causes err no_causes)

module _ {E : Type 0} where
  -- The value of the body, for one that was read.
  abbrev unmarshaled : Result E → Result E
  unmarshaled (success v) = success v
  unmarshaled (failure err) = failure (
      new_error (bytes "malformed JSON in request")
        (more_causes err (more_causes (sentinel err_body_unmarshal) no_causes)))

  abbrev body_read : (Bytes → Result E) → Result Bytes → Result E
  body_read unmarshal (success body_data) = unmarshaled (unmarshal body_data)
  body_read unmarshal (failure err) = failure (errorf (bytes "could not read request body") err)

  -- `ParseJSONRequest`; `json.Unmarshal` into the type of the value is a parameter. The body can be
  -- read again afterwards.
  unfoldable pub parse_json_request : (Bytes → Result E) → Request → Result E
  parse_json_request unmarshal req =
      if not (bytes_eq (to_lower req.content_type) (bytes "application/json"))
      then failure (foreign (bytes "request content-type is not application/json"))
      else body_read unmarshal req.body

  abbrev parsed_param : Option E → Result E
  parsed_param none = failure (new_error [] (more_causes (sentinel err_bad_argument) no_causes))
  parsed_param (some val) = success val

  -- `GetURLParam`, from the value of the parameter
  unfoldable pub get_url_param : Bytes → (Bytes → Option E) → Result E
  get_url_param [] parse = failure (foreign (bytes "parameter does not exist"))
  get_url_param (c ∷ val_str) parse = parsed_param (parse (c ∷ val_str))

abbrev or_panics : {E : Type 0} → Result E → Run E
or_panics (success v) = done v
or_panics (failure err) = panics

-- `RequireIDParam`; `parse_uuid` is uuid.Parse
unfoldable pub require_id_param : (parse_uuid : Bytes → Option ℕ) → Request → Run ℕ
unfolding get_url_param
require_id_param parse_uuid req = or_panics (get_url_param req.id_param parse_uuid)
