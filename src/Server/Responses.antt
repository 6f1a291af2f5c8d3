-- ===== src/Server/Responses.antt =====
-- The results of endpoints, responses.go and server/responses.go, and how an endpoint writes one,
-- server/endpoints.go. The message for the log is left out.
use jelly.Base.{
  ℕ, List, [], ◌∷◌, Option, none, some, Bool, true, false, not, ◌&&◌, ◌||◌, Bytes, bytes, bytes_eq,
  Run, done, panics, ◌>>=◌, if◌then◌else◌, ◌==◌, ◌++◌,
}

-- What `Resp` holds: nothing, an ErrorResponse, a text, or a model of the API.
pub data Body (B : Type 0) : Type 0 where
  no_body : Body B
  error_response : Bytes → ℕ → Body B
  text : Bytes → Body B
  model : B → Body B

pub record HttpResult (B : Type 0) : Type 0 where
  pub status : ℕ
  pub is_err : Bool
  pub is_json : Bool
  pub resp : Body B
  pub redir : Bytes
  pub hdrs : List (Bytes × Bytes)

abbrev append_header : List (Bytes × Bytes) → Bytes × Bytes → List (Bytes × Bytes)
append_header [] h = h ∷ []
append_header (x ∷ xs) h = x ∷ append_header xs h

abbrev unauthorized_message : Bytes → Bytes
unauthorized_message [] = bytes "You are not authorized to do that"
unauthorized_message (c ∷ msg) = c ∷ msg

module _ {B : Type 0} where
  -- `WithHeader`: the copy has no `Redir`.
  unfoldable pub with_header : HttpResult B → Bytes → Bytes → HttpResult B
  with_header r name val = record r { redir = []; hdrs = append_header r.hdrs (name, val) }

  unfoldable pub response : ℕ → Body B → HttpResult B
  response code body = record {
    status = code;
    is_err = false;
    is_json = true;
    resp = body;
    redir = [];
    hdrs = [];
  }

  unfoldable pub err_result : ℕ → Bytes → HttpResult B
  err_result code user_msg = record {
    status = code;
    is_err = true;
    is_json = true;
    resp = error_response user_msg code;
    redir = [];
    hdrs = [];
  }

  unfoldable pub redirection : Bytes → HttpResult B
  redirection uri = record {
    status = 308;
    is_err = false;
    is_json = false;
    resp = no_body;
    redir = uri;
    hdrs = [];
  }

  unfoldable pub text_err : ℕ → Bytes → HttpResult B
  text_err code user_msg = record {
    status = code;
    is_err = true;
    is_json = false;
    resp = text user_msg;
    redir = [];
    hdrs = [];
  }

  unfoldable pub ok : B → HttpResult B
  unfolding response
  ok b = response 200 (model b)

  unfoldable pub no_content : HttpResult B
  unfolding response
  no_content = response 204 no_body

  unfoldable pub created : B → HttpResult B
  unfolding response
  created b = response 201 (model b)

  unfoldable pub conflict : Bytes → HttpResult B
  unfolding err_result
  conflict user_msg = err_result 409 user_msg

  unfoldable pub bad_request : Bytes → HttpResult B
  unfolding err_result
  bad_request user_msg = err_result 400 user_msg

  -- The method and the path of the request are given.
  unfoldable pub method_not_allowed : Bytes → Bytes → HttpResult B
  unfolding err_result
  method_not_allowed method path =
      err_result 405 (bytes "Method " ++ (method ++ (bytes " is not allowed for " ++ path)))

  unfoldable pub not_found : HttpResult B
  unfolding err_result
  not_found = err_result 404 (bytes "The requested resource was not found")

  unfoldable pub forbidden : HttpResult B
  unfolding err_result
  forbidden = err_result 403 (bytes "You don't have permission to do that")

  unfoldable pub unauthorized : Bytes → HttpResult B
  unfolding err_result with_header
  unauthorized user_msg =
      with_header (err_result 401 (unauthorized_message user_msg)) (bytes "WWW-Authenticate")
        (bytes "Basic realm=\"TunaQuest server\", charset=\"utf-8\"")

  unfoldable pub internal_server_error : HttpResult B
  unfolding err_result
  internal_server_error = err_result 500 (bytes "An internal server error occurred")

-- What is sent to the client.
pub record Written : Type 0 where
  pub sent_headers : List (Bytes × Bytes)
  pub sent_status : ℕ
  pub sent_body : Option Bytes

-- `Header().Set`, for names that are spelled in the canonical form
unfoldable pub set_header : Bytes → Bytes → List (Bytes × Bytes) → List (Bytes × Bytes)
unfolding bytes_eq
set_header name val [] = (name, val) ∷ []
set_header name val ((n, v) ∷ rest) =
    let others = set_header name val rest in
    if bytes_eq n name then (name, val) ∷ rest else (n, v) ∷ others

unfoldable pub set_headers : List (Bytes × Bytes) → List (Bytes × Bytes) → List (Bytes × Bytes)
unfolding set_header
set_headers [] sent = sent
set_headers ((name, val) ∷ rest) sent = set_headers rest (set_header name val sent)

-- `json.Marshal` (none if it fails) and the verb %v are parameters.
module _ {B : Type 0} (marshal : Body B → Option Bytes) (show : Body B → Bytes) where
  abbrev marshaled : Option Bytes → Run Bytes
  marshaled none = panics
  marshaled (some json) = done json

  -- `PrepareMarshaledResponse`, with the panic of WriteResponse when it fails.
  unfoldable pub prepare_marshaled_response : HttpResult B → Run Bytes
  prepare_marshaled_response r =
      if r.is_json && not (r.status == 204) && bytes_eq r.redir []
      then marshaled (marshal r.resp)
      else done []

  abbrev body_of : HttpResult B → Bytes → Bytes
  body_of r json =
      if r.is_json
      then (if bytes_eq r.redir [] then json else [])
      else (if not (r.status == 204) && bytes_eq r.redir [] then show r.resp else [])

  abbrev headers_of : HttpResult B → List (Bytes × Bytes)
  headers_of r =
      let content_type =
        if r.is_json then bytes "application/json" else bytes "text/plain; charset=utf-8" in
      let basic =
        (bytes "Content-Type", content_type)
        ∷ (bytes "X-Content-Type-Options", bytes "nosniff")
        ∷ [] in
      set_headers r.hdrs
        (if bytes_eq r.redir [] then basic else set_header (bytes "Location") r.redir basic)

  unfoldable pub write_response : HttpResult B → Run Written
  unfolding prepare_marshaled_response
  write_response r =
      if r.status == 0
      then panics
      else prepare_marshaled_response r >>= λ json. done (record {
        sent_headers = headers_of r;
        sent_status = r.status;
        sent_body = if r.status == 204 then none else some (body_of r json);
      })

  -- What `Endpoint` does: whether it sleeps for the delay of the authenticator first, and what it
  -- then writes.
  unfoldable pub endpoint : Run (HttpResult B) → Run (Bool × Written)
  unfolding write_response
  endpoint ep = ep >>= λ r.
      write_response r >>= λ w. done (r.status == 401 || r.status == 403 || r.status == 500, w)
