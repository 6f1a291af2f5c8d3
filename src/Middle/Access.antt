-- ===== src/Middle/Access.antt =====
-- What a handler behind the middleware of internal/middle/ can rely on.
use jelly.Base.{◌≡◌, refl, [], none, some, true, false, Bytes, done}
use jelly.Auth.Errors.{Error, error_text}
use jelly.Server.Requests.{Request}
use jelly.Server.Responses.{unauthorized}
use jelly.Middle.{
  get_logged_in_user, Answer, Authenticator, refused, passed, with_user, serve_http, serve_answered,
}

get_logged_in_user-with_user :
    (req : Request) (a : Answer)
    → a.logged_in ≡ true
    → get_logged_in_user (with_user req a) ≡ done (a.user, true)
unfolding get_logged_in_user
get_logged_in_user-with_user req a e = rw (get_logged_in_user, e) refl

-- With auth required, a request that the authenticator does not know as that of a logged-in user is
-- answered with 401 after the delay of the authenticator, whether it gives an error (one that can be
-- printed) or not; a request of a logged-in user is passed on, and the next handler gets from it the
-- user of the authenticator as logged in.
pub serve_http-required :
    {S B A : Type 0} (a : Authenticator S) (next : Request → S → A)
    (anonymous failed known : Request) (err : Error) (msg : Bytes) (s : S)
    → (a.authenticate anonymous s).logged_in ≡ false
    → (a.authenticate anonymous s).err ≡ none
    → (a.authenticate failed s).logged_in ≡ false
    → (a.authenticate failed s).err ≡ some err
    → error_text err ≡ done msg
    → (a.authenticate known s).logged_in ≡ true
    → (serve_http {B = B} true a next anonymous s ≡ done (refused a.unauth_delay (unauthorized [])))
      × (serve_http {B = B} true a next failed s ≡ done (refused a.unauth_delay (unauthorized [])))
      × ((next_req : Request) × (serve_http {B = B} true a next known s
            ≡ done (passed (next next_req s)))
          × (get_logged_in_user next_req ≡ done ((a.authenticate known s).user, true)))
unfolding serve_http serve_answered
serve_http-required a next anonymous failed known err msg s out clean bad given printed is_in = (
  rw (serve_http, serve_answered, out, clean) refl,
  rw (serve_http, serve_answered, bad, given, printed) refl,
  (
    with_user known (a.authenticate known s),
    rw (serve_http, serve_answered, is_in) refl,
    get_logged_in_user-with_user known (a.authenticate known s) is_in,
  ),
)
