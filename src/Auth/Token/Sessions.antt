-- ===== src/Auth/Token/Sessions.antt =====
-- A token identifies its user until it expires or the user logs out.
use jelly.Base.{
  ℕ, ◌+◌, ◌^◌, ◌<◌, ◌≡◌, ◌≢◌, refl, Option, none, some, true, false, Bytes, bytes_eq_refl, ◌==◌,
  arith,
}
use jelly.Time.{Time}
use jelly.Auth.User.{AuthUser, User, auth_user, success, AuthUserRepo}
use jelly.Auth.Inmem.{UserMaps, inmem_repo}
use jelly.Auth.Inmem.Index.{put, set_user-same}
use jelly.Auth.Inmem.Calls.{get-some, updated_user, update-put, not-conflicts-same_name}
use jelly.Auth.Service.{Outside, logout}
use jelly.Auth.Token.{
  Jwt, unix, sign_key, claims_of, generate_token, get_token, validate_token, authenticate,
}
use jelly.Auth.Token.Keys.{IsJwt, sign_key-changes}
use jelly.Server.Requests.{Request}

module _ {S : Type 0} (jwt : Jwt) (law : IsJwt jwt) (parse_uuid : Bytes → Option ℕ)
    (uuid_string : ℕ → Bytes) (repo : AuthUserRepo S) (secret : Bytes) where
  -- A user for whom a token was generated is the logged-in user of every request that carries the
  -- token, in every state in which the repository returns that user for the ID, until a minute after
  -- the hour for which the token is valid has passed, for times since 1970.
  pub authenticate-generate_token :
      (now later : Time) (u : AuthUser) (tok : Bytes) (req : Request) (s : S)
      → generate_token jwt uuid_string now secret u ≡ success tok
      → get_token req ≡ success tok
      → parse_uuid (uuid_string u.id) ≡ some u.id
      → repo.get u.id s ≡ success u
      → unix later < (claims_of jwt uuid_string now u).expires + 60
      → unix later < 2 ^ 63
      → (claims_of jwt uuid_string now u).expires < 2 ^ 63
      → authenticate jwt parse_uuid repo secret later req s
        ≡ record { user = u; logged_in = true; err = none }
  unfolding generate_token authenticate validate_token
  authenticate-generate_token now later u tok req s signed carried parsed found fresh later_63
        end_63 =
      let subject = law.named (claims_of jwt uuid_string now u) (sign_key secret u) tok signed in
      let valid =
        law.accepted (claims_of jwt uuid_string now u) (sign_key secret u) tok later signed refl
          fresh later_63 end_63 in
      rw (authenticate, carried, validate_token, subject, parsed, found, valid) refl

  -- If the key of the user has changed, the token is refused.
  authenticate-other_key :
      (now later : Time) (u v : AuthUser) (tok : Bytes) (req : Request) (s : S)
      → generate_token jwt uuid_string now secret u ≡ success tok
      → get_token req ≡ success tok
      → parse_uuid (uuid_string u.id) ≡ some u.id
      → repo.get u.id s ≡ success v
      → sign_key secret u ≢ sign_key secret v
      → (authenticate jwt parse_uuid repo secret later req s).logged_in ≡ false
  unfolding generate_token authenticate validate_token
  authenticate-other_key now later u v tok req s signed carried parsed found other =
      let subject = law.named (claims_of jwt uuid_string now u) (sign_key secret u) tok signed in
      let refused =
        law.other_key (claims_of jwt uuid_string now u) (sign_key secret u) (sign_key secret v) tok
          later signed other in
      rw (authenticate, carried, validate_token, subject, parsed, found, refused.1) refl

module _ (o : Outside) (parse_address : Bytes → Option Bytes) where
  abbrev logged_out : Time → User → AuthUser
  logged_out later user = record (auth_user user) { last_logout = later }

  pub logout-put :
      (later : Time) (user : User) (maps : UserMaps)
      → maps.users user.id ≡ some user
      → (logout o (inmem_repo parse_address) later user.id maps).1
        ≡ put (updated_user parse_address later (logged_out later user) maps) maps
  unfolding logout
  logout-put later user maps e =
      let same_id : (user.id == user.id) ≡ true = ground arith in
      let step =
        update-put parse_address later (logged_out later user) maps user.id user e same_id (
          not-conflicts-same_name parse_address later (logged_out later user) maps user.id user
            same_id (bytes_eq_refl user.username)) in
      rw (logout, get-some user.id maps user e, step) refl

  -- In the repository in memory, Logout of a user at another second than that of the user's last
  -- logout ends all sessions: no request with a token that was generated for the user before is
  -- that of a logged-in user afterwards.
  pub authenticate-logout :
      (jwt : Jwt) (law : IsJwt jwt) (uuid_string : ℕ → Bytes) (secret : Bytes)
      (now later last : Time) (user : User) (tok : Bytes) (req : Request) (maps : UserMaps)
      → maps.users user.id ≡ some user
      → generate_token jwt uuid_string now secret (auth_user user) ≡ success tok
      → get_token req ≡ success tok
      → o.parse_uuid (uuid_string user.id) ≡ some user.id
      → unix user.last_logout ≢ unix later
      → (authenticate jwt o.parse_uuid
          (inmem_repo parse_address)
          secret
          last
          req
          (logout o (inmem_repo parse_address) later user.id maps).1).logged_in
        ≡ false
  authenticate-logout jwt law uuid_string secret now later last user tok req maps e signed carried
        parsed other =
      let out = updated_user parse_address later (logged_out later user) maps in
      let found =
        get-some user.id (put out maps) out (set_user-same user.id (some out) maps.users) in
      rw (logout-put later user maps e) (
        authenticate-other_key jwt law o.parse_uuid uuid_string (inmem_repo parse_address) secret
          now last (auth_user user) (auth_user out) tok req (put out maps) signed carried parsed
          found (sign_key-changes secret (auth_user user) (auth_user out) refl other))
