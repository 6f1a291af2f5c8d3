-- ===== src/Config/Listen.antt =====
-- The configuration of the log and of the address that the server listens on: LogConfig and Globals of
-- config.go, LogProvider of jelly.go, and their forms in a file, internal/config/config.go.
pub mod Trips
use jelly.Base.{
  ℕ, ◌+◌, ◌^◌, [], ◌∷◌, ◌++◌, Option, none, some, Bool, true, false, ◌||◌, Bytes, bytes, bytes_eq,
  if◌then◌else◌, ◌==◌, leb, to_lower, split_2,
}
use jelly.Auth.Errors.{Error, foreign}
use jelly.Auth.User.{Result, success, failure}
use jelly.Auth.Token.{signed_decimal}
use jelly.Config.{validate_base_uri, within, atoi}
use jelly.Server.Requests.{errorf}

-- `LogProvider`, an int.
abbrev pub no_log : ℕ
no_log = 0

abbrev pub jellog : ℕ
jellog = 1

abbrev pub std_log : ℕ
std_log = 2

-- `LogProvider.String`
unfoldable pub provider_string : ℕ → Bytes
unfolding signed_decimal
provider_string p =
    if p == no_log
    then bytes "none"
    else if p == jellog
    then bytes "jellog"
    else if p == std_log
    then bytes "std"
    else bytes "LogProvider(" ++ (signed_decimal p ++ bytes ")")

-- `ParseLogProvider`
unfoldable pub parse_log_provider : Bytes → Result ℕ
parse_log_provider s =
    let low = to_lower s in
    if bytes_eq low (bytes "none") || bytes_eq low []
    then success no_log
    else if bytes_eq low (bytes "jellog")
    then success jellog
    else if bytes_eq low (bytes "std")
    then success std_log
    else failure (foreign (bytes "unknown LogProvider"))

pub record LogConfig : Type 0 where
  pub enabled : Bool
  pub provider : ℕ
  pub file : Bytes

-- `LogConfig.FillDefaults`
unfoldable pub log_fill_defaults : LogConfig → LogConfig
log_fill_defaults log = if log.provider == no_log then record log { provider = jellog } else log

-- `LogConfig.Validate`
unfoldable pub log_validate : LogConfig → Option Error
log_validate log =
    if log.provider == no_log then some (foreign (bytes "provider: must not be empty")) else none

-- The port is the 64 bits of an int.
pub record Globals : Type 0 where
  pub port : ℕ
  pub address : Bytes
  pub uri_base : Bytes
  pub main_auth_provider : Bytes

-- `Globals.FillDefaults`
unfoldable pub globals_fill_defaults : Globals → Globals
unfolding bytes_eq
globals_fill_defaults g = record g {
  port = if g.port == 0 then 8080 else g.port;
  address = if bytes_eq g.address [] then bytes "localhost" else g.address;
  uri_base = if bytes_eq g.uri_base [] then bytes "/" else g.uri_base;
}

-- `Globals.Validate`
unfoldable pub globals_validate : Globals → Option Error
unfolding bytes_eq validate_base_uri
globals_validate g =
    if g.port == 0 || leb (2 ^ 63) g.port
    then some (foreign (bytes "port: must be greater than 0"))
    else if bytes_eq g.address []
    then some (foreign (bytes "address: must not be empty"))
    else within (bytes "base") (validate_base_uri g.uri_base)

-- The part of a marshaledConfig that Globals is read from.
pub record MarshaledGlobals : Type 0 where
  pub listen : Bytes
  pub auth : Bytes
  pub base : Bytes

-- `marshalGlobalsToConfig`
unfoldable pub marshal_globals : Globals → MarshaledGlobals
unfolding signed_decimal
marshal_globals g = record {
  listen = g.address ++ 58 ∷ signed_decimal g.port;
  auth = g.main_auth_provider;
  base = g.uri_base;
}

abbrev with_port : MarshaledGlobals → Bytes → Option ℕ → Result Globals
with_port m addr none = failure (foreign (bytes "listen: not a valid port number"))
with_port m addr (some p) =
    success (record { port = p; address = addr; uri_base = m.base; main_auth_provider = m.auth })

abbrev bound : MarshaledGlobals → Bytes × Option Bytes → Result Globals
bound m (addr, none) =
    failure (foreign (bytes "listen: not in \"ADDRESS:PORT\" or \":PORT\" format"))
bound m (addr, some p) = with_port m addr (atoi p)

-- `unmarshalGlobals`
unfoldable pub unmarshal_globals : MarshaledGlobals → Result Globals
unfolding split_2 atoi
unmarshal_globals m = bound m (split_2 58 m.listen)

pub record MarshaledLog : Type 0 where
  pub enabled : Bool
  pub provider : Bytes
  pub file : Bytes

-- `marshalLog`
unfoldable pub marshal_log : LogConfig → MarshaledLog
unfolding provider_string
marshal_log log = record {
  enabled = log.enabled;
  provider = provider_string log.provider;
  file = log.file;
}

abbrev with_provider : MarshaledLog → Result ℕ → Result LogConfig
with_provider m (failure err) = failure (errorf (bytes "provider") err)
with_provider m (success p) = success (record { enabled = m.enabled; provider = p; file = m.file })

-- `unmarshalLog`
unfoldable pub unmarshal_log : MarshaledLog → Result LogConfig
unfolding parse_log_provider
unmarshal_log m = with_provider m (parse_log_provider m.provider)
