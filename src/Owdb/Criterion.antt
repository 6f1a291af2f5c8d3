-- ===== src/Owdb/Criterion.antt =====
-- The criteria of db/owdb/criterion.go. What the file calls of Go's packages fmt, net and time to
-- print and to parse is a parameter.
pub mod Times
pub mod Sound
pub mod Strings
pub mod Ips
pub mod Opposites
pub mod Orders
pub mod Addresses
use jelly.Base.{
  ℕ, ◌≡◌, List, [], ◌∷◌, ◌++◌, Option, none, some, Bool, true, false, not, Bytes, bytes, bytes_eq,
  Run, done, panics, ◌>>=◌, if◌then◌else◌, length,
}
use jelly.Time.{Time}
use jelly.Owdb.Limits.{unlimited}
use jelly.Owdb.Hit.{Ip}
use jelly.Owdb.Filter.{Criterion, negated}

pub record Go : Type 0 where
  -- `fmt.Sprintf("%q", s)`
  pub quote : Bytes → Bytes
  -- `t.Format(time.RFC3339)`
  pub show_time : Time → Bytes
  -- `fmt.Sprintf("%s", ip)`
  pub show_ip : List ℕ → Bytes
  -- `net.ParseIP`, whose result is in the form of 16 bytes.
  pub parse_ip : Bytes → Ip
  pub parse_ip_length : (s : Bytes) (ip : List ℕ) → parse_ip s ≡ some ip → length ip ≡ 16

-- A call of a `Meets` field: nil panics.
abbrev pub call : {E : Type 0} → Option (E → Run Bool) → E → Run Bool
call none v = panics
call (some meets) v = meets v

abbrev pub or_generic : Bytes → Bytes → Bytes
or_generic [] generic = generic
or_generic given generic = given

-- `DoesNot`
unfoldable pub does_not : {E : Type 0} → Criterion E → Criterion E
does_not c =
    let orig_format = or_generic c.format (bytes "CRITERION(%s)") in
    record {
      meets = some (λ v. negated (call c.meets v));
      format = or_generic c.not_format (bytes "!(" ++ (orig_format ++ bytes ")"));
      not_format = orig_format;
      est_limits = unlimited;
    }

named : {E : Type 0} → (E → Run Bool) → Bytes → Criterion E
named fn name = record {
  meets = some fn;
  format = name ++ bytes "(%s)";
  not_format = bytes "!" ++ (name ++ bytes "(%s)");
  est_limits = unlimited;
}

-- `Meets`: with a base name, which must not be empty, or else with the random one that is made up.
unfoldable pub meets_fn :
    {E : Type 0} → (E → Run Bool) → (random_name : Bytes) → List Bytes → Run (Criterion E)
unfolding named
meets_fn fn random_name [] = done (named fn random_name)
meets_fn fn random_name (base ∷ others) = if bytes_eq base [] then panics else done (named fn base)

-- Criteria that print alike, as they are and negated, and give the same result on every value.
pub record Same {E : Type 0} (c d : Criterion E) : Type 0 where
  pub prints : c.format ≡ d.format
  pub prints_negated : c.not_format ≡ d.not_format
  pub meets : (v : E) → call c.meets v ≡ call d.meets v
