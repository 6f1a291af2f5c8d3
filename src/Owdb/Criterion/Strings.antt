-- ===== src/Owdb/Criterion/Strings.antt =====
-- The criteria on strings of db/owdb/criterion.go.
use jelly.Base.{◌++◌, none, some, Bool, ◌&&◌, bytes, bytes_eq, bytes_lt, bytes_le, Bytes, Run, done}
use jelly.Owdb.Limits.{unlimited}
use jelly.Owdb.Filter.{Criterion}
use jelly.Owdb.Criterion.{Go}

-- Functions of Go that cannot panic.
abbrev pub total_string : (Bytes → Bool) → Bytes → Run Bool
total_string f v = done (f v)

module _ (go : Go) where
  unfoldable pub equals_string : Bytes → Criterion Bytes
  equals_string s = record {
    meets = some (total_string (λ v. bytes_eq v s));
    format = bytes "%s == " ++ go.quote s;
    not_format = bytes "%s != " ++ go.quote s;
    est_limits = record { min = some s; max = some s };
  }

  unfoldable pub collates_after : Bytes → Criterion Bytes
  collates_after s = record {
    meets = some (total_string (λ v. bytes_lt s v));
    format = bytes "%s > " ++ go.quote s;
    not_format = bytes "%s <= " ++ go.quote s;
    est_limits = record { min = some s; max = none };
  }

  unfoldable pub collates_after_or_equals : Bytes → Criterion Bytes
  collates_after_or_equals s = record {
    meets = some (total_string (λ v. bytes_le s v));
    format = bytes "%s >= " ++ go.quote s;
    not_format = bytes "%s < " ++ go.quote s;
    est_limits = record { min = some s; max = none };
  }

  unfoldable pub collates_before : Bytes → Criterion Bytes
  collates_before s = record {
    meets = some (total_string (λ v. bytes_lt v s));
    format = bytes "%s < " ++ go.quote s;
    not_format = bytes "%s >= " ++ go.quote s;
    est_limits = record { min = none; max = some s };
  }

  unfoldable pub collates_before_or_equals : Bytes → Criterion Bytes
  collates_before_or_equals s = record {
    meets = some (total_string (λ v. bytes_le v s));
    format = bytes "%s <= " ++ go.quote s;
    not_format = bytes "%s > " ++ go.quote s;
    est_limits = record { min = none; max = some s };
  }

  unfoldable pub collates_between : Bytes → Bytes → Criterion Bytes
  collates_between start end = record {
    meets = some (total_string (λ v. bytes_le start v && bytes_le v end));
    format = go.quote start ++ (bytes " <= %s >= " ++ go.quote end);
    not_format =
        bytes "!(" ++ (go.quote start ++ (bytes " <= %s >= " ++ (go.quote end ++ bytes ")")));
    est_limits = record { min = some start; max = some end };
  }

  unfoldable pub is_null_string : Criterion Bytes
  is_null_string = record {
    meets = some (total_string (λ v. bytes_eq v (bytes "")));
    format = bytes "%s == NULL";
    not_format = bytes "%s != NULL";
    est_limits = unlimited;
  }
