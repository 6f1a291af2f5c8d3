-- ===== src/Owdb/Criterion/Times.antt =====
-- The criteria on times, and that their limits are no narrower than what they match.
use jelly.Base.{◌++◌, none, some, Bool, ◌&&◌, ◌||◌, bytes, Bytes, Run, done}
use jelly.Time.{Time, after, before, same_time, utc, round_0, is_zero}
use jelly.Owdb.Limits.{unlimited}
use jelly.Owdb.Filter.{Criterion}
use jelly.Owdb.Criterion.{Go}

-- `t.UTC().Round(0)`
abbrev pub key_time : Time → Time
key_time t = round_0 (utc t)

-- Functions of Go that cannot panic.
abbrev pub total : (Time → Bool) → Time → Run Bool
total f v = done (f v)

module _ (go : Go) where
  abbrev pub shown : Time → Bytes
  shown t = go.show_time t

  unfoldable pub equals_time : Time → Criterion Time
  equals_time given =
      let val = key_time given in
      record {
        meets = some (total (λ v. same_time v val));
        format = bytes "%s == " ++ shown val;
        not_format = bytes "%s != " ++ shown val;
        est_limits = record { min = some val; max = some val };
      }

  unfoldable pub is_after : Time → Criterion Time
  is_after given =
      let t = key_time given in
      record {
        meets = some (total (λ v. after v t));
        format = bytes "%s > " ++ shown t;
        not_format = bytes "%s <= " ++ shown t;
        est_limits = record { min = some t; max = none };
      }

  unfoldable pub is_after_or_equals : Time → Criterion Time
  is_after_or_equals given =
      let t = key_time given in
      record {
        meets = some (total (λ v. after v t || same_time v t));
        format = bytes "%s >= " ++ shown t;
        not_format = bytes "%s < " ++ shown t;
        est_limits = record { min = some t; max = none };
      }

  unfoldable pub is_before : Time → Criterion Time
  is_before given =
      let t = key_time given in
      record {
        meets = some (total (λ v. before v t));
        format = bytes "%s < " ++ shown t;
        not_format = bytes "%s >= " ++ shown t;
        est_limits = record { min = some t; max = none };
      }

  unfoldable pub is_before_or_equals : Time → Criterion Time
  is_before_or_equals given =
      let t = key_time given in
      record {
        meets = some (total (λ v. before v t || same_time v t));
        format = bytes "%s <= " ++ shown t;
        not_format = bytes "%s > " ++ shown t;
        est_limits = record { min = none; max = some t };
      }

  unfoldable pub is_between_times : Time → Time → Criterion Time
  is_between_times given_start given_end =
      let start = key_time given_start in
      let end = key_time given_end in
      record {
        meets = some (
            total (λ v. (same_time v start || after v start) && (same_time v end || before v end)));
        format = shown start ++ (bytes " <= %s >= " ++ shown end);
        not_format =
            bytes "!(" ++ (shown start ++ (bytes " <= %s >= " ++ (shown end ++ bytes ")")));
        est_limits = record { min = some start; max = some end };
      }

  unfoldable pub is_null_time : Criterion Time
  is_null_time = record {
    meets = some (total is_zero);
    format = bytes "%s == NULL";
    not_format = bytes "%s != NULL";
    est_limits = unlimited;
  }
