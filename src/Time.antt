-- ===== src/Time.antt =====
-- What db/owdb/ uses of Go's package time: a Time is an instant, the zone it is shown in and, when
-- it was read from the clock, a monotonic reading. Instants are nanoseconds, counted from the
-- earliest one that a Time can hold.
use jelly.Base.{ℕ, ◌*◌, ◌^◌, ◌≡◌, Option, none, some, Bool, ◌&&◌, false, true, ltb, ◌==◌, arith}

-- A zone is compared by identity. UTC has its own.
pub data Zone : Type 0 where
  utc_zone : Zone
  local_zone : ℕ → Zone

pub record Time : Type 0 where
  pub instant : ℕ
  pub monotonic : Option ℕ
  pub zone : Zone

abbrev zone_eq : Zone → Zone → Bool
zone_eq utc_zone utc_zone = true
zone_eq utc_zone (local_zone n) = false
zone_eq (local_zone m) utc_zone = false
zone_eq (local_zone m) (local_zone n) = m == n

abbrev reading_eq : Option ℕ → Option ℕ → Bool
reading_eq none none = true
reading_eq none (some n) = false
reading_eq (some m) none = false
reading_eq (some m) (some n) = m == n

-- Two readings, if both are there, are compared in place of the instants.
abbrev by_reading : (ℕ → ℕ → Bool) → Option ℕ → Option ℕ → ℕ → ℕ → Bool
by_reading r none n i j = r i j
by_reading r (some m) none i j = r i j
by_reading r (some m) (some n) i j = r m n

-- `t.After(u)`
abbrev pub after : Time → Time → Bool
after t u = by_reading (λ a b. ltb b a) t.monotonic u.monotonic t.instant u.instant

-- `t.Before(u)`
abbrev pub before : Time → Time → Bool
before t u = by_reading ltb t.monotonic u.monotonic t.instant u.instant

-- `t.Equal(u)`
abbrev pub equal : Time → Time → Bool
equal t u = by_reading ◌==◌ t.monotonic u.monotonic t.instant u.instant

-- `t == u`, of the structs
abbrev pub same_time : Time → Time → Bool
same_time t u =
    t.instant == u.instant && reading_eq t.monotonic u.monotonic && zone_eq t.zone u.zone

-- `t.UTC()`
abbrev pub utc : Time → Time
utc t = record t { zone = utc_zone }

-- `t.Round(0)` drops the monotonic reading.
abbrev pub round_0 : Time → Time
round_0 t = record t { monotonic = none }

-- January 1 of the year 1, where the seconds of a Time are 0.
abbrev pub zero_time : Time
zero_time = record { instant = 2 ^ 63 * 1000000000; monotonic = none; zone = utc_zone }

-- `t.IsZero()`
abbrev pub is_zero : Time → Bool
is_zero t = t.instant == zero_time.instant

-- A time as the store keeps it.
pub record IsPlain (t : Time) : Type 0 where
  pub bare : t.monotonic ≡ none
  pub in_utc : t.zone ≡ utc_zone

-- On plain times the struct comparison and the comparison of instants agree.
pub same_time_iff : {t u : Time} → IsPlain t → IsPlain u → same_time t u ≡ equal t u
same_time_iff p q = ground arith
