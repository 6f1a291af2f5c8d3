-- ===== src/Owdb/Criterion/Ips.antt =====
-- The criteria on addresses of db/owdb/criterion.go. `to_16` and `ip_equal` are the methods To16
-- and Equal of net.IP. A slice that may be nil is a list where only its bytes are read.
use jelly.Base.{
  ℕ, zero, suc, List, [], ◌∷◌, ◌++◌, none, some, Bool, true, false, ◌&&◌, not, ◌==◌, bytes,
  bytes_eq, Bytes, Run, done, panics, ◌>>=◌, if◌then◌else◌, length, take, drop, ltb, read,
}
use jelly.Owdb.Limits.{unlimited}
use jelly.Owdb.Hit.{Ip}
use jelly.Owdb.Filter.{Criterion}
use jelly.Owdb.Criterion.{Go}

-- What an IPv4 address has before it in its form of 16 bytes.
abbrev pub v4_prefix : List ℕ
v4_prefix = 0 ∷ 0 ∷ 0 ∷ 0 ∷ 0 ∷ 0 ∷ 0 ∷ 0 ∷ 0 ∷ 0 ∷ 255 ∷ 255 ∷ []

-- `ip.To16()`, which is nil, a slice without bytes, for a slice of any other length
unfoldable pub to_16 : List ℕ → List ℕ
to_16 ip = if length ip == 4 then v4_prefix ++ ip else if length ip == 16 then ip else []

-- `ip.Equal(x)`: the same bytes, or an IPv4 address in both forms
unfoldable pub ip_equal : List ℕ → List ℕ → Bool
ip_equal ip x =
    if length ip == length x
    then bytes_eq ip x
    else if length ip == 4 && length x == 16
    then bytes_eq (take 12 x) v4_prefix && bytes_eq ip (drop 12 x)
    else if length ip == 16 && length x == 4
    then bytes_eq (take 12 ip) v4_prefix && bytes_eq (drop 12 ip) x
    else false

-- The loop over the bytes of `v6` and `ip6`, for the next `rounds` indices from `i`: its result if
-- the first two bytes that differ are greater in `v6`, if they are less, and if none differ.
unfoldable pub compare_bytes :
    (if_greater if_less if_equal : Bool) → List ℕ → List ℕ → (i rounds : ℕ) → Run Bool
compare_bytes greater less same v6 ip6 i zero = done same
compare_bytes greater less same v6 ip6 i (suc rounds) = do
  a ← read v6 i
  b ← read ip6 i
  if ltb b a
      then done greater
      else if ltb a b
      then done less
      else compare_bytes greater less same v6 ip6 (suc i) rounds

unfoldable pub meets_equals_ip : List ℕ → Ip → Run Bool
meets_equals_ip ip none = done false
meets_equals_ip ip (some v) = done (ip_equal ip v)

unfoldable pub meets_greater_than_ip : List ℕ → Ip → Run Bool
meets_greater_than_ip ip none = done false
meets_greater_than_ip ip (some v) = compare_bytes true false false (to_16 v) (to_16 ip) 0 16

unfoldable pub meets_greater_than_or_equals_ip : List ℕ → Ip → Run Bool
meets_greater_than_or_equals_ip ip none = done false
meets_greater_than_or_equals_ip ip (some v) =
    if ip_equal ip v then done true else compare_bytes true false true (to_16 v) (to_16 ip) 0 16

unfoldable pub meets_less_than_ip : List ℕ → Ip → Run Bool
meets_less_than_ip ip none = done true
meets_less_than_ip ip (some v) = compare_bytes false true false (to_16 v) (to_16 ip) 0 16

unfoldable pub meets_less_than_or_equals_ip : List ℕ → Ip → Run Bool
meets_less_than_or_equals_ip ip none = done true
meets_less_than_or_equals_ip ip (some v) =
    if ip_equal ip v then done true else compare_bytes false true true (to_16 v) (to_16 ip) 0 16

-- A check against one end: it ends the function with false unless `m` goes on.
abbrev pub unless_equal : List ℕ → List ℕ → Run Bool → Run Bool → Run Bool
unless_equal bound v6 m rest =
    if not (ip_equal bound v6) then (do ok ← m; if ok then rest else done false) else rest

unfoldable pub meets_between_ips : List ℕ → List ℕ → Ip → Run Bool
meets_between_ips start end none = done false
meets_between_ips start end (some v) =
    let end6 = to_16 end in
    let v6 = to_16 v in
    let start6 = to_16 start in
    unless_equal start6 v6 (compare_bytes true false true v6 start6 0 16)
      (unless_equal end6 v6 (compare_bytes false true true v6 end6 0 16) (done true))

unfoldable pub meets_null_ip : Ip → Run Bool
meets_null_ip none = done true
meets_null_ip (some v) = done false

module _ (go : Go) where
  -- `net.ParseIP(addr)`, which must not be nil
  unfoldable pub parsed : {A : Type 0} → Bytes → (List ℕ → Run A) → Run A
  parsed addr use_ip = elim (go.parse_ip addr) [ none ↦ panics | some ip ↦ use_ip ip ]

  unfoldable pub equals_ip : Bytes → Run (Criterion Ip)
  equals_ip addr = parsed addr λ ip. done (record {
    meets = some (meets_equals_ip ip);
    format = bytes "%s == " ++ go.show_ip ip;
    not_format = bytes "%s != " ++ go.show_ip ip;
    est_limits = record { min = some (some ip); max = some (some ip) };
  })

  unfoldable pub is_greater_than_ip : Bytes → Run (Criterion Ip)
  is_greater_than_ip addr = parsed addr λ ip. done (record {
    meets = some (meets_greater_than_ip ip);
    format = bytes "%s > " ++ go.show_ip ip;
    not_format = bytes "%s <= " ++ go.show_ip ip;
    est_limits = record { min = some (some ip); max = none };
  })

  unfoldable pub is_greater_than_or_equals_ip : Bytes → Run (Criterion Ip)
  is_greater_than_or_equals_ip addr = parsed addr λ ip. done (record {
    meets = some (meets_greater_than_or_equals_ip ip);
    format = bytes "%s >= " ++ go.show_ip ip;
    not_format = bytes "%s < " ++ go.show_ip ip;
    est_limits = record { min = some (some ip); max = none };
  })

  unfoldable pub is_less_than_ip : Bytes → Run (Criterion Ip)
  is_less_than_ip addr = parsed addr λ ip. done (record {
    meets = some (meets_less_than_ip ip);
    format = bytes "%s < " ++ go.show_ip ip;
    not_format = bytes "%s >= " ++ go.show_ip ip;
    est_limits = record { min = none; max = some (some ip) };
  })

  unfoldable pub is_less_than_or_equals_ip : Bytes → Run (Criterion Ip)
  is_less_than_or_equals_ip addr = parsed addr λ ip. done (record {
    meets = some (meets_less_than_or_equals_ip ip);
    format = bytes "%s <= " ++ go.show_ip ip;
    not_format = bytes "%s > " ++ go.show_ip ip;
    est_limits = record { min = none; max = some (some ip) };
  })

  unfoldable pub is_between_ips : Bytes → Bytes → Run (Criterion Ip)
  is_between_ips start end = parsed start λ start_ip. parsed end λ end_ip. done (record {
    meets = some (meets_between_ips start_ip end_ip);
    format = go.show_ip start_ip ++ (bytes " <= %s <= " ++ go.show_ip end_ip);
    not_format = go.show_ip start_ip ++ (bytes " <= %s <= " ++ go.show_ip end_ip);
    est_limits = record { min = some (some start_ip); max = some (some end_ip) };
  })

  unfoldable pub is_null_ip : Criterion Ip
  is_null_ip = record {
    meets = some meets_null_ip;
    format = bytes "%s == NULL";
    not_format = bytes "%s != NULL";
    est_limits = unlimited;
  }
