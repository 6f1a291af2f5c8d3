-- ===== src/Owdb/Hit.antt =====
-- Requester and Hit of db/owdb/owdb.go. The printing of an Ip address is Go's (package net); it is
-- a parameter of the comparisons that use it.
use jelly.Base.{ℕ, List, Option, none, some, Bool, true, false, not, Bytes, bytes_eq, if◌then◌else◌}
use jelly.Time.{Time, utc, round_0, same_time}

-- A net.Ip: nil, or a slice of bytes.
abbrev pub Ip : Type 0
Ip = Option (List ℕ)

pub record Requester : Type 0 where
  pub address : Ip
  pub country : Bytes
  pub city : Bytes

pub record Hit : Type 0 where
  pub time : Time
  pub host : Bytes
  pub resource : Bytes
  pub client : Requester

-- The argument of an `Equal` method, an `interface{}`.
pub data Other (A : Type 0) : Type 0 where
  a_value : A → Other A
  a_pointer : Option A → Other A
  of_another_type : Other A

-- The switch on the argument's type at the head of both `Equal` methods.
abbrev with_other : {A : Type 0} → Other A → (A → Bool) → Bool
with_other (a_value v) test = test v
with_other (a_pointer none) test = false
with_other (a_pointer (some v)) test = test v
with_other of_another_type test = false

-- Addresses count as equal if both are nil, or neither is and they print alike.
address_equal : (List ℕ → Bytes) → Ip → Ip → Bool
address_equal show_ip none none = true
address_equal show_ip none (some b) = false
address_equal show_ip (some a) none = false
address_equal show_ip (some a) (some b) = bytes_eq (show_ip a) (show_ip b)

pub requester_equal : (List ℕ → Bytes) → Requester → Other Requester → Bool
unfolding address_equal
requester_equal show_ip r other = with_other other λ o.
    if not (address_equal show_ip r.address o.address)
    then false
    else if not (bytes_eq r.city o.city)
    then false
    else if not (bytes_eq r.country o.country)
    then false
    else true

-- `Hit.Equal`
unfoldable pub hit_equal : (List ℕ → Bytes) → Hit → Other Hit → Bool
unfolding requester_equal
hit_equal show_ip hit other = with_other other λ o.
    if not (same_time hit.time o.time)
    then false
    else if not (bytes_eq hit.host o.host)
    then false
    else if not (bytes_eq hit.resource o.resource)
    then false
    else if not (requester_equal show_ip hit.client (a_value o.client))
    then false
    else true

-- `normalizeForDB`: the time in UTC, without its monotonic reading.
unfoldable pub normalize : Hit → Hit
normalize hit = record hit { time = round_0 (utc hit.time) }
