-- ===== src/Owdb/Tests/Samples.antt =====
-- A store with three hits, and filters.
use jelly.Base.{ℕ, ◌≡◌, List, [], ◌∷◌, none, some, Bool, true, false, not, ◌||◌, ltb, ◌==◌, length}
use jelly.Time.{Time, utc_zone, local_zone}
use jelly.Owdb.Hit.{Hit}
use jelly.Owdb.Filter.{Where, FilterNode, a_where, disjoin}
use jelly.Owdb.Criterion.{Go}
use jelly.Owdb.Criterion.Times.{equals_time, is_after_or_equals, is_before_or_equals}
use jelly.Owdb.Store.{Store, empty_where, empty_hit}

abbrev pub loopback : List ℕ
loopback = 0 ∷ 0 ∷ 0 ∷ 0 ∷ 0 ∷ 0 ∷ 0 ∷ 0 ∷ 0 ∷ 0 ∷ 0 ∷ 0 ∷ 0 ∷ 0 ∷ 0 ∷ 1 ∷ []

pub loopback-length : (ip : List ℕ) → some loopback ≡ some ip → length ip ≡ 16
loopback-length ip e = cc

abbrev pub a_go : Go
a_go = record {
  quote = λ s. s;
  show_time = λ t. t.instant ∷ [];
  show_ip = λ ip. ip;
  parse_ip = λ s. some loopback;
  parse_ip_length = λ s ip e. loopback-length ip e;
}

abbrev pub at : ℕ → Time
at n = record { instant = n; monotonic = none; zone = utc_zone }

abbrev pub local_at : ℕ → Time
local_at n = record { instant = n; monotonic = some 7; zone = local_zone 1 }

abbrev pub hit_at : Time → Hit
hit_at t = record empty_hit { time = t }

abbrev pub three_hits : List Hit
three_hits = hit_at (at 10) ∷ hit_at (at 20) ∷ hit_at (at 30) ∷ []

abbrev pub a_store : Store
a_store = record { data_file = []; closed = false; hits = three_hits }

abbrev pub shut_store : Store
shut_store = record a_store { closed = true }

abbrev pub from_20 : Where
from_20 = record empty_where { time = is_after_or_equals a_go (at 20) }

abbrev pub up_to_20 : Where
up_to_20 = record empty_where { time = is_before_or_equals a_go (at 20) }

abbrev pub only_10 : Where
only_10 = record empty_where { time = equals_time a_go (at 10) }

unfoldable pub late_or_first : FilterNode
late_or_first = disjoin (a_where from_20) (a_where only_10) []

abbrev pub is_late_or_first : Hit → Bool
is_late_or_first h = not (ltb h.time.instant 20) || h.time.instant == 10
