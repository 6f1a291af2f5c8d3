-- ===== src/Owdb/Tests.antt =====
-- The theorems about db/owdb/ at concrete inputs.
pub mod Samples
use jelly.Base.{
  ◌≡◌, refl, List, [], ◌∷◌, Option, none, some, Bool, true, false, not, ◌||◌, Run, done, panics,
  keep, count_of, inl, inr, ltb, ◌==◌, ◌⊎◌, ◌&&◌, arith, ℕ, All, length, bytes, bytes_eq, bytes_lt,
  bytes_le, map, starved, if◌then◌else◌,
}
use jelly.Time.{Time, IsPlain, after}
use jelly.Owdb.Hit.{Hit, normalize}
use jelly.Owdb.Limits.{Limits, narrow, widen}
use jelly.Owdb.Limits.Laws.{covers, impossible, covers-narrow, covers-widen}
use jelly.Owdb.Filter.{
  Where, FilterNode, filter_node, no_nodes, op_and, Filter, a_where, a_node, negate, conjoin,
  disjoin, matches, matches_node, node_of,
}
use jelly.Owdb.Filter.Plan.{simplify, time_index_limits, node_limits, is_operation}
use jelly.Owdb.Filter.Validity.{SoundCriterion, IsValid}
use jelly.Owdb.Filter.Simplify.{matches_node-simplify}
use jelly.Owdb.Filter.DoubleNot.{reaches_condition, IsPlannable}
use jelly.Owdb.Filter.Semantics.{conjunction, disjunction, time_index_limits-negate-negate}
use jelly.Owdb.Filter.Planning.{node_limits-covers}
use jelly.Owdb.Criterion.{does_not, Same}
use jelly.Owdb.Criterion.Strings.{
  collates_after, collates_after_or_equals, collates_before, collates_before_or_equals,
}
use jelly.Owdb.Criterion.Ips.{
  to_16, meets_equals_ip, meets_greater_than_ip, meets_greater_than_or_equals_ip,
  meets_less_than_ip, meets_less_than_or_equals_ip, meets_between_ips, is_greater_than_ip,
  is_greater_than_or_equals_ip, is_less_than_ip, is_less_than_or_equals_ip,
}
use jelly.Owdb.Criterion.Orders.{Opposed, and_then, ip_criteria-bytes}
use jelly.Owdb.Criterion.Times.{
  equals_time, is_after, is_after_or_equals, is_before, is_before_or_equals, is_between_times,
  is_null_time,
}
use jelly.Owdb.Criterion.Sound.{time_criteria-Sound}
use jelly.Owdb.Store.{
  Store, Reply, ok, closed_store, insert, select, delete, empty_where, no_criterion,
}
use jelly.Owdb.Store.Order.{IsSorted, AllPlain}
use jelly.Owdb.Store.Query.{CanPlan, plan_node, select-eq-keep}
use jelly.Owdb.Store.Deletion.{delete-eq-keep}
use jelly.Owdb.Store.Insertion.{Inserted, insert-Inserted, insert-IsSorted}
use jelly.Owdb.Store.Update.{update}
use jelly.Owdb.Store.Updating.{differs, updated, KeepsTime, update-Perm, update-eq-map}
use mathlib.Core.List.{Perm}
use jelly.Owdb.Store.Behaviour.{select-is_before}
use jelly.Owdb.Tests.Samples.{
  loopback, a_go, at, local_at, hit_at, three_hits, a_store, shut_store, late_or_first,
  is_late_or_first, from_20, only_10, up_to_20,
}

-- The order of a map that visits the last key first, one that visits the first, and updates.
abbrev last_key : List ℕ → ℕ
last_key keys = length keys

abbrev first_key : List ℕ → ℕ
first_key keys = 0

abbrev to_25 : Hit → Hit
to_25 h = record h { time = local_at 25 }

abbrev rehosted : Hit → Hit
rehosted h = record h { host = 104 ∷ [] }

late_or_first-IsValid : IsValid late_or_first
unfolding IsValid disjoin node_of late_or_first
late_or_first-IsValid =
    let sound = time_criteria-Sound a_go (at 20) (at 10) no_criterion in
    let sound' = time_criteria-Sound a_go (at 10) (at 10) no_criterion in
    (tt, (sound.2, (sound'.0, tt)))

late_or_first-CanPlan : CanPlan (a_node late_or_first)
unfolding disjoin node_of reaches_condition late_or_first
late_or_first-CanPlan = plan_node late_or_first late_or_first-IsValid refl

three_hits-IsSorted : IsSorted three_hits
three_hits-IsSorted = ((omega arith, (omega arith, tt)), ((omega arith, tt), (tt, tt)))

IsPlain-at : (n : ℕ) → IsPlain (at n)
IsPlain-at n = record { bare = refl; in_utc = refl }

three_hits-AllPlain : AllPlain three_hits
three_hits-AllPlain = (IsPlain-at 10, (IsPlain-at 20, (IsPlain-at 30, tt)))

late_or_first-decided :
    All (λ h. matches (a_node late_or_first) h ≡ done (is_late_or_first h)) three_hits
unfolding late_or_first matches disjoin node_of is_after_or_equals equals_time
late_or_first-decided = (refl, (refl, (refl, tt)))

select-eq-keep_example :
    select (some (a_node late_or_first)) a_store ≡ done (ok (keep is_late_or_first three_hits))
select-eq-keep_example =
    select-eq-keep (a_node late_or_first) is_late_or_first a_store refl late_or_first-CanPlan
      three_hits-IsSorted three_hits-AllPlain late_or_first-decided

delete-eq-keep_example :
    delete (some (a_node late_or_first)) a_store
    ≡ done (
      ok (count_of is_late_or_first three_hits),
      record a_store { hits = keep (λ h. not (is_late_or_first h)) three_hits },
    )
delete-eq-keep_example =
    delete-eq-keep (a_node late_or_first) is_late_or_first a_store refl late_or_first-CanPlan
      three_hits-IsSorted three_hits-AllPlain late_or_first-decided

insert-Inserted_example :
    Inserted (hit_at (local_at 20)) a_store (insert (hit_at (local_at 20)) a_store)
insert-Inserted_example =
    insert-Inserted (hit_at (local_at 20)) a_store refl three_hits-IsSorted three_hits-AllPlain

insert-IsSorted_example :
    (s' : Store) × (insert (hit_at (local_at 25)) a_store ≡ done (ok tt, s'))
    × IsSorted s'.hits
    × AllPlain s'.hits
insert-IsSorted_example =
    insert-IsSorted (hit_at (local_at 25)) a_store refl three_hits-IsSorted three_hits-AllPlain

select-is_before_example :
    select (some (a_where (record empty_where { time = is_before a_go (at 30) }))) a_store
    ≡ done (ok [])
select-is_before_example =
    select-is_before a_go (at 30) a_store refl three_hits-IsSorted three_hits-AllPlain

node_limits-covers_example :
    (lims : Limits Time) × (node_limits late_or_first ≡ done lims) × (covers lims (at 30) ≡ true)
unfolding disjoin node_of reaches_condition late_or_first matches is_after_or_equals
node_limits-covers_example =
    node_limits-covers late_or_first (hit_at (at 30)) late_or_first-IsValid refl (IsPlain-at 30)
      refl

time_index_limits-negate-negate_example :
    (time_index_limits (a_node (negate (a_node (negate (a_where from_20))))) ≡ panics)
    × (matches (a_node (negate (a_node (negate (a_where from_20))))) (hit_at (at 30)) ≡ done true)
unfolding matches is_after_or_equals
time_index_limits-negate-negate_example =
    time_index_limits-negate-negate from_20 (hit_at (at 30)) true refl

-- Negations that cancel around an operation.
abbrev twice_negated : FilterNode
twice_negated = negate (a_node (negate (a_node late_or_first)))

matches_node-simplify_example :
    matches_node late_or_first (hit_at (at 10)) ≡ matches_node twice_negated (hit_at (at 10))
unfolding negate node_of simplify late_or_first disjoin
matches_node-simplify_example =
    matches_node-simplify twice_negated late_or_first (hit_at (at 10)) refl

abbrev from_10 : Limits Time
from_10 = record { min = some (at 10); max = none }

abbrev until_25 : Limits Time
until_25 = record { min = none; max = some (at 25) }

abbrev reversed : Limits Time
reversed = record { min = some (at 9); max = some (at 3) }

covers-narrow_example :
    covers (narrow after from_10 until_25) (at 20)
    ≡ (covers from_10 (at 20) && covers until_25 (at 20))
unfolding impossible
covers-narrow_example =
    covers-narrow (record { min_plain = refl; max_plain = tt })
      (record { min_plain = tt; max_plain = refl }) (at 20) refl refl

covers-widen_example : covers (widen after reversed until_25) (at 20) ≡ true
unfolding covers
covers-widen_example =
    covers-widen (record { min_plain = refl; max_plain = refl })
      (record { min_plain = tt; max_plain = refl }) (at 20) refl (inr refl)

time_criteria-Sound_example :
    SoundCriterion (equals_time a_go (local_at 3))
    × SoundCriterion (is_after a_go (local_at 3))
    × SoundCriterion (is_after_or_equals a_go (local_at 3))
    × SoundCriterion (is_before_or_equals a_go (local_at 3))
    × SoundCriterion (is_between_times a_go (local_at 3) (at 9))
    × SoundCriterion (is_null_time a_go)
    × SoundCriterion (does_not (is_before a_go (at 9)))
time_criteria-Sound_example = time_criteria-Sound a_go (local_at 3) (at 9) (is_before a_go (at 9))

update-Perm_example :
    (hits : List Hit) × (update a_go.show_ip last_key (some (a_node late_or_first)) to_25 a_store
      ≡ done (
        ok (
          count_of is_late_or_first three_hits,
          count_of
              (λ h. is_late_or_first h && differs a_go.show_ip to_25 is_late_or_first h)
              three_hits,
        ),
        record a_store { hits = hits },
      ))
    × Perm hits (map (updated a_go.show_ip to_25 is_late_or_first) three_hits)
update-Perm_example =
    update-Perm a_go.show_ip to_25 is_late_or_first last_key a_store (a_node late_or_first) refl
      late_or_first-CanPlan three_hits-IsSorted three_hits-AllPlain late_or_first-decided

update-eq-map_example :
    update a_go.show_ip first_key (some (a_node late_or_first)) rehosted a_store
    ≡ done (
      ok (
        count_of is_late_or_first three_hits,
        count_of
            (λ h. is_late_or_first h && differs a_go.show_ip rehosted is_late_or_first h)
            three_hits,
      ),
      record a_store { hits = map (updated a_go.show_ip rehosted is_late_or_first) three_hits },
    )
unfolding normalize
update-eq-map_example =
    update-eq-map a_go.show_ip rehosted is_late_or_first first_key a_store (a_node late_or_first)
      refl late_or_first-CanPlan three_hits-IsSorted three_hits-AllPlain late_or_first-decided
      (refl, (refl, (refl, tt)))

abbrev home : List ℕ
home = 127 ∷ 0 ∷ 0 ∷ 1 ∷ []

ip_criteria-bytes_example :
    (meets_equals_ip loopback (some home) ≡ done (bytes_eq loopback (to_16 home)))
    × (meets_greater_than_ip loopback (some home) ≡ done (bytes_lt loopback (to_16 home)))
    × (meets_greater_than_or_equals_ip loopback (some home) ≡ done (bytes_le loopback (to_16 home)))
    × (meets_less_than_ip loopback (some home) ≡ done (bytes_lt (to_16 home) loopback))
    × (meets_less_than_or_equals_ip loopback (some home) ≡ done (bytes_le (to_16 home) loopback))
ip_criteria-bytes_example = ip_criteria-bytes loopback home refl (inl refl)
