-- ===== src/Owdb/Store/Behaviour.antt =====
-- Calls on a closed store, and the query by IsBefore, whose limits exclude what it matches.
use jelly.Owdb.Store.Update.{update}
use jelly.Base.{
  Bytes, ◌≡◌, refl, ◌∙◌, ap, List, [], ◌∷◌, Option, none, some, true, false, done, if-true,
  if-false, All-map, ℕ, arith,
}
use jelly.Time.{Time, IsPlain, before}
use jelly.Owdb.Hit.{Hit}
use jelly.Owdb.Limits.{Limits, is_impossible}
use jelly.Owdb.Limits.Laws.{covers}
use jelly.Owdb.Filter.{Filter, a_where, matches, check}
use jelly.Owdb.Filter.Plan.{time_index_limits}
use jelly.Owdb.Criterion.{Go}
use jelly.Owdb.Criterion.Times.{is_before, key_time}
use jelly.Owdb.Store.{
  Store, ok, closed_store, empty_where, select, insert, delete, apply_filter, collect,
}
use jelly.Owdb.Store.Order.{IsSorted, AllPlain}
use jelly.Owdb.Store.Scan.{positions, select_scanned-positions}

-- Insert, Select, Delete and Update of a closed store return the error of a closed store, and leave
-- the store as it is.
closed-store :
    (s : Store) (h : Hit) (f : Option Filter) (show_ip : List ℕ → Bytes) (choose : List ℕ → ℕ)
    (new : Hit → Hit)
    → s.closed ≡ true
    → (insert h s ≡ done (closed_store, s))
      × (select f s ≡ done closed_store)
      × (delete f s ≡ done (closed_store, s))
      × (update show_ip choose f new s ≡ done (closed_store, s))
unfolding insert select delete update
closed-store s h f show_ip choose new c =
    (if-true s.closed _ _ c, if-true s.closed _ _ c, if-true s.closed _ _ c, if-true s.closed _ _ c)

positions-none : (i : ℕ) (hs : List Hit) → positions (λ _. false) i hs ≡ []
positions-none i [] = refl
positions-none i (h ∷ hs) = positions-none _ hs

module _ (go : Go) (t : Time) where
  -- `Where{Time: IsBefore(t)}`
  abbrev pub earlier_hits : Filter
  earlier_hits = a_where (record empty_where { time = is_before go t })

  -- The limits of IsBefore, which IsAfter has too.
  abbrev bounds : Limits Time
  bounds = record { min = some (key_time t); max = none }

  fails-covered :
      (h : Hit) → IsPlain h.time → covers bounds h.time ≡ true → matches earlier_hits h ≡ done false
  unfolding matches is_before check covers
  fails-covered h p c =
      let late : before h.time (key_time t) ≡ false = not_before h.time p c in rw late
    where
      not_before : (v : Time) → IsPlain v → covers bounds v ≡ true → before v (key_time t) ≡ false
      not_before v p c = ground arith

  apply_filter-earlier_hits :
      (hits : List Hit)
      → IsSorted hits
      → AllPlain hits
      → apply_filter (some earlier_hits) hits ≡ done []
  unfolding apply_filter is_before time_index_limits is_impossible
  apply_filter-earlier_hits hits s pl =
      select_scanned-positions bounds (record { min_plain = refl; max_plain = tt }) (λ _. false)
        (matches earlier_hits) [] hits (All-map (λ h. IsPlain h.time) _ hits fails-covered pl) s pl
        (All-map (λ h. IsPlain h.time) _ hits (λ h q c. refl) pl)
      ∙ ap done (positions-none 0 hits)

-- A query for the hits before a time, whatever the time, selects none from an open store whose hits
-- are sorted, with times as a store keeps them: the limits of IsBefore have the time as their
-- minimum.
pub select-is_before :
    (go : Go) (t : Time) (s : Store)
    → s.closed ≡ false
    → IsSorted s.hits
    → AllPlain s.hits
    → select (some (a_where (record empty_where { time = is_before go t }))) s ≡ done (ok [])
unfolding select
select-is_before go t s o sorted pl =
    if-false s.closed _ _ o
    ∙ rw (apply_filter-earlier_hits go t s.hits sorted pl) (unfold collect in refl)
