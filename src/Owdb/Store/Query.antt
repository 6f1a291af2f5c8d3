-- ===== src/Owdb/Store/Query.antt =====
-- Queries against their specification: what applyFilter and Select return is what a plain scan of
-- all the hits would.
use jelly.Base.{
  ◌≡◌, refl, ap, ◌∙◌, List, [], ◌∷◌, ◌++◌, none, some, Bool, false, done, read_middle, length,
  length-snoc, append_snoc, All, All-map, Bool-cases, inl, inr, keep,
}
use mathlib.Core.List.{append-nil}
use jelly.Time.{Time, after, IsPlain}
use jelly.Owdb.Limits.{Limits, unlimited, is_impossible}
use jelly.Owdb.Limits.Laws.{covers}
use jelly.Owdb.Hit.{Hit}
use jelly.Owdb.Filter.{Filter, a_where, a_node, matches, Where, FilterNode}
use jelly.Owdb.Filter.Plan.{time_index_limits, where_limits}
use jelly.Owdb.Filter.Validity.{IsValid, SoundCriterion}
use jelly.Owdb.Filter.DoubleNot.{IsPlannable}
use jelly.Owdb.Filter.Bounds.{Bounds}
use jelly.Owdb.Filter.Planning.{node_limits-Bounded, where_Bounds, Bounds-unlimited}
use jelly.Owdb.Store.{Store, ok, scan, select_scanned, apply_filter, collect, select}
use jelly.Owdb.Store.Order.{IsSorted, AllPlain}
use jelly.Owdb.Store.Scan.{positions, Within, select_scanned-positions}

-- A filter that the store can plan with: every operation in it has a known operator and an operand,
-- its criteria on the time have sound limits, and it is no condition under NOTs that cancel.
pub data CanPlan : Filter → Type 0 where
  plan_where : (w : Where) → SoundCriterion w.time → CanPlan (a_where w)
  plan_node : (n : FilterNode) → IsValid n → IsPlannable n → CanPlan (a_node n)

-- The limits of such a filter, and that they bound it.
record Planned (f : Filter) : Type 0 where
  lims : Limits Time
  computed : time_index_limits f ≡ done lims
  bounds : Bounds (matches f) lims

planned : {f : Filter} → CanPlan f → Planned f
unfolding time_index_limits matches
planned (plan_where w s) = record {
  lims = where_limits w;
  computed = refl;
  bounds = where_Bounds w s;
}
planned (plan_node n v p) =
    let b = node_limits-Bounded n v p in
    record { lims = b.lims; computed = b.computed; bounds = b.bounds }

Within-of_Bounds :
    (f : Filter) (p : Hit → Bool) (lims : Limits Time) (hs : List Hit)
    → Bounds (matches f) lims
    → AllPlain hs
    → All (λ h. matches f h ≡ done (p h)) hs
    → All (Within lims p) hs
Within-of_Bounds f p lims [] b pl m = tt
Within-of_Bounds f p lims (h ∷ hs) b pl m =
    (λ c. outside h pl.0 m.0 c, Within-of_Bounds f p lims hs b pl.1 m.1)
  where
    outside :
        (h : Hit)
        → IsPlain h.time
        → matches f h ≡ done (p h)
        → covers lims h.time ≡ false
        → p h ≡ false
    outside h q e c = elim (Bool-cases (p h)) [
      | inl t ↦ cc (b.within h q (e ∙ ap done t))
      | inr t ↦ t
    ]

-- On a sorted store applyFilter returns the ids of the hits that the filter matches, all of them
-- and in order, if the store can plan with the filter and no match panics.
pub apply_filter-positions :
    (f : Filter) (p : Hit → Bool) (hits : List Hit)
    → CanPlan f
    → IsSorted hits
    → AllPlain hits
    → All (λ h. matches f h ≡ done (p h)) hits
    → apply_filter (some f) hits ≡ done (positions p 0 hits)
unfolding apply_filter
apply_filter-positions f p hits c s pl m =
    let b = planned c in
    rw b.computed (elim (Bool-cases (is_impossible after b.lims)) [
      | inl e ↦ rw e (found unlimited (Bounds-unlimited _))
      | inr e ↦ rw e (found b.lims b.bounds)
    ])
  where
    found :
        (lims : Limits Time)
        → Bounds (matches f) lims
        → select_scanned (matches f) hits (scan lims 0 none hits) ≡ done (positions p 0 hits)
    found lims b =
        select_scanned-positions lims b.plain p (matches f) [] hits
          (All-map (λ h. matches f h ≡ done (p h)) _ hits (λ h e _. e) m) s pl
          (Within-of_Bounds f p lims hits b pl m)

collect-positions :
    (p : Hit → Bool) (pre rest selected : List Hit)
    → collect (pre ++ rest) (positions p (length pre) rest) selected
      ≡ done (selected ++ keep p rest)
unfolding collect
collect-positions p pre [] selected = rw (append-nil selected)
collect-positions p pre (h ∷ hs) selected =
    let next = λ (acc : List Hit).
      rw (append_snoc pre h hs, length-snoc pre h) at
        (collect-positions p (pre ++ h ∷ []) hs acc) in
    elim (Bool-cases (p h)) [
      | inl e ↦
          rw (e, collect, read_middle pre h hs)
            (next _ ∙ ap done (append_snoc selected h (keep p hs)))
      | inr e ↦ rw e (next selected)
    ]

-- Select returns exactly the hits that the filter matches, in the order of the store, if the store
-- is open and its hits are sorted, with times as a store keeps them, the store can plan with the
-- filter and no match panics.
pub select-eq-keep :
    (f : Filter) (p : Hit → Bool) (s : Store)
    → s.closed ≡ false
    → CanPlan f
    → IsSorted s.hits
    → AllPlain s.hits
    → All (λ h. matches f h ≡ done (p h)) s.hits
    → select (some f) s ≡ done (ok (keep p s.hits))
unfolding select
select-eq-keep f p s o c sorted pl m =
    rw (o, apply_filter-positions f p s.hits c sorted pl m) (rw (collect-positions p [] s.hits []))
