-- ===== src/Owdb/Filter/Planning.antt =====
-- TimeIndexLimits as a whole: it is sound and returns, except where double negation is lost.
use jelly.Base.{
  ℕ, zero, suc, ◌≤◌, ◌≡◌, refl, sym, ◌∙◌, ap, subst, none, some, Bool, true, false, not, Run, done,
  if◌then◌else◌, arith, inl, inr, Option-cases, >>=-eq-done,
}
use native.Mathlib.Nat.{le_trans}
use jelly.Time.{Time, IsPlain}
use jelly.Owdb.Hit.{Hit}
use jelly.Owdb.Limits.{Limits, unlimited}
use jelly.Owdb.Limits.Laws.{covers}
use jelly.Owdb.Filter.{
  Where, FilterNode, Nodes, filter_node, no_nodes, more_nodes, op_and, op_or, op_not, undefined_op,
  matches_node, matches_where, check,
}
use jelly.Owdb.Filter.Plan.{
  is_operation, where_limits, operator_limits, limits_within, size, size_all, node_limits,
}
use jelly.Owdb.Filter.Simplify.{matches_node-simplify, size-simplify}
use jelly.Owdb.Filter.Validity.{IsValid, AllValid, SoundCriterion, simplify-IsValid, NonEmpty}
use jelly.Owdb.Filter.DoubleNot.{
  IsPlannable, AllPlannable, PlannableOperands, simplify-PlannableOperands, is_operation-simplify,
}
use jelly.Owdb.Filter.Bounds.{
  Bounds, Bounded, AllBounded, narrow_rest_total, widen_rest_bounds, Found, nothing, first,
  first_possible-Found,
}

pub Bounds-unlimited : (meaning : Hit → Run Bool) → Bounds meaning unlimited
unfolding covers
Bounds-unlimited meaning = record {
  plain = record { min_plain = tt; max_plain = tt };
  within = λ h p m. refl;
}

check-first :
    {E : Type 0} (meets : E → Run Bool) (v : E) (rest : Run Bool)
    → check (some meets) v rest ≡ done true
    → meets v ≡ done true
unfolding check
check-first meets v rest h =
    let (ok, e, h') = >>=-eq-done (meets v) _ h in rw e (ap done (passed ok h'))
  where
    passed : (ok : Bool) → (if not ok then done false else rest) ≡ done true → ok ≡ true
    passed true e = refl
    passed false e = cc

where_limits-none : (w : Where) → w.time.meets ≡ none → where_limits w ≡ unlimited
unfolding where_limits
where_limits-none w e = rw e

where_limits-some :
    (w : Where) {meets : Time → Run Bool}
    → w.time.meets ≡ some meets
    → where_limits w ≡ w.time.est_limits
unfolding where_limits
where_limits-some w e = rw (e, where_limits)

pub where_Bounds : (w : Where) → SoundCriterion w.time → Bounds (matches_where w) (where_limits w)
unfolding matches_where
where_Bounds w s = elim (Option-cases w.time.meets) [
  | inl e ↦ subst (Bounds (matches_where w)) (sym (where_limits-none w e)) (Bounds-unlimited _)
  | inr (meets, e) ↦ subst (Bounds (matches_where w)) (sym (where_limits-some w e)) (record {
    plain = s.plain;
    within = λ h p m. s.no_narrower meets h.time e p (check-first meets h.time _ (rw e at m));
  })
]

module _ (limits_of : FilterNode → Run (Limits Time)) where
  all_bounded :
      (k : ℕ) (ns : Nodes)
      → AllValid ns
      → AllPlannable ns
      → size_all ns ≤ k
      → ((m : FilterNode) → IsValid m → IsPlannable m → size m ≤ k → Bounded limits_of m)
      → AllBounded limits_of ns
  unfolding IsValid size
  all_bounded k no_nodes v p s b = tt
  all_bounded k (more_nodes n ns) (v, vs) (p, ps) s b =
      (b n v p (omega arith), all_bounded k ns vs ps (omega arith) b)

  or_Bounded :
      (ns : Nodes)
      → NonEmpty ns
      → AllBounded limits_of ns
      → Found limits_of ns
      → Bounded (operator_limits limits_of) (filter_node none op_or ns)
  unfolding operator_limits matches_node
  or_Bounded no_nodes s bs (nothing c f) = absurd s
  or_Bounded (more_nodes n ns) s bs (nothing c f) = record {
    lims = bs.0.lims;
    computed = rw c bs.0.computed;
    bounds = record { plain = bs.0.bounds.plain; within = λ h q m. absurd (f h q m) };
  }
  or_Bounded ns s bs (first lims rest c p bs' f) =
      let w = widen_rest_bounds limits_of lims rest p bs' in
      record {
        lims = w.result;
        computed = rw c w.computed;
        bounds = record {
          plain = w.plain;
          within = λ h q m. elim (f h q m) [
            | inl now ↦ w.keeps h.time q.bare now
            | inr later ↦ w.adds h q later
          ];
        };
      }

  -- The limits of a simplified operation, from those of its operands.
  operator-Bounded :
      (k : ℕ) (n : FilterNode)
      → is_operation n ≡ true
      → IsValid n
      → PlannableOperands n
      → size n ≤ suc k
      → ((m : FilterNode) → IsValid m → IsPlannable m → size m ≤ k → Bounded limits_of m)
      → Bounded (operator_limits limits_of) n
  unfolding operator_limits IsValid size
  operator-Bounded k (filter_node (some w) op group) o v p s b = cc
  operator-Bounded k (filter_node none op_not group) o v p s b = record {
    lims = unlimited;
    computed = refl;
    bounds = Bounds-unlimited _;
  }
  operator-Bounded k (filter_node none op_and no_nodes) o v p s b = absurd v.0
  operator-Bounded k (filter_node none op_and (more_nodes n ns)) o (_, (v, vs)) (p, ps) s b =
      let first_one = b n v p (omega arith) in
      let rest = all_bounded k ns vs ps (omega arith) b in
      record {
        lims = unlimited;
        computed = rw (first_one.computed, (narrow_rest_total limits_of first_one.lims ns rest).1);
        bounds = Bounds-unlimited _;
      }
  operator-Bounded k (filter_node none op_or group) o (nonempty, vs) p s b =
      let bs = all_bounded k group vs p (omega arith) b in
      or_Bounded group nonempty bs (first_possible-Found limits_of group bs)
  operator-Bounded k (filter_node none (undefined_op j) group) o v p s b = absurd v

-- With fuel for the size of a node its limits are computed, and bound it.
node-Bounded :
    (k : ℕ) (n : FilterNode) → IsValid n → IsPlannable n → size n ≤ k → Bounded (limits_within k) n
unfolding limits_within IsValid size matches_node
node-Bounded zero (filter_node cond op group) v p s = absurd (omega arith)
node-Bounded (suc k) (filter_node (some w) op group) v p s = record {
  lims = where_limits w;
  computed = refl;
  bounds = where_Bounds w v;
}
node-Bounded (suc k) (filter_node none op group) v p s =
    let n = filter_node none op group in
    let (m, e, w) = simplify-IsValid n v in
    let b =
      operator-Bounded (limits_within k) k m (is_operation-simplify n m e ∙ ap not p) w
        (simplify-PlannableOperands n m e) (le_trans (size-simplify n m e) s) (node-Bounded k) in
    record {
      lims = b.lims;
      computed = rw (e) b.computed;
      bounds = record {
        plain = b.bounds.plain;
        within = λ h q i. b.bounds.within h q (matches_node-simplify n m h e ∙ i);
      };
    }

-- The limits of a valid node return, and cover the time of every hit that the node matches, unless
-- the node is a condition under NOTs that cancel.
pub node_limits-Bounded : (n : FilterNode) → IsValid n → IsPlannable n → Bounded node_limits n
unfolding node_limits
node_limits-Bounded n v p =
    let b = node-Bounded (size n) n v p (omega arith) in
    record { lims = b.lims; computed = b.computed; bounds = b.bounds }

-- The limits of a node return and cover the time of a hit that the node matches, if the time is as
-- a store keeps it, every operation in the node has a known operator and an operand, the criteria
-- on the time have sound limits, and the node is no condition under NOTs that cancel.
pub node_limits-covers :
    (n : FilterNode) (h : Hit)
    → IsValid n
    → IsPlannable n
    → IsPlain h.time
    → matches_node n h ≡ done true
    → (lims : Limits Time) × (node_limits n ≡ done lims) × (covers lims h.time ≡ true)
node_limits-covers n h v p q m =
    let b = node_limits-Bounded n v p in (b.lims, b.computed, b.bounds.within h q m)
