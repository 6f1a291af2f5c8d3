-- ===== src/Owdb/Filter/DoubleNot.antt =====
-- Which nodes simplify to a bare condition, and that simplification leaves none of these among the
-- operands that TimeIndexLimits looks at.
use jelly.Base.{
  ◌≡◌, refl, subst, none, some, Bool, true, false, not, Run, done, panics, starved, ◌>>=◌, ◌&&◌,
  done-injective, >>=-eq-done,
}
use jelly.Owdb.Filter.{
  FilterNode, Nodes, filter_node, no_nodes, more_nodes, op_and, op_or, op_not, undefined_op,
}
use jelly.Owdb.Filter.Plan.{simplify, simplify_all, is_operation}

-- A condition under an even number of NOTs, none at all included.
unfoldable pub reaches_condition : FilterNode → Bool
reaches_condition (filter_node (some w) op group) = true
reaches_condition
      (filter_node none op_not (more_nodes (filter_node none op_not (more_nodes n more)) rest)) =
    reaches_condition n
reaches_condition (filter_node none op group) = false

-- An operation that does not simplify to a condition, or no operation.
abbrev pub IsPlannable : FilterNode → Type 0
IsPlannable n = (is_operation n && reaches_condition n) ≡ false

abbrev pub AllPlannable : Nodes → Type 0
AllPlannable no_nodes = Unit {0}
AllPlannable (more_nodes n ns) = IsPlannable n × AllPlannable ns

-- The operands that the switch of TimeIndexLimits looks at.
abbrev pub PlannableOperands : FilterNode → Type 0
PlannableOperands (filter_node (some w) op group) = Unit {0}
PlannableOperands (filter_node none op_not group) = Unit {0}
PlannableOperands (filter_node none op_and group) = AllPlannable group
PlannableOperands (filter_node none op_or group) = AllPlannable group
PlannableOperands (filter_node none (undefined_op k) group) = AllPlannable group

-- What holds of every simplified node.
record Reduced (n m : FilterNode) : Type 0 where
  kind : is_operation m ≡ not (reaches_condition n)
  plannable : IsPlannable m
  operands : PlannableOperands m

via {ℓ} :
    {A : Type 0} (r : Run A) (f : A → FilterNode) (P : FilterNode → Type ℓ)
    → ((a : A) → r ≡ done a → P (f a))
    → (m : FilterNode) → (r >>= λ a. done (f a)) ≡ done m
    → P m
via (done a) f P keep m e = subst P (done-injective e) (keep a refl)
via panics f P keep m e = cc
via starved f P keep m e = cc

mutual
  unfolding simplify reaches_condition

  reduced : (n m : FilterNode) → simplify n ≡ done m → Reduced n m
  reduced (filter_node (some w) op group) m e =
      subst (Reduced (filter_node (some w) op group)) (done-injective e)
        (record { kind = refl; plannable = refl; operands = tt })
  reduced (filter_node none op_not no_nodes) m e = cc
  reduced (filter_node none op_not (more_nodes (filter_node none op_not no_nodes) rest)) m e = cc
  reduced (filter_node none op_not (more_nodes (filter_node none op_not (more_nodes n more)) rest))
        m e =
      let r = reduced n m e in
      record { kind = r.kind; plannable = r.plannable; operands = r.operands }
  reduced (filter_node none op_not (more_nodes (filter_node (some w) op group) rest)) m e =
      subst (Reduced _) (done-injective e) (record { kind = refl; plannable = refl; operands = tt })
  reduced (filter_node none op_not (more_nodes (filter_node none op group) rest)) m e =
      let (x, found, e') = >>=-eq-done (simplify (filter_node none op group)) _ e in
      let (ms, _, e'') = >>=-eq-done (simplify_all group) _ found in
      let n = filter_node none op_not (more_nodes (filter_node none op group) rest) in
      subst (Reduced n) (done-injective e') (
        subst (λ y. Reduced n (filter_node none op_not (more_nodes y no_nodes)))
          (done-injective e'') (record { kind = refl; plannable = refl; operands = tt }))
  reduced (filter_node none op_and group) m e =
      via (simplify_all group) _ (Reduced _)
        (λ a h. record { kind = refl; plannable = refl; operands = reduced_all group a h }) m e
  reduced (filter_node none op_or group) m e =
      via (simplify_all group) _ (Reduced _)
        (λ a h. record { kind = refl; plannable = refl; operands = reduced_all group a h }) m e
  reduced (filter_node none (undefined_op k) group) m e =
      via (simplify_all group) _ (Reduced _)
        (λ a h. record { kind = refl; plannable = refl; operands = reduced_all group a h }) m e

  reduced_all : (ns ms : Nodes) → simplify_all ns ≡ done ms → AllPlannable ms
  reduced_all no_nodes ms e = subst AllPlannable (done-injective e) tt
  reduced_all (more_nodes n ns) ms e =
      let (first, found, e') = >>=-eq-done (simplify n) _ e in
      let (others, rest, e'') = >>=-eq-done (simplify_all ns) _ e' in
      subst AllPlannable (done-injective e'')
        ((reduced n first found).plannable, reduced_all ns others rest)

-- The operands of a simplified node can be planned with.
pub simplify-PlannableOperands : (n m : FilterNode) → simplify n ≡ done m → PlannableOperands m
simplify-PlannableOperands n m e = (reduced n m e).operands

-- If a node can be simplified, the result is an operation unless the node is a condition under an
-- even number of NOTs, none included.
pub is_operation-simplify :
    (n m : FilterNode) → simplify n ≡ done m → is_operation m ≡ not (reaches_condition n)
is_operation-simplify n m e = (reduced n m e).kind
