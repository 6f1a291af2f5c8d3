-- ===== src/Owdb/Filter/Plan.antt =====
-- What a filter says of the indexed field, the time, for the planning of a query: Simplify and
-- TimeIndexLimits of db/owdb/where.go. The recursion of TimeIndexLimits is on fuel.
use jelly.Base.{
  ℕ, zero, suc, ◌+◌, Option, none, some, Bool, true, false, Run, done, panics, starved, ◌>>=◌, ◌>>◌,
  if◌then◌else◌,
}
use jelly.Time.{Time, after}
use jelly.Owdb.Limits.{Limits, unlimited, is_impossible, narrow, widen}
use jelly.Owdb.Filter.{
  Where, op_and, op_or, op_not, undefined_op, FilterNode, Nodes, filter_node, no_nodes, more_nodes,
  Filter, a_where, a_node,
}

unfoldable mutual
  pub simplify : FilterNode → Run FilterNode
  simplify (filter_node (some w) op group) = done (filter_node (some w) op group)
  simplify (filter_node none op_not no_nodes) = panics
  simplify (filter_node none op_not (more_nodes (filter_node none op_not no_nodes) rest)) = panics
  simplify
        (filter_node none op_not
          (more_nodes (filter_node none op_not (more_nodes target more)) rest)) =
      simplify target
  simplify (filter_node none op_not (more_nodes n rest)) =
      simplify n >>= λ m. done (filter_node none op_not (more_nodes m no_nodes))
  simplify (filter_node none op group) = simplify_all group >>= λ ms. done (filter_node none op ms)

  pub simplify_all : Nodes → Run Nodes
  simplify_all no_nodes = done no_nodes
  simplify_all (more_nodes n rest) =
      simplify n >>= λ m. simplify_all rest >>= λ ms. done (more_nodes m ms)

-- `IsOperation()`
abbrev pub is_operation : FilterNode → Bool
is_operation (filter_node none op group) = true
is_operation (filter_node (some w) op group) = false

-- `TimeIndexLimits` of a Where: its `set` is false when the only criterion is looked at.
unfoldable pub where_limits : Where → Limits Time
where_limits w = elim w.time.meets [ none ↦ unlimited | some meets ↦ w.time.est_limits ]

module _ (limits_of : FilterNode → Run (Limits Time)) where
  -- The loop over the operands of an AND after the first, which ends at impossible limits.
  unfoldable pub narrow_rest : Limits Time → Nodes → Run (Limits Time)
  narrow_rest lims no_nodes = done lims
  narrow_rest lims (more_nodes n rest) =
      if is_impossible after lims
      then done lims
      else limits_of n >>= λ child. narrow_rest (narrow after lims child) rest

  -- The first operand of an OR with possible limits: these, and the operands after it.
  unfoldable pub first_possible : Nodes → Run (Option (Limits Time × Nodes))
  first_possible no_nodes = done none
  first_possible (more_nodes n rest) = limits_of n >>= λ child.
      if is_impossible after child then first_possible rest else done (some (child, rest))

  -- The loop over the operands after that one.
  unfoldable pub widen_rest : Limits Time → Nodes → Run (Limits Time)
  widen_rest lims no_nodes = done lims
  widen_rest lims (more_nodes n rest) = limits_of n >>= λ child.
      widen_rest (if is_impossible after child then lims else widen after lims child) rest

  -- `n.Group[0].TimeIndexLimits()`
  unfoldable pub head_limits : Nodes → Run (Limits Time)
  head_limits no_nodes = panics
  head_limits (more_nodes n rest) = limits_of n

  -- The switch on the operator. The limits that an AND computes go out of scope unused.
  unfoldable pub operator_limits : FilterNode → Run (Limits Time)
  unfolding narrow_rest first_possible widen_rest head_limits
  operator_limits (filter_node cond op_not group) = done unlimited
  operator_limits (filter_node cond op_and no_nodes) = panics
  operator_limits (filter_node cond op_and (more_nodes n rest)) = do
    lims ← limits_of n
    narrow_rest lims rest
    done unlimited
  operator_limits (filter_node cond op_or group) = first_possible group >>= λ found. elim found [
    | none ↦ head_limits group
    | some (lims, rest) ↦ widen_rest lims rest
  ]
  operator_limits (filter_node cond (undefined_op k) group) = panics

-- `TimeIndexLimits` of a node, with calls nested at most so deep.
unfoldable pub limits_within : ℕ → FilterNode → Run (Limits Time)
limits_within zero n = starved
limits_within (suc k) (filter_node (some w) op group) = done (where_limits w)
limits_within (suc k) (filter_node none op group) =
    simplify (filter_node none op group) >>= operator_limits (limits_within k)

unfoldable mutual
  pub size : FilterNode → ℕ
  size (filter_node cond op group) = suc (size_all group)

  pub size_all : Nodes → ℕ
  size_all no_nodes = 0
  size_all (more_nodes n rest) = size n + size_all rest

-- `TimeIndexLimits` of a node. The operands of a simplified node are smaller than it.
unfoldable pub node_limits : FilterNode → Run (Limits Time)
unfolding limits_within size
node_limits n = limits_within (size n) n

-- `TimeIndexLimits` of the interface.
unfoldable pub time_index_limits : Filter → Run (Limits Time)
unfolding where_limits node_limits
time_index_limits (a_where w) = done (where_limits w)
time_index_limits (a_node n) = node_limits n
