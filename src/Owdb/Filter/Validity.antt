-- ===== src/Owdb/Filter/Validity.antt =====
-- The filters that a store can plan a query with, and that simplification keeps them so.
use jelly.Base.{◌≡◌, refl, ap, none, some, Run, done, ◌>>=◌}
use jelly.Time.{Time, IsPlain}
use jelly.Owdb.Limits.Laws.{PlainLimits, covers}
use jelly.Owdb.Filter.{
  Criterion, FilterNode, Nodes, filter_node, no_nodes, more_nodes, op_and, op_or, op_not,
  undefined_op,
}
use jelly.Base.{Bool, true}
use jelly.Owdb.Filter.Plan.{simplify, simplify_all}

-- What the documentation of Criterion asks of EstLimits: they are no narrower than what matches.
pub record SoundCriterion (c : Criterion Time) : Type 0 where
  pub plain : PlainLimits c.est_limits
  pub no_narrower :
      (meets : Time → Run Bool) (t : Time)
      → c.meets ≡ some meets
      → IsPlain t
      → meets t ≡ done true
      → covers c.est_limits t ≡ true

abbrev pub NonEmpty : Nodes → Type 0
NonEmpty no_nodes = ⊥
NonEmpty (more_nodes n rest) = Unit {0}

-- Every operation has a known operator and an operand, and every time criterion is sound.
unfoldable mutual
  pub IsValid : FilterNode → Type 0
  IsValid (filter_node (some w) op group) = SoundCriterion w.time
  IsValid (filter_node none op_and group) = NonEmpty group × AllValid group
  IsValid (filter_node none op_or group) = NonEmpty group × AllValid group
  IsValid (filter_node none op_not no_nodes) = ⊥
  IsValid (filter_node none op_not (more_nodes n rest)) = IsValid n
  IsValid (filter_node none (undefined_op k) group) = ⊥

  pub AllValid : Nodes → Type 0
  AllValid no_nodes = Unit {0}
  AllValid (more_nodes n rest) = IsValid n × AllValid rest

mutual
  unfolding IsValid simplify

  simplify_with_proof :
      (n : FilterNode) → IsValid n → (m : FilterNode) × (simplify n ≡ done m) × IsValid m
  simplify_with_proof (filter_node (some w) op group) v = (filter_node (some w) op group, refl, v)
  simplify_with_proof (filter_node none op_not no_nodes) v = absurd v
  simplify_with_proof (filter_node none op_not (more_nodes (filter_node none op_not no_nodes) rest))
        v =
      absurd v
  simplify_with_proof
        (filter_node none op_not (more_nodes (filter_node none op_not (more_nodes n more)) rest))
        v =
      simplify_with_proof n v
  simplify_with_proof (filter_node none op_not (more_nodes n rest)) v =
      let (m, e, w) = simplify_with_proof n v in
      (
        filter_node none op_not (more_nodes m no_nodes),
        ap (λ r. r >>= λ m. done (filter_node none op_not (more_nodes m no_nodes))) e,
        w,
      )
  simplify_with_proof (filter_node none op_and group) (some_node, v) =
      let (ms, e, w, keep) = simplify_all_with_proof group v in
      (filter_node none op_and ms, rw e, (keep some_node, w))
  simplify_with_proof (filter_node none op_or group) (some_node, v) =
      let (ms, e, w, keep) = simplify_all_with_proof group v in
      (filter_node none op_or ms, rw e, (keep some_node, w))
  simplify_with_proof (filter_node none (undefined_op k) group) v = absurd v

  simplify_all_with_proof :
      (ns : Nodes)
      → AllValid ns
      → (ms : Nodes) × (simplify_all ns ≡ done ms) × AllValid ms × (NonEmpty ns → NonEmpty ms)
  simplify_all_with_proof no_nodes v = (no_nodes, refl, tt, λ h. h)
  simplify_all_with_proof (more_nodes n ns) (v, vs) =
      let (m, e, w) = simplify_with_proof n v in
      let (ms, es, ws, keep) = simplify_all_with_proof ns vs in
      (more_nodes m ms, rw (e, es), (w, ws), λ h. tt)

-- Simplification of a valid node returns, and its result is valid.
pub simplify-IsValid :
    (n : FilterNode) → IsValid n → (m : FilterNode) × (simplify n ≡ done m) × IsValid m
simplify-IsValid n v = simplify_with_proof n v
