-- ===== src/Owdb/Filter/Simplify.antt =====
-- Simplify of db/owdb/where.go keeps what a node matches, and does not grow it.
use jelly.Base.{
  ℕ, ◌≤◌, ◌≡◌, refl, sym, ◌∙◌, none, some, Bool, true, false, Run, done, panics, starved, ◌>>=◌,
  done-injective, >>=-eq-done, arith, subst,
}
use jelly.Owdb.Hit.{Hit}
use jelly.Owdb.Filter.{
  FilterNode, Nodes, filter_node, no_nodes, more_nodes, op_and, op_or, op_not, undefined_op,
  matches_node, all_match, any_match, negated,
}
use jelly.Owdb.Filter.Plan.{simplify, simplify_all, size, size_all}

negated-negated : (r : Run Bool) → negated (negated r) ≡ r
negated-negated (done true) = refl
negated-negated (done false) = refl
negated-negated panics = refl
negated-negated starved = refl

-- What simplification keeps of a node, and of the operands of one.
record SameNode (m n : FilterNode) : Type 0 where
  same : (h : Hit) → matches_node m h ≡ matches_node n h
  le : size m ≤ size n

record SameNodes (ms ns : Nodes) : Type 0 where
  same_all : (h : Hit) → all_match ms h ≡ all_match ns h
  same_any : (h : Hit) → any_match ms h ≡ any_match ns h
  le_all : size_all ms ≤ size_all ns

SameNodes-cons :
    {m n : FilterNode} {ms ns : Nodes}
    → SameNode m n
    → SameNodes ms ns
    → SameNodes (more_nodes m ms) (more_nodes n ns)
unfolding matches_node size
SameNodes-cons s t = record {
  same_all = λ h. rw (s.same h, t.same_all h);
  same_any = λ h. rw (s.same h, t.same_any h);
  le_all = omega arith;
}

SameNode-not :
    {m n : FilterNode} (rest : Nodes)
    → SameNode m n
    → SameNode
        (filter_node none op_not (more_nodes m no_nodes))
        (filter_node none op_not (more_nodes n rest))
unfolding matches_node size
SameNode-not rest s = record { same = λ h. rw (s.same h); le = omega arith }

SameNode-double_not :
    {m n : FilterNode} (more rest : Nodes)
    → SameNode m n
    → SameNode m
        (filter_node none op_not (more_nodes (filter_node none op_not (more_nodes n more)) rest))
unfolding matches_node size
SameNode-double_not more rest s = record {
  same = λ h. s.same h ∙ sym (negated-negated _);
  le = omega arith;
}

SameNode-and :
    {ms ns : Nodes}
    → SameNodes ms ns
    → SameNode (filter_node none op_and ms) (filter_node none op_and ns)
unfolding matches_node size
SameNode-and s = record { same = s.same_all; le = omega arith }

SameNode-or :
    {ms ns : Nodes}
    → SameNodes ms ns
    → SameNode (filter_node none op_or ms) (filter_node none op_or ns)
unfolding matches_node size
SameNode-or s = record { same = s.same_any; le = omega arith }

SameNode-undefined :
    (k : ℕ) {ms ns : Nodes}
    → SameNodes ms ns
    → SameNode (filter_node none (undefined_op k) ms) (filter_node none (undefined_op k) ns)
unfolding matches_node size
SameNode-undefined k s = record { same = λ h. refl; le = omega arith }

SameNode-refl : (n : FilterNode) → SameNode n n
SameNode-refl n = record { same = λ h. refl; le = omega arith }

-- A node that was built from a simplified part.
built :
    {A : Type 0} (r : Run A) (f : A → FilterNode) (n : FilterNode)
    → ((a : A) → r ≡ done a → SameNode (f a) n)
    → {m : FilterNode} → (r >>= λ a. done (f a)) ≡ done m
    → SameNode m n
built (done a) f n keep e = subst (λ m. SameNode m n) (done-injective e) (keep a refl)
built panics f n keep e = cc
built starved f n keep e = cc

mutual
  unfolding simplify

  simplify_same : (n : FilterNode) (m : FilterNode) → simplify n ≡ done m → SameNode m n
  simplify_same (filter_node (some w) op group) m e =
      subst (λ m. SameNode m (filter_node (some w) op group)) (done-injective e) (SameNode-refl _)
  simplify_same (filter_node none op_not no_nodes) m e = cc
  simplify_same (filter_node none op_not (more_nodes (filter_node none op_not no_nodes) rest)) m e =
      cc
  simplify_same
        (filter_node none op_not (more_nodes (filter_node none op_not (more_nodes n more)) rest)) m
        e =
      SameNode-double_not more rest (simplify_same n m e)
  simplify_same (filter_node none op_not (more_nodes n rest)) m e =
      built (simplify n) _ _ (λ a h. SameNode-not rest (simplify_same n a h)) e
  simplify_same (filter_node none op_and group) m e =
      built (simplify_all group) _ _ (λ a h. SameNode-and (simplify_all_same group a h)) e
  simplify_same (filter_node none op_or group) m e =
      built (simplify_all group) _ _ (λ a h. SameNode-or (simplify_all_same group a h)) e
  simplify_same (filter_node none (undefined_op k) group) m e =
      built (simplify_all group) _ _ (λ a h. SameNode-undefined k (simplify_all_same group a h)) e

  simplify_all_same : (ns : Nodes) (ms : Nodes) → simplify_all ns ≡ done ms → SameNodes ms ns
  simplify_all_same no_nodes ms e =
      subst (λ ms. SameNodes ms no_nodes) (done-injective e)
        (record { same_all = λ h. refl; same_any = λ h. refl; le_all = omega arith })
  simplify_all_same (more_nodes n ns) ms e =
      let (first, found, e') = >>=-eq-done (simplify n) _ e in
      let (others, rest, e'') = >>=-eq-done (simplify_all ns) _ e' in
      subst (λ ms. SameNodes ms (more_nodes n ns)) (done-injective e'')
        (SameNodes-cons (simplify_same n first found) (simplify_all_same ns others rest))

-- If a node can be simplified, the simplified node matches every hit as the node does, with the
-- same result, true, false or a panic.
pub matches_node-simplify :
    (n m : FilterNode) (h : Hit) → simplify n ≡ done m → matches_node m h ≡ matches_node n h
matches_node-simplify n m h e = (simplify_same n m e).same h

-- A simplified node is no larger.
pub size-simplify : (n m : FilterNode) → simplify n ≡ done m → size m ≤ size n
size-simplify n m e = (simplify_same n m e).le
