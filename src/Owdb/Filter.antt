-- ===== src/Owdb/Filter.antt =====
-- Criterion, Where, FilterNode and Filter of db/owdb/where.go and criterion.go: the conditions on
-- hits, and how they match.
pub mod Plan
pub mod Simplify
pub mod Validity
pub mod Semantics
pub mod Planning
pub mod DoubleNot
pub mod Bounds
use jelly.Base.{
  ℕ, List, [], ◌∷◌, Option, none, some, Bool, true, false, not, Bytes, Run, done, panics, ◌>>=◌,
  if◌then◌else◌,
}
use jelly.Time.{Time}
use jelly.Owdb.Limits.{Limits}
use jelly.Owdb.Hit.{Hit, Ip}

-- A check of one property. `meets` may be nil, and may panic.
pub record Criterion (E : Type 0) : Type 0 where
  pub meets : Option (E → Run Bool)
  pub format : Bytes
  pub not_format : Bytes
  pub est_limits : Limits E

pub record Where : Type 0 where
  pub time : Criterion Time
  pub host : Criterion Bytes
  pub resource : Criterion Bytes
  pub client_address : Criterion Ip
  pub client_country : Criterion Bytes
  pub client_city : Criterion Bytes

-- An Operator is an int; three of them have a meaning.
pub data Operator : Type 0 where
  op_and op_or op_not : Operator
  undefined_op : ℕ → Operator

-- A node: its condition, if it has one, its operator and its operands.
mutual
  pub data FilterNode : Type 0 where
    filter_node : Option Where → Operator → Nodes → FilterNode

  pub data Nodes : Type 0 where
    no_nodes : Nodes
    more_nodes : FilterNode → Nodes → Nodes

-- One `if w.X.Meets != nil { if !w.X.Meets(v) { return false } }` of Where.Matches, and the rest.
unfoldable pub check : {E : Type 0} → Option (E → Run Bool) → E → Run Bool → Run Bool
check none v rest = rest
check (some meets) v rest = do ok ← meets v; if not ok then done false else rest

unfoldable pub matches_where : Where → Hit → Run Bool
unfolding check
matches_where w h = check w.time.meets h.time (
    check w.host.meets h.host (
      check w.resource.meets h.resource (
        check w.client_address.meets h.client.address (
          check w.client_city.meets h.client.city
            (check w.client_country.meets h.client.country (done true))))))

-- Go's `!b` on the result of a call.
abbrev pub negated : Run Bool → Run Bool
negated r = r >>= λ b. done (not b)

-- `Matches` of a node; the loops over the operands stop at the first that decides.
unfoldable mutual
  pub matches_node : FilterNode → Hit → Run Bool
  matches_node (filter_node (some w) op group) h = matches_where w h
  matches_node (filter_node none op_and group) h = all_match group h
  matches_node (filter_node none op_or group) h = any_match group h
  matches_node (filter_node none op_not no_nodes) h = done false
  matches_node (filter_node none op_not (more_nodes n rest)) h = negated (matches_node n h)
  matches_node (filter_node none (undefined_op k) group) h = panics

  pub all_match : Nodes → Hit → Run Bool
  all_match no_nodes h = done true
  all_match (more_nodes n rest) h =
      matches_node n h >>= λ ok. if not ok then done false else all_match rest h

  pub any_match : Nodes → Hit → Run Bool
  any_match no_nodes h = done false
  any_match (more_nodes n rest) h =
      matches_node n h >>= λ ok. if ok then done true else any_match rest h

-- The two implementations of the interface Filter.
pub data Filter : Type 0 where
  a_where : Where → Filter
  a_node : FilterNode → Filter

-- `Node()`
unfoldable pub node_of : Filter → FilterNode
node_of (a_where w) = filter_node (some w) op_and no_nodes
node_of (a_node n) = n

nodes_of : List Filter → Nodes
nodes_of [] = no_nodes
nodes_of (f ∷ fs) = more_nodes (node_of f) (nodes_of fs)

-- `And`, `Or` and `Negate`; both implementations of Filter have the same text.
unfoldable pub conjoin : Filter → Filter → List Filter → FilterNode
unfolding nodes_of node_of
conjoin f clause clauses =
    filter_node none op_and
      (more_nodes (node_of f) (more_nodes (node_of clause) (nodes_of clauses)))

unfoldable pub disjoin : Filter → Filter → List Filter → FilterNode
unfolding nodes_of node_of
disjoin f clause clauses =
    filter_node none op_or (more_nodes (node_of f) (more_nodes (node_of clause) (nodes_of clauses)))

unfoldable pub negate : Filter → FilterNode
unfolding node_of
negate f = filter_node none op_not (more_nodes (node_of f) no_nodes)

-- `Matches` of the interface.
unfoldable pub matches : Filter → Hit → Run Bool
unfolding matches_where matches_node
matches (a_where w) h = matches_where w h
matches (a_node n) h = matches_node n h
