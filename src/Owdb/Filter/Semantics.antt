-- ===== src/Owdb/Filter/Semantics.antt =====
-- What the combined filters match, and two that match but cannot be planned with.
use jelly.Base.{
  ◌≡◌, refl, ap, List, [], ◌∷◌, none, Bool, true, false, not, ◌&&◌, ◌||◌, done, panics, ◌>>=◌,
}
use jelly.Owdb.Hit.{Hit}
use jelly.Owdb.Filter.{
  Where, filter_node, no_nodes, op_and, Filter, a_where, a_node, negate, conjoin, disjoin, matches,
  all_match, any_match, nodes_of, matches_node, node_of,
}
use jelly.Owdb.Filter.Plan.{time_index_limits, simplify, operator_limits}

-- Every filter of a list is defined on the hit, with these results.
abbrev pub Results : List Filter → Hit → List Bool → Type 0
Results [] h [] = Unit {0}
Results [] h (b ∷ bs) = ⊥
Results (f ∷ fs) h [] = ⊥
Results (f ∷ fs) h (b ∷ bs) = (matches f h ≡ done b) × Results fs h bs

abbrev pub conjunction : List Bool → Bool
conjunction [] = true
conjunction (b ∷ bs) = b && conjunction bs

abbrev pub disjunction : List Bool → Bool
disjunction [] = false
disjunction (b ∷ bs) = b || disjunction bs

-- A filter and its node match alike.
pub matches-node_of : (f : Filter) (h : Hit) → matches_node (node_of f) h ≡ matches f h
unfolding matches node_of
matches-node_of (a_where w) h = refl
matches-node_of (a_node n) h = refl

all_match-nodes_of :
    (fs : List Filter) (h : Hit) (bs : List Bool)
    → Results fs h bs
    → all_match (nodes_of fs) h ≡ done (conjunction bs)
unfolding all_match nodes_of
all_match-nodes_of [] h [] r = refl
all_match-nodes_of [] h (b ∷ bs) r = absurd r
all_match-nodes_of (f ∷ fs) h [] r = absurd r
all_match-nodes_of (f ∷ fs) h (true ∷ bs) (e, r) =
    rw (matches-node_of f h, e) (all_match-nodes_of fs h bs r)
all_match-nodes_of (f ∷ fs) h (false ∷ bs) (e, r) = rw (matches-node_of f h, e)

any_match-nodes_of :
    (fs : List Filter) (h : Hit) (bs : List Bool)
    → Results fs h bs
    → any_match (nodes_of fs) h ≡ done (disjunction bs)
unfolding any_match nodes_of
any_match-nodes_of [] h [] r = refl
any_match-nodes_of [] h (b ∷ bs) r = absurd r
any_match-nodes_of (f ∷ fs) h [] r = absurd r
any_match-nodes_of (f ∷ fs) h (true ∷ bs) (e, r) = rw (matches-node_of f h, e)
any_match-nodes_of (f ∷ fs) h (false ∷ bs) (e, r) =
    rw (matches-node_of f h, e) (any_match-nodes_of fs h bs r)

-- And matches the hits that the filter and all the others match, and Or those that one of them
-- does, if none of them panics on the hit.
matches-combined :
    (f g : Filter) (fs : List Filter) (h : Hit) (b c : Bool) (bs : List Bool)
    → Results (f ∷ g ∷ fs) h (b ∷ c ∷ bs)
    → (matches (a_node (conjoin f g fs)) h ≡ done (conjunction (b ∷ c ∷ bs)))
      × (matches (a_node (disjoin f g fs)) h ≡ done (disjunction (b ∷ c ∷ bs)))
unfolding matches conjoin disjoin
matches-combined f g fs h b c bs r = (
  all_match-nodes_of (f ∷ g ∷ fs) h (b ∷ c ∷ bs) r,
  any_match-nodes_of (f ∷ g ∷ fs) h (b ∷ c ∷ bs) r,
)

-- Negate matches the hits that the filter does not, and panics where the filter does.
pub matches-negate :
    (f : Filter) (h : Hit) → matches (a_node (negate f)) h ≡ (matches f h >>= λ b. done (not b))
unfolding matches negate
matches-negate f h = rw (matches-node_of f h)

not-not : (b : Bool) → not (not b) ≡ b
not-not true = refl
not-not false = refl

-- A double negation of a Where matches what the Where does, on every hit on which that does not
-- panic, but its limits panic: the switch of TimeIndexLimits takes the simplified node, a condition,
-- for an AND without operands.
pub time_index_limits-negate-negate :
    (w : Where) (h : Hit) (b : Bool)
    → matches (a_where w) h ≡ done b
    → (time_index_limits (a_node (negate (a_node (negate (a_where w))))) ≡ panics)
      × (matches (a_node (negate (a_node (negate (a_where w))))) h ≡ done b)
unfolding time_index_limits negate simplify operator_limits
time_index_limits-negate-negate w h b e = (
  refl,
  rw (matches-negate (a_node (negate (a_where w))) h, matches-negate (a_where w) h, e)
      (ap done (not-not b)),
)

-- The zero value of FilterNode matches every hit, and its limits panic.
time_index_limits-zero :
    (h : Hit)
    → (time_index_limits (a_node (filter_node none op_and no_nodes)) ≡ panics)
      × (matches (a_node (filter_node none op_and no_nodes)) h ≡ done true)
unfolding time_index_limits matches simplify operator_limits
time_index_limits-zero h = (refl, refl)
