-- ===== src/Owdb/Filter/Bounds.antt =====
-- The limits of an operation from those of its operands: the loops of TimeIndexLimits.
use jelly.Base.{◌≡◌, refl, ◌⊎◌, inl, inr, none, some, Bool, true, Run, done, arith, Bool-cases}
use jelly.Time.{Time, IsPlain, after}
use jelly.Owdb.Hit.{Hit}
use jelly.Owdb.Limits.{Limits, is_impossible, narrow, widen}
use jelly.Owdb.Limits.Laws.{
  PlainLimits, covers, impossible, covers-possible, covers-widen, widen-PlainLimits,
}
use jelly.Owdb.Filter.{FilterNode, Nodes, no_nodes, more_nodes, matches_node, any_match}
use jelly.Owdb.Filter.Plan.{narrow_rest, first_possible, widen_rest}

-- Limits that cover the time of every hit that a filter matches.
pub record Bounds (meaning : Hit → Run Bool) (lims : Limits Time) : Type 0 where
  pub plain : PlainLimits lims
  pub within : (h : Hit) → IsPlain h.time → meaning h ≡ done true → covers lims h.time ≡ true

-- A match of one of several operands is of the first or of the others.
pub any_match-cons :
    (n : FilterNode) (ns : Nodes) (h : Hit)
    → any_match (more_nodes n ns) h ≡ done true
    → (matches_node n h ≡ done true) ⊎ (any_match ns h ≡ done true)
unfolding any_match
any_match-cons n ns h e = ground arith

-- Nothing matches within impossible limits.
pub Bounds-impossible :
    {meaning : Hit → Run Bool} {lims : Limits Time}
    → Bounds meaning lims
    → is_impossible after lims ≡ true
    → (h : Hit) → IsPlain h.time
    → ¬ (meaning h ≡ done true)
unfolding impossible
Bounds-impossible b e h p m = cc (covers-possible h.time b.plain (b.within h p m) p.bare)

module _ (limits_of : FilterNode → Run (Limits Time)) where
  -- The limits of a node are computed, and bound it.
  pub record Bounded (n : FilterNode) : Type 0 where
    pub lims : Limits Time
    pub computed : limits_of n ≡ done lims
    pub bounds : Bounds (matches_node n) lims

  abbrev pub AllBounded : Nodes → Type 0
  AllBounded no_nodes = Unit {0}
  AllBounded (more_nodes n ns) = Bounded n × AllBounded ns

  pub narrow_rest_total :
      (lims : Limits Time) (ns : Nodes)
      → AllBounded ns
      → (r : Limits Time) × (narrow_rest limits_of lims ns ≡ done r)
  unfolding narrow_rest
  narrow_rest_total lims no_nodes b = (lims, refl)
  narrow_rest_total lims (more_nodes n ns) (b, bs) = elim (Bool-cases (is_impossible after lims)) [
    | inl e ↦ (lims, rw e)
    | inr e ↦ rw (e, b.computed) (narrow_rest_total (narrow after lims b.lims) ns bs)
  ]

  -- The limits that the last loop of an OR arrives at.
  pub record Widened (lims : Limits Time) (ns : Nodes) : Type 0 where
    pub result : Limits Time
    pub computed : widen_rest limits_of lims ns ≡ done result
    pub plain : PlainLimits result
    pub keeps : (t : Time) → t.monotonic ≡ none → covers lims t ≡ true → covers result t ≡ true
    pub adds : (h : Hit) → IsPlain h.time → any_match ns h ≡ done true → covers result h.time ≡ true

  pub widen_rest_bounds :
      (lims : Limits Time) (ns : Nodes) → PlainLimits lims → AllBounded ns → Widened lims ns
  unfolding widen_rest any_match
  widen_rest_bounds lims no_nodes p b = record {
    result = lims;
    computed = refl;
    plain = p;
    keeps = λ t m c. c;
    adds = λ h q m. cc;
  }
  widen_rest_bounds lims (more_nodes n ns) p (b, bs) =
      elim (Bool-cases (is_impossible after b.lims)) [
        | inl e ↦
            let rest = widen_rest_bounds lims ns p bs in
            record {
              result = rest.result;
              computed = rw (b.computed, e) rest.computed;
              plain = rest.plain;
              keeps = rest.keeps;
              adds = λ h q m. elim (any_match-cons n ns h m) [
                | inl hit ↦ absurd (Bounds-impossible b.bounds e h q hit)
                | inr later ↦ rest.adds h q later
              ];
            }
        | inr e ↦
            let rest =
              widen_rest_bounds (widen after lims b.lims) ns (widen-PlainLimits p b.bounds.plain)
                bs in
            let widened = covers-widen p b.bounds.plain in
            record {
              result = rest.result;
              computed = rw (b.computed, e) rest.computed;
              plain = rest.plain;
              keeps = λ t m c. rest.keeps t m (widened t m (inl c));
              adds = λ h q m. elim (any_match-cons n ns h m) [
                | inl hit ↦
                    rest.keeps h.time q.bare (widened h.time q.bare (inr (b.bounds.within h q hit)))
                | inr later ↦ rest.adds h q later
              ];
            }
      ]

  -- No operand has possible limits, or the first that has them is found.
  pub data Found (ns : Nodes) : Type 0 where
    nothing :
        first_possible limits_of ns ≡ done none
        → ((h : Hit) → IsPlain h.time → ¬ (any_match ns h ≡ done true))
        → Found ns
    first :
        (lims : Limits Time) (rest : Nodes)
        → first_possible limits_of ns ≡ done (some (lims, rest))
        → PlainLimits lims
        → AllBounded rest
        → ((h : Hit)
            → IsPlain h.time
            → any_match ns h ≡ done true
            → (covers lims h.time ≡ true) ⊎ (any_match rest h ≡ done true))
        → Found ns

  pub first_possible-Found : (ns : Nodes) → AllBounded ns → Found ns
  unfolding first_possible any_match
  first_possible-Found no_nodes b = nothing refl (λ h p m. cc m)
  first_possible-Found (more_nodes n ns) (b, bs) = elim (Bool-cases (is_impossible after b.lims)) [
    | inl e ↦ later e (first_possible-Found ns bs)
    | inr e ↦ first b.lims ns (rw (b.computed, e)) b.bounds.plain bs λ h p m.
        elim (any_match-cons n ns h m) [ inl hit ↦ inl (b.bounds.within h p hit) | inr m' ↦ inr m' ]
  ]
    where
      skip :
          is_impossible after b.lims ≡ true
          → (h : Hit) → IsPlain h.time
          → any_match (more_nodes n ns) h ≡ done true
          → any_match ns h ≡ done true
      skip e h p m = elim (any_match-cons n ns h m) [
        | inl hit ↦ absurd (Bounds-impossible b.bounds e h p hit)
        | inr m' ↦ m'
      ]

      later : is_impossible after b.lims ≡ true → Found ns → Found (more_nodes n ns)
      later e (nothing c none_match) =
          nothing (rw (b.computed, e) c) (λ h p m. none_match h p (skip e h p m))
      later e (first lims rest c p bs' f) =
          first lims rest (rw (b.computed, e) c) p bs' (λ h q m. f h q (skip e h q m))
