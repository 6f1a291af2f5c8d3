-- ===== src/Owdb/Criterion/Opposites.antt =====
-- DoesNot against the criteria for the opposite tests.
use jelly.Base.{
  ◌≡◌, refl, sym, ap, ◌∙◌, Bool, true, false, not, Bytes, done, bytes_lt, bytes_le-eq-not-bytes_lt,
}
use jelly.Owdb.Criterion.{Go, Same, does_not}
use jelly.Owdb.Criterion.Strings.{
  collates_after, collates_after_or_equals, collates_before, collates_before_or_equals,
}

not-not : (b : Bool) → not (not b) ≡ b
not-not true = refl
not-not false = refl

-- DoesNot of each of the four orders on strings prints as the opposite order does, as it is and
-- negated, and gives the same result on every string.
string_orders-opposite :
    (go : Go) (s : Bytes)
    → Same (does_not (collates_after go s)) (collates_before_or_equals go s)
      × Same (does_not (collates_before go s)) (collates_after_or_equals go s)
      × Same (does_not (collates_after_or_equals go s)) (collates_before go s)
      × Same (does_not (collates_before_or_equals go s)) (collates_after go s)
unfolding does_not collates_after collates_after_or_equals collates_before collates_before_or_equals
string_orders-opposite go s =
    let opposite = λ (a b : Bytes). ap done (bytes_le-eq-not-bytes_lt a b) in
    let doubly =
      λ (a b : Bytes). ap done (ap not (bytes_le-eq-not-bytes_lt a b) ∙ not-not (bytes_lt b a)) in
    (
      record { prints = refl; prints_negated = refl; meets = λ v. sym (opposite v s) },
      record { prints = refl; prints_negated = refl; meets = λ v. sym (opposite s v) },
      record { prints = refl; prints_negated = refl; meets = λ v. doubly s v },
      record { prints = refl; prints_negated = refl; meets = λ v. doubly v s },
    )
