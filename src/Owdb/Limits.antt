-- ===== src/Owdb/Limits.antt =====
-- Limits of db/owdb/where.go: an interval with optional bounds, over any type with a test for
-- equality and one for greater than.
pub mod Laws
use jelly.Base.{Option, none, some, Bool, true, false, ◌&&◌, ◌||◌, if◌then◌else◌}

pub record Limits {ℓ} (E : Type ℓ) : Type ℓ where
  pub min : Option E
  pub max : Option E

module _ {ℓ} {E : Type ℓ} where
  -- `Limits[E]{}`
  abbrev pub unlimited : Limits E
  unlimited = record { min = none; max = none }

  unfoldable pub is_impossible : (E → E → Bool) → Limits E → Bool
  is_impossible gt lim = elim lim.min [
    | none ↦ false
    | some low ↦ elim lim.max [ none ↦ false | some high ↦ gt low high ]
  ]

  unfoldable pub contains : (eq gt : E → E → Bool) → Limits E → E → Bool
  contains eq gt lim pt =
      (elim lim.min [ none ↦ true | some low ↦ eq pt low || gt pt low ])
      && (elim lim.max [ none ↦ true | some high ↦ eq pt high || gt high pt ])

  -- The test of Narrow's two updates: the other bound is there, and `beyond` holds of it.
  replaces : (E → Bool) → Option E → Bool
  replaces beyond none = false
  replaces beyond (some b) = beyond b

  unfoldable pub narrow : (E → E → Bool) → Limits E → Limits E → Limits E
  unfolding replaces is_impossible
  narrow gt lim other = if is_impossible gt lim || is_impossible gt other then lim else record {
    min = elim lim.min [
      | none ↦ other.min
      | some low ↦ if replaces (λ b. gt b low) other.min then other.min else some low
    ];
    max = elim lim.max [
      | none ↦ other.max
      | some high ↦ if replaces (λ b. gt high b) other.max then other.max else some high
    ];
  }

  -- The test of Widen's two updates: the other bound is absent, or `beyond` holds of it.
  absorbs : (E → Bool) → Option E → Bool
  absorbs beyond none = true
  absorbs beyond (some b) = beyond b

  unfoldable pub widen : (E → E → Bool) → Limits E → Limits E → Limits E
  unfolding absorbs is_impossible
  widen gt lim other =
      if is_impossible gt lim then other else if is_impossible gt other then lim else record {
        min = elim lim.min [
          | none ↦ none
          | some low ↦ if absorbs (λ b. gt low b) other.min then other.min else some low
        ];
        max = elim lim.max [
          | none ↦ none
          | some high ↦ if absorbs (λ b. gt b high) other.max then other.max else some high
        ];
      }
