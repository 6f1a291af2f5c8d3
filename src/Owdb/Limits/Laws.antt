-- ===== src/Owdb/Limits/Laws.antt =====
-- Narrowing and widening of limits on times, read as sets of instants.
use jelly.Base.{Option, none, some, Bool, true, false, ◌&&◌, arith, ◌≡◌, ◌⊎◌}
use jelly.Time.{Time, after, equal}
use jelly.Owdb.Limits.{Limits, is_impossible, contains, narrow, widen}

-- A bound, where there is one, has no monotonic reading.
abbrev pub PlainBound : Option Time → Type 0
PlainBound none = Unit {0}
PlainBound (some t) = t.monotonic ≡ none

pub record PlainLimits (lim : Limits Time) : Type 0 where
  pub min_plain : PlainBound lim.min
  pub max_plain : PlainBound lim.max

-- What the store asks of limits: `contains` with the methods of Time.
unfoldable pub covers : Limits Time → Time → Bool
unfolding contains
covers lim t = contains equal after lim t

unfoldable pub impossible : Limits Time → Bool
unfolding is_impossible
impossible lim = is_impossible after lim

module _ {lim other : Limits Time} (p : PlainLimits lim) (q : PlainLimits other) where
  -- Of possible limits whose bounds have no monotonic reading the narrowed ones cover exactly the
  -- times that both cover.
  pub covers-narrow :
      (t : Time)
      → impossible lim ≡ false
      → impossible other ≡ false
      → covers (narrow after lim other) t ≡ (covers lim t && covers other t)
  unfolding covers narrow impossible
  covers-narrow t h k = ground arith

-- Limits that cover a plain time are possible.
pub covers-possible :
    {lim : Limits Time} (t : Time)
    → PlainLimits lim
    → covers lim t ≡ true
    → t.monotonic ≡ none
    → impossible lim ≡ false
unfolding covers impossible
covers-possible t p c m = ground arith

module _ {lim other : Limits Time} (p : PlainLimits lim) (q : PlainLimits other) where
  -- Of limits whose bounds have no monotonic reading, possible or not, the widened ones cover
  -- every time without a monotonic reading that one of them covers.
  pub covers-widen :
      (t : Time)
      → t.monotonic ≡ none
      → (covers lim t ≡ true) ⊎ (covers other t ≡ true)
      → covers (widen after lim other) t ≡ true
  unfolding covers widen
  covers-widen t m h = ground arith

  pub widen-PlainLimits : PlainLimits (widen after lim other)
  unfolding widen
  widen-PlainLimits = ground arith

  pub narrow-PlainLimits : PlainLimits (narrow after lim other)
  unfolding narrow
  narrow-PlainLimits = ground arith

  -- Of possible limits none are made impossible by widening.
  pub impossible-widen :
      impossible lim ≡ false → impossible other ≡ false → impossible (widen after lim other) ≡ false
  unfolding impossible widen
  impossible-widen h k = ground arith

  -- Of limits whose bounds have no monotonic reading, narrowing possible ones by impossible ones
  -- gives possible limits that cover the times that the first do, while the impossible ones cover
  -- no time without a monotonic reading.
  narrow-impossible :
      (t : Time)
      → t.monotonic ≡ none
      → impossible lim ≡ false
      → impossible other ≡ true
      → (covers other t ≡ false)
        × (impossible (narrow after lim other) ≡ false)
        × (covers (narrow after lim other) t ≡ covers lim t)
  unfolding covers impossible narrow
  narrow-impossible t m h k = (ground arith, ground arith, ground arith)
