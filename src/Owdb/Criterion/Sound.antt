-- ===== src/Owdb/Criterion/Sound.antt =====
-- Which criteria on times have limits that are no narrower than what they match.
use jelly.Base.{
  ◌≡◌, refl, sym, ◌∙◌, some, Bool, true, Run, done, arith, ◌&&◌, ◌||◌, done-injective,
  some-injective,
}
use jelly.Time.{Time, after, before, same_time, IsPlain}
use jelly.Owdb.Limits.{unlimited}
use jelly.Owdb.Limits.Laws.{PlainLimits, covers}
use jelly.Owdb.Filter.{Criterion}
use jelly.Owdb.Filter.Validity.{SoundCriterion}
use jelly.Owdb.Criterion.{Go, does_not}
use jelly.Owdb.Criterion.Times.{
  key_time, total, equals_time, is_after, is_after_or_equals, is_before_or_equals, is_between_times,
  is_null_time,
}

sound_of :
    (c : Criterion Time) (f : Time → Bool)
    → c.meets ≡ some (total f)
    → PlainLimits c.est_limits
    → ((t : Time) → IsPlain t → f t ≡ true → covers c.est_limits t ≡ true)
    → SoundCriterion c
sound_of c f e p h = record {
  plain = p;
  no_narrower = λ meets t e' q m. h t q (done-injective (value meets t e' ∙ m));
}
  where
    value : (meets : Time → Run Bool) (t : Time) → c.meets ≡ some meets → done (f t) ≡ meets t
    value meets t e' = let same : total f ≡ meets = some-injective (sym e ∙ e') in λ i. same i t

-- No limits are no narrower than any.
unlimited-Sound : (c : Criterion Time) → c.est_limits ≡ unlimited → SoundCriterion c
unfolding covers
unlimited-Sound c e = record {
  plain = rw e (record { min_plain = tt; max_plain = tt });
  no_narrower = λ meets t e' q m. rw e;
}

module _ (go : Go) (t : Time) where
  equals_time-Sound : SoundCriterion (equals_time go t)
  unfolding equals_time covers
  equals_time-Sound =
      sound_of (equals_time go t) (λ v. same_time v (key_time t)) refl
        (record { min_plain = refl; max_plain = refl }) (λ v q e. ground arith)

  is_after-Sound : SoundCriterion (is_after go t)
  unfolding is_after covers
  is_after-Sound =
      sound_of (is_after go t) (λ v. after v (key_time t)) refl
        (record { min_plain = refl; max_plain = tt }) (λ v q e. ground arith)

  is_after_or_equals-Sound : SoundCriterion (is_after_or_equals go t)
  unfolding is_after_or_equals covers
  is_after_or_equals-Sound =
      sound_of (is_after_or_equals go t) (λ v. after v (key_time t) || same_time v (key_time t))
        refl (record { min_plain = refl; max_plain = tt }) (λ v q e. ground arith)

  is_before_or_equals-Sound : SoundCriterion (is_before_or_equals go t)
  unfolding is_before_or_equals covers
  is_before_or_equals-Sound =
      sound_of (is_before_or_equals go t) (λ v. before v (key_time t) || same_time v (key_time t))
        refl (record { min_plain = tt; max_plain = refl }) (λ v q e. ground arith)

  is_between_times-Sound : (end : Time) → SoundCriterion (is_between_times go t end)
  unfolding is_between_times covers
  is_between_times-Sound end =
      sound_of (is_between_times go t end)
        (λ v.
          (same_time v (key_time t) || after v (key_time t))
          && (same_time v (key_time end) || before v (key_time end)))
        refl (record { min_plain = refl; max_plain = refl }) (λ v q e. ground arith)

-- The criteria on times other than IsBefore, and DoesNot of any criterion, have limits that cover
-- every time that they match, of the times that a store keeps.
pub time_criteria-Sound :
    (go : Go) (t u : Time) (c : Criterion Time)
    → SoundCriterion (equals_time go t)
      × SoundCriterion (is_after go t)
      × SoundCriterion (is_after_or_equals go t)
      × SoundCriterion (is_before_or_equals go t)
      × SoundCriterion (is_between_times go t u)
      × SoundCriterion (is_null_time go)
      × SoundCriterion (does_not c)
unfolding is_null_time does_not
time_criteria-Sound go t u c = (
  equals_time-Sound go t,
  is_after-Sound go t,
  is_after_or_equals-Sound go t,
  is_before_or_equals-Sound go t,
  is_between_times-Sound go t u,
  unlimited-Sound (is_null_time go) refl,
  unlimited-Sound (does_not c) refl,
)
