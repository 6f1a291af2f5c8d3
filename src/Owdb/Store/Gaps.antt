-- ===== src/Owdb/Store/Gaps.antt =====
-- One round of the loops of Delete: the hits at the head of the list that are deleted are skipped.
use jelly.Base.{
  ℕ, zero, suc, ◌+◌, ◌≤◌, ◌<◌, ◌≡◌, refl, ap, ◌∙◌, ◌⊎◌, inl, inr, List, [], ◌∷◌, ◌++◌, Bool, true,
  false, not, done, read, write, read_middle, if◌then◌else◌, length, length-append, length-snoc,
  append_snoc, Bool-cases, ltb, ◌≢◌, arith, keep,
}
use mathlib.Core.List.{append-nil}
use jelly.Owdb.Hit.{Hit}
use jelly.Owdb.Store.{next_shift, compact}
use jelly.Owdb.Store.Scan.{positions}

module _ (fuel : ℕ) (before : List ℕ) where
  next_shift_end : (i : ℕ) → next_shift (suc fuel) before i (length before) ≡ done (length before)
  unfolding next_shift
  next_shift_end i = ground arith

  module _ (v : ℕ) (vs : List ℕ) (i : ℕ) where
    inside : ltb (length before) (length (before ++ v ∷ vs)) ≡ true
    inside = ground (arith, length-append before (v ∷ vs))

    next_shift_more :
        v ≡ i + length before
        → next_shift (suc fuel) (before ++ v ∷ vs) i (length before)
          ≡ next_shift fuel (before ++ v ∷ vs) i (suc (length before))
    unfolding next_shift
    next_shift_more e = rw (inside, read_middle before v vs) (ground arith)

    next_shift_stop :
        v ≢ i + length before
        → next_shift (suc fuel) (before ++ v ∷ vs) i (length before) ≡ done (length before)
    unfolding next_shift
    next_shift_stop e = rw (inside, read_middle before v vs) (ground arith)

module _ (fuel : ℕ) (to_del : List ℕ) (i shift : ℕ) (hits : List Hit) where
  pub compact_end : length hits ≤ i + shift → compact (suc fuel) to_del i shift hits ≡ done hits
  unfolding compact
  compact_end h = ground arith

  module _ (shift' : ℕ) (more : i + shift < length hits)
      (shifted : next_shift (suc (length to_del)) to_del i shift ≡ done shift') where
    pub compact_last : length hits ≤ i + shift' → compact (suc fuel) to_del i shift hits ≡ done hits
    unfolding compact
    compact_last h = ground arith

    pub compact_move :
        (x : Hit) (hits' : List Hit)
        → i + shift' < length hits
        → read hits (i + shift') ≡ done x
        → write hits i x ≡ done hits'
        → compact (suc fuel) to_del i shift hits ≡ compact fuel to_del (suc i) shift' hits'
    unfolding compact
    compact_move x hits' h r w = ground arith

module _ (p : Hit → Bool) where
  -- How many hits at the head of a list pass.
  pub lead : List Hit → ℕ
  lead [] = 0
  lead (h ∷ hs) = if p h then suc (lead hs) else 0

  -- The hits that pass at the head of a list, and what follows them.
  pub record Leading (j : ℕ) (hs : List Hit) : Type 0 where
    pub passing : List Hit
    pub others : List Hit
    pub ids : List ℕ
    pub size : length passing ≡ lead hs
    pub whole : hs ≡ passing ++ others
    pub places : positions p j hs ≡ ids ++ positions p (j + length passing) others
    pub counted : length ids ≡ length passing
    pub kept : keep (λ h. not (p h)) hs ≡ keep (λ h. not (p h)) others
    pub stops :
        (others ≡ []) ⊎ ((h : Hit) × (rest : List Hit) × (others ≡ h ∷ rest) × (p h ≡ false))

  pub leading : (j : ℕ) (hs : List Hit) → Leading j hs
  unfolding lead
  leading j [] = record {
    passing = [];
    others = [];
    ids = [];
    size = refl;
    whole = refl;
    places = refl;
    counted = refl;
    kept = refl;
    stops = inl refl;
  }
  leading j (h ∷ hs) = elim (Bool-cases (p h)) [
    | inl e ↦
        let r = leading (suc j) hs in
        let same : suc j + length r.passing ≡ j + suc (length r.passing) = omega arith in
        record {
          passing = h ∷ r.passing;
          others = r.others;
          ids = j ∷ r.ids;
          size = rw (e, r.size);
          whole = ap (◌∷◌ h) r.whole;
          places = rw (e, r.places, same);
          counted = ap suc r.counted;
          kept = rw e r.kept;
          stops = r.stops;
        }
    | inr e ↦ record {
      passing = [];
      others = h ∷ hs;
      ids = [];
      size = rw e;
      whole = refl;
      places = ap (λ n. positions p n (h ∷ hs)) (omega arith);
      counted = refl;
      kept = refl;
      stops = inr (h, hs, refl, e);
    }
  ]

  positions_head :
      (j : ℕ) (hs : List Hit)
      → (positions p j hs ≡ []) ⊎ ((v : ℕ) × (vs : List ℕ) × (positions p j hs ≡ v ∷ vs) × (j ≤ v))
  positions_head j [] = inl refl
  positions_head j (h ∷ hs) = elim (Bool-cases (p h)) [
    | inl e ↦ inr (j, positions p (suc j) hs, rw e, omega arith)
    | inr e ↦ elim (positions_head (suc j) hs) [
      | inl n ↦ inl (rw e n)
      | inr (v, vs, q, le) ↦ inr (v, vs, rw e q, omega arith)
    ]
  ]

  pub next_shift-lead :
      (fuel : ℕ) (before : List ℕ) (i j : ℕ) (hs : List Hit)
      → j ≡ i + length before
      → length (positions p j hs) < fuel
      → next_shift fuel (before ++ positions p j hs) i (length before)
        ≡ done (length before + lead hs)
  unfolding lead
  next_shift-lead zero before i j hs e f = absurd (omega arith)
  next_shift-lead (suc fuel) before i j [] e f =
      rw (append-nil before, next_shift_end fuel before i) (ap done (omega arith))
  next_shift-lead (suc fuel) before i j (h ∷ hs) e f = elim (Bool-cases (p h)) [
    | inl q ↦
        let f' = rw q at f in
        let rest : length (positions p (suc j) hs) < fuel = omega arith in
        let next =
          next_shift-lead fuel (before ++ j ∷ []) i (suc j) hs (omega (arith, length-snoc before j))
            rest in
        rw (q, next_shift_more fuel before j (positions p (suc j) hs) i e)
          ((rw (append_snoc before j (positions p (suc j) hs), length-snoc before j) at next)
            ∙ ap done (omega arith))
    | inr q ↦ rw q (elim (positions_head (suc j) hs) [
      | inl n ↦ rw (n, append-nil before, next_shift_end fuel before i) (ap done (omega arith))
      | inr (v, vs, n, le) ↦
          rw (n, next_shift_stop fuel before v vs i (λ d. omega arith)) (ap done (omega arith))
    ])
  ]
