-- ===== src/Owdb/Store/Scan.antt =====
-- applyFilter selects the ids of exactly the hits that match, in order.
use jelly.Base.{
  ℕ, zero, suc, ◌+◌, ◌-◌, ◌≤◌, ◌≡◌, refl, sym, ap, ◌∙◌, List, [], ◌∷◌, ◌++◌, Option, none, some,
  Bool, true, false, Run, done, read_middle, if◌then◌else◌, length, length-append, length-snoc,
  append_snoc, take, All, Bool-cases, inl, inr, arith,
}
use mathlib.Core.List.{append-nil, append_assoc}
use jelly.Time.{Time, after, equal}
use jelly.Owdb.Limits.{Limits, contains}
use jelly.Owdb.Limits.Laws.{PlainLimits, covers}
use jelly.Owdb.Hit.{Hit}
use jelly.Owdb.Store.{scan, select_ids, select_scanned, or_else}
use jelly.Owdb.Store.Order.{IsSorted, AllPlain}

-- The indices, counted from `i`, of the hits that pass a test.
abbrev pub positions : (Hit → Bool) → ℕ → List Hit → List ℕ
positions p i [] = []
positions p i (h ∷ hs) = if p h then i ∷ positions p (suc i) hs else positions p (suc i) hs

module _ (p : Hit → Bool) (test : Hit → Run Bool) where
  abbrev pub Agrees : Hit → Type 0
  Agrees h = test h ≡ done (p h)

  select_ids-positions :
      (pre rest : List Hit) (k : ℕ) (ids : List ℕ)
      → All Agrees (take k rest)
      → k ≤ length rest
      → select_ids test (pre ++ rest) (length pre) k ids
        ≡ done (ids ++ positions p (length pre) (take k rest))
  unfolding select_ids
  select_ids-positions pre rest zero ids a h = rw (append-nil ids)
  select_ids-positions pre [] (suc k) ids a h = absurd (omega arith)
  select_ids-positions pre (x ∷ rest) (suc k) ids (e, a) h =
      let next = λ (ids' : List ℕ).
        rw (append_snoc pre x rest, length-snoc pre x) at
          (select_ids-positions (pre ++ x ∷ []) rest k ids' a (omega arith)) in
      rw (read_middle pre x rest, e)
        (elim (Bool-cases (p x)) [
          | inl q ↦ rw q (next _ ∙ ap done (append_assoc ids _ _))
          | inr q ↦ rw q (next ids)
        ])

-- How many of the first hits the limits cover.
covered : Limits Time → List Hit → ℕ
covered bounds [] = 0
covered bounds (h ∷ hs) = if contains equal after bounds h.time then suc (covered bounds hs) else 0

covered-le-length : (bounds : Limits Time) (hs : List Hit) → covered bounds hs ≤ length hs
unfolding covered
covered-le-length bounds [] = omega arith
covered-le-length bounds (h ∷ hs) = ground (arith, covered-le-length bounds hs)

-- A scan that has started ends after the hits that are covered.
scan_started :
    (bounds : Limits Time) (i s : ℕ) (hs : List Hit)
    → ((scan bounds i (some s) hs).0 ≡ some s)
      × (or_else (scan bounds i (some s) hs).1 (i + length hs) ≡ i + covered bounds hs)
unfolding scan covered
scan_started bounds i s [] = (refl, refl)
scan_started bounds i s (h ∷ hs) = ground (arith, scan_started bounds (suc i) s hs)

module _ (bounds : Limits Time) (i : ℕ) (h : Hit) (hs : List Hit) where
  scan_first :
      covers bounds h.time ≡ true → scan bounds i none (h ∷ hs) ≡ scan bounds (suc i) (some i) hs
  unfolding scan covers
  scan_first c = ground arith

  scan_skip :
      covers bounds h.time ≡ false → scan bounds i none (h ∷ hs) ≡ scan bounds (suc i) none hs
  unfolding scan covers
  scan_skip c = ground arith

select_scanned-some :
    (test : Hit → Run Bool) (hits : List Hit) (r : Option ℕ × Option ℕ) (s k : ℕ)
    → r.0 ≡ some s
    → or_else r.1 (length hits) - s ≡ k
    → select_scanned test hits r ≡ select_ids test hits s k []
unfolding select_scanned
select_scanned-some test hits (none, e) s k p q = cc
select_scanned-some test hits (some t, e) s k p q = let same : t ≡ s = cc in rw (same) (rw q)

-- What lies between two covered times is covered, so after the first uncovered one nothing is.
covers-convex :
    (bounds : Limits Time) (a b c : Time)
    → PlainLimits bounds
    → a.monotonic ≡ none
    → b.monotonic ≡ none
    → c.monotonic ≡ none
    → a.instant ≤ b.instant
    → b.instant ≤ c.instant
    → covers bounds a ≡ true
    → covers bounds b ≡ false
    → covers bounds c ≡ false
unfolding covers
covers-convex bounds a b c p ma mb mc ab bc ca cb = ground arith

-- A test that fails wherever the limits do not reach.
abbrev pub Within : Limits Time → (Hit → Bool) → Hit → Type 0
Within bounds p h = covers bounds h.time ≡ false → p h ≡ false

module _ (bounds : Limits Time) (plain : PlainLimits bounds) (p : Hit → Bool) where
  -- Hits after an uncovered one, itself after a covered time, do not pass.
  positions_after :
      (a b : Time) (i : ℕ) (hs : List Hit)
      → a.monotonic ≡ none
      → b.monotonic ≡ none
      → a.instant ≤ b.instant
      → covers bounds a ≡ true
      → covers bounds b ≡ false
      → All (λ h. b.instant ≤ h.time.instant) hs
      → AllPlain hs
      → All (Within bounds p) hs
      → positions p i hs ≡ []
  positions_after a b i [] ma mb ab ca cb late pl w = refl
  positions_after a b i (h ∷ hs) ma mb ab ca cb late pl w =
      rw (w.0 (covers-convex bounds a b h.time plain ma mb pl.0.bare ab late.0 ca cb))
        (positions_after a b (suc i) hs ma mb ab ca cb late.1 pl.1 w.1)

  -- The covered hits that follow on are all that pass.
  positions-take-covered :
      (a : Time) (i : ℕ) (hs : List Hit)
      → a.monotonic ≡ none
      → covers bounds a ≡ true
      → All (λ h. a.instant ≤ h.time.instant) hs
      → IsSorted hs
      → AllPlain hs
      → All (Within bounds p) hs
      → positions p i (take (covered bounds hs) hs) ≡ positions p i hs
  unfolding covered covers
  positions-take-covered a i [] ma ca late s pl w = refl
  positions-take-covered a i (h ∷ hs) ma ca late s pl w = elim (Bool-cases (covers bounds h.time)) [
    | inl c ↦
        let rest = positions-take-covered a (suc i) hs ma ca late.1 s.1 pl.1 w.1 in rw (c, rest)
    | inr c ↦
        rw (c, w.0 c)
          (sym (positions_after a h.time (suc i) hs ma pl.0.bare late.0 ca c s.0 pl.1 w.1))
  ]

  -- The loop only tests hits that the limits cover.
  All-covered :
      (test : Hit → Run Bool) (hs : List Hit)
      → All (λ h. covers bounds h.time ≡ true → test h ≡ done (p h)) hs
      → All (λ h. test h ≡ done (p h)) (take (covered bounds hs) hs)
  unfolding covered covers
  All-covered test [] a = tt
  All-covered test (h ∷ hs) a = elim (Bool-cases (covers bounds h.time)) [
    | inl c ↦ rw c (a.0 c, All-covered test hs a.1)
    | inr c ↦ rw c tt
  ]

  -- The scan and the loop find the positions of the hits that pass.
  pub select_scanned-positions :
      (test : Hit → Run Bool) (pre rest : List Hit)
      → All (λ h. covers bounds h.time ≡ true → test h ≡ done (p h)) rest
      → IsSorted rest
      → AllPlain rest
      → All (Within bounds p) rest
      → select_scanned test (pre ++ rest) (scan bounds (length pre) none rest)
        ≡ done (positions p (length pre) rest)
  select_scanned-positions test pre [] a s pl w = unfold select_scanned scan in refl
  select_scanned-positions test pre (h ∷ hs) a s pl w = elim (Bool-cases (covers bounds h.time)) [
    | inl c ↦
        let (start, end) = scan_started bounds (suc (length pre)) (length pre) hs in
        let total : length (pre ++ h ∷ hs) ≡ suc (length pre) + length hs =
          omega (arith, length-append pre (h ∷ hs)) in
        let tail =
          positions-take-covered h.time (suc (length pre)) hs pl.0.bare c s.0 s.1 pl.1 w.1 in
        rw (scan_first bounds (length pre) h hs c) (
          select_scanned-some test (pre ++ h ∷ hs) _ (length pre) (suc (covered bounds hs)) start
            (rw total (omega (arith, end)))
          ∙ select_ids-positions p test pre (h ∷ hs) (suc (covered bounds hs)) []
              (a.0 c, All-covered test hs a.1) (omega (arith, covered-le-length bounds hs))
          ∙ rw tail)
    | inr c ↦
        rw (scan_skip bounds (length pre) h hs c, w.0 c)
          (rw (append_snoc pre h hs, length-snoc pre h) at
            (select_scanned-positions test (pre ++ h ∷ []) hs a.1 s.1 pl.1 w.1))
  ]
