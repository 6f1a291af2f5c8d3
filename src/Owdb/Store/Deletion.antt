-- ===== src/Owdb/Store/Deletion.antt =====
-- Delete removes exactly the hits that match.
use jelly.Base.{
  ℕ, suc, ◌+◌, ◌-◌, ◌≡◌, refl, sym, ap, ◌∙◌, List, [], ◌∷◌, ◌++◌, some, Bool, false, not, done,
  length, length-append, take, All, Bool-cases, inl, inr, arith, keep, count_of, if-false,
}
use jelly.Owdb.Hit.{Hit}
use jelly.Owdb.Filter.{Filter, matches}
use jelly.Owdb.Store.{Store, ok, delete, delete_ids, compact}
use jelly.Owdb.Store.Order.{IsSorted, AllPlain}
use jelly.Owdb.Store.Scan.{positions}
use jelly.Owdb.Store.Query.{CanPlan, apply_filter-positions}
use jelly.Owdb.Store.Compact.{compact-Closed}

module _ (p : Hit → Bool) where
  -- The first hit that passes, if one does.
  data First (j : ℕ) (hs : List Hit) : Type 0 where
    no_hit : positions p j hs ≡ [] → keep (λ h. not (p h)) hs ≡ hs → count_of p hs ≡ 0 → First j hs
    first_hit :
        (front : List Hit) (g : Hit) (rest : List Hit)
        → hs ≡ front ++ g ∷ rest
        → positions p j hs ≡ (j + length front) ∷ positions p (suc (j + length front)) rest
        → keep (λ h. not (p h)) hs ≡ front ++ keep (λ h. not (p h)) rest
        → First j hs

  find-First : (j : ℕ) (hs : List Hit) → First j hs
  find-First j [] = no_hit refl refl refl
  find-First j (h ∷ hs) = elim (Bool-cases (p h)) [
    | inl e ↦
        first_hit [] h hs refl (rw e (ap (λ n. n ∷ positions p (suc n) hs) (omega arith))) (rw e)
    | inr e ↦ later e (find-First (suc j) hs)
  ]
    where
      later : p h ≡ false → First (suc j) hs → First j (h ∷ hs)
      later e (no_hit a b c) = no_hit (rw e a) (rw e (ap (◌∷◌ h) b)) (rw e c)
      later e (first_hit front g rest a b c) =
          let same : suc j + length front ≡ j + suc (length front) = omega arith in
          first_hit (h ∷ front) g rest (ap (◌∷◌ h) a)
            (rw e (b ∙ ap (λ n. n ∷ positions p (suc n) rest) same)) (rw e (ap (◌∷◌ h) c))

  pub length-positions : (j : ℕ) (hs : List Hit) → length (positions p j hs) ≡ count_of p hs
  length-positions j [] = refl
  length-positions j (h ∷ hs) = ground (arith, length-positions (suc j) hs)

  length-keep-not : (hs : List Hit) → count_of p hs + length (keep (λ h. not (p h)) hs) ≡ length hs
  length-keep-not [] = omega arith
  length-keep-not (h ∷ hs) = ground (arith, length-keep-not hs)

  delete_ids-positions :
      (s : Store)
      → First 0 s.hits
      → delete_ids (positions p 0 s.hits) s
        ≡ done (ok (count_of p s.hits), record s { hits = keep (λ h. not (p h)) s.hits })
  unfolding delete_ids
  delete_ids-positions s (no_hit a b c) = rw (a, b, c)
  delete_ids-positions s (first_hit front g rest a b c) =
      let first : positions p 0 s.hits ≡ length front ∷ positions p (suc (length front)) rest =
        b ∙ ap (λ n. n ∷ positions p (suc n) rest) (omega arith) in
      let size = ap length a ∙ length-append front (g ∷ rest) in
      let closed =
        compact-Closed p (suc (length s.hits)) front [] g (length front ∷ []) (suc (length front))
          rest refl (omega arith) (omega (arith, size)) in
      let counted = length-positions 0 s.hits in
      let left = length-keep-not s.hits in
      let total = closed.same_length ∙ length-append front (g ∷ rest) in
      let kept' = ap length c ∙ length-append front (keep (λ h. not (p h)) rest) in
      let taken : length closed.result
            - length (length front ∷ positions p (suc (length front)) rest)
          ≡ length front + length (keep (λ h. not (p h)) rest) =
        omega (arith, size, ap length first, counted, left, total, kept') in
      rw first (
        rw
          ((λ i.
              compact (suc (length s.hits)) (length front ∷ positions p (suc (length front)) rest)
                (length front) 1 (a i))
            ∙ closed.computed)
          (ap done (λ i. (
            ok ((ap length (sym first) ∙ counted) i),
            record s { hits = ((λ k. take (taken k) closed.result) ∙ closed.front_kept ∙ sym c) i },
          ))))

-- Delete removes exactly the hits that the filter matches, keeps the others in order, and returns
-- how many it removed, if the store is open and its hits are sorted, with times as a store keeps
-- them, the store can plan with the filter and no match panics.
pub delete-eq-keep :
    (f : Filter) (p : Hit → Bool) (s : Store)
    → s.closed ≡ false
    → CanPlan f
    → IsSorted s.hits
    → AllPlain s.hits
    → All (λ h. matches f h ≡ done (p h)) s.hits
    → delete (some f) s
      ≡ done (ok (count_of p s.hits), record s { hits = keep (λ h. not (p h)) s.hits })
unfolding delete
delete-eq-keep f p s o c sorted pl m =
    if-false s.closed _ _ o
    ∙ rw (apply_filter-positions f p s.hits c sorted pl m)
        (delete_ids-positions p s (find-First p 0 s.hits))
