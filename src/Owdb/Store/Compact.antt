-- ===== src/Owdb/Store/Compact.antt =====
-- The loops of Delete close the gaps: in front stay the hits that are not deleted, in order.
use jelly.Base.{
  ℕ, zero, suc, ◌+◌, ◌<◌, ◌≡◌, refl, sym, ap, ◌∙◌, inl, inr, List, [], ◌∷◌, ◌++◌, Bool, false, not,
  Run, done, read, read_middle, write_middle, length, length-append, length-snoc, append_snoc, take,
  take-append_length, arith, keep,
}
use mathlib.Core.List.{append-nil, append_assoc}
use jelly.Owdb.Hit.{Hit}
use jelly.Owdb.Store.{compact}
use jelly.Owdb.Store.Scan.{positions}
use jelly.Owdb.Store.Gaps.{
  lead, Leading, leading, next_shift-lead, compact_end, compact_last, compact_move,
}

module _ (p : Hit → Bool) where
  -- The hits after the loop: `front` are those kept so far, `gap` holds as many as are deleted.
  pub record Closed (front gap hs : List Hit) (r : Run (List Hit)) : Type 0 where
    pub result : List Hit
    pub computed : r ≡ done result
    pub same_length : length result ≡ length (front ++ (gap ++ hs))
    pub front_kept :
        take (length front + length (keep (λ h. not (p h)) hs)) result
        ≡ front ++ keep (λ h. not (p h)) hs

  take-all : (xs ys : List Hit) → take (length xs + 0) (xs ++ ys) ≡ xs
  take-all xs ys = take-append_length xs ys 0 ∙ append-nil xs

  -- One round that moves a hit: what the next round starts from.
  module _ (front gap passing rest : List Hit) (g x : Hit) where
    start_of :
        front ++ (g ∷ gap ++ (passing ++ x ∷ rest)) ≡ (front ++ (g ∷ gap ++ passing)) ++ x ∷ rest
    start_of = simp append_assoc

    after_move :
        front ++ x ∷ (gap ++ (passing ++ x ∷ rest))
        ≡ (front ++ x ∷ []) ++ ((gap ++ (passing ++ x ∷ [])) ++ rest)
    after_move = simp append_assoc

    move_lengths :
        (length (front ++ (g ∷ gap ++ passing)) ≡ length front + suc (length gap + length passing))
        × (length (gap ++ (passing ++ x ∷ [])) ≡ suc (length gap + length passing))
    move_lengths = (
      omega (arith, length-append front (g ∷ gap ++ passing), length-append gap passing),
      omega (arith, length-append gap (passing ++ x ∷ []), length-snoc passing x),
    )

  uncons : (xs : List Hit) (n : ℕ) → length xs ≡ suc n → (y : Hit) × (ys : List Hit) × (xs ≡ y ∷ ys)
  uncons [] n e = absurd (omega arith)
  uncons (y ∷ ys) n e = (y, ys, refl)

  -- The ids that are left to delete after the hits at the head of a list.
  same_call :
      (before : List ℕ) (j : ℕ) (hs : List Hit) (l : Leading p j hs) (x : Hit) (rest : List Hit)
      → l.others ≡ x ∷ rest
      → p x ≡ false
      → before ++ positions p j hs
        ≡ (before ++ l.ids) ++ positions p (suc (j + length l.passing)) rest
  same_call before j hs l x rest others q =
      let places : positions p (j + length l.passing) l.others
          ≡ positions p (suc (j + length l.passing)) rest =
        rw (others, q) in
      ap (◌++◌ before) (l.places ∙ ap (◌++◌ l.ids) places) ∙ sym (append_assoc before l.ids _)

  keep-head :
      {others : List Hit} {x : Hit} {rest : List Hit}
      → others ≡ x ∷ rest
      → p x ≡ false
      → keep (λ h. not (p h)) others ≡ x ∷ keep (λ h. not (p h)) rest
  keep-head e q = rw (e, q)

  replaced :
      (front : List Hit) (x g : Hit) (hs : List Hit)
      → length (front ++ x ∷ hs) ≡ length (front ++ g ∷ hs)
  replaced front x g hs = omega (arith, length-append front (x ∷ hs), length-append front (g ∷ hs))

  kept_size :
      (front : List Hit) (x : Hit) (hs rest : List Hit)
      → keep (λ h. not (p h)) hs ≡ x ∷ keep (λ h. not (p h)) rest
      → length front + length (keep (λ h. not (p h)) hs)
        ≡ length (front ++ x ∷ []) + length (keep (λ h. not (p h)) rest)
  kept_size front x hs rest e = omega (arith, ap length e, length-snoc front x)

  -- The round after which the loop goes on: the first hit that stays moves into the gap.
  Closed-move :
      (fuel : ℕ) (front gap : List Hit) (g : Hit) (before : List ℕ) (j : ℕ) (hs : List Hit)
      (l : Leading p j hs) (x : Hit) (rest : List Hit)
      → l.others ≡ x ∷ rest
      → p x ≡ false
      → (y : Hit) (ys : List Hit) → gap ++ (l.passing ++ x ∷ []) ≡ y ∷ ys
      → length before ≡ suc (length gap)
      → j ≡ length front + length before
      → Closed (front ++ x ∷ []) (y ∷ ys) rest (
          compact fuel
            ((before ++ l.ids) ++ positions p (suc (j + length l.passing)) rest)
            (length (front ++ x ∷ []))
            (length (before ++ l.ids))
            ((front ++ x ∷ []) ++ (y ∷ ys ++ rest)))
      → Closed front (g ∷ gap) hs (
          compact
            (suc fuel)
            (before ++ positions p j hs)
            (length front)
            (length before)
            (front ++ (g ∷ gap ++ hs)))
  Closed-move fuel front gap g before j hs l x rest others q y ys gap' b e ih =
      let whole : hs ≡ l.passing ++ x ∷ rest = l.whole ∙ ap (◌++◌ l.passing) others in
      let at_x = (move_lengths front gap l.passing rest g x).0 in
      let front_size = length-snoc front x in
      let before_size = length-append before l.ids in
      let to_del = before ++ positions p j hs in
      let shifted =
        next_shift-lead p (suc (length to_del)) before (length front) j hs e
          (omega (arith, length-append before (positions p j hs))) in
      let same_ids = same_call before j hs l x rest others q in
      let same_hits : front ++ (g ∷ gap ++ hs) ≡ (front ++ (g ∷ gap ++ l.passing)) ++ x ∷ rest =
        ap (λ z. front ++ (g ∷ gap ++ z)) whole ∙ start_of front gap l.passing rest g x in
      let moved : front ++ x ∷ (gap ++ hs) ≡ (front ++ x ∷ []) ++ (y ∷ ys ++ rest) =
        ap (λ z. front ++ x ∷ (gap ++ z)) whole
        ∙ after_move front gap l.passing rest g x
        ∙ ap (λ z. (front ++ x ∷ []) ++ (z ++ rest)) gap' in
      let here : length front + (length before + lead p hs)
          ≡ length (front ++ (g ∷ gap ++ l.passing)) =
        omega (arith, l.size, at_x) in
      let size = ap length same_hits ∙ length-append (front ++ (g ∷ gap ++ l.passing)) (x ∷ rest) in
      let shift' : length before + lead p hs ≡ length (before ++ l.ids) =
        omega (arith, before_size, l.counted, l.size) in
      let kept = l.kept ∙ keep-head others q in
      record {
        result = ih.result;
        computed =
            compact_move fuel to_del (length front) (length before) _ _ (omega (arith, size, at_x))
              shifted x _ (omega (arith, size, here))
              ((λ i. read (same_hits i) (here i))
                ∙ read_middle (front ++ (g ∷ gap ++ l.passing)) x rest)
              (write_middle front g (gap ++ hs) x)
            ∙ (λ i. compact fuel (same_ids i) (sym front_size i) (shift' i) (moved i))
            ∙ ih.computed;
        same_length = ih.same_length ∙ sym (ap length moved) ∙ replaced front x g (gap ++ hs);
        front_kept =
            (λ i. take (kept_size front x hs rest kept i) ih.result)
            ∙ ih.front_kept
            ∙ append_snoc front x _
            ∙ sym (ap (◌++◌ front) kept);
      }

  pub compact-Closed :
      (fuel : ℕ) (front gap : List Hit) (g : Hit) (before : List ℕ) (j : ℕ) (hs : List Hit)
      → length before ≡ suc (length gap)
      → j ≡ length front + length before
      → length hs < fuel
      → Closed front (g ∷ gap) hs (
          compact fuel
            (before ++ positions p j hs)
            (length front)
            (length before)
            (front ++ (g ∷ gap ++ hs)))
  compact-Closed zero front gap g before j hs b e f = absurd (omega arith)
  compact-Closed (suc fuel) front gap g before j [] b e f =
      let total = length-append front (g ∷ gap ++ []) in
      let total' = length-append (g ∷ gap) [] in
      record {
        result = front ++ (g ∷ gap ++ []);
        computed =
            compact_end fuel _ (length front) (length before) _ (omega (arith, total, total'));
        same_length = refl;
        front_kept = take-all front (g ∷ gap ++ []) ∙ sym (append-nil front);
      }
  compact-Closed (suc fuel) front gap g before j (h ∷ hs) b e f =
      let l = leading p j (h ∷ hs) in
      let shifted =
        next_shift-lead p (suc (length (before ++ positions p j (h ∷ hs)))) before (length front) j
          (h ∷ hs) e (omega (arith, length-append before (positions p j (h ∷ hs)))) in
      let total = length-append front (g ∷ gap ++ h ∷ hs) in
      let total' = length-append (g ∷ gap) (h ∷ hs) in
      let split = ap length l.whole ∙ length-append l.passing l.others in
      elim l.stops [
        | inl none_left ↦ record {
          result = front ++ (g ∷ gap ++ h ∷ hs);
          computed =
              compact_last fuel _ (length front) (length before) _ _ (omega (arith, total, total'))
                shifted (omega (arith, total, total', split, l.size, ap length none_left));
          same_length = refl;
          front_kept =
              rw (l.kept, none_left) (take-all front (g ∷ gap ++ h ∷ hs) ∙ sym (append-nil front));
        }
        | inr (x, rest, others, q) ↦
            let gap_size = (move_lengths front gap l.passing rest g x).1 in
            let (y, ys, gap') = uncons (gap ++ (l.passing ++ x ∷ [])) _ gap_size in
            let front_size = length-snoc front x in
            let before_size = length-append before l.ids in
            Closed-move fuel front gap g before j (h ∷ hs) l x rest others q y ys gap' b e (
              compact-Closed fuel (front ++ x ∷ []) ys y (before ++ l.ids)
                (suc (j + length l.passing)) rest
                (omega (arith, before_size, l.counted, ap length gap', gap_size))
                (omega (arith, front_size, before_size, l.counted))
                (omega (arith, split, ap length others)))
      ]
