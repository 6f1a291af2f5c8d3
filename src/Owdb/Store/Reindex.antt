-- ===== src/Owdb/Store/Reindex.antt =====
-- The re-indexing of Update returns, whatever the order of the keys, and keeps all the hits.
use jelly.Base.{
  ℕ, zero, suc, ◌+◌, ◌-◌, ◌≤◌, ◌<◌, ◌≡◌, refl, sym, ap, ◌∙◌, subst, List, [], ◌∷◌, ◌++◌, true,
  false, Run, done, ◌>>=◌, read, write, read_middle, write_middle, ltb, ◌==◌, length, length-append,
  length-reverse, Bool-cases, inl, inr, arith,
}
use mathlib.Core.List.{reverse, append_assoc, reverse-reverse, Perm, perm_middle}
use mathlib.Core.List.Perm
use jelly.Owdb.Hit.{Hit}
use jelly.Owdb.Store.{find_insertion_point}
use jelly.Owdb.Store.Update.{Moving, move_left, move_right, merged_keys, pop, reindex_one, reindex}
use jelly.Owdb.Store.Points.{cut, point_below-total}
use jelly.Owdb.Store.Shifts.{
  InRange, Keys, Shifted, move_left-Shifted, move_right-Shifted, merged_keys-InRange,
  merged_keys-length,
}

-- What a round or the whole re-indexing leaves.
pub record Reindexed (hits : List Hit) (bound : ℕ) (r : Run (List Hit × List ℕ)) : Type 0 where
  pub result : List Hit
  pub keys : List ℕ
  pub computed : r ≡ done (result, keys)
  pub same_hits : Perm result hits
  pub same_length : length result ≡ length hits
  pub in_range : InRange (length hits) keys
  pub few : length keys ≤ bound

module _ (hits : List Hit) (id : ℕ) (keys : List ℕ) (updated_hit : Hit) where
  abbrev start : Moving
  start = record { hits = hits; time_index_changes = keys; updated_time_changes = [] }

  start-Keys : InRange (length hits) keys → Keys (length hits) (length keys) start
  start-Keys r = record { waiting = r; moved = tt; few = omega arith }

  -- The end of a round: the hit is put where the shift left room.
  place :
      (pre post : List Hit) (r : Run Moving) (at : ℕ)
      → length pre ≡ at
      → ((d : Hit) → length (pre ++ d ∷ post) ≡ length hits)
      → Perm (pre ++ updated_hit ∷ post) hits
      → Shifted (length hits) (length keys) (λ d. pre ++ d ∷ post) r
      → Reindexed hits (length keys) (
          r >>= λ m. write m.hits at updated_hit >>= λ placed.
          done (placed, merged_keys m.updated_time_changes m.time_index_changes))
  place pre post r at e size same s =
      let put : write s.result.hits at updated_hit ≡ done (pre ++ updated_hit ∷ post) =
        (λ i. write (s.hits_are i) (sym e i) updated_hit)
        ∙ write_middle pre s.left_over post updated_hit in
      let merged = merged_keys s.result.updated_time_changes s.result.time_index_changes in
      record {
        result = pre ++ updated_hit ∷ post;
        keys = merged;
        computed = rw (s.computed, put) refl;
        same_hits = same;
        same_length = size updated_hit;
        in_range =
            merged_keys-InRange (length hits) s.result.updated_time_changes
              s.result.time_index_changes s.keys.moved s.keys.waiting;
        few = omega (
          arith,
          s.keys.few,
          merged_keys-length s.result.updated_time_changes s.result.time_index_changes,
        );
      }

moved_place :
    (front mid post : List Hit) (x : Hit)
    → Perm ((front ++ mid) ++ x ∷ post) (front ++ x ∷ (mid ++ post))
moved_place front mid post x = Perm.trans (perm_middle (front ++ mid) post) (
    subst (λ l. Perm (x ∷ l) (front ++ x ∷ (mid ++ post))) (sym (append_assoc front mid post))
      (Perm.symm (perm_middle front (mid ++ post))))

length-place : (a b : List Hit) (x y : Hit) → length (a ++ x ∷ b) ≡ length (a ++ y ∷ b)
length-place a b x y = length-append a (x ∷ b) ∙ sym (length-append a (y ∷ b))

append_length_place :
    (front mid post : List Hit) (x : Hit)
    → length ((front ++ mid) ++ x ∷ post) ≡ length (front ++ x ∷ (mid ++ post))
append_length_place front mid post x = omega (
  arith,
  length-append (front ++ mid) (x ∷ post),
  length-append front mid,
  length-append front (x ∷ (mid ++ post)),
  length-append mid post,
)

module _ (id : ℕ) (keys : List ℕ) (front : List Hit) (x : Hit) (tail : List Hit)
    (at_id : length front ≡ id) where
  abbrev hits : List Hit
  hits = front ++ x ∷ tail

  at_x : read hits id ≡ done x
  at_x = (λ i. read hits (sym at_id i)) ∙ read_middle front x tail

  module _ (r : ℕ) (point : find_insertion_point hits x (id ∷ []) ≡ done r) where
    reindex_one-here : (r == id) ≡ true → reindex_one id keys hits ≡ done (hits, keys)
    unfolding reindex_one
    reindex_one-here e = rw (at_x, point, e) refl

    reindex_one-left :
        (r == id) ≡ false
        → ltb id r ≡ true
        → reindex_one id keys hits ≡ (
            move_left id (r - 1 - id) (start hits id keys x) >>= λ m.
            write m.hits (r - 1) x >>= λ placed.
            done (placed, merged_keys m.updated_time_changes m.time_index_changes))
    unfolding reindex_one
    reindex_one-left e l = rw (at_x, point, e, l) refl

    reindex_one-right :
        (r == id) ≡ false
        → ltb id r ≡ false
        → reindex_one id keys hits ≡ (
            move_right r id (start hits id keys x) >>= λ m. write m.hits r x >>= λ placed.
            done (placed, merged_keys m.updated_time_changes m.time_index_changes))
    unfolding reindex_one
    reindex_one-right e l = rw (at_x, point, e, l) refl

    -- A round for a hit whose place is further on.
    moved_left :
        r ≤ length hits
        → InRange (length hits) keys
        → (r == id) ≡ false
        → ltb id r ≡ true
        → Reindexed hits (length keys) (reindex_one id keys hits)
    moved_left le range e l =
        let size = length-append front (x ∷ tail) in
        let bounds : (id < r) = ground arith in
        let c = cut tail (r - 1 - id) (omega (arith, size, at_id)) in
        let end : length (front ++ c.front) ≡ r - 1 =
          length-append front c.front ∙ omega (arith, c.size, at_id) in
        let shifted =
          move_left-Shifted (length hits) (length keys) front x c.front c.rest
            (start hits id keys x) (λ i. front ++ x ∷ c.whole i)
            (omega (arith, c.size, at_id, size)) (start-Keys hits id keys x range) in
        subst (Reindexed hits (length keys)) (sym (reindex_one-left e l)) (
          place hits id keys x (front ++ c.front) c.rest _ (r - 1) end
            (λ d.
              length-place (front ++ c.front) c.rest d x
              ∙ append_length_place front c.front c.rest x
              ∙ ap length (λ i. front ++ x ∷ sym c.whole i))
            (subst (λ t. Perm ((front ++ c.front) ++ x ∷ c.rest) (front ++ x ∷ t)) (sym c.whole)
              (moved_place front c.front c.rest x))
            (subst (Shifted (length hits) (length keys) (λ d. (front ++ c.front) ++ d ∷ c.rest))
              (λ i. move_left (at_id i) (c.size i) (start hits id keys x)) shifted))

    -- A round for a hit whose place is further back.
    moved_right :
        InRange (length hits) keys
        → (r == id) ≡ false
        → ltb id r ≡ false
        → Reindexed hits (length keys) (reindex_one id keys hits)
    moved_right range e l =
        let bounds : (r < id) = ground arith in
        let c = cut front r (omega (arith, at_id)) in
        let mid = reverse (reverse c.rest) in
        let whole : front ≡ c.front ++ mid =
          c.whole ∙ ap (λ m. c.front ++ m) (sym (reverse-reverse c.rest)) in
        let size = length-append front (x ∷ tail) in
        let sum : length c.front + length (reverse c.rest) ≡ id = omega (
          arith,
          c.size,
          length-reverse c.rest,
          ap length c.whole,
          length-append c.front c.rest,
          at_id,
        ) in
        let shifted =
          move_right-Shifted (length hits) (length keys) c.front (reverse c.rest) x tail
            (start hits id keys x)
            ((λ i. whole i ++ x ∷ tail) ∙ append_assoc c.front mid (x ∷ tail))
            (omega (arith, sum, size, at_id)) (start-Keys hits id keys x range) in
        subst (Reindexed hits (length keys)) (sym (reindex_one-right e l)) (
          place hits id keys x c.front (mid ++ tail) _ r c.size
            (λ d.
              length-place c.front (mid ++ tail) d x
              ∙ sym (append_length_place c.front mid tail x)
              ∙ ap length (λ i. sym whole i ++ x ∷ tail))
            (subst (λ f. Perm (c.front ++ x ∷ (mid ++ tail)) (f ++ x ∷ tail)) (sym whole)
              (Perm.symm (moved_place c.front mid tail x)))
            (subst (Shifted (length hits) (length keys) (λ d. c.front ++ d ∷ (mid ++ tail)))
              (λ i. move_right (c.size i) (sum i) (start hits id keys x)) shifted))

    reindex_one-moved :
        r ≤ length hits
        → InRange (length hits) keys
        → Reindexed hits (length keys) (reindex_one id keys hits)
    reindex_one-moved le range = elim (Bool-cases (r == id)) [
      | inl e ↦ record {
        result = hits;
        keys = keys;
        computed = reindex_one-here e;
        same_hits = Perm.rfl;
        same_length = refl;
        in_range = range;
        few = omega arith;
      }
      | inr e ↦ elim (Bool-cases (ltb id r)) [
        | inl l ↦ moved_left le range e l
        | inr l ↦ moved_right range e l
      ]
    ]

-- A round for a key in range.
reindex_one-Reindexed :
    (hits : List Hit) (id : ℕ) (keys : List ℕ)
    → id < length hits
    → InRange (length hits) keys
    → Reindexed hits (length keys) (reindex_one id keys hits)
reindex_one-Reindexed hits id keys h range =
    let c = cut hits id (omega arith) in found c.front c.rest c.whole c.size
  where
    found :
        (front rest : List Hit)
        → hits ≡ front ++ rest
        → length front ≡ id
        → Reindexed hits (length keys) (reindex_one id keys hits)
    found front [] e at_id = absurd (omega (arith, ap length e, length-append front [], at_id))
    found front (x ∷ tail) e at_id =
        let (r, point, le) =
          point_below-total (front ++ x ∷ tail) x (id ∷ []) (length (front ++ x ∷ tail))
            (omega arith) in
        subst (λ l. Reindexed l (length keys) (reindex_one id keys l)) (sym e)
          (reindex_one-moved id keys front x tail at_id r (unfold find_insertion_point in point) le
            (subst (λ l. InRange (length l) keys) e range))

pop-InRange :
    (n : ℕ) (c k : ℕ) (keys : List ℕ)
    → k < n
    → InRange n keys
    → ((pop c k keys).0 < n) × InRange n (pop c k keys).1 × (length (pop c k keys).1 ≡ length keys)
unfolding pop
pop-InRange n c k [] h r = (h, tt, refl)
pop-InRange n zero k (x ∷ xs) h r = (h, r, refl)
pop-InRange n (suc c) k (x ∷ xs) h (r, rest) =
    let (a, b, e) = pop-InRange n c x xs r rest in (a, (h, b), ap suc e)

-- The re-indexing returns with the same hits for any order of the keys.
pub reindex-Perm :
    (choose : List ℕ → ℕ) (fuel : ℕ) (keys : List ℕ) (hits : List Hit)
    → InRange (length hits) keys
    → length keys ≤ fuel
    → (result : List Hit) × (reindex choose fuel keys hits ≡ done result) × Perm result hits
unfolding reindex
reindex-Perm choose fuel [] hits r le = (hits, refl, Perm.rfl)
reindex-Perm choose zero (k ∷ ks) hits r le = absurd (omega arith)
reindex-Perm choose (suc fuel) (k ∷ ks) hits (h, r) le =
    let (id_lt, rest_in, e) = pop-InRange (length hits) (choose (k ∷ ks)) k ks h r in
    let popped = pop (choose (k ∷ ks)) k ks in
    let one = reindex_one-Reindexed hits popped.0 popped.1 id_lt rest_in in
    let (result, computed, same) =
      reindex-Perm choose fuel one.keys one.result
        (subst (λ n. InRange n one.keys) (sym one.same_length) one.in_range)
        (omega (arith, one.few, e)) in
    (result, rw (one.computed) computed, Perm.trans same one.same_hits)
