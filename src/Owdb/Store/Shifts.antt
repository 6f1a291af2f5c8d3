-- ===== src/Owdb/Store/Shifts.antt =====
-- The shifts of Update's re-indexing: they return, keep the hits but for one place, and do not make
-- keys more or leave the range.
use jelly.Base.{
  ℕ, zero, suc, ◌+◌, ◌≤◌, ◌<◌, ◌≡◌, refl, sym, ap, ◌∙◌, List, [], ◌∷◌, ◌++◌, true, Run, done, read,
  write, read_middle, write_middle, ltb, ◌==◌, length, length-append, length-snoc, append_snoc,
  length-reverse, reverse-cons_append, All, All-append, Bool-cases, inl, inr, arith,
}
use mathlib.Core.List.{reverse, append_assoc, append-nil}
use jelly.Owdb.Hit.{Hit}
use jelly.Owdb.Store.Update.{
  Moving, member, add_key, add_keys, delete_key, mark, move_left, move_right, merged_keys,
}

abbrev pub InRange : ℕ → List ℕ → Type 0
InRange n = All (λ k. k < n)

-- Both sets of keys are in range, and they have at most `bound` keys.
pub record Keys (n bound : ℕ) (m : Moving) : Type 0 where
  pub waiting : InRange n m.time_index_changes
  pub moved : InRange n m.updated_time_changes
  pub few : length m.time_index_changes + length m.updated_time_changes ≤ bound

add_key-length : (k : ℕ) (keys : List ℕ) → length (add_key k keys) ≤ suc (length keys)
unfolding add_key
add_key-length k keys = ground (arith, length-append keys (k ∷ []))

pub add_key-InRange :
    (n k : ℕ) (keys : List ℕ) → k < n → InRange n keys → InRange n (add_key k keys)
unfolding add_key
add_key-InRange n k keys h r = elim (Bool-cases (member k keys)) [
  | inl e ↦ rw e r
  | inr e ↦ rw e (All-append (λ j. j < n) keys (k ∷ []) r (h, tt))
]

add_keys-length : (ks keys : List ℕ) → length (add_keys ks keys) ≤ length ks + length keys
unfolding add_keys
add_keys-length [] keys = omega arith
add_keys-length (k ∷ ks) keys =
    omega (arith, add_keys-length ks (add_key k keys), add_key-length k keys)

add_keys-InRange :
    (n : ℕ) (ks keys : List ℕ) → InRange n ks → InRange n keys → InRange n (add_keys ks keys)
unfolding add_keys
add_keys-InRange n [] keys a b = b
add_keys-InRange n (k ∷ ks) keys (a, rest) b =
    add_keys-InRange n ks (add_key k keys) rest (add_key-InRange n k keys a b)

delete_key-le : (k : ℕ) (keys : List ℕ) → length (delete_key k keys) ≤ length keys
unfolding delete_key
delete_key-le k [] = omega arith
delete_key-le k (x ∷ xs) = ground (arith, delete_key-le k xs)

delete_key-length :
    (k : ℕ) (keys : List ℕ) → member k keys ≡ true → length (delete_key k keys) < length keys
unfolding delete_key member
delete_key-length k [] e = cc
delete_key-length k (x ∷ xs) e = elim (Bool-cases (k == x)) [
  | inl q ↦ rw q (omega (arith, delete_key-le k xs))
  | inr q ↦ rw q (omega (arith, delete_key-length k xs (rw q at e)))
]

delete_key-InRange : (n k : ℕ) (keys : List ℕ) → InRange n keys → InRange n (delete_key k keys)
unfolding delete_key
delete_key-InRange n k [] r = tt
delete_key-InRange n k (x ∷ xs) (r, rs) = elim (Bool-cases (k == x)) [
  | inl q ↦ rw q (delete_key-InRange n k xs rs)
  | inr q ↦ rw q (r, delete_key-InRange n k xs rs)
]

mark-Keys :
    (n bound start end : ℕ) (m : Moving)
    → end < n
    → Keys n bound m
    → Keys n bound (mark start end m)
unfolding mark
mark-Keys n bound start end m h k = elim (Bool-cases (member start m.time_index_changes)) [
  | inr e ↦ rw e k
  | inl e ↦ rw e (record {
    waiting = delete_key-InRange n start m.time_index_changes k.waiting;
    moved = add_key-InRange n end m.updated_time_changes h k.moved;
    few = omega (
      arith,
      k.few,
      delete_key-length start m.time_index_changes e,
      add_key-length end m.updated_time_changes,
    );
  })
]

mark-hits : (start end : ℕ) (m : Moving) → (mark start end m).hits ≡ m.hits
unfolding mark
mark-hits start end m = ground arith

pub merged_keys-InRange :
    (n : ℕ) (moved waiting : List ℕ)
    → InRange n moved
    → InRange n waiting
    → InRange n (merged_keys moved waiting)
unfolding merged_keys
merged_keys-InRange n [] waiting a b = b
merged_keys-InRange n (k ∷ ks) waiting a b = add_keys-InRange n waiting (k ∷ ks) b a

pub merged_keys-length :
    (moved waiting : List ℕ) → length (merged_keys moved waiting) ≤ length waiting + length moved
unfolding merged_keys
merged_keys-length [] waiting = omega arith
merged_keys-length (k ∷ ks) waiting = add_keys-length waiting (k ∷ ks)

suc_sum : (a b c : ℕ) → c ≡ a + b → a + suc b ≡ suc c
suc_sum a b c e = omega arith

-- What a shift leaves: its hits, and keys as many and as far as before.
pub record Shifted (n bound : ℕ) (hits : Hit → List Hit) (r : Run Moving) : Type 0 where
  pub result : Moving
  pub computed : r ≡ done result
  pub left_over : Hit
  pub hits_are : result.hits ≡ hits left_over
  pub keys : Keys n bound result

module _ (n bound : ℕ) where
  -- A hit is copied to the place before it.
  left_step :
      (pre : List Hit) (x g : Hit) (rest : List Hit) (k : ℕ) (m : Moving)
      → m.hits ≡ pre ++ x ∷ g ∷ rest
      → move_left (length pre) (suc k) m
        ≡ move_left
            (suc (length pre))
            k
            (mark (suc (length pre)) (length pre) (record m { hits = pre ++ g ∷ g ∷ rest }))
  unfolding move_left
  left_step pre x g rest k m e =
      let got : read m.hits (suc (length pre)) ≡ done g =
        (λ i. read ((e ∙ sym (append_snoc pre x (g ∷ rest))) i) (sym (length-snoc pre x) i))
        ∙ read_middle (pre ++ x ∷ []) g rest in
      let put : write m.hits (length pre) g ≡ done (pre ++ g ∷ g ∷ rest) =
        (λ i. write (e i) (length pre) g) ∙ write_middle pre x (g ∷ rest) g in
      rw (got, put) refl

  pub move_left-Shifted :
      (pre : List Hit) (x : Hit) (mid post : List Hit) (m : Moving)
      → m.hits ≡ pre ++ x ∷ (mid ++ post)
      → length pre + length mid < n
      → Keys n bound m
      → Shifted n bound (λ d. (pre ++ mid) ++ d ∷ post) (move_left (length pre) (length mid) m)
  unfolding move_left
  move_left-Shifted pre x [] post m e h k = record {
    result = m;
    computed = refl;
    left_over = x;
    hits_are = e ∙ (λ i. sym (append-nil pre) i ++ x ∷ post);
    keys = k;
  }
  move_left-Shifted pre x (g ∷ mid) post m e h k =
      let next =
        mark (suc (length pre)) (length pre) (record m { hits = pre ++ g ∷ g ∷ (mid ++ post) }) in
      let ih =
        move_left-Shifted (pre ++ g ∷ []) g mid post next
          (mark-hits (suc (length pre)) (length pre)
              (record m { hits = pre ++ g ∷ g ∷ (mid ++ post) })
            ∙ sym (append_snoc pre g (g ∷ (mid ++ post))))
          (omega (arith, length-snoc pre g))
          (mark-Keys n bound (suc (length pre)) (length pre)
            (record m { hits = pre ++ g ∷ g ∷ (mid ++ post) }) (omega arith)
            (record { waiting = k.waiting; moved = k.moved; few = k.few })) in
      record {
        result = ih.result;
        computed =
            left_step pre x g (mid ++ post) (length mid) m e
            ∙ (λ i. move_left (sym (length-snoc pre g) i) (length mid) next)
            ∙ ih.computed;
        left_over = ih.left_over;
        hits_are = ih.hits_are ∙ (λ i. append_snoc pre g mid i ++ ih.left_over ∷ post);
        keys = ih.keys;
      }

  -- A hit is copied to the place after it.
  right_step :
      (to : ℕ) (pre : List Hit) (g x : Hit) (rest : List Hit) (m : Moving)
      → to ≤ length pre
      → m.hits ≡ pre ++ g ∷ x ∷ rest
      → move_right to (suc (length pre)) m
        ≡ move_right to
            (length pre)
            (mark (length pre) (suc (length pre)) (record m { hits = pre ++ g ∷ g ∷ rest }))
  unfolding move_right
  right_step to pre g x rest m le e =
      let go_on : ltb to (suc (length pre)) ≡ true = ground arith in
      let got : read m.hits (length pre) ≡ done g =
        (λ i. read (e i) (length pre)) ∙ read_middle pre g (x ∷ rest) in
      let put : write m.hits (suc (length pre)) g ≡ done (pre ++ g ∷ g ∷ rest) =
        (λ i. write ((e ∙ sym (append_snoc pre g (x ∷ rest))) i) (sym (length-snoc pre g) i) g)
        ∙ write_middle (pre ++ g ∷ []) x rest g
        ∙ ap done (append_snoc pre g (g ∷ rest)) in
      rw (go_on, got, put) refl

  right_stop : (to : ℕ) (m : Moving) → move_right to to m ≡ done m
  unfolding move_right
  right_stop zero m = refl
  right_stop (suc j) m = ground arith

  pub move_right-Shifted :
      (pre : List Hit) (rev : List Hit) (x : Hit) (post : List Hit) (m : Moving)
      → m.hits ≡ pre ++ (reverse rev ++ x ∷ post)
      → length pre + length rev < n
      → Keys n bound m
      → Shifted n bound
          (λ d. pre ++ d ∷ (reverse rev ++ post))
          (move_right (length pre) (length pre + length rev) m)
  move_right-Shifted pre [] x post m e h k = record {
    result = m;
    computed = ap (λ i. move_right (length pre) i m) (omega arith) ∙ right_stop (length pre) m;
    left_over = x;
    hits_are = e;
    keys = k;
  }
  move_right-Shifted pre (g ∷ rev) x post m e h k =
      let before_g = pre ++ reverse rev in
      let size : length before_g ≡ length pre + length rev =
        length-append pre (reverse rev) ∙ ap (λ i. length pre + i) (length-reverse rev) in
      let whole : m.hits ≡ before_g ++ g ∷ x ∷ post =
        e
        ∙ ap (λ l. pre ++ l) (reverse-cons_append g rev (x ∷ post))
        ∙ sym (append_assoc pre (reverse rev) _) in
      let copied = record m { hits = before_g ++ g ∷ g ∷ post } in
      let next = mark (length before_g) (suc (length before_g)) copied in
      let ih =
        move_right-Shifted pre rev g (g ∷ post) next
          (mark-hits (length before_g) (suc (length before_g)) copied
            ∙ append_assoc pre (reverse rev) _)
          (omega arith)
          (mark-Keys n bound (length before_g) (suc (length before_g)) copied (omega (arith, size))
            (record { waiting = k.waiting; moved = k.moved; few = k.few })) in
      record {
        result = ih.result;
        computed =
            (λ i.
              move_right (length pre) (suc_sum (length pre) (length rev) (length before_g) size i)
                m)
            ∙ right_step (length pre) before_g g x post m (omega (arith, size)) whole
            ∙ (λ i. move_right (length pre) (size i) next)
            ∙ ih.computed;
        left_over = ih.left_over;
        hits_are =
            ih.hits_are ∙ (λ i. pre ++ ih.left_over ∷ sym (reverse-cons_append g rev post) i);
        keys = ih.keys;
      }
