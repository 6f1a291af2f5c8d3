-- ===== src/Owdb/Store/Place.antt =====
-- Where findInsertionPoint puts a hit, and the loop that makes room for it.
use jelly.Base.{
  ℕ, zero, suc, ◌+◌, ◌≤◌, ◌≡◌, refl, sym, ap, ◌∙◌, ◌⊎◌, inl, inr, List, [], ◌∷◌, ◌++◌, true, false,
  Run, done, read, write, read_middle, write_middle, length, length-append, length-snoc,
  append_snoc, length-reverse, reverse-cons_append, All, Bool-cases, arith, subst,
}
use mathlib.Core.List.{reverse, append-nil, append_assoc, reverse-reverse}
use jelly.Time.{before}
use jelly.Owdb.Hit.{Hit}
use jelly.Owdb.Store.{find_insertion_point, point_below, slice_index_of, shift_right}

-- The hits before the insertion point and after it.
pub record Placed (h : Hit) (hits : List Hit) (r : Run ℕ) : Type 0 where
  pub pre : List Hit
  pub post : List Hit
  pub whole : hits ≡ pre ++ post
  pub point : r ≡ done (length pre)
  pub late : All (λ g. before g.time h.time ≡ false) post
  pub early :
      (pre ≡ [])
      ⊎ ((a : List Hit) × (g : Hit) × (pre ≡ a ++ g ∷ []) × (before g.time h.time ≡ true))

module _ (hits : List Hit) (h : Hit) (i : ℕ) (g : Hit) (at_i : read hits i ≡ done g) where
  point_found : before g.time h.time ≡ true → point_below hits h [] (suc i) ≡ done (suc i)
  unfolding point_below slice_index_of
  point_found e = ground arith

  point_lower :
      before g.time h.time ≡ false → point_below hits h [] (suc i) ≡ point_below hits h [] i
  unfolding point_below slice_index_of
  point_lower e = ground arith

pub read-reverse :
    (g : Hit) (rev post : List Hit) → read (reverse (g ∷ rev) ++ post) (length rev) ≡ done g
read-reverse g rev post =
    (λ i. read (reverse-cons_append g rev post i) (sym (length-reverse rev) i))
    ∙ read_middle (reverse rev) g post

point_below-Placed :
    (h : Hit) (rev post : List Hit)
    → All (λ g. before g.time h.time ≡ false) post
    → Placed h (reverse rev ++ post) (point_below (reverse rev ++ post) h [] (length rev))
point_below-Placed h [] post late = record {
  pre = [];
  post = post;
  whole = refl;
  point = unfold point_below in refl;
  late = late;
  early = inl refl;
}
point_below-Placed h (g ∷ rev) post late =
    let at_g = read-reverse g rev post in
    let hits = reverse (g ∷ rev) ++ post in
    elim (Bool-cases (before g.time h.time)) [
      | inl e ↦ record {
        pre = reverse rev ++ g ∷ [];
        post = post;
        whole = reverse-cons_append g rev post ∙ sym (append_snoc (reverse rev) g post);
        point =
            point_found hits h (length rev) g at_g e
            ∙ ap done (ap suc (sym (length-reverse rev)) ∙ sym (length-snoc (reverse rev) g));
        late = late;
        early = inr (reverse rev, g, refl, e);
      }
      | inr e ↦ subst (Placed h hits) (sym (point_lower hits h (length rev) g at_g e)) (
          subst (λ l. Placed h l (point_below l h [] (length rev)))
            (sym (reverse-cons_append g rev post)) (point_below-Placed h rev (g ∷ post) (e, late)))
    ]

-- The point is after the last hit that is earlier, if there is one.
pub find_insertion_point-Placed :
    (h : Hit) (hits : List Hit) → Placed h hits (find_insertion_point hits h [])
unfolding find_insertion_point
find_insertion_point-Placed h hits =
    let all = reverse (reverse hits) ++ [] in
    let whole : all ≡ hits = append-nil _ ∙ reverse-reverse hits in
    let start = point_below-Placed h (reverse hits) [] tt in
    subst (λ l. Placed h l (point_below l h [] (length hits))) whole
      (subst (λ n. Placed h all (point_below all h [] n)) (length-reverse hits) start)

shift_stop : (hits : List Hit) (to : ℕ) → shift_right hits to to ≡ done hits
unfolding shift_right
shift_stop hits zero = refl
shift_stop hits (suc j) = ground arith

shift_step :
    (hits hits' : List Hit) (to j : ℕ) (h : Hit)
    → to ≤ j
    → read hits j ≡ done h
    → write hits (suc j) h ≡ done hits'
    → shift_right hits to (suc j) ≡ shift_right hits' to j
unfolding shift_right
shift_step hits hits' to j h le r w = ground arith

-- A hit that is copied onto the next place.
copy_up :
    (pre : List Hit) (g x : Hit) (tail : List Hit)
    → (read (pre ++ g ∷ x ∷ tail) (length pre) ≡ done g)
      × (write (pre ++ g ∷ x ∷ tail) (suc (length pre)) g ≡ done (pre ++ g ∷ g ∷ tail))
copy_up pre g x tail = (
  read_middle pre g (x ∷ tail),
  (λ i. write (sym (append_snoc pre g (x ∷ tail)) i) (sym (length-snoc pre g) i) g)
      ∙ write_middle (pre ++ g ∷ []) x tail g
      ∙ ap done (append_snoc pre g (g ∷ tail)),
)

-- The loop that makes room copies each hit one place up, down to the point.
pub shift_right-copy :
    (pre rev tail : List Hit) (x : Hit)
    → (d : Hit) × (shift_right
          (pre ++ (reverse rev ++ x ∷ tail))
          (length pre)
          (length pre + length rev)
        ≡ done (pre ++ d ∷ (reverse rev ++ tail)))
shift_right-copy pre [] tail x =
    (x, ap (shift_right (pre ++ x ∷ tail) (length pre)) (omega arith) ∙ shift_stop _ (length pre))
shift_right-copy pre (g ∷ rev) tail x =
    let (d, ih) = shift_right-copy pre rev (g ∷ tail) g in
    let (got, put) = copy_up (pre ++ reverse rev) g x tail in
    let at : length (pre ++ reverse rev) ≡ length pre + length rev =
      length-append pre (reverse rev) ∙ ap (λ n. length pre + n) (length-reverse rev) in
    let old : pre ++ (reverse (g ∷ rev) ++ x ∷ tail) ≡ (pre ++ reverse rev) ++ g ∷ x ∷ tail =
      ap (◌++◌ pre) (reverse-cons_append g rev (x ∷ tail))
      ∙ sym (append_assoc pre (reverse rev) _) in
    (
      d,
      ap (shift_right _ (length pre)) (omega arith)
          ∙ ap (λ l. shift_right l (length pre) (suc (length pre + length rev))) old
          ∙ shift_step _ _ (length pre) (length pre + length rev) g (omega arith) (rw at at got)
              (rw at at put)
          ∙ ap (λ l. shift_right l (length pre) (length pre + length rev))
              (append_assoc pre (reverse rev) (g ∷ g ∷ tail))
          ∙ ih
          ∙ ap (λ l. done (pre ++ d ∷ l)) (sym (reverse-cons_append g rev tail)),
    )
