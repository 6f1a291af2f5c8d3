-- ===== src/Owdb/Store/Insertion.antt =====
-- Insert puts a hit at its place in time.
use jelly.Base.{
  ◌+◌, ◌-◌, ◌≤◌, ◌<◌, ◌≡◌, refl, sym, ap, ◌∙◌, inl, inr, List, [], ◌∷◌, ◌++◌, true, false, Run,
  done, write_middle, length, length-append, length-snoc, append_snoc, length-reverse, All, All-map,
  arith, if-false, subst, All-right, All-append, All-left,
}
use mathlib.Core.List.{reverse, append-nil, append_assoc, reverse-reverse}
use jelly.Time.{before, IsPlain}
use jelly.Owdb.Hit.{Hit, normalize}
use jelly.Owdb.Store.{Store, Reply, ok, insert, empty_hit, shift_right, find_insertion_point}
use jelly.Owdb.Store.Order.{IsSorted, AllPlain, sorted_before, IsSorted-insert}
use jelly.Owdb.Store.Place.{find_insertion_point-Placed, shift_right-copy}

-- Room is made between two parts of the slice.
make_room :
    (pre post : List Hit)
    → (d : Hit) × (shift_right
          ((pre ++ post) ++ empty_hit ∷ [])
          (length pre)
          (length ((pre ++ post) ++ empty_hit ∷ []) - 1)
        ≡ done (pre ++ d ∷ post))
make_room pre post =
    let (d, copied) = shift_right-copy pre (reverse post) [] empty_hit in
    let same = reverse-reverse post in
    let size : length ((pre ++ post) ++ empty_hit ∷ []) - 1 ≡ length pre + length (reverse post) =
      omega
        (arith, length-snoc (pre ++ post) empty_hit, length-append pre post, length-reverse post) in
    (
      d,
      (λ i.
            shift_right
              ((append_assoc pre post (empty_hit ∷ [])
                  ∙ ap (λ l. pre ++ (l ++ empty_hit ∷ [])) (sym same))
                i)
              (length pre) (size i))
          ∙ copied
          ∙ ap (λ l. done (pre ++ d ∷ l)) (append-nil _ ∙ same),
    )

-- Where Insert puts a hit: behind all that are earlier, and before all others.
pub record Inserted (h : Hit) (s : Store) (r : Run (Reply (Unit {0}) × Store)) : Type 0 where
  pub pre : List Hit
  pub post : List Hit
  pub whole : s.hits ≡ pre ++ post
  pub computed : r ≡ done (ok tt, record s { hits = pre ++ normalize h ∷ post })
  pub earlier : All (λ g. g.time.instant < h.time.instant) pre
  pub not_earlier : All (λ g. h.time.instant ≤ g.time.instant) post

insert_placed :
    (h : Hit) (s : Store) (pre post : List Hit)
    → s.closed ≡ false
    → s.hits ≡ pre ++ post
    → find_insertion_point s.hits (normalize h) [] ≡ done (length pre)
    → insert h s ≡ done (ok tt, record s { hits = pre ++ normalize h ∷ post })
unfolding insert
insert_placed h s pre post o whole point =
    let (d, room) = make_room pre post in
    let made : shift_right (s.hits ++ empty_hit ∷ []) (length pre)
          (length (s.hits ++ empty_hit ∷ []) - 1)
        ≡ done (pre ++ d ∷ post) =
      subst
        (λ l.
          shift_right (l ++ empty_hit ∷ []) (length pre) (length (l ++ empty_hit ∷ []) - 1)
          ≡ done (pre ++ d ∷ post))
        (sym whole) room in
    if-false s.closed _ _ o ∙ rw (point, made, write_middle pre d post (normalize h))

le_normalize :
    (g h : Hit) → g.time.instant < h.time.instant → g.time.instant ≤ (normalize h).time.instant
unfolding normalize
le_normalize g h lt = omega arith

normalize_le :
    (g h : Hit) → h.time.instant ≤ g.time.instant → (normalize h).time.instant ≤ g.time.instant
unfolding normalize
normalize_le g h le = le

pub IsPlain-normalize : (h : Hit) → IsPlain (normalize h).time
unfolding normalize
IsPlain-normalize h = record { bare = refl; in_utc = refl }

-- On plain times Before compares the instants.
before-lt :
    (g h : Hit)
    → IsPlain g.time
    → before g.time (normalize h).time ≡ true
    → g.time.instant < h.time.instant
unfolding normalize
before-lt g h p e = ground arith

before-le :
    (g h : Hit)
    → IsPlain g.time
    → before g.time (normalize h).time ≡ false
    → h.time.instant ≤ g.time.instant
unfolding normalize
before-le g h p e = ground arith

All-before-le :
    (h : Hit) (hs : List Hit)
    → AllPlain hs
    → All (λ g. before g.time (normalize h).time ≡ false) hs
    → All (λ g. h.time.instant ≤ g.time.instant) hs
All-before-le h [] p e = tt
All-before-le h (g ∷ hs) p e = (before-le g h p.0 e.0, All-before-le h hs p.1 e.1)

-- If the last of some sorted hits is earlier than another hit, all of them are.
All-before-lt :
    (h : Hit) (a : List Hit) (g : Hit) (post : List Hit)
    → IsSorted ((a ++ g ∷ []) ++ post)
    → AllPlain ((a ++ g ∷ []) ++ post)
    → before g.time (normalize h).time ≡ true
    → All (λ x. x.time.instant < h.time.instant) (a ++ g ∷ [])
All-before-lt h a g post s p e =
    let same = append_snoc a g post in
    let plain = All-right (λ x. IsPlain x.time) a (g ∷ post) (subst AllPlain same p) in
    let lt = before-lt g h plain.0 e in
    All-append (λ x. x.time.instant < h.time.instant) a (g ∷ [])
      (All-map (λ x. x.time.instant ≤ g.time.instant) (λ x. x.time.instant < h.time.instant) a
        (λ x le. omega arith) (sorted_before a g post (subst IsSorted same s)))
      (lt, tt)

-- On an open store whose hits are sorted, with times as a store keeps them, Insert puts the
-- normalized hit behind all hits that are earlier and before all others, and changes nothing else.
pub insert-Inserted :
    (h : Hit) (s : Store)
    → s.closed ≡ false
    → IsSorted s.hits
    → AllPlain s.hits
    → Inserted h s (insert h s)
insert-Inserted h s o sorted plain =
    let place = find_insertion_point-Placed (normalize h) s.hits in
    let plain' : AllPlain (place.pre ++ place.post) = subst AllPlain place.whole plain in
    let sorted' : IsSorted (place.pre ++ place.post) = subst IsSorted place.whole sorted in
    record {
      pre = place.pre;
      post = place.post;
      whole = place.whole;
      computed = insert_placed h s place.pre place.post o place.whole place.point;
      earlier = elim place.early [
        | inl e ↦ rw e tt
        | inr (a, g, e, b) ↦ rw e (
            All-before-lt h a g place.post (subst (λ l. IsSorted (l ++ place.post)) e sorted')
              (subst (λ l. AllPlain (l ++ place.post)) e plain') b)
      ];
      not_earlier =
          All-before-le h place.post (All-right (λ g. IsPlain g.time) place.pre place.post plain')
            place.late;
    }

-- Insert into an open store whose hits are sorted, with times as a store keeps them, returns, and
-- leaves hits that are sorted, with such times.
pub insert-IsSorted :
    (h : Hit) (s : Store)
    → s.closed ≡ false
    → IsSorted s.hits
    → AllPlain s.hits
    → (s' : Store) × (insert h s ≡ done (ok tt, s')) × IsSorted s'.hits × AllPlain s'.hits
insert-IsSorted h s o sorted plain =
    let r = insert-Inserted h s o sorted plain in
    let early =
      All-map (λ g. g.time.instant < h.time.instant)
        (λ g. g.time.instant ≤ (normalize h).time.instant) r.pre (λ g lt. le_normalize g h lt)
        r.earlier in
    let late =
      All-map (λ g. h.time.instant ≤ g.time.instant)
        (λ g. (normalize h).time.instant ≤ g.time.instant) r.post (λ g le. normalize_le g h le)
        r.not_earlier in
    let plain' = subst AllPlain r.whole plain in
    (
      record s { hits = r.pre ++ normalize h ∷ r.post },
      r.computed,
      IsSorted-insert r.pre (normalize h) r.post (subst IsSorted r.whole sorted) early late,
      All-append (λ g. IsPlain g.time) r.pre (normalize h ∷ r.post)
          (All-left (λ g. IsPlain g.time) r.pre r.post plain')
          (IsPlain-normalize h, All-right (λ g. IsPlain g.time) r.pre r.post plain'),
    )
