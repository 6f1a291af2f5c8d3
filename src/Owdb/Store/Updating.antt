-- ===== src/Owdb/Store/Updating.antt =====
-- Update against its specification: every hit that the filter matches is replaced, none is lost.
use jelly.Base.{
  ℕ, suc, ◌+◌, ◌<◌, ◌≡◌, refl, sym, ap, ◌∙◌, subst, List, [], ◌∷◌, ◌++◌, map, some, Bool, true,
  false, not, ◌&&◌, Run, done, ◌>>=◌, read, write, read_middle, write_middle, if◌then◌else◌,
  if-false, length, length-append, length-snoc, append_snoc, All, Bool-cases, inl, inr, arith,
  Bytes, count_of,
}
use mathlib.Core.List.{Perm}
use jelly.Time.{same_time}
use jelly.Owdb.Hit.{Hit, hit_equal, normalize, a_value}
use jelly.Owdb.Filter.{Filter, matches}
use jelly.Owdb.Store.{Store, ok, apply_filter}
use jelly.Owdb.Store.Order.{IsSorted, AllPlain}
use jelly.Owdb.Store.Scan.{positions}
use jelly.Owdb.Store.Deletion.{length-positions}
use jelly.Owdb.Store.Query.{CanPlan, apply_filter-positions}
use jelly.Owdb.Store.Update.{
  Applied, apply_one, apply_updates, add_key, reindex, update_ids, update,
}
use jelly.Owdb.Store.Shifts.{InRange, add_key-InRange}
use jelly.Owdb.Store.Reindex.{reindex-Perm}

length-map : (f : Hit → Hit) (hs : List Hit) → length (map f hs) ≡ length hs
length-map f [] = refl
length-map f (h ∷ hs) = ap suc (length-map f hs)

InRange-replaced :
    (pre : List Hit) (h u : Hit) (rest : List Hit) (keys : List ℕ)
    → InRange (length (pre ++ h ∷ rest)) keys
    → InRange (length ((pre ++ u ∷ []) ++ rest)) keys
InRange-replaced pre h u rest keys =
    subst (λ n. InRange n keys)
      (length-append pre (h ∷ rest)
        ∙ sym (length-append pre (u ∷ rest))
        ∙ ap length (sym (append_snoc pre u rest)))

module _ (show_ip : List ℕ → Bytes) (new : Hit → Hit) (p : Hit → Bool) where
  -- The new hit differs from the old one.
  abbrev pub differs : Hit → Bool
  differs h = not (hit_equal show_ip (normalize (new h)) (a_value h))

  -- A hit after the update.
  abbrev pub updated : Hit → Hit
  updated h = if p h && differs h then normalize (new h) else h

  -- The update leaves the time of a hit as it was.
  abbrev pub KeepsTime : Hit → Type 0
  KeepsTime h = same_time (normalize (new h)).time h.time ≡ true

  -- What the loop over the ids leaves.
  record Done (pre rest : List Hit) (a : Applied) (r : Run Applied) : Type 0 where
    result : Applied
    computed : r ≡ done result
    hits_are : result.hits ≡ pre ++ map updated rest
    counted : result.update_count ≡ a.update_count + count_of (λ h. p h && differs h) rest
    in_range : InRange (length (pre ++ rest)) result.time_index_changes
    no_changes : All KeepsTime rest → result.time_index_changes ≡ a.time_index_changes

  abbrev next_changes : ℕ → Hit → List ℕ → List ℕ
  next_changes id h keys =
      if same_time (normalize (new h)).time h.time then keys else add_key id keys

  apply_same :
      (id : ℕ) (h : Hit) (a : Applied) → differs h ≡ false → apply_one show_ip new id h a ≡ done a
  unfolding apply_one
  apply_same id h a e = ground arith

  apply_changed :
      (id : ℕ) (h : Hit) (a : Applied) (hits : List Hit)
      → differs h ≡ true
      → write a.hits id (normalize (new h)) ≡ done hits
      → apply_one show_ip new id h a
        ≡ done (record {
          hits = hits;
          time_index_changes = next_changes id h a.time_index_changes;
          update_count = suc a.update_count;
        })
  unfolding apply_one
  apply_changed id h a hits e w =
      let q : hit_equal show_ip (normalize (new h)) (a_value h) ≡ false = ground arith in
      rw (q, w) refl

  next_changes-InRange :
      (n id : ℕ) (h : Hit) (keys : List ℕ)
      → id < n
      → InRange n keys
      → InRange n (next_changes id h keys)
  next_changes-InRange n id h keys lt r =
      elim (Bool-cases (same_time (normalize (new h)).time h.time)) [
        | inl e ↦ rw e r
        | inr e ↦ rw e (add_key-InRange n id keys lt r)
      ]

  count_step :
      (h : Hit) (rest : List Hit) (n m : ℕ)
      → m ≡ (if p h && differs h then suc n else n)
      → m + count_of (λ h. p h && differs h) rest ≡ n + count_of (λ h. p h && differs h) (h ∷ rest)
  count_step h rest n m e = ground arith

  -- One hit more in front.
  extend :
      {r r' : Run Applied} (pre : List Hit) (h : Hit) (rest : List Hit) (a a' : Applied) (u : Hit)
      → updated h ≡ u
      → a'.update_count ≡ (if p h && differs h then suc a.update_count else a.update_count)
      → (KeepsTime h → a'.time_index_changes ≡ a.time_index_changes)
      → r ≡ r'
      → Done (pre ++ u ∷ []) rest a' r'
      → Done pre (h ∷ rest) a r
  extend pre h rest a a' u e c k same d = record {
    result = d.result;
    computed = same ∙ d.computed;
    hits_are =
        d.hits_are
        ∙ append_snoc pre u (map updated rest)
        ∙ (λ i. pre ++ sym e i ∷ map updated rest);
    counted = d.counted ∙ count_step h rest a.update_count a'.update_count c;
    in_range =
        subst (λ n. InRange n d.result.time_index_changes)
          (ap length (append_snoc pre u rest)
            ∙ length-append pre (u ∷ rest)
            ∙ sym (length-append pre (h ∷ rest)))
          d.in_range;
    no_changes = λ ks. d.no_changes ks.1 ∙ k ks.0;
  }

  apply_updates-Done :
      (pre rest : List Hit) (a : Applied)
      → a.hits ≡ pre ++ rest
      → InRange (length (pre ++ rest)) a.time_index_changes
      → Done pre rest a (apply_updates show_ip new (positions p (length pre) rest) a)
  unfolding apply_updates
  apply_updates-Done pre [] a e r = record {
    result = a;
    computed = refl;
    hits_are = e;
    counted = omega arith;
    in_range = r;
    no_changes = λ k. refl;
  }
  apply_updates-Done pre (h ∷ rest) a e r = elim (Bool-cases (p h)) [
    | inr q ↦
        extend pre h rest a a h (rw q refl) (rw q refl) (λ k. refl)
          (rw q (λ i. apply_updates show_ip new (positions p (sym (length-snoc pre h) i) rest) a))
          (apply_updates-Done (pre ++ h ∷ []) rest a (e ∙ sym (append_snoc pre h rest))
            (InRange-replaced pre h h rest _ r))
    | inl q ↦ elim (Bool-cases (differs h)) [
      | inr d ↦
          extend pre h rest a a h (rw (q, d) refl) (rw (q, d) refl) (λ k. refl)
            (rw (q, got, apply_same (length pre) h a d)
              (λ i. apply_updates show_ip new (positions p (sym (length-snoc pre h) i) rest) a))
            (apply_updates-Done (pre ++ h ∷ []) rest a (e ∙ sym (append_snoc pre h rest))
              (InRange-replaced pre h h rest _ r))
      | inl d ↦
          let new_hit = normalize (new h) in
          let a' : Applied = record {
            hits = pre ++ new_hit ∷ rest;
            time_index_changes = next_changes (length pre) h a.time_index_changes;
            update_count = suc a.update_count;
          } in
          let put : write a.hits (length pre) new_hit ≡ done (pre ++ new_hit ∷ rest) =
            (λ i. write (e i) (length pre) new_hit) ∙ write_middle pre h rest new_hit in
          extend pre h rest a a' new_hit (rw (q, d) refl) (rw (q, d) refl) (λ k. rw k refl)
            (rw (q, got, apply_changed (length pre) h a (pre ++ new_hit ∷ rest) d put)
              (λ i.
                apply_updates show_ip new (positions p (sym (length-snoc pre new_hit) i) rest) a'))
            (apply_updates-Done (pre ++ new_hit ∷ []) rest a' (sym (append_snoc pre new_hit rest)) (
              InRange-replaced pre h new_hit rest _ (
                next_changes-InRange (length (pre ++ h ∷ rest)) (length pre) h a.time_index_changes
                  (omega (arith, length-append pre (h ∷ rest))) r)))
    ]
  ]
    where
      got : read a.hits (length pre) ≡ done h
      got = (λ i. read (e i) (length pre)) ∙ read_middle pre h rest

  module _ (choose : List ℕ → ℕ) (s : Store) where
    -- The calls after the selection of the ids.
    update_ids-steps :
        (ids : List ℕ)
        → update_ids show_ip choose new ids s ≡ (
            apply_updates show_ip new ids
              (record { hits = s.hits; time_index_changes = []; update_count = 0 })
            >>= λ a.
                reindex choose (length a.time_index_changes) a.time_index_changes a.hits >>= λ hits.
                done (ok (length ids, a.update_count), record s { hits = hits }))
    unfolding update_ids apply_updates reindex
    update_ids-steps [] = refl
    update_ids-steps (id ∷ ids) = refl

    abbrev start : Applied
    start = record { hits = s.hits; time_index_changes = []; update_count = 0 }

    applied : Done [] s.hits start (apply_updates show_ip new (positions p 0 s.hits) start)
    applied = apply_updates-Done [] s.hits start refl tt

    -- What is returned, for the hits that the re-indexing leaves.
    update-result :
        (f : Filter) (hits : List Hit)
        → s.closed ≡ false
        → apply_filter (some f) s.hits ≡ done (positions p 0 s.hits)
        → reindex choose
            (length applied.result.time_index_changes)
            applied.result.time_index_changes
            applied.result.hits
          ≡ done hits
        → update show_ip choose (some f) new s
          ≡ done (
            ok (count_of p s.hits, count_of (λ h. p h && differs h) s.hits),
            record s { hits = hits },
          )
    unfolding update
    update-result f hits o found re =
        let differing : applied.result.update_count ≡ count_of (λ h. p h && differs h) s.hits =
          omega (arith, applied.counted) in
        if-false s.closed _ _ o
        ∙ rw (found, update_ids-steps (positions p 0 s.hits), applied.computed, re)
            (λ i. done (ok (length-positions p 0 s.hits i, differing i), record s { hits = hits }))

-- Update replaces every hit that the filter matches by the normalized new one, if the two differ,
-- keeps the others, and returns how many it matched and how many differed, whatever the order of
-- its map, if the store is open and its hits are sorted, with times as a store keeps them, the
-- store can plan with the filter and no match panics. The order of the hits may change.
pub update-Perm :
    (show_ip : List ℕ → Bytes) (new : Hit → Hit) (p : Hit → Bool) (choose : List ℕ → ℕ) (s : Store)
    (f : Filter)
    → s.closed ≡ false
    → CanPlan f
    → IsSorted s.hits
    → AllPlain s.hits
    → All (λ h. matches f h ≡ done (p h)) s.hits
    → (hits : List Hit) × (update show_ip choose (some f) new s
        ≡ done (
          ok (count_of p s.hits, count_of (λ h. p h && differs show_ip new p h) s.hits),
          record s { hits = hits },
        ))
      × Perm hits (map (updated show_ip new p) s.hits)
update-Perm show_ip new p choose s f o c sorted pl m =
    let a = applied show_ip new p choose s in
    let (hits, re, same) =
      reindex-Perm choose (length a.result.time_index_changes) a.result.time_index_changes
        a.result.hits
        (subst (λ n. InRange n a.result.time_index_changes)
          (sym (ap length a.hits_are ∙ length-map (updated show_ip new p) s.hits)) a.in_range)
        (omega arith) in
    (
      hits,
      update-result show_ip new p choose s f hits o
          (apply_filter-positions f p s.hits c sorted pl m) re,
      subst (Perm hits) a.hits_are same,
    )

reindex-nothing :
    (choose : List ℕ → ℕ) (keys : List ℕ) (hits : List Hit)
    → keys ≡ []
    → reindex choose (length keys) keys hits ≡ done hits
unfolding reindex
reindex-nothing choose keys hits e = rw e refl

-- If the store is open and its hits are sorted, with times as a store keeps them, the store can
-- plan with the filter, no match panics, and the function gives every hit of the store a new one
-- with its time, Update replaces the hits that the filter matches where they are, whatever the
-- order of its map, and returns how many it matched and how many differed.
pub update-eq-map :
    (show_ip : List ℕ → Bytes) (new : Hit → Hit) (p : Hit → Bool) (choose : List ℕ → ℕ) (s : Store)
    (f : Filter)
    → s.closed ≡ false
    → CanPlan f
    → IsSorted s.hits
    → AllPlain s.hits
    → All (λ h. matches f h ≡ done (p h)) s.hits
    → All (KeepsTime show_ip new p) s.hits
    → update show_ip choose (some f) new s
      ≡ done (
        ok (count_of p s.hits, count_of (λ h. p h && differs show_ip new p h) s.hits),
        record s { hits = map (updated show_ip new p) s.hits },
      )
update-eq-map show_ip new p choose s f o c sorted pl m same =
    let a = applied show_ip new p choose s in
    update-result show_ip new p choose s f (map (updated show_ip new p) s.hits) o
      (apply_filter-positions f p s.hits c sorted pl m)
      (reindex-nothing choose a.result.time_index_changes a.result.hits (a.no_changes same)
        ∙ ap done a.hits_are)
