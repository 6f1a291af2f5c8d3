-- ===== src/Owdb/Store/Update.antt =====
-- Update of db/owdb/owdb.go. The function that makes the new hits is a pure one. A Go map is a list
-- of its keys; `choose` says which key an iteration over a map of these keys sees first.
use jelly.Base.{
  ℕ, zero, suc, ◌-◌, List, [], ◌∷◌, ◌++◌, Option, Bool, false, ◌||◌, Run, done, starved, ◌>>=◌,
  read, write, if◌then◌else◌, ltb, ◌==◌, length, Bytes,
}
use jelly.Time.{same_time}
use jelly.Owdb.Hit.{Hit, hit_equal, normalize, a_value}
use jelly.Owdb.Filter.{Filter}
use jelly.Owdb.Store.{Store, Reply, ok, closed_store, apply_filter, find_insertion_point}

-- Keys of a `map[int]struct{}`.
unfoldable pub member : ℕ → List ℕ → Bool
member k [] = false
member k (x ∷ xs) = k == x || member k xs

unfoldable pub add_key : ℕ → List ℕ → List ℕ
unfolding member
add_key k keys = if member k keys then keys else keys ++ k ∷ []

unfoldable pub add_keys : List ℕ → List ℕ → List ℕ
unfolding add_key
add_keys [] keys = keys
add_keys (k ∷ ks) keys = add_keys ks (add_key k keys)

unfoldable pub delete_key : ℕ → List ℕ → List ℕ
delete_key k [] = []
delete_key k (x ∷ xs) = let rest = delete_key k xs in if k == x then rest else x ∷ rest

-- What the loop over the ids changes.
pub record Applied : Type 0 where
  pub hits : List Hit
  pub time_index_changes : List ℕ
  pub update_count : ℕ

module _ (show_ip : List ℕ → Bytes) (update : Hit → Hit) where
  -- The body of the loop over the ids, for the hit that the id has.
  unfoldable pub apply_one : ℕ → Hit → Applied → Run Applied
  unfolding add_key
  apply_one id old_hit a =
      let new_hit = normalize (update old_hit) in
      if hit_equal show_ip new_hit (a_value old_hit) then done a else (do
        hits ← write a.hits id new_hit
        done (record {
          hits = hits;
          time_index_changes =
              if same_time new_hit.time old_hit.time
              then a.time_index_changes
              else add_key id a.time_index_changes;
          update_count = suc a.update_count;
        }))

  unfoldable pub apply_updates : List ℕ → Applied → Run Applied
  apply_updates [] a = done a
  apply_updates (id ∷ ids) a =
      read a.hits id >>= λ old_hit. apply_one id old_hit a >>= λ a'. apply_updates ids a'

-- What the shifts change: the hits, the keys still to visit and the keys that have moved.
pub record Moving : Type 0 where
  pub hits : List Hit
  pub time_index_changes : List ℕ
  pub updated_time_changes : List ℕ

-- If it is an ID that needs to be re-indexed, shift it.
unfoldable pub mark : (from to : ℕ) → Moving → Moving
unfolding add_key delete_key member
mark from to m =
    if member from m.time_index_changes
    then record m {
      time_index_changes = delete_key from m.time_index_changes;
      updated_time_changes = add_key to m.updated_time_changes;
    }
    else m

-- `for i := i; i < i+rounds; i++`, each hit copied to the place before it
unfoldable pub move_left : (i rounds : ℕ) → Moving → Run Moving
unfolding mark
move_left i zero m = done m
move_left i (suc rounds) m = do
  h ← read m.hits (suc i)
  hits ← write m.hits i h
  move_left (suc i) rounds (mark (suc i) i (record m { hits = hits }))

-- `for i := i; i > to; i--`, each hit copied to the place after it
unfoldable pub move_right : (to i : ℕ) → Moving → Run Moving
unfolding mark
move_right to zero m = done m
move_right to (suc j) m =
    if ltb to (suc j)
    then (do
      h ← read m.hits j
      hits ← write m.hits (suc j) h
      move_right to j (mark j (suc j) (record m { hits = hits })))
    else done m

-- The keys after a round: the moved ones are merged in, if there are any.
unfoldable pub merged_keys : (moved waiting : List ℕ) → List ℕ
unfolding add_keys
merged_keys [] waiting = waiting
merged_keys (k ∷ ks) waiting = add_keys waiting (k ∷ ks)

-- One round of the re-indexing, for a key that has been popped.
unfoldable pub reindex_one : (id : ℕ) → (rest : List ℕ) → List Hit → Run (List Hit × List ℕ)
unfolding move_left move_right merged_keys
reindex_one id rest hits = do
  updated_hit ← read hits id
  new_point ← find_insertion_point hits updated_hit (id ∷ [])
  let start : Moving = record { hits = hits; time_index_changes = rest; updated_time_changes = [] }
  if new_point == id
      then done (hits, rest)
      else if ltb id new_point
      then (do
        m ← move_left id (new_point - 1 - id) start
        placed ← write m.hits (new_point - 1) updated_hit
        done (placed, merged_keys m.updated_time_changes m.time_index_changes))
      else (do
        m ← move_right new_point id start
        placed ← write m.hits new_point updated_hit
        done (placed, merged_keys m.updated_time_changes m.time_index_changes))

-- A key of a map that is not empty and the map without it; past the end the last key is taken.
unfoldable pub pop : ℕ → ℕ → List ℕ → ℕ × List ℕ
pop n k [] = (k, [])
pop zero k (x ∷ xs) = (k, x ∷ xs)
pop (suc n) k (x ∷ xs) = let (found, rest) = pop n x xs in (found, k ∷ rest)

-- `for len(timeIndexChanges) > 0`, at most `fuel` rounds
unfoldable pub reindex : (choose : List ℕ → ℕ) → (fuel : ℕ) → List ℕ → List Hit → Run (List Hit)
unfolding reindex_one pop
reindex choose fuel [] hits = done hits
reindex choose zero (k ∷ ks) hits = starved
reindex choose (suc fuel) (k ∷ ks) hits =
    let (id, rest) = pop (choose (k ∷ ks)) k ks in
    reindex_one id rest hits >>= λ (r : List Hit × List ℕ). reindex choose fuel r.1 r.0

-- From the ids to the end of `Update`. A round takes one key away, so the number of keys is fuel.
unfoldable pub update_ids :
    (List ℕ → Bytes)
    → (choose : List ℕ → ℕ) → (Hit → Hit)
    → List ℕ
    → Store
    → Run (Reply (ℕ × ℕ) × Store)
unfolding apply_updates reindex
update_ids show_ip choose update [] s = done (ok (0, 0), s)
update_ids show_ip choose update (first ∷ others) s = do
  let matched_ids = first ∷ others
  a ←
      apply_updates show_ip update matched_ids
        (record { hits = s.hits; time_index_changes = []; update_count = 0 })
  hits ← reindex choose (length a.time_index_changes) a.time_index_changes a.hits
  done (ok (length matched_ids, a.update_count), record s { hits = hits })

-- `Update`
unfoldable pub update :
    (List ℕ → Bytes)
    → (choose : List ℕ → ℕ) → Option Filter
    → (Hit → Hit)
    → Store
    → Run (Reply (ℕ × ℕ) × Store)
unfolding update_ids
update show_ip choose f new s =
    if s.closed
    then done (closed_store, s)
    else (do matched_ids ← apply_filter f s.hits; update_ids show_ip choose new matched_ids s)
