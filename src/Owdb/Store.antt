-- ===== src/Owdb/Store.antt =====
-- Store of db/owdb/owdb.go: the hits, ordered by time, and the calls on them. A call is modelled as
-- it runs under the store's mutex; a call on a closed store is an error. Go's maps iterate in an
-- order that it leaves open, so Update takes one.
pub mod Order
pub mod Scan
pub mod Query
pub mod Compact
pub mod Gaps
pub mod Deletion
pub mod Insertion
pub mod Place
pub mod Crossed
pub mod Updating
pub mod Points
pub mod Reindex
pub mod Shifts
pub mod Update
pub mod Behaviour
use jelly.Base.{
  ℕ, zero, suc, ◌+◌, ◌-◌, List, [], ◌∷◌, ◌++◌, Option, none, some, Bool, true, false, not, ◌&&◌,
  Bytes, Run, done, panics, starved, ◌>>=◌, ◌>>◌, read, write, if◌then◌else◌, ltb, leb, ◌==◌,
  length, take,
}
use jelly.Time.{Time, after, before, equal, same_time, zero_time}
use jelly.Owdb.Limits.{Limits, unlimited, is_impossible, contains}
use jelly.Owdb.Hit.{Hit, Requester, hit_equal, normalize, a_value}
use jelly.Owdb.Filter.{Criterion, Where, Filter, a_where, matches}
use jelly.Owdb.Filter.Plan.{time_index_limits}

pub record Store : Type 0 where
  pub data_file : Bytes
  pub closed : Bool
  pub hits : List Hit

-- What a call returns: a value, or the error of a call on a closed store.
pub data Reply (A : Type 0) : Type 0 where
  ok : A → Reply A
  closed_store : Reply A

-- `Criterion[E]{}` and `Where{}`
abbrev pub no_criterion : {E : Type 0} → Criterion E
no_criterion = record { meets = none; format = []; not_format = []; est_limits = unlimited }

abbrev pub empty_where : Where
empty_where = record {
  time = no_criterion;
  host = no_criterion;
  resource = no_criterion;
  client_address = no_criterion;
  client_country = no_criterion;
  client_city = no_criterion;
}

-- `Hit{}`
abbrev pub empty_hit : Hit
empty_hit = record {
  time = zero_time;
  host = [];
  resource = [];
  client = record { address = none; country = []; city = [] };
}

-- The scan of applyFilter: where the hits within the limits start, and where they end, if the scan
-- sees either. `i` is the index of the next hit.
pub scan : Limits Time → ℕ → Option ℕ → List Hit → Option ℕ × Option ℕ
scan bounds i start [] = (start, none)
scan bounds i start (h ∷ hs) = elim (contains equal after bounds h.time) [
  | true ↦ scan bounds (suc i) (elim start [ none ↦ some i | some s ↦ some s ]) hs
  | false ↦ elim start [ none ↦ scan bounds (suc i) none hs | some s ↦ (some s, some i) ]
]

-- The loop of applyFilter over the next `rounds` indices from `i`.
pub select_ids : (Hit → Run Bool) → List Hit → (i rounds : ℕ) → List ℕ → Run (List ℕ)
select_ids test hits i zero selected = done selected
select_ids test hits i (suc rounds) selected = do
  h ← read hits i
  met ← test h
  select_ids test hits (suc i) rounds (if met then selected ++ i ∷ [] else selected)

abbrev pub or_else : Option ℕ → ℕ → ℕ
or_else none d = d
or_else (some e) d = e

-- From the scan to the selected ids.
pub select_scanned : (Hit → Run Bool) → List Hit → Option ℕ × Option ℕ → Run (List ℕ)
unfolding select_ids
select_scanned test hits (none, end) = done []
select_scanned test hits (some start, end) =
    select_ids test hits start (or_else end (length hits) - start) []

abbrev pub filter_or_all : Option Filter → Filter
filter_or_all none = a_where empty_where
filter_or_all (some f) = f

-- `applyFilter`
pub apply_filter : Option Filter → List Hit → Run (List ℕ)
unfolding scan select_scanned
apply_filter given hits = do
  let f = filter_or_all given
  limits ← time_index_limits f
  let bounds = if is_impossible after limits then unlimited else limits
  select_scanned (matches f) hits (scan bounds 0 none hits)

-- `sliceIndexOf`, for a slice of ints
slice_index_of : List ℕ → ℕ → Option ℕ
slice_index_of [] item = none
slice_index_of (x ∷ xs) item =
    let rest = slice_index_of xs item in
    if x == item then some 0 else (elim rest [ none ↦ none | some i ↦ some (suc i) ])

-- The loop of findInsertionPoint, with the indices below `i` left to look at.
pub point_below : List Hit → Hit → List ℕ → (i : ℕ) → Run ℕ
point_below hits h skip zero = done 0
point_below hits h skip (suc i) = elim (slice_index_of skip i) [
  | some _ ↦ point_below hits h skip i
  | none ↦
      read hits i >>= λ g. if before g.time h.time then done (suc i) else point_below hits h skip i
]

-- `findInsertionPoint`
pub find_insertion_point : List Hit → Hit → List ℕ → Run ℕ
unfolding point_below slice_index_of
find_insertion_point hits h skip = point_below hits h skip (length hits)

-- `for i := i; i > to; i-- { s.hits[i] = s.hits[i-1] }`
pub shift_right : List Hit → (to i : ℕ) → Run (List Hit)
shift_right hits to zero = done hits
shift_right hits to (suc j) =
    if ltb to (suc j)
    then (do h ← read hits j; hits' ← write hits (suc j) h; shift_right hits' to j)
    else done hits

-- `Insert`
pub insert : Hit → Store → Run (Reply (Unit {0}) × Store)
unfolding find_insertion_point shift_right
insert given s = if s.closed then done (closed_store, s) else (do
  let h = normalize given
  insert_at ← find_insertion_point s.hits h []
  let hits = s.hits ++ empty_hit ∷ []
  hits' ← shift_right hits insert_at (length hits - 1)
  hits'' ← write hits' insert_at h
  done (ok tt, record s { hits = hits'' }))

-- The loop of Select over the ids.
pub collect : List Hit → List ℕ → List Hit → Run (List Hit)
collect hits [] selected = done selected
collect hits (id ∷ ids) selected = read hits id >>= λ h. collect hits ids (selected ++ h ∷ [])

-- `Select`
pub select : Option Filter → Store → Run (Reply (List Hit))
unfolding apply_filter collect
select f s =
    if s.closed
    then done closed_store
    else (do ids ← apply_filter f s.hits; selected ← collect s.hits ids []; done (ok selected))

-- The inner loop of Delete: past the ids that follow on, at most `fuel` of them.
pub next_shift : (fuel : ℕ) → List ℕ → (i shift : ℕ) → Run ℕ
next_shift zero to_del i shift = starved
next_shift (suc fuel) to_del i shift =
    if ltb shift (length to_del)
    then (do
      d ← read to_del shift
      if i + shift == d then next_shift fuel to_del i (suc shift) else done shift)
    else done shift

-- The outer loop of Delete, which closes the gaps.
pub compact : (fuel : ℕ) → List ℕ → (i shift : ℕ) → List Hit → Run (List Hit)
compact zero to_del i shift hits = starved
compact (suc fuel) to_del i shift hits =
    if ltb (i + shift) (length hits)
    then (do
      shift' ← next_shift (suc (length to_del)) to_del i shift
      if leb (length hits) (i + shift') then done hits else (do
        h ← read hits (i + shift')
        hits' ← write hits i h
        compact fuel to_del (suc i) shift' hits'))
    else done hits

-- `Delete`, from the ids to delete.
pub delete_ids : List ℕ → Store → Run (Reply ℕ × Store)
unfolding compact next_shift
delete_ids [] s = done (ok 0, s)
delete_ids (first ∷ others) s = do
  let to_del = first ∷ others
  hits ← compact (suc (length s.hits)) to_del first 1 s.hits
  done (ok (length to_del), record s { hits = take (length hits - length to_del) hits })

-- `Delete`
pub delete : Option Filter → Store → Run (Reply ℕ × Store)
unfolding apply_filter delete_ids
delete f s =
    if s.closed
    then done (closed_store, s)
    else (do to_del ← apply_filter f s.hits; delete_ids to_del s)
