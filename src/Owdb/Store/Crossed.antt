-- ===== src/Owdb/Store/Crossed.antt =====
-- Tests of Update with two new times, whose result depends on the order of a Go map.
use jelly.Base.{
  ℕ, ◌≡◌, refl, List, [], ◌∷◌, map, none, false, Bytes, read, write, bytes_eq, Run, done, panics,
  starved, if◌then◌else◌, ◌==◌, length,
}
use jelly.Time.{utc_zone}
use jelly.Owdb.Hit.{Hit, hit_equal, normalize}
use jelly.Owdb.Limits.{contains, is_impossible}
use jelly.Owdb.Filter.{matches}
use jelly.Owdb.Filter.Plan.{time_index_limits}
use jelly.Owdb.Store.{Store, Reply, empty_hit, apply_filter, find_insertion_point}
use jelly.Owdb.Store.Update.{update, apply_one}

abbrev show_bytes : List ℕ → Bytes
show_bytes ip = ip

abbrev last_key : List ℕ → ℕ
last_key keys = length keys

abbrev first_key : List ℕ → ℕ
first_key keys = 0

abbrev hit_at : ℕ → Hit
hit_at n = record empty_hit { time = record { instant = n; monotonic = none; zone = utc_zone } }

-- Hits at 2, 4, 6, 8 and 10, of which Update moves the first to 7 and the last to 0.
abbrev five_hits : List Hit
five_hits = hit_at 2 ∷ hit_at 4 ∷ hit_at 6 ∷ hit_at 8 ∷ hit_at 10 ∷ []

abbrev five_hits_store : Store
five_hits_store = record { data_file = []; closed = false; hits = five_hits }

abbrev crossed : Hit → Hit
crossed h = if h.time.instant == 2 then hit_at 7 else if h.time.instant == 10 then hit_at 0 else h

abbrev instants : Run (Reply (ℕ × ℕ) × Store) → List ℕ
instants (done (r, s)) = map (λ h. h.time.instant) s.hits
instants panics = []
instants starved = []

-- With the last key first the hits stay sorted; with the first key first they do not.
update-crossed_last :
    instants (update show_bytes last_key none crossed five_hits_store) ≡ 0 ∷ 4 ∷ 6 ∷ 7 ∷ 8 ∷ []
unfolding update apply_filter find_insertion_point time_index_limits contains is_impossible read
    matches apply_one hit_equal normalize write bytes_eq
update-crossed_last = refl

update-crossed_first :
    instants (update show_bytes first_key none crossed five_hits_store) ≡ 0 ∷ 4 ∷ 6 ∷ 8 ∷ 7 ∷ []
unfolding update apply_filter find_insertion_point time_index_limits contains is_impossible read
    matches apply_one hit_equal normalize write bytes_eq
update-crossed_first = refl
