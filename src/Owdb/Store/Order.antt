-- ===== src/Owdb/Store/Order.antt =====
-- What holds of the hits of a store.
use jelly.Base.{
  Bool, List, [], ◌∷◌, ◌++◌, ◌≤◌, inl, inr, Bool-cases, keep, All, All-keep, All-append, All-left,
  All-right,
}
use jelly.Time.{IsPlain}
use jelly.Owdb.Hit.{Hit}

-- Each hit is no later than those after it.
abbrev pub IsSorted : List Hit → Type 0
IsSorted [] = Unit {0}
IsSorted (h ∷ hs) = All (λ g. h.time.instant ≤ g.time.instant) hs × IsSorted hs

abbrev pub AllPlain : List Hit → Type 0
AllPlain = All (λ h. IsPlain h.time)

-- The hits before one in the middle of a sorted list are no later than it.
pub sorted_before :
    (a : List Hit) (g : Hit) (b : List Hit)
    → IsSorted (a ++ g ∷ b)
    → All (λ x. x.time.instant ≤ g.time.instant) a
sorted_before [] g b s = tt
sorted_before (x ∷ a) g b (s, ss) =
    ((All-right (λ y. x.time.instant ≤ y.time.instant) a (g ∷ b) s).0, sorted_before a g b ss)

pub IsSorted-right : (a b : List Hit) → IsSorted (a ++ b) → IsSorted b
IsSorted-right [] b s = s
IsSorted-right (x ∷ a) b s = IsSorted-right a b s.1

-- A hit between earlier ones and others no earlier than it.
pub IsSorted-insert :
    (pre : List Hit) (h : Hit) (post : List Hit)
    → IsSorted (pre ++ post)
    → All (λ g. g.time.instant ≤ h.time.instant) pre
    → All (λ g. h.time.instant ≤ g.time.instant) post
    → IsSorted (pre ++ h ∷ post)
IsSorted-insert [] h post s early late = (late, s)
IsSorted-insert (g ∷ pre) h post s early late = (
  All-append (λ x. g.time.instant ≤ x.time.instant) pre (h ∷ post)
      (All-left (λ x. g.time.instant ≤ x.time.instant) pre post s.0)
      (early.0, All-right (λ x. g.time.instant ≤ x.time.instant) pre post s.0),
  IsSorted-insert pre h post s.1 early.1 late,
)

-- The part of a sorted list that passes a test is sorted.
pub keep-IsSorted : (p : Hit → Bool) (hs : List Hit) → IsSorted hs → IsSorted (keep p hs)
keep-IsSorted p [] s = tt
keep-IsSorted p (h ∷ hs) s = elim (Bool-cases (p h)) [
  | inl e ↦ rw e (All-keep (λ g. h.time.instant ≤ g.time.instant) p hs s.0, keep-IsSorted p hs s.1)
  | inr e ↦ rw e (keep-IsSorted p hs s.1)
]
