-- ===== src/Owdb/Store/Points.antt =====
-- Lists are cut at their indices, and the insertion point of a hit is found among the hits.
use jelly.Base.{
  ℕ, zero, suc, ◌≤◌, ◌<◌, ◌≡◌, refl, ap, ◌∙◌, List, [], ◌∷◌, ◌++◌, none, some, done, read,
  if◌then◌else◌, length, Bool-cases, Option-cases, inl, inr, arith, if-true, if-false,
}
use jelly.Time.{before}
use jelly.Owdb.Hit.{Hit}
use jelly.Owdb.Store.{point_below, slice_index_of}

-- A list cut in front of an index that it has.
pub record Cut {ℓ} {A : Type ℓ} (xs : List A) (n : ℕ) : Type ℓ where
  pub front : List A
  pub rest : List A
  pub whole : xs ≡ front ++ rest
  pub size : length front ≡ n

pub cut {ℓ} : {A : Type ℓ} (xs : List A) (n : ℕ) → n ≤ length xs → Cut xs n
cut xs zero h = record { front = []; rest = xs; whole = refl; size = refl }
cut [] (suc n) h = absurd (omega arith)
cut (x ∷ xs) (suc n) h =
    let c = cut xs n (omega arith) in
    record {
      front = x ∷ c.front;
      rest = c.rest;
      whole = ap (λ l. x ∷ l) c.whole;
      size = ap suc c.size;
    }

pub read-total {ℓ} :
    {A : Type ℓ} (xs : List A) (i : ℕ) → i < length xs → (x : A) × (read xs i ≡ done x)
unfolding read
read-total [] i h = absurd (omega arith)
read-total (x ∷ xs) zero h = (x, refl)
read-total (x ∷ xs) (suc i) h = read-total xs i (omega arith)

module _ (hits : List Hit) (h : Hit) (skip : List ℕ) where
  point_skipped :
      (i j : ℕ)
      → slice_index_of skip i ≡ some j
      → point_below hits h skip (suc i) ≡ point_below hits h skip i
  unfolding point_below
  point_skipped i j e = ground arith

  point_looked_at :
      (i : ℕ) (g : Hit)
      → slice_index_of skip i ≡ none
      → read hits i ≡ done g
      → point_below hits h skip (suc i)
        ≡ (if before g.time h.time then done (suc i) else point_below hits h skip i)
  unfolding point_below
  point_looked_at i g e at = ground arith

  point_step :
      (i : ℕ) (g : Hit)
      → read hits i ≡ done g
      → (r : ℕ) × (point_below hits h skip i ≡ done r) × (r ≤ i)
      → (r : ℕ) × (point_below hits h skip (suc i) ≡ done r) × (r ≤ suc i)
  point_step i g at (r, e, le) = elim (Option-cases (slice_index_of skip i)) [
    | inr (j, q) ↦ (r, point_skipped i j q ∙ e, omega arith)
    | inl q ↦ elim (Bool-cases (before g.time h.time)) [
      | inl b ↦
          (suc i, point_looked_at i g q at ∙ if-true (before g.time h.time) _ _ b, omega arith)
      | inr b ↦
          (r, point_looked_at i g q at ∙ if-false (before g.time h.time) _ _ b ∙ e, omega arith)
    ]
  ]

  pub point_below-total :
      (i : ℕ) → i ≤ length hits → (r : ℕ) × (point_below hits h skip i ≡ done r) × (r ≤ i)
  point_below-total zero le = (0, unfold point_below in refl, omega arith)
  point_below-total (suc i) le =
      let (g, at) = read-total hits i (omega arith) in
      point_step i g at (point_below-total i (omega arith))
