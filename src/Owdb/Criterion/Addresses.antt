-- ===== src/Owdb/Criterion/Addresses.antt =====
-- The loops over the bytes of addresses, read as comparisons of the whole slices.
use jelly.Base.{
  ℕ, zero, suc, ◌≡◌, refl, sym, ap, ◌∙◌, subst, [], ◌∷◌, ◌++◌, Bool, true, false, done, panics,
  if◌then◌else◌, arith, bytes_eq, bytes_eq_sound, bytes_lt, Bytes, ◌&&◌, length, length-snoc,
  append_snoc, read, read_middle, ltb, ◌==◌, take, drop, Bool-cases, inl, inr, ◌⊎◌,
}
use jelly.Owdb.Criterion.Ips.{compare_bytes, to_16, ip_equal, v4_prefix}

-- What the loop returns for two slices.
unfoldable pub compared : (greater less same : Bool) → Bytes → Bytes → Bool
compared greater less same v w =
    if bytes_lt w v then greater else if bytes_lt v w then less else same

module _ (greater less same : Bool) where
  compare_step :
      (v w : Bytes) (i k a b : ℕ)
      → read v i ≡ done a
      → read w i ≡ done b
      → compare_bytes greater less same v w i (suc k) ≡ (
          if ltb b a
          then done greater
          else if ltb a b
          then done less
          else compare_bytes greater less same v w (suc i) k)
  unfolding compare_bytes
  compare_step v w i k a b p q = rw (p, q) refl

  compared-cons :
      (a b : ℕ) (v w : Bytes)
      → (if ltb b a
          then done greater
          else if ltb a b
          then done less
          else done (compared greater less same v w))
        ≡ done (compared greater less same (a ∷ v) (b ∷ w))
  unfolding compared bytes_lt
  compared-cons a b v w = ground arith

  compare_bytes-compared :
      (pre v pre' w : Bytes) (k : ℕ)
      → length pre ≡ length pre'
      → length v ≡ k
      → length w ≡ k
      → compare_bytes greater less same (pre ++ v) (pre' ++ w) (length pre) k
        ≡ done (compared greater less same v w)
  compare_bytes-compared pre [] pre' [] zero e p q = unfold compare_bytes compared bytes_lt in refl
  compare_bytes-compared pre [] pre' w (suc k) e p q = absurd (omega (arith, p))
  compare_bytes-compared pre v pre' [] (suc k) e p q = absurd (omega (arith, q))
  compare_bytes-compared pre (a ∷ v) pre' w zero e p q = absurd (omega (arith, p))
  compare_bytes-compared pre v pre' (b ∷ w) zero e p q = absurd (omega (arith, q))
  compare_bytes-compared pre (a ∷ v) pre' (b ∷ w) (suc k) e p q =
      let next =
        rw (append_snoc pre a v, append_snoc pre' b w, length-snoc pre a) at
          (compare_bytes-compared (pre ++ a ∷ []) v (pre' ++ b ∷ []) w k
            (length-snoc pre a ∙ ap suc e ∙ sym (length-snoc pre' b)) (omega (arith, p))
            (omega (arith, q))) in
      compare_step _ _ (length pre) k a b (read_middle pre a v)
        (subst (λ n. read (pre' ++ b ∷ w) n ≡ done b) (sym e) (read_middle pre' b w))
      ∙ rw next (compared-cons a b v w)

bytes_eq-append :
    (xs pre v : Bytes)
    → bytes_eq xs (pre ++ v)
      ≡ (bytes_eq (take (length pre) xs) pre && bytes_eq (drop (length pre) xs) v)
unfolding bytes_eq
bytes_eq-append xs [] v = refl
bytes_eq-append [] (y ∷ pre) v = refl
bytes_eq-append (x ∷ xs) (y ∷ pre) v = ground (arith, bytes_eq-append xs pre v)

-- The two lengths that an address has.
abbrev pub IsAddress : Bytes → Type 0
IsAddress v = (length v ≡ 4) ⊎ (length v ≡ 16)

pub to_16-long : (v : Bytes) → length v ≡ 16 → to_16 v ≡ v
unfolding to_16
to_16-long v e = rw e refl

to_16-short : (v : Bytes) → length v ≡ 4 → to_16 v ≡ v4_prefix ++ v
unfolding to_16
to_16-short v e = rw e refl

pub to_16-other : (v : Bytes) → ¬ IsAddress v → to_16 v ≡ []
unfolding to_16
to_16-other v n = ground arith

pub length-to_16 : (v : Bytes) → IsAddress v → length (to_16 v) ≡ 16
length-to_16 v (inl e) = rw (to_16-short v e) (omega (arith, e))
length-to_16 v (inr e) = ap length (to_16-long v e) ∙ e

-- Equal compares the forms of 16 bytes.
pub ip_equal-to_16 :
    (ip v : Bytes) → length ip ≡ 16 → IsAddress v → ip_equal ip v ≡ bytes_eq ip (to_16 v)
unfolding ip_equal
ip_equal-to_16 ip v p (inl e) = rw (to_16-short v e, bytes_eq-append ip v4_prefix v, p, e) refl
ip_equal-to_16 ip v p (inr e) = rw (to_16-long v e, p, e) refl

ip_equal-other : (ip v : Bytes) → length ip ≡ 16 → ¬ IsAddress v → ip_equal ip v ≡ false
unfolding ip_equal
ip_equal-other ip v p n = ground arith

pub compared-same : (greater less same : Bool) (v : Bytes) → compared greater less same v v ≡ same
unfolding compared bytes_lt
compared-same greater less same [] = refl
compared-same greater less same (x ∷ v) = ground (arith, compared-same greater less same v)

-- The loop over an address and a bound of 16 bytes.
module _ (greater less same : Bool) (ip v : Bytes) where
  pub compare_bytes-address :
      length ip ≡ 16
      → IsAddress v
      → compare_bytes greater less same (to_16 v) (to_16 ip) 0 16
        ≡ done (compared greater less same (to_16 v) ip)
  compare_bytes-address p a =
      rw (to_16-long ip p)
        (compare_bytes-compared greater less same [] (to_16 v) [] ip 16 refl (length-to_16 v a) p)

  -- A slice of another length has no byte to look at.
  pub compare_bytes-other :
      ¬ IsAddress v → compare_bytes greater less same (to_16 v) (to_16 ip) 0 16 ≡ panics
  unfolding compare_bytes read
  compare_bytes-other n = rw (to_16-other v n) refl

  -- A loop that takes equal bytes for true may be left out where Equal holds.
  pub compare_bytes-shortcut :
      length ip ≡ 16
      → IsAddress v ⊎ ¬ IsAddress v
      → same ≡ true
      → (if ip_equal ip v
          then done true
          else compare_bytes greater less same (to_16 v) (to_16 ip) 0 16)
        ≡ compare_bytes greater less same (to_16 v) (to_16 ip) 0 16
  compare_bytes-shortcut p (inr n) s = rw (ip_equal-other ip v p n) refl
  compare_bytes-shortcut p (inl a) s = elim (Bool-cases (ip_equal ip v)) [
    | inr e ↦ rw e refl
    | inl e ↦
        let eq = bytes_eq_sound ip (to_16 v) (sym (ip_equal-to_16 ip v p a) ∙ e) in
        rw (e, compare_bytes-address p a)
          (ap done (
            sym s
            ∙ sym (compared-same greater less same ip)
            ∙ ap (λ x. compared greater less same x ip) eq))
  ]

pub IsAddress-dec : (v : Bytes) → IsAddress v ⊎ ¬ IsAddress v
IsAddress-dec v = elim (Bool-cases (length v == 4)) [
  | inl e ↦ inl (inl (ground arith))
  | inr e ↦ elim (Bool-cases (length v == 16)) [
    | inl f ↦ inl (inr (ground arith))
    | inr f ↦ inr (λ a. ground arith)
  ]
]
