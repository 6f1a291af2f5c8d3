-- ===== src/Owdb/Criterion/Orders.antt =====
-- What the criteria on addresses mean: orders on slices of 16 bytes.
use jelly.Base.{
  bytes_eq_sound, ℕ, ◌≡◌, refl, sym, ap, ◌∙◌, List, some, none, Bool, true, false, not, Run, done,
  panics, starved, ◌>>=◌, if◌then◌else◌, arith, bytes_eq, bytes_lt, bytes_le,
  bytes_le-eq-not-bytes_lt, bytes_lt-trichotomy, Bytes, length, Bool-cases, inl, inr,
}
use jelly.Owdb.Hit.{Ip}
use jelly.Owdb.Filter.{Criterion, negated}
use jelly.Owdb.Criterion.{Go, Same, does_not}
use jelly.Owdb.Criterion.Ips.{
  compare_bytes, unless_equal, to_16, ip_equal, meets_equals_ip, meets_greater_than_ip,
  meets_greater_than_or_equals_ip, meets_less_than_ip, meets_less_than_or_equals_ip,
  meets_between_ips, is_greater_than_ip, is_greater_than_or_equals_ip, is_less_than_ip,
  is_less_than_or_equals_ip, parsed,
}
use jelly.Owdb.Criterion.Addresses.{
  IsAddress, IsAddress-dec, compared, compare_bytes-address, compare_bytes-other,
  compare_bytes-shortcut, ip_equal-to_16, compared-same, to_16-other, to_16-long, length-to_16,
}

compared-greater : (v w : Bytes) → compared true false false v w ≡ bytes_lt w v
unfolding compared
compared-greater v w = ground arith

compared-less : (v w : Bytes) → compared false true false v w ≡ bytes_lt v w
unfolding compared
compared-less v w = ground (arith, bytes_lt-trichotomy v w)

compared-greater_or_equal : (v w : Bytes) → compared true false true v w ≡ bytes_le w v
unfolding compared
compared-greater_or_equal v w =
    ground (arith, bytes_lt-trichotomy v w, bytes_lt-trichotomy w v, bytes_le-eq-not-bytes_lt w v)

compared-less_or_equal : (v w : Bytes) → compared false true true v w ≡ bytes_le v w
unfolding compared
compared-less_or_equal v w = ground (arith, bytes_lt-trichotomy v w, bytes_le-eq-not-bytes_lt v w)

module _ (ip : Bytes) (p : length ip ≡ 16) (v : Bytes) where
  -- The two that look at equality first are the loop alone.
  meets_greater_than_or_equals_loop :
      meets_greater_than_or_equals_ip ip (some v)
      ≡ compare_bytes true false true (to_16 v) (to_16 ip) 0 16
  unfolding meets_greater_than_or_equals_ip
  meets_greater_than_or_equals_loop =
      compare_bytes-shortcut true false true ip v p (IsAddress-dec v) refl

  meets_less_than_or_equals_loop :
      meets_less_than_or_equals_ip ip (some v)
      ≡ compare_bytes false true true (to_16 v) (to_16 ip) 0 16
  unfolding meets_less_than_or_equals_ip
  meets_less_than_or_equals_loop =
      compare_bytes-shortcut false true true ip v p (IsAddress-dec v) refl

-- On a slice of 4 or 16 bytes the criteria for an address of 16 bytes compare the form of 16 bytes
-- of the slice with the address as strings of bytes are compared.
pub ip_criteria-bytes :
    (ip v : Bytes)
    → length ip ≡ 16
    → IsAddress v
    → (meets_equals_ip ip (some v) ≡ done (bytes_eq ip (to_16 v)))
      × (meets_greater_than_ip ip (some v) ≡ done (bytes_lt ip (to_16 v)))
      × (meets_greater_than_or_equals_ip ip (some v) ≡ done (bytes_le ip (to_16 v)))
      × (meets_less_than_ip ip (some v) ≡ done (bytes_lt (to_16 v) ip))
      × (meets_less_than_or_equals_ip ip (some v) ≡ done (bytes_le (to_16 v) ip))
unfolding meets_equals_ip meets_greater_than_ip meets_less_than_ip
ip_criteria-bytes ip v p a = (
  ap done (ip_equal-to_16 ip v p a),
  compare_bytes-address true false false ip v p a ∙ ap done (compared-greater (to_16 v) ip),
  meets_greater_than_or_equals_loop ip p v
      ∙ compare_bytes-address true false true ip v p a
      ∙ ap done (compared-greater_or_equal (to_16 v) ip),
  compare_bytes-address false true false ip v p a ∙ ap done (compared-less (to_16 v) ip),
  meets_less_than_or_equals_loop ip p v
      ∙ compare_bytes-address false true true ip v p a
      ∙ ap done (compared-less_or_equal (to_16 v) ip),
)

not-bytes_lt : (v w : Bytes) → done (not (bytes_lt v w)) ≡ done (bytes_le w v)
not-bytes_lt v w = ap done (sym (bytes_le-eq-not-bytes_lt w v))

not-bytes_le : (v w : Bytes) → done (not (bytes_le v w)) ≡ done (bytes_lt w v)
not-bytes_le v w = ap done (ground (arith, bytes_le-eq-not-bytes_lt v w))

module _ (ip : Bytes) (p : length ip ≡ 16) where
  greater_than-opposite :
      (v : Ip) → negated (meets_greater_than_ip ip v) ≡ meets_less_than_or_equals_ip ip v
  unfolding meets_greater_than_ip meets_less_than_or_equals_ip
  greater_than-opposite none = refl
  greater_than-opposite (some v) = elim (IsAddress-dec v) [
    | inl a ↦
        let (_, greater, _, _, less_or_equal) = ip_criteria-bytes ip v p a in
        ap negated greater ∙ not-bytes_lt ip (to_16 v) ∙ sym less_or_equal
    | inr n ↦
        ap negated (compare_bytes-other true false false ip v n)
        ∙ sym (meets_less_than_or_equals_loop ip p v ∙ compare_bytes-other false true true ip v n)
  ]

  less_than-opposite :
      (v : Ip) → negated (meets_less_than_ip ip v) ≡ meets_greater_than_or_equals_ip ip v
  unfolding meets_less_than_ip meets_greater_than_or_equals_ip
  less_than-opposite none = refl
  less_than-opposite (some v) = elim (IsAddress-dec v) [
    | inl a ↦
        let (_, _, greater_or_equal, less, _) = ip_criteria-bytes ip v p a in
        ap negated less ∙ not-bytes_lt (to_16 v) ip ∙ sym greater_or_equal
    | inr n ↦
        ap negated (compare_bytes-other false true false ip v n)
        ∙ sym
            (meets_greater_than_or_equals_loop ip p v ∙ compare_bytes-other true false true ip v n)
  ]

-- Two calls that both make a criterion, and what DoesNot of the first is the same as.
pub record Opposed (m n : Run (Criterion Ip)) : Type 0 where
  pub first : Criterion Ip
  pub second : Criterion Ip
  pub first_made : m ≡ done first
  pub second_made : n ≡ done second
  pub opposed : Same (does_not first) second

Opposed-of :
    {m n : Run (Criterion Ip)} {c d : Criterion Ip}
    → m ≡ done c
    → n ≡ done d
    → Same (does_not c) d
    → Opposed m n
Opposed-of a b s = record { first = _; second = _; first_made = a; second_made = b; opposed = s }

parsed-some :
    {A : Type 0} (go : Go) (addr ip : Bytes) (use_ip : List ℕ → Run A)
    → go.parse_ip addr ≡ some ip
    → parsed go addr use_ip ≡ use_ip ip
unfolding parsed
parsed-some go addr ip use_ip e = rw (parsed, e) refl

-- From text that parses as an address IsGreaterThanIP, IsLessThanIP and their opposites make
-- criteria, and DoesNot of the two prints as the opposite does, as it is and negated, and ends
-- alike on every slice of bytes and on nil.
ip_orders-opposite :
    (go : Go) (addr ip : Bytes)
    → go.parse_ip addr ≡ some ip
    → Opposed (is_greater_than_ip go addr) (is_less_than_or_equals_ip go addr)
      × Opposed (is_less_than_ip go addr) (is_greater_than_or_equals_ip go addr)
unfolding does_not is_greater_than_ip is_less_than_ip is_greater_than_or_equals_ip
    is_less_than_or_equals_ip parsed
ip_orders-opposite go addr ip e =
    let p = go.parse_ip_length addr ip e in
    (
      Opposed-of (parsed-some go addr ip _ e) (parsed-some go addr ip _ e)
          (record { prints = refl; prints_negated = refl; meets = greater_than-opposite ip p }),
      Opposed-of (parsed-some go addr ip _ e) (parsed-some go addr ip _ e)
          (record { prints = refl; prints_negated = refl; meets = less_than-opposite ip p }),
    )

-- `m` and then `rest`, for one end of a range.
abbrev pub and_then : Run Bool → Run Bool → Run Bool
and_then m rest = m >>= λ ok. if ok then rest else done false

no_bytes-equal :
    (bound v : Bytes) → length bound ≡ 16 → ¬ IsAddress v → ip_equal (to_16 bound) (to_16 v) ≡ false
unfolding ip_equal
no_bytes-equal bound v p n = rw (to_16-long bound p, to_16-other v n, p) refl

-- The check against one end of a range is what the criterion for that end does.
end_of_range :
    (greater less : Bool) (bound v : Bytes) (rest : Run Bool)
    → length bound ≡ 16
    → unless_equal
        (to_16 bound)
        (to_16 v)
        (compare_bytes greater less true (to_16 v) (to_16 bound) 0 16)
        rest
      ≡ and_then (compare_bytes greater less true (to_16 v) (to_16 bound) 0 16) rest
end_of_range greater less bound v rest p = elim (Bool-cases (ip_equal (to_16 bound) (to_16 v))) [
  | inr e ↦ rw e refl
  | inl e ↦ elim (IsAddress-dec v) [
    | inl a ↦
        let long = to_16-long bound p in
        let same = sym (to_16-long (to_16 v) (length-to_16 v a)) in
        let eq : bound ≡ to_16 v = bytes_eq_sound bound (to_16 v) (
          ap (bytes_eq bound) same
          ∙ sym (ip_equal-to_16 bound (to_16 v) p (inr (length-to_16 v a)))
          ∙ (λ i. ip_equal (sym long i) (to_16 v))
          ∙ e) in
        rw e (
          sym (
            ap (λ m. and_then m rest)
              (compare_bytes-address greater less true bound v p a
                ∙ ap done (
                    ap (λ x. compared greater less true x bound) (sym eq)
                    ∙ compared-same greater less true bound))))
    | inr n ↦ cc (no_bytes-equal bound v p n)
  ]
]

-- IsBetweenIPs, for two ends of 16 bytes, meets a slice of any length or nil as the criteria for no
-- less than the start and for no greater than the end do, one after the other.
meets_between_ips-ends :
    (start end : Bytes) (v : Ip)
    → length start ≡ 16
    → length end ≡ 16
    → meets_between_ips start end v
      ≡ and_then (meets_greater_than_or_equals_ip start v) (meets_less_than_or_equals_ip end v)
unfolding meets_between_ips meets_greater_than_or_equals_ip
meets_between_ips-ends start end none p q = refl
meets_between_ips-ends start end (some v) p q = end_of_range true false start v _ p ∙ (λ i.
    and_then (sym (meets_greater_than_or_equals_loop start p v) i) (
      (end_of_range false true end v (done true) q
          ∙ or_else_false _
          ∙ sym (meets_less_than_or_equals_loop end q v))
        i))
  where
    or_else_false : (m : Run Bool) → and_then m (done true) ≡ m
    or_else_false (done true) = refl
    or_else_false (done false) = refl
    or_else_false panics = refl
    or_else_false starved = refl
