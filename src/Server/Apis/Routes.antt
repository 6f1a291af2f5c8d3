-- ===== src/Server/Apis/Routes.antt =====
-- The bases of the APIs of a server do not collide.
use jelly.Base.{
  ◌≡◌, refl, sym, ap, ◌∙◌, List, ◌∷◌, Option, none, some, Bool, true, false, Bytes, bytes, bytes_eq,
  bytes_eq_sound, bytes_eq_refl, some-injective, Bool-cases, Option-cases, inl, inr, ◌⊎◌,
}
use jelly.Auth.Errors.{Error, foreign}
use jelly.Auth.User.{success, failure}
use jelly.Config.Whole.{find}
use jelly.Server.Apis.{Apis, all_connected, claim_base, init_api, add_named, claimed, with_base}

-- The base of an initialised API leads back to it, unless it is the root.
pub record IsRouted (m : Apis) : Type 0 where
  pub leads_back :
      (name base : Bytes)
      → find name m.api_bases ≡ some base
      → bytes_eq base (bytes "/") ≡ false
      → find base m.bases_to_apis ≡ some name

module _ {A : Type 0} where
  find-first : (key : Bytes) (v : A) (rest : List (Bytes × A)) → find key ((key, v) ∷ rest) ≡ some v
  unfolding find
  find-first key v rest = rw (find, bytes_eq_refl key) refl

  find-later :
      (key k : Bytes) (v : A) (rest : List (Bytes × A))
      → bytes_eq k key ≡ false
      → find key ((k, v) ∷ rest) ≡ find key rest
  unfolding find
  find-later key k v rest other = rw (find, other) refl

-- A base that is not claimed does not lead to any API, so that it can be claimed.
claim-IsRouted :
    (m : Apis) (base name : Bytes)
    → IsRouted m
    → find base m.bases_to_apis ≡ none
    → IsRouted (record m { bases_to_apis = (base, name) ∷ m.bases_to_apis })
claim-IsRouted m base name x free = record {
  leads_back = λ n b at other. elim (Bool-cases (bytes_eq base b)) [
    | inl p ↦
        let back : find b m.bases_to_apis ≡ some n = x.leads_back n b at other in
        let same : base ≡ b = bytes_eq_sound base b p in
        let gone : find b m.bases_to_apis ≡ none =
          ap (λ (k : Bytes). find k m.bases_to_apis) (sym same) ∙ free in
        cc
    | inr p ↦ find-later b base name m.bases_to_apis p ∙ x.leads_back n b at other
  ];
}

-- The API that has claimed its base is added to the table of bases.
added-IsRouted :
    (m : Apis) (base name : Bytes)
    → IsRouted m
    → (bytes_eq base (bytes "/") ≡ false → find base m.bases_to_apis ≡ some name)
    → IsRouted (record m { api_bases = (name, base) ∷ m.api_bases })
added-IsRouted m base name x own = record {
  leads_back = λ n b at other. elim (Bool-cases (bytes_eq name n)) [
    | inl p ↦
        let same : name ≡ n = bytes_eq_sound name n p in
        let here : find n ((name, base) ∷ m.api_bases) ≡ some base =
          ap (λ (k : Bytes). find k ((name, base) ∷ m.api_bases)) (sym same)
          ∙ find-first name base m.api_bases in
        let same_base : base ≡ b = some-injective (sym here ∙ at) in
        let other_base : bytes_eq base (bytes "/") ≡ false =
          ap (λ (k : Bytes). bytes_eq k (bytes "/")) same_base ∙ other in
        ap (λ (k : Bytes). find k m.bases_to_apis) (sym same_base) ∙ (own other_base ∙ ap some same)
    | inr p ↦ x.leads_back n b (sym (find-later n name base m.api_bases p) ∙ at) other
  ];
}

-- How claim_base ends.
claim_base-IsRouted :
    (name base : Bytes) (m : Apis)
    → IsRouted m
    → ((err : Error) × (claim_base name base m ≡ failure err))
      ⊎ ((n : Apis) × (claim_base name base m ≡ success n)
          × IsRouted n
          × (bytes_eq base (bytes "/") ≡ false → find base n.bases_to_apis ≡ some name))
unfolding claim_base
claim_base-IsRouted name base m x = elim (Bool-cases (bytes_eq base (bytes "/"))) [
  | inl root ↦ inr (m, rw (claim_base, root) refl, x, λ other. cc)
  | inr own ↦ elim (Option-cases (find base m.bases_to_apis)) [
    | inl free ↦ inr (
      record m { bases_to_apis = (base, name) ∷ m.bases_to_apis },
      rw (claim_base, own, free) refl,
      claim-IsRouted m base name x free,
      λ other. find-first base name m.bases_to_apis,
    )
    | inr (user, taken) ↦
        inl (
          foreign (bytes "effectively identical API route bases"),
          rw (claim_base, own, taken) refl,
        )
  ]
]

claimed-IsRouted :
    (init : Option Error) (name base : Bytes) (m n : Apis)
    → IsRouted n
    → (bytes_eq base (bytes "/") ≡ false → find base n.bases_to_apis ≡ some name)
    → IsRouted (with_base name (claimed init base m (success n))).1
claimed-IsRouted none name base m n x own = added-IsRouted n base name x own
claimed-IsRouted (some err) name base m n x own = x

init_api-IsRouted :
    (dbs : List (Bytes × Bool)) (init : Option Error) (name : Bytes) (used : List Bytes)
    (base : Bytes) (m : Apis)
    → IsRouted m
    → IsRouted (with_base name (init_api dbs init name used base m)).1
unfolding init_api
init_api-IsRouted dbs init name used base m x = elim (Bool-cases (all_connected dbs used)) [
  | inr missing ↦ rw (init_api, missing) x
  | inl connected ↦ elim (claim_base-IsRouted name base m x) [
    | inl (err, fails) ↦ rw (init_api, connected, fails) x
    | inr (n, claims, y, own) ↦
        rw (init_api, connected, claims) (claimed-IsRouted init name base m n y own)
  ]
]

with_apis-IsRouted :
    (m : Apis) (apis : List (Bytes × Bool)) → IsRouted m → IsRouted (record m { apis = apis })
with_apis-IsRouted m apis x = record { leads_back = λ n b at other. x.leads_back n b at other }

add_named-IsRouted :
    (dbs : List (Bytes × Bool)) (init : Option Error) (name : Bytes) (is_enabled : Bool)
    (used : List Bytes) (base : Bytes) (m : Apis)
    → IsRouted m
    → IsRouted (add_named dbs init name is_enabled used base m).1
unfolding add_named
add_named-IsRouted dbs init name is_enabled used base m x = elim (Option-cases (find name m.apis)) [
  | inr (known, e) ↦ rw (add_named, e) x
  | inl fresh ↦
      let y = with_apis-IsRouted m ((name, true) ∷ m.apis) x in
      elim (Bool-cases is_enabled) [
        | inl on ↦
            rw (add_named, fresh, on)
              (init_api-IsRouted dbs init name used base (record m { apis = (name, true) ∷ m.apis })
                y)
        | inr off ↦ rw (add_named, fresh, off) y
      ]
]

-- Add keeps it true that the base of every initialised API other than the root leads back to the
-- API, whatever the database names, the result of Init, the name and the configuration; so any two
-- APIs that are initialised afterwards with the same base other than the root are the same.
pub add_named-bases :
    (dbs : List (Bytes × Bool)) (init : Option Error) (name : Bytes) (is_enabled : Bool)
    (used : List Bytes) (base one other shared : Bytes) (m : Apis)
    → IsRouted m
    → find one (add_named dbs init name is_enabled used base m).1.api_bases ≡ some shared
    → find other (add_named dbs init name is_enabled used base m).1.api_bases ≡ some shared
    → bytes_eq shared (bytes "/") ≡ false
    → IsRouted (add_named dbs init name is_enabled used base m).1 × (one ≡ other)
add_named-bases dbs init name is_enabled used base one other shared m x at_one at_other not_root =
    let y = add_named-IsRouted dbs init name is_enabled used base m x in
    (
      y,
      some-injective (
          sym (y.leads_back one shared at_one not_root)
          ∙ y.leads_back other shared at_other not_root),
    )
