-- ===== src/Auth/Inmem/Removal.antt =====
-- Delete of the in-memory repository keeps its maps in agreement.
use jelly.Base.{
  ℕ, ◌≡◌, refl, sym, ap, ◌∙◌, none, some, true, false, Bytes, bytes_eq, bytes_eq_sound,
  bytes_eq_refl, ◌==◌, Bool-cases, Option-cases, inl, inr, some-injective, ==_iff, subst,
}
use jelly.Auth.Errors.{sentinel, err_db_not_found}
use jelly.Auth.User.{User, auth_user, Result, success, failure}
use jelly.Auth.Inmem.{UserMaps, set_user, set_name, delete, get, get_by_username}
use jelly.Auth.Inmem.Index.{
  IsIndexed, set_user-at, set_user-same, set_user-other, set_name-at, set_name-same, set_name-other,
}

abbrev without : User → UserMaps → UserMaps
without u maps = record {
  users = set_user u.id none maps.users;
  by_username_index = set_name u.username none maps.by_username_index;
}

module _ (u : User) (maps : UserMaps) (x : IsIndexed maps) (here : maps.users u.id ≡ some u) where
  stays :
      (k : ℕ) (v : User)
      → set_user u.id none maps.users k ≡ some v
      → ((k == u.id) ≡ false) × (maps.users k ≡ some v)
  stays k v e = elim (Bool-cases (k == u.id)) [
    | inl q ↦ cc (set_user-at u.id none maps.users k q)
    | inr q ↦ (q, sym (set_user-other u.id none maps.users k q) ∙ e)
  ]

  without-indexed :
      (k : ℕ) (v : User)
      → set_user u.id none maps.users k ≡ some v
      → set_name u.username none maps.by_username_index v.username ≡ some k
  without-indexed k v e =
      let (q, old) = stays k v e in
      elim (Bool-cases (bytes_eq v.username u.username)) [
        | inl b ↦
            let same : k ≡ u.id = some-injective (
              sym (x.indexed k v old)
              ∙ ap maps.by_username_index (bytes_eq_sound v.username u.username b)
              ∙ x.indexed u.id u here) in
            cc ((==_iff k u.id).1 same)
        | inr b ↦
            set_name-other u.username none maps.by_username_index v.username b ∙ x.indexed k v old
      ]

  without-named :
      (name : Bytes) (k : ℕ)
      → set_name u.username none maps.by_username_index name ≡ some k
      → (v : User) × (set_user u.id none maps.users k ≡ some v) × (v.username ≡ name)
  without-named name k e = elim (Bool-cases (bytes_eq name u.username)) [
    | inl b ↦ cc (set_name-at u.username none maps.by_username_index name b)
    | inr b ↦
        let (v, found, called) =
          x.named name k (sym (set_name-other u.username none maps.by_username_index name b) ∙ e) in
        elim (Bool-cases (k == u.id)) [
          | inl q ↦
              let same : v ≡ u =
                some-injective (sym found ∙ ap maps.users ((==_iff k u.id).0 q) ∙ here) in
              let name_same : name ≡ u.username = sym called ∙ ap (λ (w : User). w.username) same in
              let equal_names : bytes_eq name u.username ≡ true =
                ap (λ (n : Bytes). bytes_eq n u.username) name_same ∙ bytes_eq_refl u.username in
              cc
          | inr q ↦ (v, set_user-other u.id none maps.users k q ∙ found, called)
        ]
  ]

  without-IsIndexed : IsIndexed (without u maps)
  without-IsIndexed = record {
    kept = λ k v e. x.kept k v (stays k v e).1;
    indexed = without-indexed;
    named = without-named;
  }

delete-some :
    (id : ℕ) (u : User) (maps : UserMaps)
    → maps.users id ≡ some u
    → delete id maps ≡ (success (auth_user u), without u maps)
unfolding delete
delete-some id u maps e = rw (delete, e) refl

delete-none :
    (id : ℕ) (maps : UserMaps)
    → maps.users id ≡ none
    → delete id maps ≡ (failure (sentinel err_db_not_found), maps)
unfolding delete
delete-none id maps e = rw (delete, e) refl

get-none :
    (id : ℕ) (maps : UserMaps)
    → maps.users id ≡ none
    → get id maps ≡ failure (sentinel err_db_not_found)
unfolding get
get-none id maps e = rw (get, e) refl

get_by_username-none :
    (name : Bytes) (maps : UserMaps)
    → maps.by_username_index name ≡ none
    → get_by_username name maps ≡ failure (sentinel err_db_not_found)
unfolding get_by_username
get_by_username-none name maps e = rw (get_by_username, e) refl

-- If the maps of the repository agree, Delete leaves them in agreement, whether the ID is in use or
-- not. By the ID of a user who is there it returns the user, who is then found by neither the ID
-- nor the name.
pub delete-IsIndexed :
    (id : ℕ) (u : User) (maps : UserMaps)
    → IsIndexed maps
    → maps.users u.id ≡ some u
    → IsIndexed (delete id maps).1
      × (delete u.id maps ≡ (success (auth_user u), (delete u.id maps).1))
      × (get u.id (delete u.id maps).1 ≡ failure (sentinel err_db_not_found))
      × (get_by_username u.username (delete u.id maps).1 ≡ failure (sentinel err_db_not_found))
delete-IsIndexed id u maps x here =
    let removed = ap (λ (r : Result _ × UserMaps). r.1) (delete-some u.id u maps here) in
    (
      elim (Option-cases (maps.users id)) [
        | inl e ↦ subst (λ r. IsIndexed r.1) (sym (delete-none id maps e)) x
        | inr (v, e) ↦
            let at_v : maps.users v.id ≡ some v = ap maps.users (x.kept id v e) ∙ e in
            subst (λ r. IsIndexed r.1) (sym (delete-some id v maps e))
              (without-IsIndexed v maps x at_v)
      ],
      rw (delete-some u.id u maps here) refl,
      rw removed (get-none u.id (without u maps) (set_user-same u.id none maps.users)),
      rw removed (
          get_by_username-none u.username (without u maps)
            (set_name-same u.username none maps.by_username_index)),
    )
