-- ===== src/Auth/Inmem/Index.antt =====
-- The two maps of the in-memory repository agree.
use jelly.Base.{
  ℕ, ◌≡◌, refl, sym, ap, ◌∙◌, Option, some, true, false, Bytes, bytes_eq, bytes_eq_sound,
  bytes_eq_refl, ◌==◌, Bool-cases, ==_iff, inl, inr, arith, some-injective,
}
use jelly.Auth.User.{User}
use jelly.Auth.Inmem.{UserMaps, set_user, set_name}

-- Every user is kept under its ID and indexed by its name, and every name in the index is the name
-- of the user that it leads to.
pub record IsIndexed (maps : UserMaps) : Type 0 where
  pub kept : (id : ℕ) (u : User) → maps.users id ≡ some u → u.id ≡ id
  pub indexed :
      (id : ℕ) (u : User) → maps.users id ≡ some u → maps.by_username_index u.username ≡ some id
  pub named :
      (name : Bytes) (id : ℕ)
      → maps.by_username_index name ≡ some id
      → (u : User) × (maps.users id ≡ some u) × (u.username ≡ name)

module _ (id : ℕ) (user : Option User) (users : ℕ → Option User) where
  pub set_user-same : set_user id user users id ≡ user
  unfolding set_user
  set_user-same = ground arith

  pub set_user-at : (k : ℕ) → (k == id) ≡ true → set_user id user users k ≡ user
  unfolding set_user
  set_user-at k e = rw e refl

  pub set_user-other : (k : ℕ) → (k == id) ≡ false → set_user id user users k ≡ users k
  unfolding set_user
  set_user-other k e = rw e refl

module _ (name : Bytes) (id : Option ℕ) (index : Bytes → Option ℕ) where
  pub set_name-same : set_name name id index name ≡ id
  unfolding set_name
  set_name-same = rw (bytes_eq_refl name) refl

  pub set_name-at : (k : Bytes) → bytes_eq k name ≡ true → set_name name id index k ≡ id
  unfolding set_name
  set_name-at k e = rw e refl

  pub set_name-other : (k : Bytes) → bytes_eq k name ≡ false → set_name name id index k ≡ index k
  unfolding set_name
  set_name-other k e = rw e refl

abbrev pub put : User → UserMaps → UserMaps
put u maps = record {
  users = set_user u.id (some u) maps.users;
  by_username_index = set_name u.username (some u.id) maps.by_username_index;
}

eq_of : {m n : ℕ} → (m == n) ≡ true → m ≡ n
eq_of {m} {n} e = (==_iff m n).0 e

module _ (u : User) (maps : UserMaps) (x : IsIndexed maps) where
  put-kept : (id : ℕ) (v : User) → (put u maps).users id ≡ some v → v.id ≡ id
  put-kept id v e = elim (Bool-cases (id == u.id)) [
    | inl q ↦
        let same : u ≡ v = some-injective (sym (set_user-at u.id (some u) maps.users id q) ∙ e) in
        (λ i. (sym same i).id) ∙ sym (eq_of q)
    | inr q ↦ x.kept id v (sym (set_user-other u.id (some u) maps.users id q) ∙ e)
  ]

  put-indexed :
      ((k : ℕ) → maps.by_username_index u.username ≡ some k → k ≡ u.id)
      → (id : ℕ) (v : User) → (put u maps).users id ≡ some v
      → (put u maps).by_username_index v.username ≡ some id
  put-indexed same_id id v e = elim (Bool-cases (id == u.id)) [
    | inl q ↦
        let same : u ≡ v = some-injective (sym (set_user-at u.id (some u) maps.users id q) ∙ e) in
        (λ i. set_name u.username (some u.id) maps.by_username_index (sym same i).username)
        ∙ set_name-same u.username (some u.id) maps.by_username_index
        ∙ ap some (sym (eq_of q))
    | inr q ↦
        let old = x.indexed id v (sym (set_user-other u.id (some u) maps.users id q) ∙ e) in
        elim (Bool-cases (bytes_eq v.username u.username)) [
          | inl b ↦
              let name = bytes_eq_sound v.username u.username b in
              let taken : id ≡ u.id = same_id id (ap maps.by_username_index (sym name) ∙ old) in
              cc ((==_iff id u.id).1 taken)
          | inr b ↦ set_name-other u.username (some u.id) maps.by_username_index v.username b ∙ old
        ]
  ]

  put-named :
      ((v : User) → maps.users u.id ≡ some v → v.username ≡ u.username)
      → (name : Bytes) (id : ℕ) → (put u maps).by_username_index name ≡ some id
      → (v : User) × ((put u maps).users id ≡ some v) × (v.username ≡ name)
  put-named same_name name id e = elim (Bool-cases (bytes_eq name u.username)) [
    | inl q ↦
        let here : u.id ≡ id =
          some-injective
            (sym (set_name-at u.username (some u.id) maps.by_username_index name q) ∙ e) in
        (
          u,
          (λ i. set_user u.id (some u) maps.users (sym here i))
              ∙ set_user-same u.id (some u) maps.users,
          sym (bytes_eq_sound name u.username q),
        )
    | inr q ↦
        let (w, found, called) =
          x.named name id
            (sym (set_name-other u.username (some u.id) maps.by_username_index name q) ∙ e) in
        elim (Bool-cases (id == u.id)) [
          | inl t ↦
              let same = sym called ∙ same_name w (ap maps.users (sym (eq_of t)) ∙ found) in
              cc (bytes_eq_refl u.username, ap (λ n. bytes_eq n u.username) same)
          | inr t ↦ (w, set_user-other u.id (some u) maps.users id t ∙ found, called)
        ]
  ]

  -- A user is put under an ID and a name that lead to no other.
  pub put-IsIndexed :
      ((v : User) → maps.users u.id ≡ some v → v.username ≡ u.username)
      → ((k : ℕ) → maps.by_username_index u.username ≡ some k → k ≡ u.id)
      → IsIndexed (put u maps)
  put-IsIndexed same_name same_id = record {
    kept = put-kept;
    indexed = put-indexed same_id;
    named = put-named same_name;
  }
