-- ===== src/Auth/Inmem/Calls.antt =====
-- The calls of the in-memory repository: what they keep true of the maps, and what is found after.
use jelly.Base.{
  ℕ, ◌≡◌, refl, sym, ap, ◌∙◌, Option, none, some, true, false, Bytes, bytes_eq, bytes_eq_refl,
  bytes_eq_comm, ◌==◌, Option-cases, inl, inr, arith, some-injective, subst,
}
use jelly.Time.{Time}
use jelly.Auth.User.{AuthUser, User, auth_user, new_user, Result, success}
use jelly.Auth.Inmem.{UserMaps, create, update, get, get_by_username, replaced, conflicts}
use jelly.Auth.Inmem.Index.{
  IsIndexed, put, put-IsIndexed, set_user-same, set_name-same, set_name-other,
}

pub get-some :
    (id : ℕ) (maps : UserMaps) (u : User)
    → maps.users id ≡ some u
    → get id maps ≡ success (auth_user u)
unfolding get
get-some id maps u e = rw (get, e) refl

pub get_by_username-some :
    (name : Bytes) (id : ℕ) (maps : UserMaps) (u : User)
    → maps.by_username_index name ≡ some id
    → maps.users id ≡ some u
    → get_by_username name maps ≡ success (auth_user u)
unfolding get_by_username
get_by_username-some name id maps u e f = rw (get_by_username, e, f) refl

module _ (parse_address : Bytes → Option Bytes) (now : Time) (u : AuthUser) (maps : UserMaps) where
  -- The users that Create and Update keep.
  abbrev pub created_user : ℕ → User
  created_user n = record (new_user parse_address u) {
    id = n;
    last_logout = now;
    created = now;
    modified = now;
  }

  abbrev pub updated_user : User
  updated_user = record (new_user parse_address u) { modified = now }

  pub create-put :
      (n : ℕ)
      → maps.by_username_index u.username ≡ none
      → create parse_address (some n) now u maps
        ≡ (success (auth_user (created_user n)), put (created_user n) maps)
  unfolding create
  create-put n e = rw e refl

  create-taken :
      (n k : ℕ)
      → maps.by_username_index u.username ≡ some k
      → (create parse_address (some n) now u maps).1 ≡ maps
  unfolding create
  create-taken n k e = rw e refl

  pub update-put :
      (id : ℕ) (existing : User)
      → maps.users id ≡ some existing
      → (u.id == id) ≡ true
      → conflicts parse_address id (new_user parse_address u) existing maps ≡ false
      → update parse_address now id u maps
        ≡ (success (auth_user updated_user), put updated_user maps)
  unfolding update replaced
  update-put id existing e i c = rw (update, e, c, i) refl

  pub not-conflicts-same_name :
      (id : ℕ) (existing : User)
      → (u.id == id) ≡ true
      → bytes_eq u.username existing.username ≡ true
      → conflicts parse_address id (new_user parse_address u) existing maps ≡ false
  unfolding conflicts
  not-conflicts-same_name id existing i e = rw (e, i) refl

  not-conflicts-free_name :
      (id : ℕ) (existing : User)
      → bytes_eq u.username existing.username ≡ false
      → maps.by_username_index u.username ≡ none
      → conflicts parse_address id (new_user parse_address u) existing maps ≡ false
  unfolding conflicts
  not-conflicts-free_name id existing e f = rw (e, f) refl

none-some : {A B : Type 0} {a : A} {o : Option A} → o ≡ none → o ≡ some a → B
none-some e f = cc

-- If the maps of the repository agree, Create with an ID that is not in use leaves them in
-- agreement, whether it adds the user or not. Create with such an ID and a name that is not in use
-- adds the user, who is found by the ID and by the name as Create returned it.
pub create-IsIndexed :
    (parse_address : Bytes → Option Bytes) (now : Time) (u v : AuthUser) (n : ℕ) (maps : UserMaps)
    → IsIndexed maps
    → maps.users n ≡ none
    → maps.by_username_index v.username ≡ none
    → IsIndexed (create parse_address (some n) now u maps).1
      × (get n (create parse_address (some n) now v maps).1
          ≡ (create parse_address (some n) now v maps).0)
      × (get_by_username v.username (create parse_address (some n) now v maps).1
          ≡ (create parse_address (some n) now v maps).0)
create-IsIndexed parse_address now u v n maps x free name_free =
    let made = created_user parse_address now v maps n in
    let at_id = set_user-same n (some made) maps.users in
    let at_name = set_name-same v.username (some n) maps.by_username_index in
    (
      elim (Option-cases (maps.by_username_index u.username)) [
        | inl e ↦
            subst IsIndexed
              (sym (
                ap (λ (r : Result AuthUser × UserMaps). r.1)
                  (create-put parse_address now u maps n e)))
              (put-IsIndexed (created_user parse_address now u maps n) maps x
                (λ w f. none-some free f) (λ k f. none-some e f))
        | inr (k, e) ↦ subst IsIndexed (sym (create-taken parse_address now u maps n k e)) x
      ],
      rw (create-put parse_address now v maps n name_free) (get-some n (put made maps) made at_id),
      rw (create-put parse_address now v maps n name_free)
          (get_by_username-some v.username n (put made maps) made at_name at_id),
    )

-- If the maps of the repository agree, Update of a user who is there, under the same ID and name,
-- leaves them in agreement.
pub update-IsIndexed :
    (parse_address : Bytes → Option Bytes) (now : Time) (u : AuthUser) (existing : User)
    (maps : UserMaps)
    → IsIndexed maps
    → maps.users u.id ≡ some existing
    → u.username ≡ existing.username
    → IsIndexed (update parse_address now u.id u maps).1
update-IsIndexed parse_address now u existing maps x e name =
    let same_id : (u.id == u.id) ≡ true = ground arith in
    let same_name = (λ i. bytes_eq (name i) existing.username) ∙ bytes_eq_refl existing.username in
    subst IsIndexed
      (sym (
        ap (λ (r : Result AuthUser × UserMaps). r.1)
          (update-put parse_address now u maps u.id existing e same_id
            (not-conflicts-same_name parse_address now u maps u.id existing same_id same_name))))
      (put-IsIndexed (updated_user parse_address now u maps) maps x
        (λ v f. (λ i. (some-injective (sym f ∙ e) i).username) ∙ sym name)
        (λ k f.
          some-injective (sym f ∙ ap maps.by_username_index name ∙ x.indexed u.id existing e)))

-- If the maps of the repository agree, Update of a user who is there, under the same ID and with a
-- name that is not in use, keeps the old name in the index: the user is then found by both names.
pub get_by_username-update :
    (parse_address : Bytes → Option Bytes) (now : Time) (u : AuthUser) (existing : User)
    (maps : UserMaps)
    → IsIndexed maps
    → maps.users u.id ≡ some existing
    → bytes_eq u.username existing.username ≡ false
    → maps.by_username_index u.username ≡ none
    → (get_by_username u.username (update parse_address now u.id u maps).1
        ≡ (update parse_address now u.id u maps).0)
      × (get_by_username existing.username (update parse_address now u.id u maps).1
          ≡ (update parse_address now u.id u maps).0)
get_by_username-update parse_address now u existing maps x e other free =
    let same_id : (u.id == u.id) ≡ true = ground arith in
    let made = updated_user parse_address now u maps in
    let step =
      update-put parse_address now u maps u.id existing e same_id
        (not-conflicts-free_name parse_address now u maps u.id existing other free) in
    let at_id = set_user-same u.id (some made) maps.users in
    let at_new = set_name-same u.username (some u.id) maps.by_username_index in
    let at_old =
      set_name-other u.username (some u.id) maps.by_username_index existing.username
        (bytes_eq_comm existing.username u.username ∙ other)
      ∙ x.indexed u.id existing e in
    (
      rw step (get_by_username-some u.username u.id (put made maps) made at_new at_id),
      rw step (get_by_username-some existing.username u.id (put made maps) made at_old at_id),
    )
