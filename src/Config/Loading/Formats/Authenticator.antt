-- ===== src/Config/Loading/Formats/Authenticator.antt =====
-- A file with the key "authenticator" is not read.
use jelly.Base.{
  ◌≡◌, refl, sym, ap, ◌∙◌, List, [], ◌∷◌, some, false, Bytes, bytes, bytes_eq, bytes_eq_sound,
  bytes_eq_comm, some-injective, subst, Bool-cases, inl, inr,
}
use jelly.Auth.Errors.{Error}
use jelly.Auth.User.{Result, success, failure}
use jelly.Config.{
  Value, a_string, a_bool, some_strings, some_bytes, an_int, an_object, another, Fields,
}
use jelly.Config.Listen.{MarshaledLog}
use jelly.Config.Whole.{find}
use jelly.Config.Loading.{MarshaledDatabase, MarshaledApi, and_then, about}
use jelly.Config.Loading.Formats.{
  lower_fields, without, api_section, api_sections, unmarshal_lowered, unmarshal_map, sections,
  string_or, authenticator_or, log_or, dbs_or,
}

abbrev Fails : {A : Type 0} → Result A → Type 0
Fails r = (err : Error) × (r ≡ failure err)

and_then-Fails :
    {A B : Type 0} (r : Result A) (f : A → Result B)
    → ((a : A) → Fails (f a))
    → Fails (and_then r f)
and_then-Fails (success a) f all = all a
and_then-Fails (failure err) f all = (err, refl)

find-without :
    {A : Type 0} (key gone : Bytes) (m : List (Bytes × A))
    → bytes_eq key gone ≡ false
    → find key (without gone m) ≡ find key m
unfolding find without
find-without key gone [] other = refl
find-without key gone ((k, v) ∷ rest) other = elim (Bool-cases (bytes_eq k gone)) [
  | inl e ↦
      let same : k ≡ gone = bytes_eq_sound k gone e in
      let differs : bytes_eq k key ≡ false =
        ap (λ (s : Bytes). bytes_eq s key) same ∙ (bytes_eq_comm gone key ∙ other) in
      rw (without, e, find, differs) (find-without key gone rest other)
  | inr e ↦ elim (Bool-cases (bytes_eq k key)) [
    | inl p ↦ rw (without, e, find, p) refl
    | inr p ↦ rw (without, e, find, p) (find-without key gone rest other)
  ]
]

module _ (decode_log : Fields → Result MarshaledLog) (decode_db : Value → Result MarshaledDatabase)
    (decode_api : Fields → Result MarshaledApi) where
  api_sections-Fails :
      (key s : Bytes) (m : List (Bytes × Value))
      → find key m ≡ some (a_string s)
      → Fails (api_sections decode_log decode_db decode_api m)
  unfolding api_sections api_section find
  api_sections-Fails key s [] e = cc
  api_sections-Fails key s ((k, v) ∷ rest) e = elim (Bool-cases (bytes_eq k key)) [
    | inl p ↦
        let found : find key ((k, v) ∷ rest) ≡ some v = rw (find, p) refl in
        let same : v ≡ a_string s = some-injective (sym found ∙ e) in
        subst (λ u. Fails (api_sections decode_log decode_db decode_api ((k, u) ∷ rest))) (sym same)
          (_, refl)
    | inr p ↦
        let later : find key ((k, v) ∷ rest) ≡ find key rest = rw (find, p) refl in
        let (err, fails) = api_sections-Fails key s rest (sym later ∙ e) in
        and_then-Fails (about k (api_section decode_log decode_db decode_api v)) _
          (λ api. (err, rw fails refl))
  ]

  find-sections :
      (m : List (Bytes × Value))
      → find (bytes "authenticator") (sections decode_log decode_db decode_api m)
        ≡ find (bytes "authenticator") m
  unfolding bytes_eq
  find-sections m =
      find-without (bytes "authenticator") (bytes "dbs")
        (without (bytes "logging") (without (bytes "base") (without (bytes "listen") m))) refl
      ∙ (find-without (bytes "authenticator") (bytes "logging")
            (without (bytes "base") (without (bytes "listen") m)) refl
          ∙ (find-without (bytes "authenticator") (bytes "base") (without (bytes "listen") m) refl
              ∙ find-without (bytes "authenticator") (bytes "listen") m refl))

  -- The steps up to the sections, when the key has a string, or another value.
  string-Fails :
      (s : Bytes) (m : List (Bytes × Value))
      → find (bytes "authenticator") m ≡ some (a_string s)
      → Fails (unmarshal_lowered decode_log decode_db decode_api m)
  unfolding unmarshal_lowered
  string-Fails s m e =
      let fails =
        api_sections-Fails (bytes "authenticator") s (sections decode_log decode_db decode_api m)
          (find-sections m ∙ e) in
      and_then-Fails (string_or (find (bytes "listen") m)) _ (λ listen.
        and_then-Fails (string_or (find (bytes "base") m)) _ (λ base.
          and_then-Fails (log_or decode_log decode_db decode_api (find (bytes "logging") m)) _
            (λ log. and_then-Fails (authenticator_or (find (bytes "authenticator") m)) _ (λ auth.
              and_then-Fails (dbs_or decode_log decode_db decode_api (find (bytes "dbs") m)) _
                (λ dbs. (fails.0, rw fails.1 refl))))))

  other-Fails :
      (v : Value) (m : List (Bytes × Value))
      → Fails (authenticator_or (some v))
      → find (bytes "authenticator") m ≡ some v
      → Fails (unmarshal_lowered decode_log decode_db decode_api m)
  unfolding unmarshal_lowered
  other-Fails v m (err, bad) e = and_then-Fails (string_or (find (bytes "listen") m)) _ (λ listen.
      and_then-Fails (string_or (find (bytes "base") m)) _ (λ base.
        and_then-Fails (log_or decode_log decode_db decode_api (find (bytes "logging") m)) _
          (λ log. (err, rw (e, bad) refl))))

  value-Fails :
      (v : Value) (m : List (Bytes × Value))
      → find (bytes "authenticator") m ≡ some v
      → Fails (unmarshal_lowered decode_log decode_db decode_api m)
  value-Fails (a_string s) m e = string-Fails s m e
  value-Fails (a_bool b) m e = other-Fails (a_bool b) m (_, refl) e
  value-Fails (some_strings xs) m e = other-Fails (some_strings xs) m (_, refl) e
  value-Fails (some_bytes s) m e = other-Fails (some_bytes s) m (_, refl) e
  value-Fails (an_int n) m e = other-Fails (an_int n) m (_, refl) e
  value-Fails (an_object o) m e = other-Fails (an_object o) m (_, refl) e
  value-Fails another m e = other-Fails another m (_, refl) e

  -- No file whose object has the key "authenticator", in any case of letters and with any value, is
  -- read without an error, however its other values are decoded.
  pub unmarshal_map-authenticator :
      (v : Value) (m : Fields)
      → find (bytes "authenticator") (lower_fields m) ≡ some v
      → (err : Error) × (unmarshal_map decode_log decode_db decode_api m ≡ failure err)
  unfolding unmarshal_map
  unmarshal_map-authenticator v m e = value-Fails v (lower_fields m) e
