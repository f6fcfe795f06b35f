-- ===== src/Tests/Auth.antt =====
-- tests/test_auth.c.
use secure_ci_coding.Base.{
  ℕ, ◌≡◌, ◌<◌, ◌⊎◌, inl, inr, refl, sym, subst, Option-cases, ap, ◌∙◌, arith, Bool, true, false,
  not, Option, none, some, List, [], ◌∷◌, Bytes, length, codes, cstr, same,
}
use secure_ci_coding.Common.{Build, vulnerable, fixed, user}
use secure_ci_coding.Auth.{
  User, auth_hash_password, auth_create_user, auth_lookup_user, auth_verify, auth_init, or_same,
  input_valid, hex_from, verify_loop,
}
use secure_ci_coding.Auth.Hash.{hash_text, cstr-auth_hash_password, length-hash_text}
use secure_ci_coding.Auth.Users.{
  IsTable, empty-IsTable, auth_create_user-IsTable, auth_init-IsTable,
}
use secure_ci_coding.Auth.Verify.{same-length, auth_verify_fixed_refuses}

-- `u != NULL && strcmp(u->username, "alice") == 0`
abbrev is_named : Bytes → Option User → Bool
is_named name none = false
is_named name (some u) = same (cstr u.username) name

abbrev is_null : Option User → Bool
is_null none = true
is_null (some u) = false

-- The user table behind the initialization and behind the creation of "charlie".
abbrev users_init : (Bytes → Bytes → Bytes) → Build → (ℕ → Bytes) → List User
users_init pbkdf2 b salts = auth_init pbkdf2 b salts []

abbrev users_charlie : (Bytes → Bytes → Bytes) → Build → (ℕ → Bytes) → List User
users_charlie pbkdf2 b salts =
    let users = users_init pbkdf2 b salts in
    or_same users
      (auth_create_user pbkdf2 b (salts 6) (codes "charlie") (codes "CharliePwd789") user users)

-- `salts` gives the salts in the order in which the hashes of the fixed build draw them.
unfoldable pub test_auth : (Bytes → Bytes → Bytes) → Build → (salts : ℕ → Bytes) → List Bool
test_auth pbkdf2 b salts =
    let users = users_init pbkdf2 b salts in
    let users' = users_charlie pbkdf2 b salts in
    auth_verify pbkdf2 b (salts 3) (some (codes "admin")) (some (codes "Admin@SecureFile2024!"))
      users
    ∷ not
        (auth_verify pbkdf2 b (salts 4) (some (codes "admin")) (some (codes "wrongpassword")) users)
    ∷ not (
        auth_verify pbkdf2 b (salts 5) (some (codes "nonexistent")) (some (codes "anything")) users)
    ∷ auth_verify pbkdf2 b (salts 7) (some (codes "charlie")) (some (codes "CharliePwd789")) users'
    ∷ not (auth_verify pbkdf2 b (salts 8) none (some (codes "test")) users')
    ∷ not (auth_verify pbkdf2 b (salts 8) (some (codes "admin")) none users')
    ∷ not (auth_verify pbkdf2 b (salts 8) (some []) (some (codes "test")) users')
    ∷ is_named (codes "alice") (auth_lookup_user (codes "alice") users')
    ∷ is_null (auth_lookup_user (codes "nobody") users')
    ∷ not (
        same (cstr (auth_hash_password pbkdf2 b (salts 8) (codes "testpassword")))
          (codes "testpassword"))
    ∷ []

-- In the fixed build the table of the test is well formed, whatever salts are drawn.
users_charlie-IsTable :
    (pbkdf2 : Bytes → Bytes → Bytes) (salts : ℕ → Bytes)
    → IsTable (users_init pbkdf2 fixed salts) × IsTable (users_charlie pbkdf2 fixed salts)
users_charlie-IsTable pbkdf2 salts =
    let t = auth_init-IsTable pbkdf2 fixed salts [] empty-IsTable in
    (
      t,
      created (
          Option-cases (
            auth_create_user pbkdf2 fixed (salts 6) (codes "charlie") (codes "CharliePwd789") user
              (users_init pbkdf2 fixed salts))),
    )
  where
    created :
        (auth_create_user pbkdf2 fixed
              (salts 6)
              (codes "charlie")
              (codes "CharliePwd789")
              user
              (users_init pbkdf2 fixed salts)
            ≡ none)
          ⊎ ((users' : List User) × (auth_create_user pbkdf2 fixed
                  (salts 6)
                  (codes "charlie")
                  (codes "CharliePwd789")
                  user
                  (users_init pbkdf2 fixed salts)
                ≡ some users'))
        → IsTable (users_charlie pbkdf2 fixed salts)
    created (inl e) =
        subst (λ o. IsTable (or_same (users_init pbkdf2 fixed salts) o)) (sym e)
          (auth_init-IsTable pbkdf2 fixed salts [] empty-IsTable)
    created (inr (users', e)) =
        subst (λ o. IsTable (or_same (users_init pbkdf2 fixed salts) o)) (sym e)
          (auth_create_user-IsTable pbkdf2 fixed (salts 6) (codes "charlie") (codes "CharliePwd789")
            user (users_init pbkdf2 fixed salts)
            (auth_init-IsTable pbkdf2 fixed salts [] empty-IsTable) e)

-- The text of a hash is no string of another length.
hash_differs :
    (pbkdf2 : Bytes → Bytes → Bytes) (salt password : Bytes)
    → length password < 64
    → same (cstr (auth_hash_password pbkdf2 fixed salt password)) password ≡ false
hash_differs pbkdf2 salt password h =
    ap (λ t. same t password) (cstr-auth_hash_password pbkdf2 fixed salt password)
    ∙ same-length (hash_text pbkdf2 fixed salt password) password
        λ e. omega (arith, length-hash_text pbkdf2 fixed salt password)

-- In the vulnerable build, for every derivation of keys and all salts, exactly the fourth check of the
-- program fails, the log-in of the user that it creates; in the fixed build the first one fails too, the
-- log-in of the administrator.
pub test_auth_lem :
    (pbkdf2 : Bytes → Bytes → Bytes) (salts : ℕ → Bytes)
    → (test_auth pbkdf2 vulnerable salts
        ≡ true ∷ true ∷ true ∷ false ∷ true ∷ true ∷ true ∷ true ∷ true ∷ true ∷ [])
      × (test_auth pbkdf2 fixed salts
          ≡ false ∷ true ∷ true ∷ false ∷ true ∷ true ∷ true ∷ true ∷ true ∷ true ∷ [])
unfolding test_auth auth_verify auth_lookup_user auth_hash_password auth_init auth_create_user cstr
    same input_valid hex_from verify_loop
test_auth_lem pbkdf2 salts = (refl, in_fixed)
  where
    in_fixed :
        test_auth pbkdf2 fixed salts
        ≡ false ∷ true ∷ true ∷ false ∷ true ∷ true ∷ true ∷ true ∷ true ∷ true ∷ []
    in_fixed =
        let (t, t') = users_charlie-IsTable pbkdf2 salts in
        let first =
          auth_verify_fixed_refuses pbkdf2 (salts 3) (some (codes "admin"))
            (some (codes "Admin@SecureFile2024!")) _ t in
        let second =
          auth_verify_fixed_refuses pbkdf2 (salts 4) (some (codes "admin"))
            (some (codes "wrongpassword")) _ t in
        let third =
          auth_verify_fixed_refuses pbkdf2 (salts 5) (some (codes "nonexistent"))
            (some (codes "anything")) _ t in
        let fourth =
          auth_verify_fixed_refuses pbkdf2 (salts 7) (some (codes "charlie"))
            (some (codes "CharliePwd789")) _ t' in
        let tenth = hash_differs pbkdf2 (salts 8) (codes "testpassword") (omega arith) in
        λ i.
          first i
          ∷ not (second i)
          ∷ not (third i)
          ∷ fourth i
          ∷ true
          ∷ true
          ∷ true
          ∷ true
          ∷ true
          ∷ not (tenth i)
          ∷ []
