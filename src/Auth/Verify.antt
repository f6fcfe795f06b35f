-- ===== src/Auth/Verify.antt =====
-- What `auth_verify` answers in the two builds.
use secure_ci_coding.Base.{
  ◌≤◌, ◌≡◌, ◌≢◌, refl, sym, subst, ◌⊎◌, ◌↔◌, inl, inr, ◌∷◌, ◌++◌, [], List, Option, none, some,
  arith, Bytes, length, length-append, take, cstr, All, ap, ◌∙◌, true, false, ◌&&◌, Bool,
  Bool-cases, append-nil, same, same_refl, same_iff, take-append, some_eq, Option-cases,
}
use secure_ci_coding.Common.{vulnerable, fixed, Role, admin, user, guest}
use secure_ci_coding.Auth.{
  User, auth_create_user, auth_lookup_user, auth_hash_password, verify_loop, auth_verify,
  hash_memory, input_valid, int_bytes, role_value,
}
use secure_ci_coding.Auth.Hash.{
  NonZero, cstr-append, hash_text, hash_text-eq, hash_text-take, cstr-auth_hash_password,
  length-hash_text,
}
use secure_ci_coding.Auth.Users.{
  IsStored, IsTable, new_user, auth_create_user-IsTable, auth_lookup_user-auth_create_user,
}

-- The loop is a lookup and one comparison.
abbrev matches : Bytes → Option User → Bool
matches hash none = false
matches hash (some u) = same (cstr (hash_memory u)) (cstr hash)

verify_loop-lookup :
    (name hash : Bytes) (users : List User)
    → verify_loop name hash users ≡ matches hash (auth_lookup_user name users)
unfolding verify_loop auth_lookup_user
verify_loop-lookup name hash [] = refl
verify_loop-lookup name hash (u ∷ users) = ground (arith, verify_loop-lookup name hash users)

pub same-length : (s t : Bytes) → length s ≢ length t → same s t ≡ false
same-length s t h = elim (Bool-cases (same s t)) [
  | inl e ↦ absurd (h (ap length (same_iff s t e)))
  | inr e ↦ e
]

-- What the string at `password_hash` holds behind the array: the value of the role, if not 0.
abbrev role_tail : Role → Bytes
role_tail admin = []
role_tail user = 1 ∷ []
role_tail guest = 2 ∷ []

cstr-role : (r : Role) (m : Bytes) → cstr (int_bytes (role_value r) ++ m) ≡ role_tail r
unfolding cstr
cstr-role admin m = refl
cstr-role user m = refl
cstr-role guest m = refl

cstr-hash_memory :
    (u : User) → IsStored u → cstr (hash_memory u) ≡ u.password_hash ++ role_tail u.role
cstr-hash_memory u s =
    cstr-append u.password_hash _ s.hash_digits ∙ ap (◌++◌ u.password_hash) (cstr-role u.role _)

length-role_tail :
    (r : Role) → (length (role_tail r) ≤ 1) × ((r ≡ admin) ⊎ (length (role_tail r) ≡ 1))
length-role_tail admin = (omega arith, inl refl)
length-role_tail user = (omega arith, inr refl)
length-role_tail guest = (omega arith, inr refl)

lookup-IsStored :
    (name : Bytes) (users : List User) {u : User}
    → All IsStored users
    → auth_lookup_user name users ≡ some u
    → IsStored u
unfolding auth_lookup_user
lookup-IsStored name [] a e = absurd (ground arith)
lookup-IsStored name (x ∷ users) {u} a e =
    elim (Bool-cases (x.active && same (cstr x.username) name)) [
      | inl hit ↦ subst IsStored (some_eq (rw hit at e)) a.0
      | inr miss ↦ lookup-IsStored name users a.1 (rw miss at e)
    ]

-- The comparison of a stored hash with the text of a password, by lengths.
stored_ne_fixed :
    (pbkdf2 : Bytes → Bytes → Bytes) (salt password : Bytes) (u : User)
    → IsStored u
    → same (cstr (hash_memory u)) (cstr (auth_hash_password pbkdf2 fixed salt password)) ≡ false
stored_ne_fixed pbkdf2 salt password u s =
    rw (cstr-hash_memory u s, cstr-auth_hash_password pbkdf2 fixed salt password)
      (same-length _ _ λ e. omega (
        arith,
        length-append u.password_hash (role_tail u.role),
        length-role_tail u.role,
        length-hash_text pbkdf2 fixed salt password,
        s.hash_size,
      ))

-- In the fixed build no login succeeds: on a well-formed user table `auth_verify` refuses every name
-- with every password, whatever salt is drawn. The text that it compares has 96 digits, and 64
-- fit the array.
pub auth_verify_fixed_refuses :
    (pbkdf2 : Bytes → Bytes → Bytes) (salt : Bytes) (name password : Option Bytes)
    (users : List User)
    → IsTable users
    → auth_verify pbkdf2 fixed salt name password users ≡ false
unfolding auth_verify
auth_verify_fixed_refuses pbkdf2 salt none password users t = refl
auth_verify_fixed_refuses pbkdf2 salt (some name) none users t = refl
auth_verify_fixed_refuses pbkdf2 salt (some name) (some password) users t =
    ground (arith, loop (Option-cases (auth_lookup_user name users)))
  where
    hash : Bytes
    hash = auth_hash_password pbkdf2 fixed salt password

    loop :
        (auth_lookup_user name users ≡ none) ⊎ ((u : User) × (auth_lookup_user name users ≡ some u))
        → verify_loop name (auth_hash_password pbkdf2 fixed salt password) users ≡ false
    loop (inl e) = rw (verify_loop-lookup name _ users, e)
    loop (inr (u, e)) =
        rw (verify_loop-lookup name _ users, e)
          (stored_ne_fixed pbkdf2 salt password u (lookup-IsStored name users t.stored e))

-- What makes the vulnerable build accept.
abbrev pub IsAdminLogin : (Bytes → Bytes → Bytes) → Bytes → Bytes → Bytes → List User → Type 0
IsAdminLogin pbkdf2 salt name password users =
    (u : User) × (auth_lookup_user name users ≡ some u)
    × (u.role ≡ admin)
    × (u.password_hash ≡ hash_text pbkdf2 vulnerable salt password)

append_cancel_nil : (s t : Bytes) → s ++ t ≡ s → t ≡ []
append_cancel_nil s [] e = refl
append_cancel_nil s (c ∷ t) e = absurd (omega (arith, ap length e, length-append s (c ∷ t)))

stored_eq_vulnerable :
    (pbkdf2 : Bytes → Bytes → Bytes) (salt password : Bytes) (u : User)
    → IsStored u
    → (same (cstr (hash_memory u)) (cstr (auth_hash_password pbkdf2 vulnerable salt password))
        ≡ true)
      ↔ ((u.role ≡ admin) × (u.password_hash ≡ hash_text pbkdf2 vulnerable salt password))
stored_eq_vulnerable pbkdf2 salt password u s =
    rw (cstr-hash_memory u s, cstr-auth_hash_password pbkdf2 vulnerable salt password)
      (forwards, backwards)
  where
    text : Bytes
    text = hash_text pbkdf2 vulnerable salt password

    forwards :
        same (u.password_hash ++ role_tail u.role) (hash_text pbkdf2 vulnerable salt password)
          ≡ true
        → (u.role ≡ admin) × (u.password_hash ≡ hash_text pbkdf2 vulnerable salt password)
    forwards e =
        let eq =
          same_iff (u.password_hash ++ role_tail u.role) (hash_text pbkdf2 vulnerable salt password)
            e in
        elim (length-role_tail u.role).1 [
          | inl is_admin ↦ (
            is_admin,
            sym (append-nil u.password_hash)
                ∙ ap (λ r. u.password_hash ++ role_tail r) (sym is_admin)
                ∙ eq,
          )
          | inr one ↦ absurd (
              omega (
                arith,
                ap length eq,
                length-append u.password_hash (role_tail u.role),
                length-hash_text pbkdf2 vulnerable salt password,
                s.hash_size,
              ))
        ]

    backwards :
        (u.role ≡ admin) × (u.password_hash ≡ hash_text pbkdf2 vulnerable salt password)
        → same (u.password_hash ++ role_tail u.role) (hash_text pbkdf2 vulnerable salt password)
          ≡ true
    backwards (is_admin, eq) =
        ap (λ r. same (u.password_hash ++ role_tail r) (hash_text pbkdf2 vulnerable salt password))
          is_admin
        ∙ ap (λ h. same h (hash_text pbkdf2 vulnerable salt password))
            (append-nil u.password_hash ∙ eq)
        ∙ same_refl (hash_text pbkdf2 vulnerable salt password)

matches_iff :
    (pbkdf2 : Bytes → Bytes → Bytes) (salt name password : Bytes) (users : List User)
    (o : Option User)
    → IsTable users
    → auth_lookup_user name users ≡ o
    → (matches (auth_hash_password pbkdf2 vulnerable salt password) o ≡ true)
      ↔ IsAdminLogin pbkdf2 salt name password users
matches_iff pbkdf2 salt name password users none t e =
    (λ h. absurd (ground arith), λ (u, e', r, p). absurd (ground arith))
matches_iff pbkdf2 salt name password users (some u) t e =
    let s = lookup-IsStored name users t.stored e in
    (
      λ h. let (r, p) = (stored_eq_vulnerable pbkdf2 salt password u s).0 h in (u, e, r, p),
      λ (u', e', r, p).
          let eq : u' ≡ u = some_eq (sym e' ∙ e) in
          (stored_eq_vulnerable pbkdf2 salt password u s).1 (
            subst
              (λ x.
                (x.role ≡ admin) × (x.password_hash ≡ hash_text pbkdf2 vulnerable salt password))
              eq (r, p)),
    )

-- In the vulnerable build a login on a well-formed table succeeds exactly when the first active user
-- of the name is an administrator whose stored hash is the text of the password: any other role
-- leaves a byte behind the array that makes the comparison fail.
pub auth_verify_vulnerable_accepts :
    (pbkdf2 : Bytes → Bytes → Bytes) (salt name password : Bytes) (users : List User)
    → IsTable users
    → (auth_verify pbkdf2 vulnerable salt (some name) (some password) users ≡ true)
      ↔ IsAdminLogin pbkdf2 salt name password users
unfolding auth_verify input_valid
auth_verify_vulnerable_accepts pbkdf2 salt name password users t =
    rw (verify_loop-lookup name (auth_hash_password pbkdf2 vulnerable salt password) users)
      (matches_iff pbkdf2 salt name password users _ t refl)

-- In the vulnerable build a new administrator, under a name without NULs that no active user has, can
-- log in at once with every password that has the same first 32 bytes as the password given.
auth_verify-auth_create_user :
    (pbkdf2 : Bytes → Bytes → Bytes) (salt salt' name password attempt : Bytes) (users : List User)
    {users' : List User}
    → IsTable users
    → All NonZero name
    → auth_lookup_user name users ≡ none
    → auth_create_user pbkdf2 vulnerable salt name password admin users ≡ some users'
    → take 32 password ≡ take 32 attempt
    → auth_verify pbkdf2 vulnerable salt' (some name) (some attempt) users' ≡ true
auth_verify-auth_create_user pbkdf2 salt salt' name password attempt users t a new e agree =
    (auth_verify_vulnerable_accepts pbkdf2 salt' name attempt _
        (auth_create_user-IsTable pbkdf2 vulnerable salt name password admin users t e)).1
      (
        new_user pbkdf2 vulnerable salt name password admin users,
        auth_lookup_user-auth_create_user pbkdf2 vulnerable salt name password admin users a new e,
        refl,
        ap (take 64) (hash_text-eq pbkdf2 vulnerable salt password)
            ∙ take-append 64 (hash_text pbkdf2 vulnerable salt password) (0 ∷ [])
                (omega (arith, length-hash_text pbkdf2 vulnerable salt password))
            ∙ hash_text-take pbkdf2 salt salt' password attempt agree,
      )
