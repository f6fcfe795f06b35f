-- ===== src/Auth/Users.antt =====
-- The user table: what creating a user keeps, and what a lookup then finds.
use secure_ci_coding.Base.{
  Option, ℕ, zero, suc, ◌+◌, ◌-◌, ◌≤◌, ◌<◌, ◌≡◌, refl, sym, subst, ◌⊎◌, inl, inr, ◌∷◌, ◌++◌, [],
  List, none, some, arith, Bytes, length, length-append, take, some_eq, cstr, All, ap, ◌∙◌, leb,
  true, ◌&&◌, Bool-cases, append-nil, length-take, take_all, same, same_refl,
}
use secure_ci_coding.Common.{Build, vulnerable, fixed, Role, max_username_len, user_db_max}
use secure_ci_coding.Auth.{
  User, name_field, zeros, auth_create_user, auth_lookup_user, auth_hash_password, or_same,
  auth_init,
}
use secure_ci_coding.Auth.Hash.{
  NonZero, cstr-append, hash_text, hash_text-eq, hash_text-NonZero, length-hash_text,
  length-auth_hash_password, hash_length,
}

-- An entry whose arrays have their size, and whose hash array holds digits only.
pub record IsStored (u : User) : Type 0 where
  pub name_size : length u.username ≡ 64
  pub hash_size : length u.password_hash ≡ 64
  pub hash_digits : All NonZero u.password_hash

-- The ids count up from `k`.
abbrev Numbered : ℕ → List User → Type 0
Numbered k [] = Unit {0}
Numbered k (u ∷ users) = (u.user_id ≡ k) × Numbered (k + 1) users

pub record IsTable (users : List User) : Type 0 where
  pub fits : length users ≤ user_db_max
  pub numbered : Numbered 1 users
  pub stored : All IsStored users

pub empty-IsTable : IsTable []
empty-IsTable = record { fits = omega arith; numbered = tt; stored = tt }

-- The entry that `auth_create_user` adds.
abbrev pub new_user :
    (Bytes → Bytes → Bytes) → Build → Bytes → Bytes → Bytes → Role → List User → User
new_user pbkdf2 b salt name password role users = record {
  user_id = length users + 1;
  username = name_field name;
  password_hash = take 64 (auth_hash_password pbkdf2 b salt password);
  role = role;
  active = true;
}

length-zeros : (n : ℕ) → length (zeros n) ≡ n
length-zeros zero = refl
length-zeros (suc n) = ap suc (length-zeros n)

All-take : (n : ℕ) (s t : Bytes) → n ≤ length s → All NonZero s → All NonZero (take n (s ++ t))
All-take zero s t h a = tt
All-take (suc n) [] t h a = absurd (omega arith)
All-take (suc n) (c ∷ s) t h a = (a.0, All-take n s t (omega arith) a.1)

module _ (pbkdf2 : Bytes → Bytes → Bytes) (b : Build) (salt name password : Bytes)
    (role : Role) where
  IsStored-new_user :
      (users : List User) → IsStored (new_user pbkdf2 b salt name password role users)
  IsStored-new_user users = record {
    name_size = omega (
      arith,
      length-append (take 63 name) (zeros (64 - length (take 63 name))),
      length-zeros (64 - length (take 63 name)),
      length-take 63 name,
    );
    hash_size = omega (
      arith,
      length-take 64 (auth_hash_password pbkdf2 b salt password),
      length-auth_hash_password pbkdf2 b salt password,
      enough b,
    );
    hash_digits = digits;
  }
    where
      enough : (b : Build) → 65 ≤ hash_length b
      enough vulnerable = omega arith
      enough fixed = omega arith

      digits : All NonZero (take 64 (auth_hash_password pbkdf2 b salt password))
      digits = rw (hash_text-eq pbkdf2 b salt password) (
          All-take 64 (hash_text pbkdf2 b salt password) (0 ∷ [])
            (omega (arith, length-hash_text pbkdf2 b salt password, enough b))
            (hash_text-NonZero pbkdf2 b salt password))

  -- A user is created exactly when the table has a free entry and the name is shorter than 64 bytes,
  -- and is then added at the end.
  auth_create_user_cases :
      (users : List User)
      → ((auth_create_user pbkdf2 b salt name password role users ≡ none)
          × ((user_db_max ≤ length users) ⊎ (max_username_len ≤ length name)))
        ⊎ ((length users < user_db_max)
            × (length name < max_username_len)
            × (auth_create_user pbkdf2 b salt name password role users
                ≡ some (users ++ new_user pbkdf2 b salt name password role users ∷ [])))
  unfolding auth_create_user
  auth_create_user_cases users = elim (Bool-cases (leb user_db_max (length users))) [
    | inl full ↦ inl (rw full, inl (ground arith))
    | inr room ↦ elim (Bool-cases (leb max_username_len (length name))) [
      | inl long ↦ inl (rw (room, long), inr (ground arith))
      | inr short ↦ inr (ground arith, ground arith, rw (room, short))
    ]
  ]

Numbered-append :
    (k : ℕ) (users : List User) (u : User)
    → Numbered k users
    → u.user_id ≡ k + length users
    → Numbered k (users ++ u ∷ [])
Numbered-append k [] u n e = (omega arith, tt)
Numbered-append k (x ∷ users) u n e = (n.0, Numbered-append (k + 1) users u n.1 (omega arith))

All-append :
    (users : List User) (u : User)
    → All IsStored users
    → IsStored u
    → All IsStored (users ++ u ∷ [])
All-append [] u h p = (p, tt)
All-append (x ∷ users) u h p = (h.0, All-append users u h.1 p)

-- Creating a user keeps the table well formed: at most 256 entries, ids that count up from 1, arrays
-- of 64 bytes, and hashes without a NUL.
pub auth_create_user-IsTable :
    (pbkdf2 : Bytes → Bytes → Bytes) (b : Build) (salt name password : Bytes) (role : Role)
    (users : List User) {users' : List User}
    → IsTable users
    → auth_create_user pbkdf2 b salt name password role users ≡ some users'
    → IsTable users'
auth_create_user-IsTable pbkdf2 b salt name password role users t e =
    elim (auth_create_user_cases pbkdf2 b salt name password role users) [
      | inl (refused, _) ↦ absurd (cc)
      | inr (room, short, added) ↦
          let u = new_user pbkdf2 b salt name password role users in
          subst IsTable (some_eq (sym added ∙ e)) (record {
            fits = omega (arith, length-append users (u ∷ []));
            numbered = Numbered-append 1 users u t.numbered (omega arith);
            stored =
                All-append users u t.stored
                  (IsStored-new_user pbkdf2 b salt name password role users);
          })
    ]

cstr-zeros : (n : ℕ) → cstr (zeros n) ≡ []
unfolding cstr
cstr-zeros zero = refl
cstr-zeros (suc n) = refl

-- The name comes back out of its array.
cstr-name_field :
    (name : Bytes)
    → All NonZero name
    → length name < max_username_len
    → cstr (name_field name) ≡ name
cstr-name_field name a h =
    ap (λ s. cstr (s ++ zeros (64 - length s))) (take_all 63 name (omega arith))
    ∙ cstr-append name (zeros (64 - length name)) a
    ∙ ap (◌++◌ name) (cstr-zeros (64 - length name))
    ∙ append-nil name

lookup-append :
    (name : Bytes) (users : List User) (u : User)
    → auth_lookup_user name users ≡ none
    → (u.active && same (cstr u.username) name) ≡ true
    → auth_lookup_user name (users ++ u ∷ []) ≡ some u
unfolding auth_lookup_user
lookup-append name [] u e h = rw h
lookup-append name (x ∷ users) u e h = ground (arith, lookup-append name users u)

-- A lookup of a new name finds the user that was just created under it.
pub auth_lookup_user-auth_create_user :
    (pbkdf2 : Bytes → Bytes → Bytes) (b : Build) (salt name password : Bytes) (role : Role)
    (users : List User) {users' : List User}
    → All NonZero name
    → auth_lookup_user name users ≡ none
    → auth_create_user pbkdf2 b salt name password role users ≡ some users'
    → auth_lookup_user name users' ≡ some (new_user pbkdf2 b salt name password role users)
auth_lookup_user-auth_create_user pbkdf2 b salt name password role users a new e =
    elim (auth_create_user_cases pbkdf2 b salt name password role users) [
      | inl (refused, _) ↦ absurd (cc)
      | inr (room, short, added) ↦
          let u = new_user pbkdf2 b salt name password role users in
          subst (λ t. auth_lookup_user name t ≡ some u) (some_eq (sym added ∙ e))
            (lookup-append name users u new (rw (cstr-name_field name a short) (same_refl name)))
    ]

or_same-IsTable :
    (pbkdf2 : Bytes → Bytes → Bytes) (b : Build) (salt name password : Bytes) (role : Role)
    (users : List User)
    → IsTable users
    → IsTable (or_same users (auth_create_user pbkdf2 b salt name password role users))
or_same-IsTable pbkdf2 b salt name password role users t =
    by_result (auth_create_user pbkdf2 b salt name password role users) refl
  where
    by_result :
        (o : Option (List User))
        → auth_create_user pbkdf2 b salt name password role users ≡ o
        → IsTable (or_same users o)
    by_result none e = t
    by_result (some users') e = auth_create_user-IsTable pbkdf2 b salt name password role users t e

-- The default users leave the table well formed.
pub auth_init-IsTable :
    (pbkdf2 : Bytes → Bytes → Bytes) (b : Build) (salts : ℕ → Bytes) (users : List User)
    → IsTable users
    → IsTable (auth_init pbkdf2 b salts users)
unfolding auth_init
auth_init-IsTable pbkdf2 b salts users t =
    or_same-IsTable pbkdf2 b (salts 2) _ _ _ _
      (or_same-IsTable pbkdf2 b (salts 1) _ _ _ _ (or_same-IsTable pbkdf2 b (salts 0) _ _ _ _ t))
