-- ===== src/Examples/Users.antt =====
-- User tables as src/auth.c builds them.
use secure_ci_coding.Base.{
  ◌≡◌, ◌↔◌, refl, arith, true, false, some, none, List, [], ◌∷◌, Bytes, All, codes,
}
use secure_ci_coding.Common.{vulnerable, fixed, admin}
use secure_ci_coding.Auth.{User, auth_create_user, auth_lookup_user, auth_verify}
use secure_ci_coding.Auth.Hash.{NonZero}
use secure_ci_coding.Auth.Users.{IsTable, new_user, empty-IsTable, auth_create_user-IsTable}
use secure_ci_coding.Auth.Verify.{
  IsAdminLogin, auth_verify_fixed_refuses, auth_verify_vulnerable_accepts,
}

-- A derivation that gives the password itself.
abbrev plain : Bytes → Bytes → Bytes
plain password salt = password

abbrev root : Bytes
root = codes "root"

abbrev secret : Bytes
secret = codes "Secret"

abbrev one_admin : List User
one_admin = new_user plain vulnerable [] root secret admin [] ∷ []

admin_created : auth_create_user plain vulnerable [] root secret admin [] ≡ some one_admin
unfolding auth_create_user
admin_created = refl

table : IsTable one_admin
table =
    auth_create_user-IsTable plain vulnerable [] root secret admin [] empty-IsTable admin_created

root-NonZero : All NonZero root
root-NonZero = (omega arith, (omega arith, (omega arith, (omega arith, tt))))

nobody : auth_lookup_user root [] ≡ none
unfolding auth_lookup_user
nobody = refl

auth_verify_fixed_refuses_example :
    auth_verify plain fixed [] (some root) (some secret) one_admin ≡ false
auth_verify_fixed_refuses_example =
    auth_verify_fixed_refuses plain [] (some root) (some secret) one_admin table

auth_verify_vulnerable_accepts_example :
    (auth_verify plain vulnerable [] (some root) (some secret) one_admin ≡ true)
    ↔ IsAdminLogin plain [] root secret one_admin
auth_verify_vulnerable_accepts_example =
    auth_verify_vulnerable_accepts plain [] root secret one_admin table
