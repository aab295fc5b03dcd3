-- ===== src/Access/Sessions/Laws.antt =====
-- What a login promises.
use ai_cctv_platform.Common.{
  ◌≡◌, refl, sym, ap, ◌∙◌, Bool, true, false, String, Option, some, none, eq_iff, inl, inr, In,
  find-In, arith, ◌⊎◌,
}
use ai_cctv_platform.Access.Errors.{unauthorized}
use ai_cctv_platform.Access.Directory.{UserRow, Directory, Primitives, passes, fails}
use ai_cctv_platform.Access.Sessions.{AuthUser, auth_user, select_user, hash_of, login_as, login}

login_as-passes :
    (row : Option UserRow) (verified : Bool) {u : AuthUser}
    → login_as row verified ≡ passes u
    → (r : UserRow) × (row ≡ some r) × (verified ≡ true) × (u ≡ auth_user r)
login_as-passes none verified h = ground arith
login_as-passes (some r) false h = ground arith
login_as-passes (some r) true h = (r, refl, refl, ground arith)

-- A login passes only as a stored user whose address is the one given, up to case and spaces, and
-- whose stored hash the password verifies against.
pub login_sound :
    (prims : Primitives) (email password : String) (dir : Directory) (u : AuthUser)
    → login prims email password dir ≡ passes u
    → (r : UserRow) × In r dir.users
      × (prims.lower r.email ≡ prims.normalize_email email)
      × (prims.verify_password r.password_hash password ≡ true)
      × (u ≡ auth_user r)
unfolding login select_user
login_sound prims email password dir u h =
    let (r, found, verified, same) = login_as-passes (select_user prims email dir) _ h in
    let (stored, test) = find-In _ dir.users found in
    (
      r,
      stored,
      ground (arith, test, eq_iff (prims.lower r.email) (prims.normalize_email email)),
      ap (λ o. prims.verify_password (hash_of o) password) (sym found) ∙ verified,
      same,
    )

-- A login that does not pass answers the same whether the address or the password is wrong.
pub login_uniform :
    (prims : Primitives) (email password : String) (dir : Directory)
    → ((u : AuthUser) × (login prims email password dir ≡ passes u))
      ⊎ (login prims email password dir ≡ fails (unauthorized "Invalid email or password"))
unfolding login
login_uniform prims email password dir = uniform (select_user prims email dir) _
  where
    uniform :
        (row : Option UserRow) (verified : Bool)
        → ((u : AuthUser) × (login_as row verified ≡ passes u))
          ⊎ (login_as row verified ≡ fails (unauthorized "Invalid email or password"))
    uniform none verified = inr refl
    uniform (some r) true = inl (auth_user r, refl)
    uniform (some r) false = inr refl
