-- ===== src/Users.antt =====
-- The parts of packages/users-backend/src/users/entities/user.entity.ts that the services read.
use boar_pack.Base.{String, List, Option, ◌≡◌, ◌↔◌, Bool, true, false, arith, Eq}

pub data Role : Type 0 where
  admin user : Role

abbrev same_role : Role → Role → Bool
same_role admin admin = true
same_role user user = true
same_role _ _ = false

pub same_role_iff : (a b : Role) → (same_role a b ≡ true) ↔ (a ≡ b)
same_role_iff a b = ground arith

instance abbrev pub role_eq : Eq Role
role_eq = record { test = same_role; decides = same_role_iff }

pub record User : Type 0 where
  pub id : String
  pub email : String
  pub role : Role
  pub permissions : List String

-- A row of `users` with the hash of the password.
pub record UserEntity : Type 0 where
  pub id : String
  pub email : String
  pub role : Role
  pub permissions : List String
  pub pass : Option String

-- `const { pass, ...user } = entity`.
abbrev pub without_pass : UserEntity → User
without_pass u = record { id = u.id; email = u.email; role = u.role; permissions = u.permissions }
