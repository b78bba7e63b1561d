-- ===== src/Tools/Exceptions.antt =====
-- TypeOrmExceptionFilter of packages/common-backend/src/tools/typeorm.execption-filter.ts. The filter
-- that it extends is a parameter; what it logs is left out.
use boar_pack.Base.{ℕ, String, Option, none, some, List, ◌||◌, text_eq, ◌==◌, if◌then◌else◌}
use boar_pack.Dict.{get, set}

pub record QueryFailedError : Type 0 where
  pub code : Option String
  pub constraint : Option String

pub record Response : Type 0 where
  pub status_code : ℕ
  pub message : String
  pub error : String

-- `ErrorCode`.
abbrev pub unique_violation : String
unique_violation = "23505"

abbrev pub foreign_key_violation : String
foreign_key_violation = "23503"

abbrev pub failed_removing_by_foreign_key : String
failed_removing_by_foreign_key = "ER_ROW_IS_REFERENCED"

abbrev pub failed_removing_by_foreign_key2 : String
failed_removing_by_foreign_key2 = "ER_ROW_IS_REFERENCED_2"

unfoldable pub set_unique_constraint_message :
    String → String → List (String × String) → List (String × String)
set_unique_constraint_message constraint message messages = set constraint message messages

-- A missing constraint is the key `undefined`.
abbrev pub key_of : Option String → String
key_of (some constraint) = constraint
key_of none = "undefined"

abbrev pub unique_message : Option String → List (String × String) → String
unique_message constraint messages = elim (get (key_of constraint) messages) [
  | some message ↦ if message == "" then "The record already exists" else message
  | none ↦ "The record already exists"
]

abbrev pub bad_request : String → Response
bad_request message = record { status_code = 400; message = message; error = "Bad Request" }

unfoldable pub answer : String → Option String → List (String × String) → Option Response
answer code constraint messages =
    if code == unique_violation
    then some (bad_request (unique_message constraint messages))
    else if code == foreign_key_violation
        || code == failed_removing_by_foreign_key
        || code == failed_removing_by_foreign_key2
    then some
        (bad_request "System cannot remove the record, please remove all related records first")
    else none

-- `catch`: the cases of its switch, and else the filter that it extends.
unfoldable pub catch :
    (QueryFailedError → Response) → QueryFailedError → List (String × String) → Response
catch base exception messages = elim exception.code [
  | none ↦ base exception
  | some code ↦ elim (answer code exception.constraint messages) [
    | some response ↦ response
    | none ↦ base exception
  ]
]
