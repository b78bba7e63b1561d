-- ===== src/Auth/Admission.antt =====
-- A user that was created can log in by every way, whatever the case of the address.
use boar_pack.Base.{text_eq}
use boar_pack.Auth.Accounts.{Accounts}
