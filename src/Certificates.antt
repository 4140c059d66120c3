-- ===== src/Certificates.antt =====
-- src/common/commonsec.c, the checks of a peer's certificate, over what OpenSSL says of it: and the
-- callback of src/client/libclientsec.c for the password of a key.
pub mod Checked
use bavardage.Prelude.{
  ℕ, ◌+◌, ◌<◌, ◌≡◌, Bool, true, false, Option, none, some, List, [], ◌∷◌, if◌then◌else◌, ltb,
  length,
}
use bavardage.Prelude.Int.{ℤ}
use bavardage.CString.{Str, codes, str_eq, strcpy}
use bavardage.Run.{Run, ok, ◌>>=◌}

-- A `CONF_VALUE`: one of the names that an extension lists.
pub record Alternative : Type 0 where
  pub name : Str
  pub value : Str

-- The short name of an extension, whether `X509V3_EXT_get` has a method for it, and its names.
pub record Extension : Type 0 where
  pub short_name : Str
  pub known : Bool
  pub names : List Alternative

-- The extensions, and what `X509_NAME_get_text_by_NID` writes for the common name of the subject, if
-- there is one.
pub record Certificate : Type 0 where
  pub extensions : List Extension
  pub common_name : Option Str

-- `ok` is what OpenSSL has found; the rest is printed.
unfoldable pub verify_callback : ℤ → ℤ
verify_callback verified = verified

abbrev pub lower : ℕ → ℕ
lower c = if ltb 64 c then (if ltb c 91 then c + 32 else c) else c

-- `strcasecmp (a, b) == 0`, for the letters of ASCII.
unfoldable pub same_letters : Str → Str → Bool
same_letters [] [] = true
same_letters [] (d ∷ b) = false
same_letters (c ∷ a) [] = false
same_letters (c ∷ a) (d ∷ b) =
    let rest = same_letters a b in if str_eq (lower c ∷ []) (lower d ∷ []) then rest else false

-- The loop over the names of one extension.
unfoldable pub alternatives_loop : Str → List Alternative → Bool
alternatives_loop host [] = false
alternatives_loop host (nval ∷ val) =
    let rest = alternatives_loop host val in
    if str_eq nval.name (codes "DNS") then (if str_eq nval.value host then true else rest) else rest

-- The loop over the extensions. One for alternative names that has no method ends it.
unfoldable pub extensions_loop : Str → List Extension → Bool
extensions_loop host [] = false
extensions_loop host (ext ∷ next) =
    let rest = extensions_loop host next in
    if str_eq ext.short_name (codes "subjectAltName")
    then (if ext.known then (if alternatives_loop host ext.names then true else rest) else false)
    else rest

-- Whether the common name, if there is one that is not empty, is another one.
abbrev pub is_other : Str → Option Str → Bool
is_other host none = false
is_other host (some []) = false
is_other host (some (c ∷ text)) = if same_letters (c ∷ text) host then false else true

-- `refused` is `X509_V_ERR_APPLICATION_VERIFICATION`, `verified` what `SSL_get_verify_result` returns.
unfoldable pub post_connection_check : ℤ → ℤ → Option Certificate → Option Str → ℤ
post_connection_check refused verified none host = refused
post_connection_check refused verified (some cert) none = refused
post_connection_check refused verified (some cert) (some host) =
    if extensions_loop host cert.extensions
    then verified
    else (if is_other host cert.common_name then refused else verified)

-- The number returned, and what is written to `buf`, an array of `num` bytes.
unfoldable pub password_cb : ℕ → Str → Run (ℕ × Option Str)
password_cb num pass = elim (ltb num (length pass + 1)) [
  | true ↦ ok (0, none)
  | false ↦ do buf ← strcpy num pass; ok (length pass, some buf)
]
