-- ===== src/Certificates/Checked.antt =====
-- What it means that `post_connection_check` of src/common/commonsec.c lets a peer pass, and that the
-- password of a key never overflows the array that OpenSSL gives.
use bavardage.Prelude.{
  ℕ, ◌+◌, ◌<◌, ◌≡◌, ◌≢◌, refl, true, false, Option, none, some, List, [], ◌∷◌, ◌⊎◌, inl, inr, arith,
  Bool-cases, ltb, ltb→lt, lt→ltb, length,
}
use bavardage.Prelude.Int.{ℤ, pos}
use bavardage.CString.{Str, codes, str_eq, eq_of_str_eq}
use bavardage.Run.{ok}
use bavardage.Rooms.Adding.{strcpy-ok}
use bavardage.Certificates.{
  Alternative, Extension, Certificate, same_letters, alternatives_loop, extensions_loop, is_other,
  post_connection_check, password_cb,
}

-- One of the list.
abbrev pub Any {ℓ} : {A : Type ℓ} → (A → Type 0) → List A → Type 0
Any P [] = ⊥
Any P (a ∷ l) = P a ⊎ Any P l

abbrev pub IsHost : Str → Alternative → Type 0
IsHost host v = (v.name ≡ codes "DNS") × (v.value ≡ host)

-- An extension for alternative names that lists the host.
abbrev pub ListsHost : Str → Extension → Type 0
ListsHost host e = (e.short_name ≡ codes "subjectAltName") × Any (IsHost host) e.names

alternatives_loop-Any :
    (host : Str) (l : List Alternative) → alternatives_loop host l ≡ true → Any (IsHost host) l
unfolding alternatives_loop
alternatives_loop-Any host [] found = cc
alternatives_loop-Any host (v ∷ l) found = elim (Bool-cases (str_eq v.name (codes "DNS"))) [
  | inr other ↦ inr (alternatives_loop-Any host l (rw other at found))
  | inl dns ↦ elim (Bool-cases (str_eq v.value host)) [
    | inr elsewhere ↦ inr (alternatives_loop-Any host l (rw (dns, elsewhere) at found))
    | inl same ↦ inl (eq_of_str_eq v.name _ dns, eq_of_str_eq v.value host same)
  ]
]

extensions_loop-Any :
    (host : Str) (l : List Extension) → extensions_loop host l ≡ true → Any (ListsHost host) l
unfolding extensions_loop
extensions_loop-Any host [] found = cc
extensions_loop-Any host (e ∷ l) found =
    elim (Bool-cases (str_eq e.short_name (codes "subjectAltName"))) [
      | inr other ↦ inr (extensions_loop-Any host l (rw other at found))
      | inl alt ↦ elim (Bool-cases e.known) [
        | inr unknown ↦ let never : false ≡ true = rw (alt, unknown) at found in cc
        | inl known ↦ elim (Bool-cases (alternatives_loop host e.names)) [
          | inl listed ↦
              inl (eq_of_str_eq e.short_name _ alt, alternatives_loop-Any host e.names listed)
          | inr not_here ↦ inr (extensions_loop-Any host l (rw (alt, known, not_here) at found))
        ]
      ]
    ]

-- Why a certificate passes for a host: an alternative name, the common name up to case, or that it has
-- no common name or an empty one, which says nothing of the host.
abbrev pub Passes : Str → Certificate → Type 0
Passes host cert =
    Any (ListsHost host) cert.extensions
    ⊎ ((name : Str) × (cert.common_name ≡ some name) × (same_letters name host ≡ true))
    ⊎ (cert.common_name ≡ none)
    ⊎ (cert.common_name ≡ some [])

common-Passes :
    (host : Str) (cert : Certificate) (name : Option Str)
    → cert.common_name ≡ name
    → is_other host name ≡ false
    → Passes host cert
common-Passes host cert none e same = inr (inr (inl e))
common-Passes host cert (some []) e same = inr (inr (inr e))
common-Passes host cert (some (c ∷ text)) e same =
    elim (Bool-cases (same_letters (c ∷ text) host)) [
      | inl fits ↦ inr (inl (c ∷ text, e, fits))
      | inr other ↦ let never : true ≡ false = rw other at same in cc
    ]

-- If the check answers with `X509_V_OK`, which is 0 and not the code of a refusal, then OpenSSL has
-- verified the certificate, there is one, and a host to check, and one of four holds: an extension for
-- alternative names lists the host under `DNS`, the common name is the host up to case, the
-- certificate has no common name, or its common name is empty.
pub post_connection_check-Passes :
    (refused verified : ℤ) (peer : Option Certificate) (host : Option Str)
    → refused ≢ pos 0
    → post_connection_check refused verified peer host ≡ pos 0
    → (verified ≡ pos 0)
      × ((cert : Certificate) × (name : Str) × (peer ≡ some cert)
          × (host ≡ some name)
          × Passes name cert)
unfolding post_connection_check
post_connection_check-Passes refused verified none host apart passed = absurd (apart passed)
post_connection_check-Passes refused verified (some cert) none apart passed = absurd (apart passed)
post_connection_check-Passes refused verified (some cert) (some host) apart passed =
    elim (Bool-cases (extensions_loop host cert.extensions)) [
      | inl listed ↦ (
        rw listed at passed,
        (cert, host, refl, refl, inl (extensions_loop-Any host cert.extensions listed)),
      )
      | inr unlisted ↦ elim (Bool-cases (is_other host cert.common_name)) [
        | inl other ↦ absurd (apart (rw (unlisted, other) at passed))
        | inr same ↦ (
          rw (unlisted, same) at passed,
          (cert, host, refl, refl, common-Passes host cert cert.common_name refl same),
        )
      ]
    ]

-- The password is copied only where it fits, with its zero byte, in the `num` bytes: there is never a
-- fault, and the length returned is that of what was written, or 0 if nothing was.
pub password_cb-fits :
    (num : ℕ) (pass : Str)
    → (password_cb num pass ≡ ok (0, none)) × ¬ (length pass < num)
      ⊎ (password_cb num pass ≡ ok (length pass, some pass)) × (length pass < num)
unfolding password_cb
password_cb-fits num pass = elim (Bool-cases (ltb num (length pass + 1))) [
  | inl long ↦
      inl (rw (long, password_cb) refl, λ fits. omega (arith, ltb→lt num (length pass + 1) long))
  | inr short ↦
      let fits : length pass < num = ground (arith, lt→ltb num (length pass + 1)) in
      inr (rw (short, password_cb, strcpy-ok num pass fits) refl, fits)
]
