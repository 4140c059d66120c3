-- ===== src/SecureServer/Accepting.antt =====
-- How `handle_connexion` of src/serversec/secure_server.c starts, over what OpenSSL says of the
-- connection.
use bavardage.Prelude.{ℕ, ◌≡◌, Bool, true, false, Option, none, some, arith}
use bavardage.CString.{Str}
use bavardage.Wire.{Message}
use bavardage.SecureServer.State.{Session}

-- Whether `SSL_accept` succeeds, the subject of the peer's certificate as `X509_NAME_oneline` writes
-- it, if there is one, and whether `SSL_get_verify_result` is `X509_V_OK`.
pub record Handshake : Type 0 where
  pub accepted : Bool
  pub subject : Option Str
  pub verified : Bool

-- The thread ends, or `exit` ends the whole server, or the loop of the thread starts.
pub data Greeting : Type 0 where
  ends exits : Greeting
  serves : Session → Greeting

-- What a thread starts with: no user, its certificate's subject, and a response never written.
abbrev pub newcomer : ℕ → Str → Message → Session
newcomer ssl subject junk = record {
  ssl = ssl;
  user = none;
  first_connection = false;
  subject = subject;
  response = junk;
  running = true;
}

-- Without a certificate `data` stays what it was, which is `stale`.
unfoldable pub greet : ℕ → Str → Message → Handshake → Greeting
greet ssl stale junk p = elim p.accepted [
  | false ↦ ends
  | true ↦ elim p.subject [
    | none ↦ serves (newcomer ssl stale junk)
    | some subject ↦ elim p.verified [ true ↦ serves (newcomer ssl subject junk) | false ↦ exits ]
  ]
]

-- Whatever the connection, a thread that starts serves nobody.
pub greet-nobody :
    (ssl : ℕ) (stale : Str) (junk : Message) (p : Handshake) (s : Session)
    → greet ssl stale junk p ≡ serves s
    → s.user ≡ none
unfolding greet
greet-nobody ssl stale junk p s e = grind arith
