-- ===== src/SecureServer/Entering.antt =====
-- Who gets into the secure server: `CONNECT_SEC` of src/serversec/secure_server.c with the accounts
-- of src/common_server/mysqlite.c.
use bavardage.Prelude.{
  ℕ, zero, suc, ◌<◌, ◌≡◌, refl, sym, ◌∙◌, Bool, true, false, length, arith, ◌==◌,
}
use bavardage.CString.{Str, codes}
use bavardage.Run.{Run, ok, ◌>>=◌}
use bavardage.Wire.{Message, max_name_size, secure, connect_sec_ko}
use bavardage.Accounts
use bavardage.Accounts.Sql.{Sqlite, row, finished}
use bavardage.Accounts.{is_connected, check_user, check_certificate, add_user_db}
use bavardage.Accounts.Ending.{
  Gives, check_user-rows, is_connected-answers, user_query, status_query, max_subject_size,
  certificate_query, check_certificate-rows,
}
use bavardage.SecureServer.State.{State, Session, Env, Turn, answer}
use bavardage.SecureServer.Access.{on_connect_sec, enter, enter_new}

-- What `SELECT` finds: a statement that is prepared and gives that many rows, fewer than the fuel.
pub record Finds (S : Sqlite) (fuel : ℕ) (db : S.Db) (query : Str) (rows : ℕ) : Type 0 where
  pub prepared : S.prepare db query ≡ true
  pub gives : Gives (S.step db query) rows
  pub within : rows < fuel

suc_apart : (k : ℕ) → (suc k == 0) ≡ false
suc_apart k = ground arith

module _ (S : Sqlite) (t : State S) (env : Env) (s : Session) (buffer : Message) where
  -- The accounts behind the query of `is_connected`.
  abbrev pub asked : S.Db
  asked = (S.exec t.db (status_query buffer.sender)).1

  abbrev refused : Str → Run (Turn S)
  refused text = ok (answer (record t { db = asked }) s (secure connect_sec_ko) text)

  -- The outcome, from whether SQLite runs the query of `is_connected`, the number of accounts with
  -- that login and certificate, and the number with that certificate.
  abbrev pub admission : Bool → ℕ → ℕ → Run (Turn S)
  admission false accounts certificates = refused (codes "you are already connected!\n")
  admission true (suc k) certificates = enter S t env s buffer asked s.first_connection
  admission true zero (suc k) = refused (codes "This certificate is already in use")
  admission true zero zero = do
    (_, db) ← add_user_db S asked buffer.sender s.subject
    enter S t env s buffer db true

  module _ (login_fits : length buffer.sender < max_name_size)
      (subject_fits : length s.subject < max_subject_size) (first : ℕ)
      (f : Finds S env.fuel t.db (user_query buffer.sender s.subject) first) where
    answered_ok :
        is_connected S env.fuel t.db buffer.sender s.subject
        ≡ ok (Accounts.answer ((S.exec t.db (status_query buffer.sender)).0), asked)
    answered_ok =
        is_connected-answers S t.db buffer.sender s.subject login_fits subject_fits env.fuel first
          (λ e. let never : row ≡ finished = sym e ∙ f.gives.then_done in cc) f.within

    outcome :
        (b : Bool) (accounts certificates : ℕ)
        → (S.exec t.db (status_query buffer.sender)).0 ≡ b
        → Finds S env.fuel asked (user_query buffer.sender s.subject) accounts
        → Finds S env.fuel asked (certificate_query s.subject) certificates
        → on_connect_sec S t env s buffer ≡ admission b accounts certificates
    unfolding on_connect_sec enter_new
    outcome false accounts certificates e a c = rw (answered_ok, ◌>>=◌, e) refl
    outcome true (suc k) certificates e a c =
        let known =
          check_user-rows S asked buffer.sender s.subject login_fits subject_fits env.fuel (suc k)
            a.prepared a.gives a.within in
        rw (answered_ok, ◌>>=◌, e, known, ◌>>=◌, suc_apart k) refl
    outcome true zero zero e a c =
        let known =
          check_user-rows S asked buffer.sender s.subject login_fits subject_fits env.fuel 0
            a.prepared a.gives a.within in
        let owned =
          check_certificate-rows S asked buffer.sender s.subject login_fits subject_fits env.fuel 0
            c.prepared c.gives c.within in
        rw (answered_ok, ◌>>=◌, e, known, ◌>>=◌, enter_new, owned, ◌>>=◌) refl
    outcome true zero (suc k) e a c =
        let known =
          check_user-rows S asked buffer.sender s.subject login_fits subject_fits env.fuel 0
            a.prepared a.gives a.within in
        let owned =
          check_certificate-rows S asked buffer.sender s.subject login_fits subject_fits env.fuel
            (suc k) c.prepared c.gives c.within in
        rw (answered_ok, ◌>>=◌, e, known, ◌>>=◌, enter_new, owned, ◌>>=◌, suc_apart k) refl

  -- Who gets in: someone whose account is there, connected or not, since only a failure of SQLite
  -- makes the answer that one is already connected; and someone new, unless the certificate belongs
  -- to another account. For a login and a subject that fit, and queries that are prepared and give
  -- fewer rows than the fuel.
  pub on_connect_sec-admits :
      (first accounts certificates : ℕ)
      → length buffer.sender < max_name_size
      → length s.subject < max_subject_size
      → Finds S env.fuel t.db (user_query buffer.sender s.subject) first
      → Finds S env.fuel asked (user_query buffer.sender s.subject) accounts
      → Finds S env.fuel asked (certificate_query s.subject) certificates
      → on_connect_sec S t env s buffer
        ≡ admission ((S.exec t.db (status_query buffer.sender)).0) accounts certificates
  on_connect_sec-admits first accounts certificates login_fits subject_fits f a c =
      outcome login_fits subject_fits first f ((S.exec t.db (status_query buffer.sender)).0)
        accounts certificates refl a c
