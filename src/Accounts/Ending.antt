-- ===== src/Accounts/Ending.antt =====
-- The loops over `sqlite3_step` of src/common_server/mysqlite.c end, and count the rows.
use bavardage.Prelude.{
  ℕ, zero, suc, ◌+◌, ◌-◌, ◌<◌, ◌≤◌, ◌≡◌, ◌≢◌, refl, sym, ◌∙◌, ap, true, false, ◌++◌, arith, ◌==◌,
  length, length-append, Bool-cases, ==_iff, ◌⊎◌, inl, inr,
}
use bavardage.Prelude.Int.{ℤ, negsuc}
use bavardage.CString.{Str, codes}
use bavardage.Run.{Run, ok, ◌>>=◌}
use bavardage.Wire.{max_name_size}
use bavardage.Rooms.Adding.{strcpy-ok}
use bavardage.Accounts.Sql.{Sqlite, Step, row, finished, failed}
use bavardage.Accounts.{
  query_size, sprintf_one, sprintf_two, answer, fetch_loop, fetch, check_user, check_certificate,
  is_connected, run_query, add_user_db, delete_user, change_status, check_challenge,
}

-- A statement that gives `rows` rows and then no more, as SQLite documents it for a `SELECT` that no
-- other connection disturbs.
pub record Gives (step : ℕ → Step) (rows : ℕ) : Type 0 where
  pub rows_first : (n : ℕ) → n < rows → step n ≡ row
  pub then_done : step rows ≡ finished

Step-cases : (s : Step) → (s ≡ row) ⊎ (s ≡ finished) ⊎ (s ≡ failed)
Step-cases row = inl refl
Step-cases finished = inr (inl refl)
Step-cases failed = inr (inr refl)

lt_of_apart : (a b : ℕ) → a ≤ b → (a == b) ≡ false → a < b
lt_of_apart a b le apart = ground arith

-- Whatever the statement gives, the loop ends within the fuel if one of its calls is no row.
fetch_loop-ends :
    (fuel : ℕ) (step : ℕ → Step) (calls total n : ℕ)
    → step n ≢ row
    → calls ≤ n
    → n < calls + fuel
    → (z : ℤ) × (fetch_loop fuel step calls total ≡ ok z)
unfolding fetch_loop
fetch_loop-ends zero step calls total n stops le lt = absurd (omega arith)
fetch_loop-ends (suc fuel) step calls total n stops le lt = elim (Step-cases (step calls)) [
  | inr (inl e) ↦ (answer (total == 0), rw (e, fetch_loop) refl)
  | inr (inr e) ↦ (negsuc 0, rw (e, fetch_loop) refl)
  | inl e ↦ elim (Bool-cases (calls == n)) [
    | inl same ↦ absurd (stops (sym (ap step ((==_iff calls n).0 same)) ∙ e))
    | inr apart ↦
        let (z, run) =
          fetch_loop-ends fuel step (suc calls) (suc total) n stops (lt_of_apart calls n le apart)
            (omega arith) in
        (z, rw (e, fetch_loop) run)
  ]
]

fetch_loop-rows :
    (fuel : ℕ) (step : ℕ → Step) (calls total rows : ℕ)
    → Gives step rows
    → calls ≤ rows
    → rows < calls + fuel
    → fetch_loop fuel step calls total ≡ ok (answer ((total + (rows - calls)) == 0))
unfolding fetch_loop
fetch_loop-rows zero step calls total rows g le lt = absurd (omega arith)
fetch_loop-rows (suc fuel) step calls total rows g le lt = elim (Bool-cases (calls == rows)) [
  | inl same ↦
      let e : step calls ≡ finished = ap step ((==_iff calls rows).0 same) ∙ g.then_done in
      let all : total ≡ total + (rows - calls) = omega (arith, (==_iff calls rows).0 same) in
      rw (e, fetch_loop) (ap (λ (t : ℕ). ok (answer (t == 0))) all)
  | inr apart ↦
      let less = lt_of_apart calls rows le apart in
      let one_more : suc total + (rows - suc calls) ≡ total + (rows - calls) =
        omega (arith, less) in
      rw (g.rows_first calls less, fetch_loop)
        (fetch_loop-rows fuel step (suc calls) (suc total) rows g less (omega arith)
          ∙ ap (λ (t : ℕ). ok (answer (t == 0))) one_more)
]

sprintf_two-ok :
    (before a between b after : Str)
    → length before + (length a + (length between + (length b + length after))) < query_size
    → sprintf_two before a between b after ≡ ok (before ++ (a ++ (between ++ (b ++ after))))
unfolding sprintf_two
sprintf_two-ok before a between b after fits =
    strcpy-ok query_size _ (rw (length-append, length-append, length-append, length-append) fits)

pub sprintf_one-ok :
    (before a after : Str)
    → length before + (length a + length after) < query_size
    → sprintf_one before a after ≡ ok (before ++ (a ++ after))
unfolding sprintf_one
sprintf_one-ok before a after fits = strcpy-ok query_size _ (rw (length-append, length-append) fits)

answered :
    {A : Type 0} (m : Run Str) (run : Str → A) {query : Str}
    → m ≡ ok query
    → (r : A) × ((m >>= λ q. ok (run q)) ≡ ok r)
answered m run {query} e = (run query, rw e refl)

-- The text that `check_user` puts together.
abbrev pub user_query : Str → Str → Str
user_query login subject =
    codes "SELECT * FROM users WHERE login = '"
    ++ (login ++ (codes "' and cert = '" ++ (subject ++ codes "'")))

abbrev pub status_query : Str → Str
status_query login =
    codes "SELECT * FROM users where login = '" ++ (login ++ codes "' and is_connected = 1")

abbrev pub certificate_query : Str → Str
certificate_query subject = codes "SELECT cert FROM users WHERE cert = '" ++ (subject ++ codes "'")

-- A query that is prepared and gives `rows` rows.
fetch-rows :
    (S : Sqlite) (db : S.Db) (query : Str) (fuel rows : ℕ)
    → S.prepare db query ≡ true
    → Gives (S.step db query) rows
    → rows < fuel
    → fetch S fuel db query ≡ ok (answer (rows == 0))
unfolding fetch
fetch-rows S db query fuel rows good g within =
    let all : 0 + (rows - 0) ≡ rows = omega arith in
    rw good (
      fetch_loop-rows fuel (S.step db query) 0 0 rows g (omega arith) (omega arith)
      ∙ ap (λ (t : ℕ). ok (answer (t == 0))) all)

-- The subject of a certificate comes out of an array of 256 characters.
abbrev pub max_subject_size : ℕ
max_subject_size = 256

module _ (S : Sqlite) (db : S.Db) (login subject : Str) (login_fits : length login < max_name_size)
    (subject_fits : length subject < max_subject_size) where
  check_user-fetch :
      (fuel : ℕ) → check_user S fuel db login subject ≡ fetch S fuel db (user_query login subject)
  unfolding check_user
  check_user-fetch fuel =
      rw
        (sprintf_two-ok (codes "SELECT * FROM users WHERE login = '") login (codes "' and cert = '")
          subject (codes "'") (omega arith))
        refl

  -- For a login and a subject that fit in their arrays, `check_user` ends within the fuel, without
  -- an overflow of its query, if one of the first `fuel` calls of `sqlite3_step` gives no row.
  pub check_user-ends :
      (fuel n : ℕ)
      → S.step db (user_query login subject) n ≢ row
      → n < fuel
      → (z : ℤ) × (check_user S fuel db login subject ≡ ok z)
  unfolding fetch
  check_user-ends fuel n stops within =
      elim (Bool-cases (S.prepare db (user_query login subject))) [
        | inr bad ↦ (negsuc 0, check_user-fetch fuel ∙ rw bad refl)
        | inl good ↦
            let (z, run) =
              fetch_loop-ends fuel (S.step db (user_query login subject)) 0 0 n stops (omega arith)
                (omega arith) in
            (z, check_user-fetch fuel ∙ rw good run)
      ]

  -- If its query is prepared and gives `rows` rows and then no more, `check_user`, for a login and a
  -- subject that fit in their arrays and with more fuel than rows, answers 1 if there is no row and
  -- -1 if there is one.
  pub check_user-rows :
      (fuel rows : ℕ)
      → S.prepare db (user_query login subject) ≡ true
      → Gives (S.step db (user_query login subject)) rows
      → rows < fuel
      → check_user S fuel db login subject ≡ ok (answer (rows == 0))
  check_user-rows fuel rows good g within =
      check_user-fetch fuel ∙ fetch-rows S db (user_query login subject) fuel rows good g within

  -- The same for `check_certificate`.
  pub check_certificate-rows :
      (fuel rows : ℕ)
      → S.prepare db (certificate_query subject) ≡ true
      → Gives (S.step db (certificate_query subject)) rows
      → rows < fuel
      → check_certificate S fuel db subject ≡ ok (answer (rows == 0))
  unfolding check_certificate
  check_certificate-rows fuel rows good g within =
      rw
        (sprintf_one-ok (codes "SELECT cert FROM users WHERE cert = '") subject (codes "'")
          (omega arith))
        (fetch-rows S db (certificate_query subject) fuel rows good g within)

  -- `is_connected` answers 1 exactly if SQLite runs its query, whether or not that finds a user who
  -- is connected; for a login and a subject that fit, if one of the first `fuel` calls of
  -- `sqlite3_step` for `check_user` gives no row.
  pub is_connected-answers :
      (fuel n : ℕ)
      → S.step db (user_query login subject) n ≢ row
      → n < fuel
      → is_connected S fuel db login subject
        ≡ ok (answer ((S.exec db (status_query login)).0), (S.exec db (status_query login)).1)
  unfolding is_connected
  is_connected-answers fuel n stops within =
      let (z, run) = check_user-ends fuel n stops within in
      rw
        (
          run,
          sprintf_one-ok (codes "SELECT * FROM users where login = '") login
              (codes "' and is_connected = 1") (omega arith),
        )
        refl

  -- No query of the other operations overruns its array, for a login and a subject that fit.
  pub queries_fit :
      ((r : ℤ × S.Db) × (add_user_db S db login subject ≡ ok r))
      × ((r : ℤ × S.Db) × (delete_user S db login ≡ ok r))
      × ((r : ℤ × S.Db) × (change_status S db login ≡ ok r))
      × ((r : ℤ × S.Db) × (check_challenge S db login subject ≡ ok r))
  unfolding add_user_db delete_user change_status check_challenge
  queries_fit = (
    answered _ (run_query S db) (
        sprintf_two-ok (codes "INSERT INTO users values ('") login (codes "', '") subject
          (codes "', 0)") (omega arith)),
    answered _ (run_query S db) (
        sprintf_one-ok (codes "DELETE FROM users WHERE login = '") login (codes "'") (omega arith)),
    answered _ (run_query S db) (
        sprintf_one-ok (codes "UPDATE users set is_connected = not is_connected where login = '")
          login (codes "'") (omega arith)),
    answered _ (run_query S db) (
        sprintf_two-ok (codes "SELECT challenge FROM users WHERE login = '") login
          (codes "' and challenge = '") subject (codes "'") (omega arith)),
  )
