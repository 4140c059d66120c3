-- ===== src/Accounts.antt =====
-- src/common_server/mysqlite.c: the accounts of the secure server. SQLite is a parameter, a record of
-- the calls that the file makes; a query is the text that `sprintf` puts into an array of
-- `QUERY_SIZE` characters. Logins and certificates go into that text as they are.
pub mod Sql
pub mod Ending
use bavardage.Prelude.{
  ℕ, zero, suc, ◌+◌, ◌==◌, Bool, true, false, Option, none, some, ◌++◌, if◌then◌else◌,
}
use bavardage.Prelude.Int.{ℤ, pos, negsuc}
use bavardage.CString.{Str, codes, strcpy}
use bavardage.Run.{Run, ok, fault, unfinished, ◌>>=◌}
use bavardage.Accounts.Sql.{Sqlite, Step, row, finished, failed}

abbrev pub query_size : ℕ
query_size = 524

-- `sprintf` with one `%s` in quotes, between `before` and `after`.
unfoldable pub sprintf_one : Str → Str → Str → Run Str
sprintf_one before a after = strcpy query_size (before ++ (a ++ after))

unfoldable pub sprintf_two : Str → Str → Str → Str → Str → Run Str
sprintf_two before a between b after =
    strcpy query_size (before ++ (a ++ (between ++ (b ++ after))))

-- 1 and -1.
abbrev pub answer : Bool → ℤ
answer true = pos 1
answer false = negsuc 0

-- The loop over `sqlite3_step`, which `check_user` and `check_certificate` both have: `calls` calls
-- have been made and `total` rows counted. No row is the answer 1.
unfoldable pub fetch_loop : ℕ → (ℕ → Step) → ℕ → ℕ → Run ℤ
fetch_loop zero step calls total = fault unfinished
fetch_loop (suc fuel) step calls total = elim (step calls) [
  | row ↦ fetch_loop fuel step (suc calls) (suc total)
  | finished ↦ ok (answer (total == 0))
  | failed ↦ ok (negsuc 0)
]

module _ (S : Sqlite) where
  -- `sqlite3_prepare_v2` gives 0 if all is well.
  unfoldable pub fetch : ℕ → S.Db → Str → Run ℤ
  fetch fuel db query =
      let rest = fetch_loop fuel (S.step db query) 0 0 in
      if S.prepare db query then rest else ok (negsuc 0)

  abbrev pub run_query : S.Db → Str → ℤ × S.Db
  run_query db query = let (good, db') = S.exec db query in (answer good, db')

  unfoldable pub connect_server_database : S.Db → Bool → Run (ℤ × S.Db)
  connect_server_database db opens = do
    create_table ← strcpy query_size (
        codes
          "CREATE TABLE IF NOT EXISTS users (login VARCHAR(20) unique, cert VARCHAR(256), is_connected INTEGER)")
    ok (if opens then run_query db create_table else (negsuc 0, db))

  unfoldable pub add_user_db : S.Db → Str → Str → Run (ℤ × S.Db)
  add_user_db db login subject = do
    insert ←
        sprintf_two (codes "INSERT INTO users values ('") login (codes "', '") subject
          (codes "', 0)")
    ok (run_query db insert)

  unfoldable pub delete_user : S.Db → Str → Run (ℤ × S.Db)
  delete_user db login = do
    delete ← sprintf_one (codes "DELETE FROM users WHERE login = '") login (codes "'")
    ok (run_query db delete)

  -- The rows of the `SELECT` are not looked at.
  unfoldable pub check_challenge : S.Db → Str → Str → Run (ℤ × S.Db)
  check_challenge db login pass = do
    select ←
        sprintf_two (codes "SELECT challenge FROM users WHERE login = '") login
          (codes "' and challenge = '") pass (codes "'")
    ok (run_query db select)

  unfoldable pub check_certificate : ℕ → S.Db → Str → Run ℤ
  check_certificate fuel db subject = do
    select ← sprintf_one (codes "SELECT cert FROM users WHERE cert = '") subject (codes "'")
    fetch fuel db select

  unfoldable pub check_user : ℕ → S.Db → Str → Str → Run ℤ
  check_user fuel db login subject = do
    select ←
        sprintf_two (codes "SELECT * FROM users WHERE login = '") login (codes "' and cert = '")
          subject (codes "'")
    fetch fuel db select

  -- The answer of `check_user` is dropped, and the rows of the second query are not looked at.
  unfoldable pub is_connected : ℕ → S.Db → Str → Str → Run (ℤ × S.Db)
  is_connected fuel db login subject = do
    _ ← check_user fuel db login subject
    is_connect ←
        sprintf_one (codes "SELECT * FROM users where login = '") login
          (codes "' and is_connected = 1")
    ok (run_query db is_connect)

  unfoldable pub change_status : S.Db → Str → Run (ℤ × S.Db)
  change_status db login = do
    ch ←
        sprintf_one (codes "UPDATE users set is_connected = not is_connected where login = '") login
          (codes "'")
    ok (run_query db ch)
