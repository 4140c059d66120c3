-- ===== src/Accounts/Sql.antt =====
-- What src/common_server/mysqlite.c uses of SQLite.
use bavardage.Prelude.{ℕ, Bool}
use bavardage.CString.{Str}

-- What `sqlite3_step` returns: `SQLITE_ROW`, `SQLITE_DONE`, and anything else.
pub data Step : Type 0 where
  row finished failed : Step

-- An open database, `sqlite3_exec` on the text of a query with whether it gives `SQLITE_OK`, whether
-- `sqlite3_prepare_v2` gives 0, and what each call of `sqlite3_step` on the statement returns.
pub record Sqlite : Type 1 where
  pub Db : Type 0
  pub exec : Db → Str → Bool × Db
  pub prepare : Db → Str → Bool
  pub step : Db → Str → ℕ → Step
