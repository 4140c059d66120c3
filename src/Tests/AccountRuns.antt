-- ===== src/Tests/AccountRuns.antt =====
-- The accounts over a database that is no more than a number of rows.
use bavardage.Prelude.{ℕ, ◌≡◌, refl, true, ltb, if◌then◌else◌, lt→ltb, arith}
use bavardage.Prelude.Int.{ℤ, negsuc}
use bavardage.CString.{Str, codes}
use bavardage.Run.{ok}
use bavardage.Accounts.Sql.{Sqlite, row, finished}
use bavardage.Accounts.{check_user}
use bavardage.Accounts.Ending.{Gives, check_user-rows, check_user-ends, user_query}
use bavardage.Tests.Program.{ann}

-- Every query is prepared and runs, and every `SELECT` gives that many rows.
abbrev pub row_store : Sqlite
row_store = record {
  Db = ℕ;
  exec = λ db query. (true, db);
  prepare = λ db query. true;
  step = λ db query n. if ltb n db then row else finished;
}

pub row_store-Gives : (query : Str) → Gives (row_store.step 1 query) 1
row_store-Gives query = record { rows_first = λ n h. rw (lt→ltb n 1 h) refl; then_done = refl }

abbrev pub card : Str
card = codes "CN=ann"

check_user-rows_example : check_user row_store 3 1 ann card ≡ ok (negsuc 0)
check_user-rows_example =
    check_user-rows row_store 1 ann card (omega arith) (omega arith) 3 1 refl
      (row_store-Gives (user_query ann card)) (omega arith)

check_user-ends_example : (z : ℤ) × (check_user row_store 3 1 ann card ≡ ok z)
check_user-ends_example =
    check_user-ends row_store 1 ann card (omega arith) (omega arith) 3 1
      (λ e. let never : finished ≡ row = e in cc) (omega arith)
