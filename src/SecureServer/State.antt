-- ===== src/SecureServer/State.antt =====
-- The state of the secure server, and what a thread of it keeps.
use bavardage.Prelude.{ℕ, Bool, true, false, Option, none, some, [], ◌==◌}
use bavardage.CString.{Str, codes}
use bavardage.Run.{Run, ok, fault, null_pointer, ◌>>=◌}
use bavardage.Wire.{Message, Code}
use bavardage.Users.{UserMap}
use bavardage.Users.Store.{Ptr, Heap}
use bavardage.Rooms.{Keys, add_room, init_rooms}
use bavardage.Server.State.{Server, Out}
use bavardage.Accounts.Sql.{Sqlite}

abbrev pub home_room_sec : Str
home_room_sec = codes "accueil_sec"

-- `rooms`, `server_user_map` and the structures, with the open database.
pub record State (S : Sqlite) : Type 0 where
  pub server : Server
  pub db : S.Db

-- The locals of a thread: `client_ssl`, `u`, `first_connection`, the subject of the certificate in
-- `data`, and `response`, which no round clears.
pub record Session : Type 0 where
  pub ssl : ℕ
  pub user : Option Ptr
  pub first_connection : Bool
  pub subject : Str
  pub response : Message
  pub running : Bool

-- What C, OpenSSL and SQLite leave open at a request: the address from `malloc`, whether a freed
-- list node keeps its `next`, an array that was never written, the keys of `gen_keys`, the 30 bytes
-- beyond a literal that `memcpy` reads, what an array holds behind its string, and the fuel for the
-- loops over `sqlite3_step`.
pub record Env : Type 0 where
  pub fresh : Ptr
  pub keeps : Bool
  pub junk : Str
  pub keys : Keys
  pub beyond : Str
  pub stale : Str
  pub fuel : ℕ

-- What a case of the `switch` leads to: the state, the thread, and the messages written in it.
pub record Turn (S : Sqlite) : Type 0 where
  pub state : State S
  pub session : Session
  pub out : Out

-- `response.code = …; strcpy (response.content, …)`, and nothing else.
abbrev pub answer : {S : Sqlite} → State S → Session → Code → Str → Turn S
answer t s code text = record {
  state = t;
  session = record s { response = record s.response { code = code; content = text } };
  out = [];
}

-- A pointer that is followed.
unfoldable pub deref : Option Ptr → Run Ptr
deref none = fault null_pointer
deref (some p) = ok p

-- `u == get_admin (…)`
abbrev pub same_ptr : Option Ptr → Option Ptr → Bool
same_ptr none none = true
same_ptr none (some b) = false
same_ptr (some a) none = false
same_ptr (some a) (some b) = a == b

-- `create_main_room`; the table of users is what `malloc` returns.
unfoldable pub create_main_room_sec : Heap → UserMap → Run Server
create_main_room_sec h uninitialised = do
  (_, rooms) ← add_room h home_room_sec none init_rooms
  ok (record { rooms = rooms; user_map = uninitialised; heap = h })
