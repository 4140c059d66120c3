-- ===== src/Server/State.antt =====
-- The globals of src/server/server.c and the messages that it writes.
use bavardage.Prelude.{ℕ, Bool, none, List, [], ◌∷◌}
use bavardage.CString.{Str, codes}
use bavardage.Run.{Run, ok, ◌>>=◌}
use bavardage.Wire.{Message}
use bavardage.Users.{UserMap}
use bavardage.Users.Store.{Ptr, Heap, load}
use bavardage.Rooms.{RoomMap, init_rooms, add_room}

-- `rooms`, `server_user_map` and the `USER` structures.
pub record Server : Type 0 where
  pub rooms : RoomMap
  pub user_map : UserMap
  pub heap : Heap

-- What C leaves open at a request: the address that `malloc` returns, whether a freed list node
-- keeps its `next`, and what an array on the stack holds that was never written.
pub record Env : Type 0 where
  pub fresh : Ptr
  pub keeps : Bool
  pub junk : Str

-- Each message written, with its socket, in order. The results of the writes are not looked at.
abbrev pub Out : Type 0
Out = List (ℕ × Message)

abbrev pub home_room : Str
home_room = codes "accueil"

-- A loop of `writeSocketTCP (t->current_user->socket, …)`.
unfoldable pub broadcast : Heap → Message → List Ptr → Run Out
broadcast h m [] = ok []
broadcast h m (t ∷ next) = do it ← load h t; rest ← broadcast h m next; ok ((it.socket, m) ∷ rest)

-- `create_main_room`. The table of users comes from `malloc` alone: `uninitialised` is what that
-- memory holds. The results of `init_rooms` and `add_room` are dropped.
unfoldable pub create_main_room : Heap → UserMap → Run Server
create_main_room h uninitialised = do
  (_, rooms) ← add_room h home_room none init_rooms
  ok (record { rooms = rooms; user_map = uninitialised; heap = h })
