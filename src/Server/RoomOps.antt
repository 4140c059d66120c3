-- ===== src/Server/RoomOps.antt =====
-- `join_room`, `quit_room` and `delete_room` of src/server/server.c. `strcpy` is checked where
-- the source may be a received array; between arrays that the server filled it is an assignment.
use bavardage.Prelude.{Bool, false, Option, none, some, List, [], ◌∷◌, ◌++◌, ◌==◌, if◌then◌else◌}
use bavardage.CString.{Str, strcpy}
use bavardage.Run.{Run, ok, ◌>>=◌}
use bavardage.Wire.{Message, Code, max_mess_size, new_user, create_room, admin, add_user, rm_user}
use bavardage.Users.Store.{Ptr, User, Heap, load}
use bavardage.Rooms.{RoomMap, get_users, add_user_in_room, get_admin, remove_room}
use bavardage.Server.State.{Out, broadcast}

-- Pointers compare as addresses; NULL is `none`.
abbrev pub is_ptr : Ptr → Option Ptr → Bool
is_ptr u none = false
is_ptr u (some a) = u == a

-- The last loop of `join_room`: all but the admin, to the socket of the user who joins.
unfoldable pub list_members : Heap → User → Option Ptr → Message → List Ptr → Run Out
list_members h me boss m [] = ok []
list_members h me boss m (l ∷ next) = do
  it ← load h l
  rest ← list_members h me boss m next
  ok (
      if is_ptr l boss
      then rest
      else (me.socket, record m { code = add_user; sender = it.name }) ∷ rest)

unfoldable pub name_admin : Heap → User → Message → Option Ptr → Run Out
name_admin h me m none = ok []
name_admin h me m (some a) = do
  boss ← load h a
  ok ((me.socket, record m { code = admin; sender = boss.name }) ∷ [])

-- `m.receiver` is never written.
unfoldable pub join_room : Heap → Str → Ptr → Str → RoomMap → Run (RoomMap × Out)
join_room h junk u room_name rooms = do
  users ← get_users room_name rooms
  me ← load h u
  content ← strcpy max_mess_size room_name
  let m : Message = record { code = new_user; sender = me.name; receiver = junk; content = content }
  told ← broadcast h m users
  rooms' ← add_user_in_room h u room_name rooms
  boss ← get_admin room_name rooms'
  named ← name_admin h me m boss
  members ← get_users room_name rooms'
  listed ← list_members h me boss m members
  ok (rooms', told ++ (me.socket, record m { code = create_room }) ∷ (named ++ listed))

-- `quit_room` tells the members; its callers take the user out.
unfoldable pub quit_room : Heap → Str → Ptr → Str → RoomMap → Run Out
quit_room h junk u room_name rooms = do
  users ← get_users room_name rooms
  me ← load h u
  content ← strcpy max_mess_size room_name
  broadcast h (record { code = rm_user; sender = me.name; receiver = junk; content = content })
      users

-- `m.sender` and `m.receiver` are never written.
unfoldable pub delete_room : Heap → Str → Str → RoomMap → Run (RoomMap × Out)
delete_room h junk room_name rooms = do
  users ← get_users room_name rooms
  content ← strcpy max_mess_size room_name
  told ←
      broadcast h
        (record { code = Code.delete_room; sender = junk; receiver = junk; content = content })
        users
  (_, rooms') ← remove_room room_name rooms
  ok (rooms', told)
