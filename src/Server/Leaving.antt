-- ===== src/Server/Leaving.antt =====
-- How a user leaves the chat server: the loop over the rooms of the user, which the case
-- `DISCONNECT` of src/server/server.c and the end of a broken connection both have.
use bavardage.Prelude.{true, false, List, [], ◌∷◌, ◌++◌}
use bavardage.CString.{Str}
use bavardage.Run.{Run, ok, ◌>>=◌}
use bavardage.Users
use bavardage.Users.Store
use bavardage.Users.Store.{Ptr}
use bavardage.Rooms.{Room, get_admin, get_user_rooms, remove_user_from_room}
use bavardage.Server.State.{Server, Env, Out}
use bavardage.Server.RoomOps.{is_ptr, quit_room, delete_room}

-- One room: deleted if `u` is its admin, otherwise left.
unfoldable pub leave_room : Server → Env → Ptr → Str → Run (Server × Out)
leave_room sv env u room_name = do
  boss ← get_admin room_name sv.rooms
  elim (is_ptr u boss) [
    | true ↦ do
      (rooms, out) ← delete_room sv.heap env.junk room_name sv.rooms
      ok (record sv { rooms = rooms }, out)
    | false ↦ do
      out ← quit_room sv.heap env.junk u room_name sv.rooms
      rooms ← remove_user_from_room sv.heap env.keeps u room_name sv.rooms
      ok (record sv { rooms = rooms }, out)
  ]

-- The list holds pointers to rooms; only their names, which never change, are read.
unfoldable pub leave_rooms : Server → Env → Ptr → List Room → Run (Server × Out)
leave_rooms sv env u [] = ok (sv, [])
leave_rooms sv env u (l ∷ next) = do
  (sv₁, out) ← leave_room sv env u l.name
  (sv₂, rest) ← leave_rooms sv₁ env u next
  ok (sv₂, out ++ rest)

-- All the rooms, then the table of users, then `free (u)`.
unfoldable pub leave_server : Server → Env → Ptr → Run (Server × Out)
leave_server sv env u = do
  mine ← get_user_rooms sv.heap u sv.rooms
  (left, out) ← leave_rooms sv env u mine
  (_, user_map) ← Users.remove_user left.heap env.keeps u left.user_map
  ok (record left { user_map = user_map; heap = Store.free left.heap u }, out)
