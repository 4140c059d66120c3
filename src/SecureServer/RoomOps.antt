-- ===== src/SecureServer/RoomOps.antt =====
-- `join_room`, `quit_room` and `delete_room` of src/serversec/secure_server.c.
use bavardage.Prelude.{◌+◌, [], ◌∷◌, ◌++◌, length}
use bavardage.CString.{Str, strcpy}
use bavardage.Run.{Run, ok, ◌>>=◌}
use bavardage.Bytes.{memcpy, c_str, strcat_into}
use bavardage.KeyMessage.{bar}
use bavardage.Wire.{Message, Code, max_mess_size, new_user, create_room, secure, quit_room_sec}
use bavardage.Users.Store.{Ptr, Heap, load}
use bavardage.Rooms.{
  RoomMap, get_users, get_admin, add_user_in_room, remove_user_from_room, remove_room,
}
use bavardage.Server.State.{Out, broadcast}
use bavardage.Server.RoomOps.{name_admin, list_members}
use bavardage.SecureServer.State.{Env}

-- The chat server's function, with `SSL_write` for its writes.
unfoldable pub join_room_sec : Heap → Str → Ptr → Str → RoomMap → Run (RoomMap × Out)
join_room_sec h junk u room_name rooms = do
  users ← get_users room_name rooms
  me ← load h u
  content ← strcpy max_mess_size room_name
  let m : Message = record { code = new_user; sender = me.name; receiver = junk; content = content }
  told ← broadcast h m users
  rooms' ← add_user_in_room h u room_name rooms
  boss ← get_admin room_name rooms'
  named ← name_admin h me m boss
  members ← get_users room_name rooms'
  listed ← list_members h me boss m members
  ok (rooms', told ++ (me.socket, record m { code = create_room }) ∷ (named ++ listed))

-- `strcat (room_name, "|")` and the three `memcpy`s into the array of the name, each at a position
-- counted from `strlen (room_name)`, which the bar has made one longer.
unfoldable pub mark_name : Env → Str → Run Str
mark_name env array = do
  barred ← strcat_into array (bar ∷ [])
  let n = length (c_str barred)
  first ← memcpy (n + 1) env.keys.master_key barred
  second ← memcpy (n + 33) (bar ∷ 0 ∷ env.beyond) first
  memcpy (n + 34) env.keys.hash_key second

-- What `quit_room` leaves: the rooms, the array of the name, and the messages.
pub record Quit : Type 0 where
  pub rooms : RoomMap
  pub array : Str
  pub out : Out

-- The user is taken out, the array of the name is changed, and then the members are looked up by
-- what that array holds.
unfoldable pub quit_room_by : Heap → Env → Ptr → Str → RoomMap → Run Quit
quit_room_by h env u array rooms = do
  rooms' ← remove_user_from_room h env.keeps u (c_str array) rooms
  me ← load h u
  content ← strcpy max_mess_size (c_str array)
  marked ← mark_name env array
  l ← get_users (c_str marked) rooms'
  out ←
      broadcast h
        (record { code = Code.quit_room; sender = me.name; receiver = env.junk; content = content })
        l
  ok (record { rooms = rooms'; array = marked; out = out })

-- `m.sender` and `m.receiver` are never written.
unfoldable pub delete_room_by : Heap → Str → Str → RoomMap → Run (RoomMap × Out)
delete_room_by h junk room_name rooms = do
  users ← get_users room_name rooms
  content ← strcpy max_mess_size room_name
  told ←
      broadcast h
        (record { code = secure quit_room_sec; sender = junk; receiver = junk; content = content })
        users
  (_, rooms') ← remove_room room_name rooms
  ok (rooms', told)
