-- ===== src/Server/Requests.antt =====
-- The cases of the `switch` of `handle_connexion` in src/server/server.c that need a connected
-- user `u`. Each gives the new state, the messages written inside of the case, and the `response`
-- that is written behind it. `response` starts out cleared.
use bavardage.Prelude.{ℕ, true, false, Option, none, some, [], ◌∷◌}
use bavardage.CString.{Str, codes, str_eq, strcpy}
use bavardage.Run.{Run, ok, fault, null_pointer, ◌>>=◌}
use bavardage.Wire.{
  Message, Code, max_mess_size, max_name_size, clear_message, create_room, delete_room, quit_room,
  join_room, message, ok_code, mp, admin, create_room_ko, join_room_ko, delete_room_ko, message_ko,
  mp_ko, quit_room_ko,
}
use bavardage.Users
use bavardage.Users.Store.{Ptr, Heap, load}
use bavardage.Rooms.{
  is_room_used, add_room, add_user_in_room, is_user_in_room, get_admin, get_users,
  remove_user_from_room,
}
use bavardage.Server.State.{Server, Env, Out, home_room, broadcast}
use bavardage.Server.RoomOps
use bavardage.Server.RoomOps.{is_ptr}

pub record Reply : Type 0 where
  pub server : Server
  pub out : Out
  pub response : Message

-- `response` with a code and a text, nothing written and nothing changed.
abbrev pub answer : Server → Code → Str → Reply
answer sv code text = record {
  server = sv;
  out = [];
  response = record clear_message { code = code; content = text };
}

unfoldable pub on_create_room : Server → Ptr → Message → Run Reply
on_create_room sv u buffer = do
  used ← is_room_used buffer.content sv.rooms
  content ← strcpy max_mess_size buffer.content
  elim used [
    | true ↦ ok (answer sv create_room_ko content)
    | false ↦ do
      (_, added) ← add_room sv.heap buffer.content (some u) sv.rooms
      rooms ← add_user_in_room sv.heap u buffer.content added
      sender ← strcpy max_name_size buffer.sender
      me ← load sv.heap u
      let r : Message = record clear_message { sender = sender; content = content }
      let named : Message = record r { sender = me.name }
      ok (record {
        server = record sv { rooms = rooms };
        out =
            (me.socket, record r { code = create_room })
            ∷ (me.socket, record named { code = admin })
            ∷ [];
        response = record named { code = ok_code };
      })
  ]

unfoldable pub on_join_room : Server → Str → Ptr → Message → Run Reply
on_join_room sv junk u buffer = do
  used ← is_room_used buffer.content sv.rooms
  elim used [
    | false ↦ ok (answer sv join_room_ko (codes "The room does not exist"))
    | true ↦ do
      member ← is_user_in_room sv.heap u buffer.content sv.rooms
      elim member [
        | true ↦ ok (answer sv join_room_ko (codes "You're already in this room"))
        | false ↦ do
          (rooms, out) ← RoomOps.join_room sv.heap junk u buffer.content sv.rooms
          content ← strcpy max_mess_size buffer.content
          ok (record {
            server = record sv { rooms = rooms };
            out = out;
            response = record clear_message { code = ok_code; content = content };
          })
      ]
  ]

unfoldable pub on_delete_room : Server → Str → Ptr → Message → Run Reply
on_delete_room sv junk u buffer = do
  used ← is_room_used buffer.content sv.rooms
  elim used [
    | false ↦ ok (answer sv delete_room_ko (codes "This room doesn't exist"))
    | true ↦ do
      boss ← get_admin buffer.content sv.rooms
      elim (is_ptr u boss) [
        | false ↦
            ok (answer sv delete_room_ko (codes "You're not admin, you can't delete this room"))
        | true ↦ do
          (rooms, out) ← RoomOps.delete_room sv.heap junk buffer.content sv.rooms
          content ← strcpy max_mess_size buffer.content
          ok (record {
            server = record sv { rooms = rooms };
            out = out;
            response = record clear_message { code = delete_room; content = content };
          })
      ]
  ]

-- The branch for a user who is not the admin: also for one who is not in the room.
unfoldable pub quit_member : Server → Env → Ptr → Message → Run Reply
quit_member sv env u buffer = do
  out ← RoomOps.quit_room sv.heap env.junk u buffer.content sv.rooms
  rooms ← remove_user_from_room sv.heap env.keeps u buffer.content sv.rooms
  content ← strcpy max_mess_size buffer.content
  ok (record {
    server = record sv { rooms = rooms };
    out = out;
    response = record clear_message { code = delete_room; content = content };
  })

-- The admin of the room falls through into `case DELETE_ROOM`.
unfoldable pub on_quit_room : Server → Env → Ptr → Message → Run Reply
on_quit_room sv env u buffer = do
  used ← is_room_used buffer.content sv.rooms
  elim used [
    | false ↦ ok (answer sv quit_room_ko (codes "This room does not exist"))
    | true ↦ elim (str_eq home_room buffer.content) [
      | true ↦ ok (answer sv quit_room_ko (codes "You cannot leave the home room"))
      | false ↦ do
        boss ← get_admin buffer.content sv.rooms
        elim (is_ptr u boss) [
          | false ↦ quit_member sv env u buffer
          | true ↦ do
            member ← is_user_in_room sv.heap u buffer.content sv.rooms
            elim member [
              | false ↦ ok (answer sv quit_room_ko (codes "You are not in this room"))
              | true ↦ on_delete_room sv env.junk u buffer
            ]
        ]
    ]
  ]

-- `receiver` and `content` are arrays, so the tests for NULL never hold. The copy of the sender's
-- name goes into a structure that is not used.
unfoldable pub on_message : Server → Ptr → Message → Run Reply
on_message sv u buffer = do
  used ← is_room_used buffer.receiver sv.rooms
  elim used [
    | false ↦ ok (answer sv message_ko (codes "This room does not exist"))
    | true ↦ do
      _ ← strcpy max_name_size buffer.sender
      member ← is_user_in_room sv.heap u buffer.receiver sv.rooms
      elim member [
        | false ↦
            ok (answer sv message_ko (codes "You are not allowed to send a message to this room"))
        | true ↦ do
          users ← get_users buffer.receiver sv.rooms
          out ← broadcast sv.heap buffer users
          ok (record { server = sv; out = out; response = record clear_message { code = ok_code } })
      ]
  ]

-- `receiver->socket`, behind `get_user`
abbrev pub socket_of : Heap → Option Ptr → Run ℕ
socket_of h none = fault null_pointer
socket_of h (some p) = do it ← load h p; ok it.socket

unfoldable pub on_mp : Server → Message → Run Reply
on_mp sv buffer = do
  used ← Users.is_login_used sv.heap buffer.receiver sv.user_map
  elim used [
    | false ↦ ok (answer sv mp_ko (codes "You can not send a message to an non-existing user"))
    | true ↦ elim (str_eq buffer.content []) [
      | true ↦ ok (answer sv mp_ko (codes "You can not send an empty message"))
      | false ↦ do
        receiver ← Users.get_user sv.heap buffer.receiver sv.user_map
        socket ← socket_of sv.heap receiver
        ok (record { server = sv; out = (socket, buffer) ∷ []; response = buffer })
    ]
  ]

-- The `switch` for a user who is connected; an unknown code leaves the cleared response.
unfoldable pub serve : Server → Env → Ptr → Message → Code → Run Reply
serve sv env u buffer create_room = on_create_room sv u buffer
serve sv env u buffer join_room = on_join_room sv env.junk u buffer
serve sv env u buffer quit_room = on_quit_room sv env u buffer
serve sv env u buffer delete_room = on_delete_room sv env.junk u buffer
serve sv env u buffer message = on_message sv u buffer
serve sv env u buffer mp = on_mp sv buffer
serve sv env u buffer _ = ok (record { server = sv; out = []; response = clear_message })
