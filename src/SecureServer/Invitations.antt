-- ===== src/SecureServer/Invitations.antt =====
-- The cases of `handle_connexion` in src/serversec/secure_server.c by which the admin of a room
-- says who may be in it, and `JOIN_ROOM_SEC`, which asks the admin.
use bavardage.Prelude.{true, false, none, some, [], ◌∷◌, ◌++◌}
use bavardage.CString.{Str, codes, strcpy}
use bavardage.Run.{Run, ok, ◌>>=◌}
use bavardage.KeyMessage.{put_keys_behind}
use bavardage.Wire.{
  Message, Code, secure, max_mess_size, max_name_size, create_room_sec, quit_room_sec,
  refresh_keyiv, join_room_sec_ko, ask_join_room_sec, join_room_ko, ok_code, ko,
}
use bavardage.Wire
use bavardage.Users
use bavardage.Users.Store.{Ptr, load}
use bavardage.Rooms.{
  is_room_used, get_users, add_user_in_room, remove_user_from_room, is_user_in_room, get_admin,
}
use bavardage.Server.State.{broadcast}
use bavardage.Accounts.Sql.{Sqlite}
use bavardage.SecureServer.State.{State, Session, Env, Turn, answer, deref, same_ptr}
use bavardage.SecureServer.Requests.{with_rooms}

module _ {S : Sqlite} (t : State S) (env : Env) (s : Session) (buffer : Message) where
  -- `strcpy (response.content, text); strcat (response.content, name)`
  unfoldable pub complain : Str → Str → Run (Turn S)
  complain text name = do content ← strcpy max_mess_size (text ++ name); ok (answer t s ko content)

  abbrev not_admin : Run (Turn S)
  not_admin = complain (codes "You're not admin of the room ") buffer.content

  -- Who is ejected is told with the name of the room alone; then all members get the fresh keys.
  unfoldable pub eject_by_admin : Run (Turn S)
  eject_by_admin = do
    found ← Users.get_user t.server.heap buffer.receiver t.server.user_map
    claimer ← deref found
    rooms ← remove_user_from_room t.server.heap env.keeps claimer buffer.content t.server.rooms
    sender ← strcpy max_name_size buffer.sender
    plain ← strcpy max_mess_size buffer.content
    it ← load t.server.heap claimer
    content ← put_keys_behind env.beyond env.stale buffer.content env.keys
    let r : Message = record s.response {
      code = secure quit_room_sec;
      sender = sender;
      content = content;
    }
    l ← get_users buffer.content rooms
    told ← broadcast t.server.heap (record r { code = secure refresh_keyiv }) l
    ok (record {
      state = with_rooms t rooms;
      session = record s { response = record r { code = ok_code } };
      out = (it.socket, record r { content = plain }) ∷ told;
    })

  unfoldable pub on_eject_from_room_sec : Run (Turn S)
  on_eject_from_room_sec = do
    boss ← get_admin buffer.content t.server.rooms
    elim (same_ptr s.user boss) [ true ↦ eject_by_admin | false ↦ not_admin ]

  -- The new member gets the keys as those of a room just made, and then once more with the others.
  unfoldable pub accept_claimer : Ptr → Run (Turn S)
  accept_claimer claimer = do
    rooms ← add_user_in_room t.server.heap claimer buffer.content t.server.rooms
    sender ← strcpy max_name_size buffer.sender
    content ← put_keys_behind env.beyond env.stale buffer.content env.keys
    it ← load t.server.heap claimer
    let r : Message = record s.response {
      code = secure create_room_sec;
      sender = sender;
      content = content;
    }
    l ← get_users buffer.content rooms
    told ← broadcast t.server.heap (record r { code = secure Wire.join_room_sec }) l
    ok (record {
      state = with_rooms t rooms;
      session = record s { response = record r { code = ok_code } };
      out = (it.socket, r) ∷ told;
    })

  unfoldable pub on_accept_join_room_sec : Run (Turn S)
  on_accept_join_room_sec = do
    boss ← get_admin buffer.content t.server.rooms
    elim (same_ptr s.user boss) [
      | false ↦ not_admin
      | true ↦ do
        found ← Users.get_user t.server.heap buffer.receiver t.server.user_map
        elim found [
          | none ↦ complain (codes "This user is not connected ") buffer.receiver
          | some claimer ↦ accept_claimer claimer
        ]
    ]

  unfoldable pub on_refuse_join_room_sec : Run (Turn S)
  on_refuse_join_room_sec = do
    boss ← get_admin buffer.content t.server.rooms
    elim (same_ptr s.user boss) [
      | false ↦ not_admin
      | true ↦ do
        found ← Users.get_user t.server.heap buffer.receiver t.server.user_map
        content ← strcpy max_mess_size buffer.content
        claimer ← deref found
        it ← load t.server.heap claimer
        let r : Message = record s.response { code = secure join_room_sec_ko; content = content }
        ok (record {
          state = t;
          session = record s { response = record r { code = ok_code } };
          out = (it.socket, r) ∷ [];
        })
    ]

  unfoldable pub ask_admin : Ptr → Run (Turn S)
  ask_admin u = do
    found ← get_admin buffer.content t.server.rooms
    me ← load t.server.heap u
    content ← strcpy max_mess_size buffer.content
    boss ← deref found
    it ← load t.server.heap boss
    let r : Message = record s.response {
      code = secure ask_join_room_sec;
      sender = me.name;
      content = content;
    }
    ok (record {
      state = t;
      session = record s { response = record r { code = ok_code } };
      out = (it.socket, r) ∷ [];
    })

  unfoldable pub on_join_room_sec : Run (Turn S)
  on_join_room_sec = do
    used ← is_room_used buffer.content t.server.rooms
    elim used [
      | false ↦ ok (answer t s join_room_ko (codes "The room does not exist"))
      | true ↦ do
        u ← deref s.user
        member ← is_user_in_room t.server.heap u buffer.content t.server.rooms
        elim member [
          | true ↦ ok (answer t s join_room_ko (codes "You're already in this room"))
          | false ↦ ask_admin u
        ]
    ]
