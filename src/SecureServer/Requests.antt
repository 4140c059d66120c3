-- ===== src/SecureServer/Requests.antt =====
-- The cases of `handle_connexion` in src/serversec/secure_server.c that make, leave and delete
-- rooms, and `MP_SEC`.
use bavardage.Prelude.{true, false, none, some, [], ◌∷◌, ◌++◌}
use bavardage.CString.{codes, str_eq, strcpy}
use bavardage.Run.{Run, ok, fault, null_pointer, ◌>>=◌}
use bavardage.Bytes.{c_str, strtok_first}
use bavardage.KeyMessage.{bar, put_keys_behind}
use bavardage.Wire.{
  Message, secure, max_mess_size, max_name_size, create_room_ko, create_room_sec, quit_room_sec,
  quit_room_sec_ko, delete_room_ko, ok_code, mp_sec, mp_sec_ok, mp_sec_ko,
}
use bavardage.Users
use bavardage.Users.Store.{load}
use bavardage.Rooms.{RoomMap, is_room_used, add_room, add_user_in_room, is_user_in_room, get_admin}
use bavardage.Accounts.Sql.{Sqlite}
use bavardage.SecureServer.State.{State, Session, Env, Turn, answer, deref, same_ptr, home_room_sec}
use bavardage.SecureServer.RoomOps.{quit_room_by, delete_room_by}

abbrev pub with_rooms : {S : Sqlite} → State S → RoomMap → State S
with_rooms t rooms = record t { server = record t.server { rooms = rooms } }

module _ {S : Sqlite} (t : State S) (env : Env) (s : Session) (buffer : Message) where
  unfoldable pub on_create_room_sec : Run (Turn S)
  on_create_room_sec = do
    used ← is_room_used buffer.content t.server.rooms
    elim used [
      | true ↦ do
        content ← strcpy max_mess_size buffer.content
        ok (answer t s create_room_ko content)
      | false ↦ do
        (_, added) ← add_room t.server.heap buffer.content s.user t.server.rooms
        u ← deref s.user
        rooms ← add_user_in_room t.server.heap u buffer.content added
        sender ← strcpy max_name_size buffer.sender
        content ← put_keys_behind env.beyond env.stale buffer.content env.keys
        ok (record {
          state = with_rooms t rooms;
          session = record s {
            response = record s.response {
              code = secure create_room_sec;
              sender = sender;
              content = content;
            };
          };
          out = [];
        })
    ]

  unfoldable pub on_delete_room_sec : Run (Turn S)
  on_delete_room_sec = do
    boss ← get_admin buffer.content t.server.rooms
    elim (same_ptr s.user boss) [
      | false ↦
          ok (answer t s delete_room_ko (codes "You're not admin, you can't delete this room"))
      | true ↦ do
        (rooms, out) ← delete_room_by t.server.heap env.junk buffer.content t.server.rooms
        ok (record {
          state = with_rooms t rooms;
          session = record s { response = record s.response { code = ok_code } };
          out = out;
        })
    ]

  -- `strcpy (response.content, strtok (buffer.content, "|"))` behind `quit_room`. `buffer.content`
  -- is an array with the name at its start and `env.stale` behind it.
  unfoldable pub quit_member_sec : Run (Turn S)
  quit_member_sec = do
    u ← deref s.user
    left ← quit_room_by t.server.heap env u (buffer.content ++ (0 ∷ env.stale)) t.server.rooms
    elim (strtok_first bar (c_str left.array)) [
      | none ↦ fault null_pointer
      | some name ↦ do
        content ← strcpy max_mess_size name
        ok (record {
          state = with_rooms t left.rooms;
          session = record s {
            response = record s.response { code = secure quit_room_sec; content = content };
          };
          out = left.out;
        })
    ]

  -- The admin of the room falls through into `case DELETE_ROOM_SEC`.
  unfoldable pub on_quit_room_sec : Run (Turn S)
  on_quit_room_sec = do
    used ← is_room_used buffer.content t.server.rooms
    elim used [
      | false ↦ ok (answer t s (secure quit_room_sec_ko) (codes "This room does not exist"))
      | true ↦ elim (str_eq home_room_sec buffer.content) [
        | true ↦ ok (answer t s (secure quit_room_sec_ko) (codes "You cannot leave the home room"))
        | false ↦ do
          boss ← get_admin buffer.content t.server.rooms
          elim (same_ptr s.user boss) [
            | false ↦ quit_member_sec
            | true ↦ do
              u ← deref s.user
              member ← is_user_in_room t.server.heap u buffer.content t.server.rooms
              elim member [
                | false ↦
                    ok (answer t s (secure quit_room_sec_ko) (codes "You are not in this room"))
                | true ↦ on_delete_room_sec
              ]
          ]
      ]
    ]

  -- Fresh keys go to both users, under the two names in the request.
  unfoldable pub on_mp_sec : Run (Turn S)
  on_mp_sec = do
    found ← Users.get_user t.server.heap buffer.receiver t.server.user_map
    elim found [
      | none ↦ ok (record {
        state = t;
        session = record s { response = record s.response { code = secure mp_sec_ko } };
        out = [];
      })
      | some other ↦ do
        mine ← put_keys_behind env.beyond env.stale buffer.receiver env.keys
        u ← deref s.user
        me ← load t.server.heap u
        theirs ← put_keys_behind env.beyond env.stale buffer.sender env.keys
        it ← load t.server.heap other
        content ← strcpy max_mess_size buffer.content
        receiver ← strcpy max_name_size buffer.receiver
        let r : Message = record s.response { code = secure mp_sec_ok }
        ok (record {
          state = t;
          session = record s {
            response = record r { code = secure mp_sec; receiver = receiver; content = content };
          };
          out =
              (me.socket, record r { content = mine })
              ∷ (it.socket, record r { content = theirs })
              ∷ [];
        })
    ]
