-- ===== src/SecureServer/Access.antt =====
-- The cases of `handle_connexion` in src/serversec/secure_server.c by which a user enters and leaves
-- the secure server, and the one that deletes an account.
use bavardage.Prelude.{Bool, true, false, Option, none, some, List, [], ◌∷◌, ◌++◌, take}
use bavardage.Prelude.Int.{pos, negsuc}
use bavardage.CString.{Str, codes, strcpy}
use bavardage.Run.{Run, ok, ◌>>=◌}
use bavardage.Wire.{
  Message, secure, max_name_size, max_room_name_size, disconnect_sec, connect_sec, connect_sec_ko,
  connect_sec_ok, del_account_sec, ko,
}
use bavardage.Users
use bavardage.Users.Store
use bavardage.Users.Store.{Ptr, User, Heap, load, malloc}
use bavardage.Rooms.{Room, RoomMap, remove_room, get_admin, get_user_rooms}
use bavardage.Server.State.{Server, Out}
use bavardage.Accounts.Sql.{Sqlite}
use bavardage.Accounts.{
  is_connected, delete_user, change_status, check_user, check_certificate, add_user_db,
}
use bavardage.SecureServer.State.{State, Session, Env, Turn, answer, deref, same_ptr, home_room_sec}
use bavardage.SecureServer.RoomOps.{join_room_sec, quit_room_by}

-- The array `name` of a room, with what stands behind its string.
abbrev pub name_array : Env → Str → Str
name_array env name = take max_room_name_size (name ++ (0 ∷ env.stale))

-- One room of a user who disconnects. `quit_room` writes to the array of the room's own name.
unfoldable pub leave_room_sec : Heap → Env → Ptr → Str → RoomMap → Run (RoomMap × Out)
leave_room_sec h env u name rooms = do
  boss ← get_admin name rooms
  elim (same_ptr (some u) boss) [
    | true ↦ do (_, rooms') ← remove_room name rooms; ok (rooms', [])
    | false ↦ do left ← quit_room_by h env u (name_array env name) rooms; ok (left.rooms, left.out)
  ]

unfoldable pub leave_rooms_sec : Heap → Env → Ptr → List Room → RoomMap → Run (RoomMap × Out)
leave_rooms_sec h env u [] rooms = ok (rooms, [])
leave_rooms_sec h env u (l ∷ next) rooms = do
  (rooms₁, out) ← leave_room_sec h env u l.name rooms
  (rooms₂, rest) ← leave_rooms_sec h env u next rooms₁
  ok (rooms₂, out ++ rest)

-- Unless `u` is NULL.
unfoldable pub leave_sec : Server → Env → Option Ptr → Run (Server × Out)
leave_sec sv env none = ok (sv, [])
leave_sec sv env (some u) = do
  mine ← get_user_rooms sv.heap u sv.rooms
  (rooms, out) ← leave_rooms_sec sv.heap env u mine sv.rooms
  (_, user_map) ← Users.remove_user sv.heap env.keeps u sv.user_map
  ok (record { rooms = rooms; user_map = user_map; heap = Store.free sv.heap u }, out)

module _ (S : Sqlite) (t : State S) (env : Env) (s : Session) (buffer : Message) where
  unfoldable pub forget_account : Run S.Db
  forget_account = elim s.first_connection [
    | true ↦ do (_, db) ← delete_user S t.db buffer.sender; ok db
    | false ↦ ok t.db
  ]

  -- `buffer.sender` names whose account goes and whose status changes, whoever `u` is.
  unfoldable pub on_disconnect_sec : Run (Turn S)
  on_disconnect_sec = do
    db ← forget_account
    (left, out) ← leave_sec t.server env s.user
    let r : Message = record s.response { code = secure disconnect_sec }
    (_, db') ← change_status S db buffer.sender
    ok (record {
      state = record { server = left; db = db' };
      session = record s { response = r; running = false };
      out = out ++ (s.ssl, r) ∷ [];
    })

  -- If `delete_user` gives -1, the response stays that of the round before.
  unfoldable pub delete_own_account : S.Db → Str → Run (Turn S)
  delete_own_account db name = do
    (gone, db') ← delete_user S db name
    elim gone [
      | negsuc k ↦ ok (record { state = record t { db = db' }; session = s; out = [] })
      | pos k ↦ ok (
          answer (record t { db = db' }) s (secure del_account_sec)
            (codes "you have been deleted\n"))
    ]

  unfoldable pub on_del_account_sec : Run (Turn S)
  on_del_account_sec = do
    (status, db) ← is_connected S env.fuel t.db buffer.sender s.subject
    elim status [
      | negsuc k ↦ ok (answer (record t { db = db }) s ko (codes "bad user / password\n"))
      | pos k ↦ do
        u ← deref s.user
        me ← load t.server.heap u
        (again, db') ← is_connected S env.fuel db me.name s.subject
        elim again [
          | negsuc i ↦ ok (record { state = record t { db = db' }; session = s; out = [] })
          | pos i ↦ delete_own_account db' me.name
        ]
    ]

  abbrev pub on_connect_ok : Turn S
  on_connect_ok = record {
    state = t;
    session = record s {
      first_connection = false;
      response = record s.response { code = secure connect_sec_ok };
    };
    out = [];
  }

  -- From `change_status` on. The user is put in the table twice; the second call finds it there.
  unfoldable pub enter : S.Db → Bool → Run (Turn S)
  enter db first_connection = do
    (_, db') ← change_status S db buffer.sender
    name ← strcpy max_name_size buffer.sender
    let heap = malloc t.server.heap env.fresh (record { name = name; socket = s.ssl })
    (_, once) ← Users.add_user heap env.fresh t.server.user_map
    (_, user_map) ← Users.add_user heap env.fresh once
    (rooms, out) ← join_room_sec heap env.junk env.fresh home_room_sec t.server.rooms
    ok (record {
      state = record {
        server = record { rooms = rooms; user_map = user_map; heap = heap };
        db = db';
      };
      session = record s {
        user = some env.fresh;
        first_connection = first_connection;
        response = record s.response { code = secure connect_sec; sender = name };
      };
      out = out;
    })

  -- A user that the table of accounts does not have, and whose certificate must not be in it.
  unfoldable pub enter_new : S.Db → Run (Turn S)
  enter_new db = do
    unused ← check_certificate S env.fuel db s.subject
    elim unused [
      | negsuc k ↦ ok (
          answer (record t { db = db }) s (secure connect_sec_ko)
            (codes "This certificate is already in use"))
      | pos k ↦ do (_, db') ← add_user_db S db buffer.sender s.subject; enter db' true
    ]

  -- The answers of `is_connected`, `check_user` and `check_certificate` are 1 and -1.
  unfoldable pub on_connect_sec : Run (Turn S)
  on_connect_sec = do
    (status, db) ← is_connected S env.fuel t.db buffer.sender s.subject
    elim status [
      | negsuc k ↦ ok (
          answer (record t { db = db }) s (secure connect_sec_ko)
            (codes "you are already connected!\n"))
      | pos k ↦ do
        unknown ← check_user S env.fuel db buffer.sender s.subject
        elim unknown [ pos i ↦ enter_new db | negsuc i ↦ enter db s.first_connection ]
    ]
