-- ===== src/SecureClient/RoomCommands.antt =====
-- The commands of `send_message_sec` in src/client/libclientsec.c that are about rooms and the
-- connection. The texts are those of the source less its accents and newlines.
use bavardage.Prelude.{true, false, Option, none, some, List, [], ◌∷◌, ◌++◌, if◌then◌else◌, ltb}
use bavardage.Prelude.Int.{pos, negsuc}
use bavardage.CString.{Str, codes, strcpy}
use bavardage.Run.{Run, ok, fault, null_pointer, out_of_bounds, ◌>>=◌}
use bavardage.Wire.{
  Message, SecCode, secure, max_name_size, max_mess_size, create_room_sec, delete_room_sec,
  connect_sec, quit_room_sec,
}
use bavardage.Rooms.{is_room_used, add_room}
use bavardage.Users.Store.{Heap}
use bavardage.Client.Words.{create_table_param, tab_len}
use bavardage.SecureClient.State.{
  SecureClient, Env, Result, returns, with_msg, send_command_sec, disconnect_sec, send_chat, heard,
  behind, msg_or,
}

-- `*error_mess = strdup (…); return -3;`
unfoldable pub complain : Env → SecureClient → Str → Run Result
complain env s text =
    if env.chat.error_mess
    then ok (record { state = s; status = negsuc 2; error = some text; out = [] })
    else fault null_pointer

-- `strcpy (msg->sender, login)`
unfoldable pub name_sender_sec : SecureClient → Message → Run Message
name_sender_sec s m = elim s.client.login [
  | none ↦ fault null_pointer
  | some login ↦ do sender ← strcpy max_name_size login; ok (record m { sender = sender })
]

-- `strcpy (line, command); strcat (line, word)`
abbrev pub line_of : Str → Str → Run Str
line_of command word = strcpy max_mess_size (command ++ word)

module _ (env : Env) (h : Heap) (s : SecureClient) (m : Message) where
  unfoldable pub on_connect_sec : Option Str → Run Result
  on_connect_sec none =
      complain env (with_msg (record s { is_connected = true }) m)
        (codes "Vous devez specifier un pseudo")
  on_connect_sec (some login) = do
    sender ← strcpy max_name_size login
    let here : SecureClient = record s {
      is_connected = true;
      client = record s.client { login = some login };
    }
    send_command_sec env (with_msg here (record m { code = secure connect_sec; sender = sender }))

  -- The chat server is told first, with the command of the same name.
  unfoldable pub on_disconnect_sec : Run Result
  on_disconnect_sec = elim s.is_connected [
    | false ↦ ok (returns (with_msg s m) (pos 0) [])
    | true ↦ do
      m' ← name_sender_sec s m
      conn ← line_of (codes "/DISCONNECT ") m'.sender
      r ← send_chat (heard env) (with_msg s m') conn
      behind r (
          disconnect_sec env (
            with_msg r.state
              (record (msg_or env.chat.junk r.state) { code = secure SecCode.disconnect_sec })))
  ]

  -- The room is made in the client's own table, then at the chat server, then at the secure server.
  -- `send_message` gets a new `msg`.
  unfoldable pub on_create_room_sec : Option Str → Run Result
  on_create_room_sec none =
      complain env (with_msg s m) (codes "CREATE_ROOM a besoin d'un parametre")
  on_create_room_sec (some tmp) = do
    content ← strcpy max_mess_size tmp
    let named : SecureClient = with_msg s (record m { content = content })
    used ← is_room_used content s.rooms
    elim used [
      | true ↦ complain env named (codes "This room already exists")
      | false ↦ do
        (_, rooms) ← add_room h content none s.rooms
        conn ← line_of (codes "/CREATE_ROOM ") content
        r ← send_chat (heard env) (record named { rooms = rooms }) conn
        behind r (
            send_command_sec env (
              with_msg r.state (record (msg_or env.chat.junk r.state) {
                code = secure create_room_sec;
                content = content;
              })))
    ]

  -- `content` is what `send_message` has put into its new `msg`.
  unfoldable pub on_delete_room_sec : Option Str → Run Result
  on_delete_room_sec none =
      complain env (with_msg s m) (codes "DELETE_ROOM a besoin d'un parametre")
  on_delete_room_sec (some tmp) = do
    content ← strcpy max_mess_size tmp
    text ← line_of (codes "/DELETE_ROOM ") content
    r ← send_chat (heard env) (with_msg s (record m { content = content })) text
    behind r (
        send_command_sec env (
          with_msg r.state
            (record (msg_or env.chat.junk r.state) { code = secure delete_room_sec })))

  unfoldable pub on_quit_room_sec : Option Str → Run Result
  on_quit_room_sec none = complain env (with_msg s m) (codes "QUIT_ROOM a besoin d'un parametre")
  on_quit_room_sec (some tmp) = do
    content ← strcpy max_mess_size tmp
    text ← line_of (codes "/QUIT_ROOM ") content
    r ← send_chat env (with_msg s (record m { content = content })) text
    m' ← name_sender_sec r.state (msg_or env.chat.junk r.state)
    behind r (send_command_sec env (with_msg r.state (record m' { code = secure quit_room_sec })))

  unfoldable pub on_join_room_sec : Option Str → Run Result
  on_join_room_sec none = complain env (with_msg s m) (codes "JOIN_ROOM a besoin d'un parametre")
  on_join_room_sec (some tmp) = do
    content ← strcpy max_mess_size tmp
    send_command_sec env (with_msg s (record m { content = content }))

  -- `tab_string[1]` into `content`, `tab_string[2]` into `receiver`.
  unfoldable pub send_names : List Str → Run Result
  send_names (_ ∷ room ∷ user ∷ _) = do
    content ← strcpy max_mess_size room
    receiver ← strcpy max_name_size user
    send_command_sec env (with_msg s (record m { content = content; receiver = receiver }))
  send_names _ = fault out_of_bounds

  unfoldable pub on_two_names : Str → Str → Run Result
  on_two_names buffer text = do
    tab ← create_table_param buffer
    n ← tab_len tab
    elim (ltb n 3) [ true ↦ complain env (with_msg s m) text | false ↦ send_names tab ]
