-- ===== src/Client/Commands.antt =====
-- `send_message`, `send_command` and `disconnect` of src/client/libclient.c. The globals
-- `client_sock`, `msg` and `login` are a record; each message written to the socket is an output.
use bavardage.Prelude.{
  ℕ, zero, ◌+◌, Bool, true, false, Option, none, some, List, [], ◌∷◌, ◌==◌, if◌then◌else◌, length,
  ltb, take, drop,
}
use bavardage.Prelude.Int.{ℤ, pos, negsuc}
use bavardage.CString.{Str, codes, strcpy}
use bavardage.Run.{Run, ok, fault, null_pointer, out_of_bounds, ◌>>=◌}
use bavardage.Wire
use bavardage.Wire.{Message, Code, max_name_size, max_room_name_size, max_mess_size}
use bavardage.Client.Words.{words, extract_code, create_table_param, tab_len}

-- NULL is `none`. Of the socket only whether there is one matters.
pub record Client : Type 0 where
  pub client_sock : Bool
  pub msg : Option Message
  pub login : Option Str

-- What C and the system leave open: the bytes in memory from `malloc`, whether the write to the
-- socket succeeds, and whether the caller passed a place for an error message.
pub record Env : Type 0 where
  pub junk : Message
  pub writes : Bool
  pub error_mess : Bool

-- The state, the value returned, the text put into `*error_mess`, and the messages written.
pub record Result : Type 0 where
  pub client : Client
  pub status : ℤ
  pub error : Option Str
  pub out : List Message

abbrev pub returns : Client → ℤ → List Message → Result
returns c status out = record { client = c; status = status; error = none; out = out }

-- `msg->sender = login`, and the write; a failed write sends nothing.
unfoldable pub send_command : Env → Client → Run Result
send_command env c = elim c.client_sock [
  | false ↦ ok (returns c (negsuc 0) [])
  | true ↦
      let m : Message = elim c.msg [ none ↦ env.junk | some m ↦ m ] in
      elim c.login [
        | none ↦ ok (returns (record c { msg = some m }) (negsuc 0) [])
        | some login ↦ do
          sender ← strcpy max_name_size login
          let m' : Message = record m { sender = sender }
          let c' : Client = record c { msg = some m' }
          ok (if env.writes then returns c' (pos 0) (m' ∷ []) else returns c' (pos 1) [])
      ]
]

abbrev pub with_code : Client → Message → Code → Client
with_code c m code = record c { msg = some (record m { code = code }) }

-- It returns 0 whatever `send_command` does.
unfoldable pub disconnect : Env → Client → Run Result
disconnect env c = elim c.client_sock [
  | false ↦ ok (returns c (pos 0) [])
  | true ↦ elim c.msg [
    | none ↦ ok (returns c (pos 0) [])
    | some m ↦ do
      r ← send_command env (with_code c m Wire.disconnect)
      ok (record r { status = pos 0 })
  ]
]

-- `*error_mess = strdup (…); return -3;`
unfoldable pub complain : Env → Client → Str → Run Result
complain env c text =
    if env.error_mess
    then ok (record { client = c; status = negsuc 2; error = some text; out = [] })
    else fault null_pointer

-- A command with one word: it goes into `content`.
unfoldable pub send_content : Env → Client → Message → Option Str → Str → Run Result
send_content env c m none text = complain env c text
send_content env c m (some tmp) text = do
  content ← strcpy max_mess_size tmp
  send_command env (record c { msg = some (record m { content = content }) })

-- `strcpy (msg->sender, login)`, which `send_command` does once more.
unfoldable pub name_sender : Client → Message → Run Message
name_sender c m = elim c.login [
  | none ↦ fault null_pointer
  | some login ↦ do sender ← strcpy max_name_size login; ok (record m { sender = sender })
]

-- `tab_string[1]`
abbrev pub second : List Str → Run Str
second (_ ∷ name ∷ _) = ok name
second _ = fault out_of_bounds

-- A text to a room or a user, in `content` from position `skip + strlen (receiver)` of the line on, as far
-- as the array goes.
unfoldable pub send_text : Env → Client → Message → Str → ℕ → Str → Run Result
send_text env c m buffer skip text = do
  tab ← create_table_param buffer
  n ← tab_len tab
  elim (ltb n 3) [
    | true ↦ complain env c text
    | false ↦ do
      name ← second tab
      receiver ← strcpy max_room_name_size name
      send_command env (record c {
        msg = some (record m {
          receiver = receiver;
          content = take max_mess_size (drop (skip + length receiver) buffer);
        });
      })
  ]

abbrev pub buffer_size : ℕ
buffer_size = 20 + max_name_size + max_mess_size

-- The word that `strtok (NULL, " ")` finds behind the command.
abbrev pub second_word : List Str → Option Str
second_word (_ ∷ word ∷ _) = some word
second_word _ = none

unfoldable pub on_connect : Env → Client → Message → Option Str → Run Result
on_connect env c m tmp =
    let login : Option Str = elim tmp [ none ↦ c.login | some word ↦ some word ] in
    elim login [
      | none ↦ ok (returns (record c { msg = some m; login = none }) (negsuc 0) [])
      | some name ↦ do
        let c' : Client = record c { login = some name }
        m' ← name_sender c' m
        send_command env (record c' { msg = some m' })
    ]

unfoldable pub on_disconnect : Env → Client → Message → Run Result
on_disconnect env c m = do m' ← name_sender c m; disconnect env (record c { msg = some m' })

-- `tmp` goes into `content`, then the sender is set.
unfoldable pub on_quit_room : Env → Client → Message → Option Str → Run Result
on_quit_room env c m none = complain env c (codes "QUIT_ROOM a besoin d'un parametre")
on_quit_room env c m (some tmp) = do
  content ← strcpy max_mess_size tmp
  m' ← name_sender c (record m { content = content })
  send_command env (record c { msg = some m' })

-- The `switch` of `send_message`. The texts are those of the source less its accents and newlines.
unfoldable pub run_command : Env → Client → Message → Str → Option Str → Code → Run Result
run_command env c m buffer tmp Code.connect = on_connect env c m tmp
run_command env c m buffer tmp Code.disconnect = on_disconnect env c m
run_command env c m buffer tmp Code.create_room =
    send_content env c m tmp (codes "CREATE_ROOM a besoin d'un parametre")
run_command env c m buffer tmp Code.delete_room =
    send_content env c m tmp (codes "DELETE_ROOM a besoin d'un parametre")
run_command env c m buffer tmp Code.quit_room = on_quit_room env c m tmp
run_command env c m buffer tmp Code.join_room =
    send_content env c m tmp (codes "JOIN_ROOM a besoin d'un parametre")
run_command env c m buffer tmp Code.message =
    send_text env c m buffer 10
      (codes "MESSAGE doit avoir 2 parametres : /MESSAGE salon mon super message")
run_command env c m buffer tmp Code.mp =
    send_text env c m buffer 5
      (codes "MP doit avoir 2 parametres : /MP toto mon super message prive")
run_command env c m buffer tmp _ = ok (returns (record c { msg = some m }) (pos 0) [])

abbrev pub first_word : List Str → Str
first_word [] = []
first_word (word ∷ _) = word

abbrev pub is_command : Str → Bool
is_command [] = false
is_command (c ∷ _) = c == b'/'

-- `msg` is a new structure; -2 answers a command that is not known. A line that is no command is
-- not sent.
unfoldable pub send_message : Env → Client → Str → Run Result
send_message env c mess = do
  buffer ← strcpy buffer_size mess
  let fresh : Client = record c { msg = some env.junk }
  elim (is_command mess) [
    | false ↦ ok (returns fresh (pos 0) [])
    | true ↦ elim (extract_code (first_word (words buffer))) [
      | none ↦ ok (returns fresh (negsuc 1) [])
      | some code ↦
          run_command env (with_code fresh env.junk code) (record env.junk { code = code }) buffer
            (second_word (words buffer)) code
    ]
  ]

-- `receive_message`: 0 bytes is -1. A failed read, which is negative, is 0 as well.
unfoldable pub receive_message : ℤ → ℤ
receive_message (pos zero) = negsuc 0
receive_message _ = pos 0
