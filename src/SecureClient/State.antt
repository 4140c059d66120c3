-- ===== src/SecureClient/State.antt =====
-- The globals of src/client/libclientsec.c, `send_command_sec` and `disconnect_sec`.
use bavardage.Prelude.{
  Bool, true, false, Option, none, some, List, [], ◌∷◌, ◌++◌, map, if◌then◌else◌,
}
use bavardage.Prelude.Int.{ℤ, pos, negsuc}
use bavardage.CString.{Str, strcpy}
use bavardage.Run.{Run, ok, ◌>>=◌}
use bavardage.Wire.{Message, SecCode, secure, max_name_size}
use bavardage.Rooms.{RoomMap}
use bavardage.Client.Commands
use bavardage.Client.Commands.{Client}
use bavardage.SecureClient.Cipher.{Chance}

-- `msg` and `login` are those of the library of the chat client, in `client`. Of the secure socket
-- only whether there is one matters.
pub record SecureClient : Type 0 where
  pub client : Client
  pub secure_socket : Bool
  pub is_connected : Bool
  pub rooms : RoomMap

pub data Peer : Type 0 where
  chat_server secure_server : Peer

-- What is open for the chat client's library, whether the write to the secure server succeeds, what
-- is open for the encryption, and whether the variable `lenght`, before it is set, is over
-- `MAX_MESS_SIZE`.
pub record Env : Type 0 where
  pub chat : Commands.Env
  pub writes_sec : Bool
  pub chance : Chance
  pub too_long : Bool

-- As for the chat client, with the peer that each message goes to.
pub record Result : Type 0 where
  pub state : SecureClient
  pub status : ℤ
  pub error : Option Str
  pub out : List (Peer × Message)

abbrev pub returns : SecureClient → ℤ → List (Peer × Message) → Result
returns s status out = record { state = s; status = status; error = none; out = out }

abbrev pub with_msg : SecureClient → Message → SecureClient
with_msg s m = record s { client = record s.client { msg = some m } }

unfoldable pub send_command_sec : Env → SecureClient → Run Result
send_command_sec env s = elim s.secure_socket [
  | false ↦ ok (returns s (negsuc 0) [])
  | true ↦
      let m : Message = elim s.client.msg [ none ↦ env.chat.junk | some m ↦ m ] in
      elim s.client.login [
        | none ↦ ok (returns (with_msg s m) (negsuc 0) [])
        | some login ↦ do
          sender ← strcpy max_name_size login
          let m' : Message = record m { sender = sender }
          ok (
              if env.writes_sec
              then returns (with_msg s m') (pos 0) ((secure_server, m') ∷ [])
              else returns (with_msg s m') (pos 1) [])
      ]
]

-- It returns 0 whatever `send_command_sec` does.
unfoldable pub disconnect_sec : Env → SecureClient → Run Result
disconnect_sec env s = elim s.secure_socket [
  | false ↦ ok (returns s (pos 0) [])
  | true ↦ elim s.client.msg [
    | none ↦ ok (returns s (pos 0) [])
    | some m ↦ do
      r ← send_command_sec env (with_msg s (record m { code = secure SecCode.disconnect_sec }))
      ok (record r { status = pos 0 })
  ]
]

-- A call with NULL for `error_mess`, and one with the address of a variable.
abbrev pub silent : Env → Env
silent env = record env { chat = record env.chat { error_mess = false } }

abbrev pub heard : Env → Env
heard env = record env { chat = record env.chat { error_mess = true } }

-- A call into the chat client's library: the messages go to the chat server.
abbrev pub from_chat : SecureClient → Commands.Result → Result
from_chat s r = record {
  state = record s { client = r.client };
  status = r.status;
  error = r.error;
  out = map (λ m. (chat_server, m)) r.out;
}

unfoldable pub send_chat : Env → SecureClient → Str → Run Result
send_chat env s line = do r ← Commands.send_message env.chat s.client line; ok (from_chat s r)

unfoldable pub command_chat : Env → SecureClient → Run Result
command_chat env s = do r ← Commands.send_command env.chat s.client; ok (from_chat s r)

-- What follows another call, of which only the state and the messages count.
abbrev pub behind : Result → Run Result → Run Result
behind r next = do r' ← next; ok (record r' { out = r.out ++ r'.out })

-- `msg`, which the call before has set.
abbrev pub msg_or : Message → SecureClient → Message
msg_or junk s = elim s.client.msg [ none ↦ junk | some m ↦ m ]
