-- ===== src/SecureClient/Commands.antt =====
-- `extract_code_sec` and `send_message_sec` of src/client/libclientsec.c.
use bavardage.Prelude.{true, false, Option, none, some, [], if◌then◌else◌}
use bavardage.Prelude.Int.{pos, negsuc}
use bavardage.CString.{Str, codes, str_eq, strcpy}
use bavardage.Run.{Run, ok, ◌>>=◌}
use bavardage.Wire.{
  Message, Code, SecCode, secure, message, create_room_sec, delete_room_sec, connect_sec,
  quit_room_sec, join_room_sec, del_account_sec, mp_sec, connect_ko_sec_ok, connect_ok,
  accept_join_room_sec, refuse_join_room_sec, eject_from_room_sec, help,
}
use bavardage.Users.Store.{Heap}
use bavardage.Client.Words.{words, after_slash}
use bavardage.Client.Commands.{buffer_size, first_word, second_word, is_command}
use bavardage.SecureClient.Cipher.{Crypto}
use bavardage.SecureClient.State.{
  SecureClient, Env, Result, returns, with_msg, send_command_sec, disconnect_sec, behind,
}
use bavardage.SecureClient.RoomCommands.{
  on_connect_sec, on_disconnect_sec, on_create_room_sec, on_delete_room_sec, on_quit_room_sec,
  on_join_room_sec, on_two_names,
}
use bavardage.SecureClient.Texts.{on_message_sec, on_mp_sec}

-- The `if`s in their order; -1 is `none`.
unfoldable pub command_code_sec : Str → Option Code
command_code_sec command =
    if str_eq command (codes "CREATE_ROOM_SEC")
    then some (secure create_room_sec)
    else if str_eq command (codes "DELETE_ROOM_SEC")
    then some (secure delete_room_sec)
    else if str_eq command (codes "DISCONNECT_SEC")
    then some (secure SecCode.disconnect_sec)
    else if str_eq command (codes "CONNECT_SEC")
    then some (secure connect_sec)
    else if str_eq command (codes "QUIT_ROOM_SEC")
    then some (secure quit_room_sec)
    else if str_eq command (codes "JOIN_ROOM_SEC")
    then some (secure join_room_sec)
    else if str_eq command (codes "DEL_ACCOUNT_SEC")
    then some (secure del_account_sec)
    else if str_eq command (codes "MP_SEC")
    then some (secure mp_sec)
    else if str_eq command (codes "CONNECT_KO_SEC_OK")
    then some (secure connect_ko_sec_ok)
    else if str_eq command (codes "MESSAGE")
    then some message
    else if str_eq command (codes "CONNECT_OK")
    then some (secure connect_ok)
    else if str_eq command (codes "ACCEPT_JOIN_ROOM_SEC")
    then some (secure accept_join_room_sec)
    else if str_eq command (codes "REFUSE_JOIN_ROOM_SEC")
    then some (secure refuse_join_room_sec)
    else if str_eq command (codes "EJECT_FROM_ROOM_SEC")
    then some (secure eject_from_room_sec)
    else if str_eq command (codes "HELP")
    then some (secure help)
    else none

unfoldable pub extract_code_sec : Str → Option Code
extract_code_sec str = command_code_sec (after_slash str)

module _ (C : Crypto) (env : Env) (s : SecureClient) (m : Message) where
  -- The `switch` of `send_message_sec`.
  unfoldable pub run_command_sec : Heap → Str → Option Str → Code → Run Result
  run_command_sec h buffer tmp (secure connect_ok) = do
    r ← send_command_sec env (with_msg s m)
    ok (record r { status = pos 0 })
  run_command_sec h buffer tmp (secure connect_ko_sec_ok) = disconnect_sec env (with_msg s m)
  run_command_sec h buffer tmp (secure connect_sec) = on_connect_sec env h s m tmp
  run_command_sec h buffer tmp (secure del_account_sec) = do
    r ← send_command_sec env (with_msg s m)
    behind r (disconnect_sec env r.state)
  run_command_sec h buffer tmp (secure SecCode.disconnect_sec) = on_disconnect_sec env h s m
  run_command_sec h buffer tmp (secure create_room_sec) = on_create_room_sec env h s m tmp
  run_command_sec h buffer tmp (secure delete_room_sec) = on_delete_room_sec env h s m tmp
  run_command_sec h buffer tmp (secure quit_room_sec) = on_quit_room_sec env h s m tmp
  run_command_sec h buffer tmp (secure accept_join_room_sec) = on_two_names env h s m buffer (
      codes
        "ACCEPT_JOIN_ROOM_SEC doit avoir 2 parametres : /ACCEPT_JOIN_ROOM_SEC salon utilisateur")
  run_command_sec h buffer tmp (secure eject_from_room_sec) =
      on_two_names env h s m buffer (
        codes
          "EJECT_FROM_ROOM_SEC doit avoir 2 parametres : /EJECT_FROM_ROOM_SEC salon utilisateur")
  run_command_sec h buffer tmp (secure refuse_join_room_sec) =
      on_two_names env h s m buffer
        (codes "REFUSE_JOIN_ROOM_SEC doit avoir 2 parametres : /MESSAGE salon utilisateur")
  run_command_sec h buffer tmp (secure join_room_sec) = on_join_room_sec env h s m tmp
  run_command_sec h buffer tmp (secure mp_sec) = on_mp_sec C env s m buffer
  run_command_sec h buffer tmp Code.message = on_message_sec C env s m buffer
  run_command_sec h buffer tmp _ = ok (returns (with_msg s m) (pos 0) [])

-- `msg` is a new structure; -2 answers a command that is not known.
unfoldable pub send_message_sec : Crypto → Env → Heap → SecureClient → Str → Run Result
send_message_sec C env h s mess = do
  buffer ← strcpy buffer_size mess
  let junk : Message = env.chat.junk
  elim (is_command mess) [
    | false ↦ ok (returns (with_msg s junk) (pos 0) [])
    | true ↦ elim (extract_code_sec (first_word (words buffer))) [
      | none ↦ ok (returns (with_msg s junk) (negsuc 1) [])
      | some code ↦
          run_command_sec C env s (record junk { code = code }) h buffer
            (second_word (words buffer)) code
    ]
  ]
