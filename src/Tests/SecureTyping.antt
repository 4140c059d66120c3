-- ===== src/Tests/SecureTyping.antt =====
-- A room made from a line typed by a secure client.
use bavardage.Prelude.{◌≡◌, refl, true, false, [], ◌∷◌, arith}
use bavardage.Prelude.Int.{pos}
use bavardage.CString.{codes}
use bavardage.Run.{ok}
use bavardage.Wire.{Message, secure, clear_message, create_room, create_room_sec}
use bavardage.Rooms.{init_rooms, is_room_used}
use bavardage.Rooms.Table.{init_rooms-IsTable}
use bavardage.SecureClient.Cipher.{Crypto, Chance}
use bavardage.SecureClient.State.{SecureClient, Env, Result, chat_server, secure_server}
use bavardage.SecureClient.Commands.{send_message_sec}
use bavardage.SecureClient.Typed.{send_message_sec-creates}
use bavardage.Tests.Program.{program, ann}
use bavardage.Tests.Tables.{people}
use bavardage.Tests.Clubs.{club, club_hashed}
use bavardage.Tests.Typing.{terminal, ann_client}

abbrev plain : Crypto
plain = record {
  hmac = λ key text. [];
  bytes_to_key = λ key salt. (key, salt);
  seal = λ key iv p. p;
  unseal = λ key iv c. c;
}

abbrev luck : Chance
luck = record { salt = []; keeps = true; stale = [] }

abbrev secure_terminal : Env
secure_terminal = record { chat = terminal; writes_sec = true; chance = luck; too_long = false }

abbrev ann_secure : SecureClient
ann_secure = record {
  client = ann_client;
  secure_socket = true;
  is_connected = true;
  rooms = init_rooms;
}

abbrev ask : Message
ask = record clear_message { code = create_room; sender = ann; content = club }

abbrev ask_sec : Message
ask_sec = record ask { code = secure create_room_sec }

send_message_sec-creates_example :
    (r : Result) × (send_message_sec plain secure_terminal people ann_secure
        (codes "/CREATE_ROOM_SEC club")
      ≡ ok r)
    × (r.status ≡ pos 0)
    × (r.out ≡ (chat_server, ask) ∷ (secure_server, ask_sec) ∷ [])
    × (is_room_used club r.state.rooms ≡ ok true)
unfolding program
send_message_sec-creates_example =
    send_message_sec-creates secure_terminal people ann b'c' (codes "lub")
      (refl, (refl, (refl, (refl, tt)))) refl refl (omega arith) (omega arith) ann_secure refl refl
      refl 1146 club_hashed init_rooms-IsTable refl plain
