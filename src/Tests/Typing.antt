-- ===== src/Tests/Typing.antt =====
-- A command line typed by a client.
use bavardage.Prelude.{◌≡◌, refl, true, none, some, [], ◌∷◌, arith}
use bavardage.Prelude.Int.{pos}
use bavardage.CString.{codes}
use bavardage.Run.{ok}
use bavardage.Wire.{Message, clear_message, message, join_room}
use bavardage.Client.Words.{words, words_from, word_end}
use bavardage.Client.Commands.{Client, Env, returns, send_message}
use bavardage.Client.Typed.{send_message-text, sent, to_room}
use bavardage.Client.RoomCommands.{send_message-room, joins}
use bavardage.Tests.Program.{ann}

abbrev pub terminal : Env
terminal = record { junk = clear_message; writes = true; error_mess = true }

abbrev pub ann_client : Client
ann_client = record { client_sock = true; msg = none; login = some ann }

abbrev hello : Message
hello = sent message ann (codes "club") (codes "hello  all")

send_message-text_example :
    send_message terminal ann_client (codes "/MESSAGE club hello  all")
    ≡ ok (returns (record ann_client { msg = some hello }) (pos 0) (hello ∷ []))
unfolding words words_from word_end
send_message-text_example =
    send_message-text terminal ann b'c' (codes "lub") b'h' (codes "ello  all")
      (refl, (refl, (refl, (refl, tt)))) refl refl (omega arith) (omega arith) (omega arith) to_room
      ann_client refl refl (omega arith) (omega arith)

abbrev join : Message
join = record clear_message { code = join_room; sender = ann; content = codes "club" }

send_message-room_example :
    send_message terminal ann_client (codes "/JOIN_ROOM club")
    ≡ ok (returns (record ann_client { msg = some join }) (pos 0) (join ∷ []))
send_message-room_example =
    send_message-room terminal ann b'c' (codes "lub") (refl, (refl, (refl, (refl, tt)))) refl
      (omega arith) (omega arith) ann_client refl refl joins (omega arith)
