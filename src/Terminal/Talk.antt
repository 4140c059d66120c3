-- ===== src/Terminal/Talk.antt =====
-- A text from one terminal of src/client/client-cli.c, through src/server/server.c, to another.
use bavardage.Prelude.{
  ℕ, suc, ◌+◌, ◌<◌, ◌≡◌, refl, ◌∙◌, true, false, some, [], ◌∷◌, ◌++◌, arith, ◌==◌, is_some, length,
}
use bavardage.Prelude.Int.{pos}
use bavardage.CString.{Str, codes}
use bavardage.Run.{ok, ◌>>=◌}
use bavardage.Hash.{hash_user, hash_room_name, hash_user_map_size}
use bavardage.Wire.{Message, message, max_name_size, max_room_name_size, max_mess_size}
use bavardage.Users.Store.{Ptr, User}
use bavardage.Users.Chains.{lookup, Entries}
use bavardage.Users.Valid.{Holds}
use bavardage.Rooms.{Room}
use bavardage.Rooms.Table.{view, IsTable}
use bavardage.Rooms.Members.{entries_of}
use bavardage.Bytes.Copying.{Lacks}
use bavardage.Stdin.{next_line-line}
use bavardage.Server.State.{Server}
use bavardage.Server.Requests.{Reply, on_message}
use bavardage.Server.Delivery.{copies, delivered, on_message-delivers}
use bavardage.Client.Words.{space, words, table_size}
use bavardage.Client.Commands
use bavardage.Client.Commands.{Client, Env, returns, send_message, buffer_size}
use bavardage.Client.Typed.{IsWord, line, sent, send_message-text, to_room}
use bavardage.Terminal.{shows, tell, handle, show, traitement_send, traitement_recv}

-- A client that is logged in types a line without zero bytes that fits, with its newline, in the
-- `MAX_MESS_SIZE - 1` characters that `fgets` reads at most: `/MESSAGE`, a room's name of one word and
-- a text that does not begin with a space, in fewer than 100 words; the room is one that the server's
-- tables, in order, find, and the user that its thread serves is in it. Then one message is written
-- to the server, the input goes on behind the line, the server writes one copy of the message for
-- each user of the room, in the order of the buckets, and the terminal of each prints the login that
-- the typing client gave, the room and exactly that text.
pub typed-shown :
    (env : Env) (login : Str) (r : ℕ) (name : Str) (ch : ℕ) (t : Str) (word : IsWord (r ∷ name))
    (begins : (ch == space) ≡ false) (writes : env.writes ≡ true)
    (login_fits : length login < max_name_size) (name_fits : length (r ∷ name) < max_room_name_size)
    (text_fits : length (ch ∷ t) < max_mess_size) (c : Client)
    → c.client_sock ≡ true
    → c.login ≡ some login
    → let typed : Str =
        line env login r name ch t word begins writes login_fits name_fits text_fits
          (codes "/MESSAGE") in
      length typed + 1 < max_mess_size
      → Lacks 10 typed
      → Lacks 0 typed
      → length (words typed) < table_size
      → (sv : Server) → IsTable sv.rooms
      → (n : ℕ) → hash_room_name (r ∷ name) ≡ pos n
      → (room : Room) → view n (r ∷ name) sv.rooms ≡ some room
      → (es : ℕ → Entries) → Holds sv.heap room.users es
      → (u : Ptr) (me : User) → sv.heap u ≡ some me
      → (k : ℕ) → hash_user me.name ≡ pos k
      → is_some (lookup me.name (es k)) ≡ true
      → (there : Env) (reader : Client) (bytes : ℕ) → (more : Str)
      → (m : Message) × (traitement_send env c (typed ++ (10 ∷ more))
          ≡ ok (
            record {
              result = returns (record c { msg = some m }) (pos 0) (m ∷ []);
              printed = [];
              running = true;
            },
            more,
          ))
        × ((reply : Reply) × (on_message sv u m ≡ ok reply)
            × (reply.out ≡ copies m (entries_of hash_user_map_size es)))
        × (traitement_recv there reader (pos (suc bytes)) m
            ≡ shows reader
                (codes "[" ++ (login ++ (codes " @ " ++ ((r ∷ name) ++ (codes "] " ++ (ch ∷ t)))))))
unfolding traitement_send traitement_recv tell handle show Commands.receive_message
typed-shown env login r name ch t word begins writes login_fits name_fits text_fits c socket me fits
      one ends few sv table n hashed room found es holds u who here k there member env' reader bytes
      more =
    let m : Message = sent message login (r ∷ name) (ch ∷ t) in
    let typed =
      line env login r name ch t word begins writes login_fits name_fits text_fits
        (codes "/MESSAGE") in
    (
      m,
      rw
          (
            next_line-line typed more one ends fits,
            ◌>>=◌,
            send_message-text env login r name ch t word begins writes login_fits name_fits
                text_fits to_room c socket me (omega (arith, fits)) few,
          )
          refl,
      (
        delivered sv table m n hashed room found holds login_fits u who here k there,
        on_message-delivers sv table m n hashed room found holds login_fits u who here k there
            ∙ rw member refl,
        refl,
      ),
      refl,
    )
