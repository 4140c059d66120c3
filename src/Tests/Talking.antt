-- ===== src/Tests/Talking.antt =====
-- A text that goes from one terminal to another, a socket that is accepted and closed, and a
-- certificate that passes.
use bavardage.Prelude.{
  ℕ, Bool, ◌&&◌, not, ◌==◌, ◌+◌, ◌≡◌, refl, true, none, some, [], ◌∷◌, ◌++◌, arith, List, length,
}
use bavardage.Prelude.Int.{ℤ, pos}
use bavardage.CString.{Str, codes, str_eq}
use bavardage.Run.{ok}
use bavardage.Bytes.Copying.{Lacks}
use bavardage.Hash.{hash_user_map_size}
use bavardage.Wire.{Message}
use bavardage.Client.Words.{words, words_from, word_end}
use bavardage.Client.Commands.{returns}
use bavardage.Rooms.Members.{entries_of}
use bavardage.Server.Requests.{Reply, on_message}
use bavardage.Server.Delivery.{copies}
use bavardage.Terminal.{shows, traitement_send, traitement_recv}
use bavardage.Terminal.Talk.{typed-shown}
use bavardage.Sockets.{System, SocketTcp, creer_socket_tcp, accept_socket_tcp, close_socket_tcp}
use bavardage.Sockets.Descriptors.{IsUnix, accept-close_loses}
use bavardage.Certificates.{Certificate, post_connection_check, extensions_loop}
use bavardage.Certificates.Checked.{Passes, post_connection_check-Passes}
use bavardage.Tests.Program.{ann, ann_user}
use bavardage.Tests.Tables.{one-Holds, ann_at, ann_hashed, one_entries}
use bavardage.Tests.Clubs.{club, club_hashed, clubs-IsTable, club_found, ann_club}
use bavardage.Tests.Rounds.{hall}
use bavardage.Tests.Typing.{terminal, ann_client}

abbrev is_free_of : ℕ → Str → Bool
is_free_of b [] = true
is_free_of b (c ∷ s) = not (c == b) && is_free_of b s

abbrev typed : Str
typed = codes "/MESSAGE club hello  all"

free-Lacks : (b : ℕ) (s : Str) → is_free_of b s ≡ true → Lacks b s
free-Lacks b [] free = tt
free-Lacks b (c ∷ s) free = (ground arith, free-Lacks b s (ground arith))

typed-shown_example :
    (m : Message) × (traitement_send terminal ann_client
        (codes "/MESSAGE club hello  all" ++ (10 ∷ codes "/QUIT_ROOM club"))
      ≡ ok (
        record {
          result = returns (record ann_client { msg = some m }) (pos 0) (m ∷ []);
          printed = [];
          running = true;
        },
        codes "/QUIT_ROOM club",
      ))
    × ((reply : Reply) × (on_message hall 1 m ≡ ok reply)
        × (reply.out ≡ copies m (entries_of hash_user_map_size one_entries)))
    × (traitement_recv terminal ann_client (pos 1) m
        ≡ shows ann_client
            (codes "[" ++ (ann ++ (codes " @ " ++ (club ++ (codes "] " ++ codes "hello  all"))))))
unfolding words words_from word_end str_eq
typed-shown_example =
    typed-shown terminal ann b'c' (codes "lub") b'h' (codes "ello  all")
      (refl, (refl, (refl, (refl, tt)))) refl refl (omega arith) (omega arith) (omega arith)
      ann_client refl refl (omega arith) (free-Lacks 10 typed refl) (free-Lacks 0 typed refl)
      (omega arith) hall clubs-IsTable 1146 club_hashed ann_club club_found one_entries one-Holds 1
      ann_user ann_at 194 ann_hashed refl terminal ann_client 0 (codes "/QUIT_ROOM club")

-- A system that counts its descriptors up and never fails.
abbrev counting : System
counting = record {
  Kernel = List ℤ;
  socket = λ k. (pos (length k + 3), pos (length k + 3) ∷ k);
  connect = λ k fd a. (pos 0, k);
  bind = λ k fd a. (pos 0, k);
  listen = λ k fd n. (pos 0, k);
  accept = λ k fd. (pos (length k + 3), pos (length k + 3) ∷ k);
  shutdown = λ k fd. (pos 0, k);
  gethostbyname = λ s. some 1;
  inet_addr = λ s. none;
}

counting-IsUnix : IsUnix counting
counting-IsUnix = record {
  descriptors = λ k. k;
  socket_opens = λ k. refl;
  accept_opens = λ k fd. refl;
  shutdown_keeps = λ k fd. refl;
}

abbrev listener : SocketTcp
listener = record { socket = pos 3 }

abbrev client : SocketTcp
client = record { socket = pos 5 }

accept-close_loses_example :
    (lost : ℤ) × ((close_socket_tcp counting (pos 5 ∷ pos 4 ∷ pos 3 ∷ []) client).1
      ≡ pos 5 ∷ lost ∷ pos 3 ∷ [])
unfolding accept_socket_tcp creer_socket_tcp close_socket_tcp counting-IsUnix
accept-close_loses_example =
    accept-close_loses counting counting-IsUnix (pos 3 ∷ []) listener client
      (pos 5 ∷ pos 4 ∷ pos 3 ∷ []) refl

abbrev nameless : Certificate
nameless = record { extensions = []; common_name = none }

post_connection_check-Passes_example :
    (pos 0 ≡ pos 0)
    × ((cert : Certificate) × (name : Str) × (some nameless ≡ some cert)
        × (some (codes "localhost") ≡ some name)
        × Passes name cert)
unfolding post_connection_check extensions_loop
post_connection_check-Passes_example =
    post_connection_check-Passes (pos 50) (pos 0) (some nameless) (some (codes "localhost"))
      (λ e. ground arith) refl
