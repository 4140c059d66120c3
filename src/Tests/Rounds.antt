-- ===== src/Tests/Rounds.antt =====
-- Requests and rounds on small inputs.
use bavardage.Prelude.{◌≡◌, refl, none, some, [], ◌∷◌, arith, ℕ, if◌then◌else◌}
use mathlib.Core.Path.{subst}
use bavardage.CString.{codes, Str, str_eq}
use bavardage.Run.{ok, fault, out_of_bounds}
use bavardage.Run.Ensures.{Ensures}
use bavardage.Wire.{Message, Code, clear_message, message, mp, ok_code}
use bavardage.Users.Store.{Ptr}
use bavardage.Rooms.{init_rooms, Room, RoomMap}
use bavardage.Server.State.{Server}
use bavardage.Server.Requests.{Reply, on_message, on_mp, serve, on_create_room}
use bavardage.Server.Connection.{on_connect_new, receive, respond}
use bavardage.Server.Leaving.{leave_server}
use bavardage.Server.Keeping.{Serves}
use bavardage.Server.Rounds.{IsServer, IsClient, leave_server-fault}
use bavardage.Server.Progress.{receive-answers, on_connect_new-enters}
use bavardage.Server.Outcome.{Outcome, receive-Outcome}
use bavardage.Prelude.Int.{pos}
use bavardage.Server.Faults.{serve-negative, joins}
use bavardage.Server.Creating.{created, on_create_room-creates}
use bavardage.Rooms.Table.{view, IsTable, init_rooms-IsTable}
use bavardage.Users.Valid.{Holds}
use bavardage.Hash.{hash_room_name}
use bavardage.Server.Delivery.{forwarded, on_message-delivers, on_mp-delivers}
use bavardage.Tests.Program.{program, ann, bob, ann_user}
use bavardage.Tests.Tables.{people, one, one-Holds, ann_at, ann_hashed, one_entries}
use bavardage.Tests.Clubs.{club, club_hashed, clubs, clubs-IsTable, club_found, ann_club}
use bavardage.Tests.Start.{
  or_else, fresh_at, hello, idle, start, start-IsServer, first, first-IsServer, first-IsClient,
}

abbrev pub hall : Server
hall = record { rooms = clubs; user_map = one; heap = people }

abbrev to_club : Message
to_club = record { code = message; sender = ann; receiver = club; content = codes "hello" }

on_message-delivers_example :
    on_message hall 1 to_club
    ≡ ok (record {
      server = hall;
      out = (4, to_club) ∷ [];
      response = record clear_message { code = ok_code };
    })
unfolding program
on_message-delivers_example =
    on_message-delivers hall clubs-IsTable to_club 1146 club_hashed ann_club club_found one-Holds
      (omega arith) 1 ann_user ann_at 194 ann_hashed

abbrev to_ann : Message
to_ann = record { code = mp; sender = bob; receiver = ann; content = codes "hello" }

on_mp-delivers_example : on_mp hall to_ann ≡ ok (forwarded hall to_ann 4)
unfolding program
on_mp-delivers_example =
    on_mp-delivers hall to_ann 194 ann_user one-Holds ann_hashed (λ q e. found q e)
  where
    found : (q : Ptr) → some 1 ≡ some q → people q ≡ some ann_user
    found q e = let same : 1 ≡ q = cc in subst (λ x. people x ≡ some ann_user) same ann_at

leave_server-fault_example : Ensures (λ _. ⊥) (leave_server first.0 (fresh_at 2) 1)
leave_server-fault_example =
    leave_server-fault first.0 (fresh_at 2) 1 refl first-IsServer first-IsClient

receive-Outcome_example : Outcome start (fresh_at 1) (idle 4) first
unfolding program or_else
receive-Outcome_example =
    receive-Outcome start (fresh_at 1) (idle 4) (hello ann) start-IsServer refl refl nobody
  where
    nobody : (u : Ptr) → none ≡ some u → IsClient start u
    nobody u e = cc

on_connect_new-enters_example :
    (r : Reply) × (on_connect_new start (fresh_at 1) 4 (hello ann) ≡ ok r)
    × IsServer r.server
    × IsClient r.server 1
    × ((q : Ptr) → IsClient start q → IsClient r.server q)
unfolding program or_else
on_connect_new-enters_example =
    on_connect_new-enters start (fresh_at 1) 4 (hello ann) start-IsServer refl refl (omega arith)
      refl

abbrev founds_club : Message
founds_club = record clear_message { code = Code.create_room; sender = ann; content = club }

receive-answers_example :
    (r : Reply) × (receive first.0 (fresh_at 2) first.1 founds_club ≡ ok (respond first.1 r))
    × Serves first.0 r
unfolding program or_else
receive-answers_example =
    receive-answers first.0 (fresh_at 2) first-IsServer 1 first-IsClient founds_club first.1 refl
      refl (record { index = 1146; hashed = refl; fits = omega arith }, omega arith)

abbrev dash : Message
dash = record clear_message { code = Code.join_room; content = codes "-" }

serve-negative_example : serve start (fresh_at 1) 1 dash Code.join_room ≡ fault out_of_bounds
unfolding program
serve-negative_example = serve-negative start (fresh_at 1) 1 dash 9 joins refl

abbrev new_club : Message
new_club = record clear_message { code = Code.create_room; sender = ann; content = club }

abbrev lobby : Server
lobby = record { rooms = init_rooms; user_map = one; heap = people }

lobby_free : view 1146 club init_rooms ≡ none
unfolding program
lobby_free = refl

on_create_room-creates_example :
    (r : Room) × (rooms : RoomMap) × (on_create_room lobby 1 new_club
      ≡ ok (created lobby ann_user new_club rooms))
    × IsTable rooms
    × (r.admin ≡ some 1)
    × Holds people r.users one_entries
    × ((i : ℕ) (q : Str)
        → hash_room_name q ≡ pos i
        → view i q rooms ≡ (if str_eq club q then some r else view i q init_rooms))
on_create_room-creates_example =
    on_create_room-creates lobby init_rooms-IsTable 1 ann_user 194 new_club 1146 ann_at ann_hashed
      club_hashed lobby_free (omega arith) (omega arith)
