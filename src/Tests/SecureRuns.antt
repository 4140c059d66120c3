-- ===== src/Tests/SecureRuns.antt =====
-- Requests to the secure server on small inputs: `ann` is the admin of `club`.
use bavardage.Prelude.{
  ℕ, ◌≡◌, refl, true, false, none, set, some, [], ◌∷◌, ◌++◌, arith, replicate, length-replicate,
}
use bavardage.CString.{Str, codes}
use bavardage.Run.{ok}
use bavardage.Run.Ensures.{Ensures}
use bavardage.Hash.{hash_room_name}
use bavardage.Prelude.Int.{pos}
use bavardage.KeyMessage.{take_keys}
use bavardage.Wire
use bavardage.Wire.{Message, Code, SecCode, secure, clear_message, eject_from_room_sec, mp_sec_ok}
use bavardage.Rooms.{init_rooms, Room, get_user_rooms, Keys, RoomMap, remove_user_from_room}
use bavardage.Accounts.Ending.{user_query, certificate_query}
use bavardage.SecureServer.State.{State, Session, Env, Turn, same_ptr, home_room_sec}
use bavardage.SecureServer.RoomOps.{quit_room_by}
use bavardage.SecureServer.Requests.{on_mp_sec}
use bavardage.SecureServer.Invitations.{on_join_room_sec}
use bavardage.SecureServer.Access.{on_disconnect_sec, on_connect_sec, enter}
use bavardage.SecureServer.Rounds.{receive_sec}
use bavardage.SecureServer.Marking.{quit_room_by-silent}
use bavardage.SecureServer.Leaving.{on_disconnect_sec-fault}
use bavardage.SecureServer.Protecting.{ejects, receive_sec-Spared, Spared}
use bavardage.SecureServer.Guarded.{Asks, on_join_room_sec-Asks}
use bavardage.SecureServer.Sharing.{GoodKeys, IsName, on_mp_sec-shares}
use bavardage.SecureServer.Entering.{Finds, on_connect_sec-admits}
use bavardage.Tests.Program.{program, ann, bob, ann_user, bob_user}
use bavardage.Tests.Tables.{people, one, ann_at, bob_at}
use bavardage.Tests.Clubs.{club, clubs, club_found, ann_club}
use bavardage.Tests.Start.{or_else}
use bavardage.Tests.AccountRuns.{row_store, row_store-Gives, card}

abbrev some_keys : Keys
some_keys = record { master_key = replicate 32 7; hash_key = replicate 16 9 }

abbrev pub chance : Env
chance = record {
  fresh = 9;
  keeps = false;
  junk = [];
  keys = some_keys;
  beyond = replicate 30 1;
  stale = replicate 100 0;
  fuel = 3;
}

abbrev secure_hall : State row_store
secure_hall = record { server = record { rooms = clubs; user_map = one; heap = people }; db = 1 }

abbrev of_bob : Session
of_bob = record {
  ssl = 5;
  user = some 2;
  first_connection = false;
  subject = card;
  response = clear_message;
  running = true;
}

abbrev ejects_ann : Message
ejects_ann = record {
  code = secure eject_from_room_sec;
  sender = bob;
  receiver = ann;
  content = club;
}

abbrev joins_club : Message
joins_club = record clear_message { code = secure Wire.join_room_sec; sender = bob; content = club }

abbrev talks_to_ann : Message
talks_to_ann = record {
  code = secure Wire.mp_sec;
  sender = bob;
  receiver = ann;
  content = codes "hello";
}

club_is_anns :
    hash_room_name ejects_ann.content ≡ pos 1146
    → (ejects_ann.content ≡ club) × (same_ptr of_bob.user ann_club.admin ≡ false)
club_is_anns hashed = (refl, refl)

receive_sec-Spared_example :
    Ensures
      (Spared secure_hall chance of_bob ejects_ann 1146 club ann_club club_found club_is_anns)
      (receive_sec row_store secure_hall chance of_bob ejects_ann)
receive_sec-Spared_example =
    receive_sec-Spared secure_hall chance of_bob ejects_ann 1146 club ann_club club_found
      club_is_anns ejects refl

on_join_room_sec-Asks_example :
    Ensures
      (Asks row_store secure_hall chance of_bob joins_club)
      (on_join_room_sec secure_hall chance of_bob joins_club)
on_join_room_sec-Asks_example = on_join_room_sec-Asks row_store secure_hall chance of_bob joins_club

abbrev of_ann : Session
of_ann = record of_bob { ssl = 4; user = some 1 }

abbrev leaves : Message
leaves = record clear_message { code = secure SecCode.disconnect_sec; sender = ann }

abbrev home_of_all : Room
home_of_all = record { name = home_room_sec; admin = none; users = one; k = none }

abbrev full_hall : State row_store
full_hall = record {
  server = record { rooms = set init_rooms 1327 (home_of_all ∷ []); user_map = one; heap = people };
  db = 1;
}

in_home : get_user_rooms people 1 full_hall.server.rooms ≡ ok (home_of_all ∷ [])
unfolding program
in_home = refl

on_disconnect_sec-fault_example :
    Ensures (λ _. ⊥) (on_disconnect_sec row_store full_hall chance of_ann leaves)
unfolding program
on_disconnect_sec-fault_example =
    on_disconnect_sec-fault row_store full_hall chance of_ann leaves 1 home_of_all [] none refl
      in_home refl refl (length-replicate {A = ℕ} 30 1)

abbrev with_keeps : Env
with_keeps = record chance { keeps = true }

abbrev left_alone : RoomMap
left_alone = or_else clubs (remove_user_from_room people true 1 club clubs)

quit_room_by-silent_example :
    (array : Str) × (quit_room_by people with_keeps 1 (club ++ (0 ∷ chance.stale)) clubs
      ≡ ok (record { rooms = left_alone; array = array; out = [] }))
unfolding program or_else
quit_room_by-silent_example =
    quit_room_by-silent club (refl, (refl, (refl, (refl, tt)))) people with_keeps 1 chance.stale
      clubs left_alone ann_user (length-replicate {A = ℕ} 30 1) (length-replicate {A = ℕ} 32 7)
      (length-replicate {A = ℕ} 16 9) (omega (arith, length-replicate {A = ℕ} 100 0)) (omega arith)
      ann_at refl refl

chance-GoodKeys : GoodKeys chance
chance-GoodKeys = record {
  master = length-replicate {A = ℕ} 32 7;
  hash = length-replicate {A = ℕ} 16 9;
  over = length-replicate {A = ℕ} 30 1;
}

ann-IsName : IsName chance.stale ann
ann-IsName = record {
  c = b'a';
  rest = codes "nn";
  whole = refl;
  ends = (refl, (refl, (refl, tt)));
  one_word = (refl, (refl, (refl, tt)));
  fits = omega (arith, length-replicate {A = ℕ} 100 0);
}

bob-IsName : IsName chance.stale bob
bob-IsName = record {
  c = b'b';
  rest = codes "ob";
  whole = refl;
  ends = (refl, (refl, (refl, tt)));
  one_word = (refl, (refl, (refl, tt)));
  fits = omega (arith, length-replicate {A = ℕ} 100 0);
}

on_mp_sec-shares_example :
    (r : Turn row_store) × (mine : Message) × (theirs : Message) × (on_mp_sec secure_hall chance
        of_bob talks_to_ann
      ≡ ok r)
    × (r.out ≡ (5, mine) ∷ (4, theirs) ∷ [])
    × (mine.code ≡ secure mp_sec_ok)
    × (theirs.code ≡ secure mp_sec_ok)
    × (take_keys mine.content ≡ ok (ann, some_keys))
    × (take_keys theirs.content ≡ ok (bob, some_keys))
unfolding program
on_mp_sec-shares_example =
    on_mp_sec-shares secure_hall chance of_bob talks_to_ann 2 1 bob_user ann_user refl refl bob_at
      ann_at chance-GoodKeys ann-IsName bob-IsName (omega arith) (omega arith)

abbrev pub connects : Message
connects = record clear_message { code = secure Wire.connect_sec; sender = ann }

one_row : (query : Str) → Finds row_store 3 1 query 1
one_row query = record { prepared = refl; gives = row_store-Gives query; within = omega arith }

on_connect_sec-admits_example :
    on_connect_sec row_store secure_hall chance of_bob connects
    ≡ enter row_store secure_hall chance of_bob connects 1 false
on_connect_sec-admits_example =
    on_connect_sec-admits row_store secure_hall chance of_bob connects 1 1 1 (omega arith)
      (omega arith) (one_row (user_query ann card)) (one_row (user_query ann card))
      (one_row (certificate_query card))
