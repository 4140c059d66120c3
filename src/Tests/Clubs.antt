-- ===== src/Tests/Clubs.antt =====
-- The table of rooms on small inputs: `aelm` has the hash of `club`.
use mathlib.Core.Bool.{◌&&◌}
use bavardage.Prelude.{
  ℕ, ◌≡◌, refl, false, none, some, [], ◌∷◌, get_or, set, arith, ◌==◌, if◌then◌else◌,
}
use bavardage.Prelude.Int.{pos}
use bavardage.CString.{Str, codes, str_eq}
use bavardage.Run.{ok}
use bavardage.Hash.{hash_room_name}
use bavardage.Users.Valid.{Holds}
use bavardage.Rooms.{
  Keys, set_keys_in_room, get_keys_from_room, Room, RoomMap, init_rooms, add_room, remove_room,
  is_user_in_room,
}
use bavardage.Rooms.Keyring.{with_keys, get_keys-set_keys}
use bavardage.Rooms.Table.{view, IsTable, init_rooms-IsTable}
use bavardage.Rooms.Adding.{founder, add_room-grows, IsTable-insert}
use bavardage.Rooms.Removal.{heads, remove_room-view}
use bavardage.Rooms.Members.{is_user_in_room-lookup}
use bavardage.Tests.Program.{program, ann_user, bob_user}
use bavardage.Tests.Tables.{
  people, one, one_entries, one-Holds, ann_at, ann_hashed, bob_at, bob_hashed,
}

abbrev pub club : Str
club = codes "club"

abbrev aelm : Str
aelm = codes "aelm"

pub club_hashed : hash_room_name club ≡ pos 1146
unfolding program
club_hashed = refl

aelm_hashed : hash_room_name aelm ≡ pos 1146
unfolding program
aelm_hashed = refl

abbrev pub ann_club : Room
ann_club = record { name = club; admin = some 1; users = one; k = none }

abbrev pub clubs : RoomMap
clubs = set init_rooms 1146 (ann_club ∷ get_or init_rooms 1146 [])

pub clubs-IsTable : IsTable clubs
unfolding program
clubs-IsTable =
    IsTable-insert people init_rooms club 1146 club_hashed ann_club init_rooms-IsTable refl refl
      (omega arith)

pub club_found : view 1146 club clubs ≡ some ann_club
unfolding program
club_found = refl

abbrev aelm_room : Room
aelm_room = record { name = aelm; admin = some 2; users = one; k = none }

abbrev crowded : RoomMap
crowded = set clubs 1146 (aelm_room ∷ get_or clubs 1146 [])

crowded-IsTable : IsTable crowded
unfolding program
crowded-IsTable =
    IsTable-insert people clubs aelm 1146 aelm_hashed aelm_room clubs-IsTable refl refl
      (omega arith)

is_user_in_room-lookup_example : is_user_in_room people 2 club clubs ≡ ok false
unfolding program
is_user_in_room-lookup_example =
    is_user_in_room-lookup clubs-IsTable club 1146 club_hashed ann_club club_found one-Holds 2
      bob_user 297 bob_at bob_hashed

add_room-grows_example :
    (r : Room) × (rooms : RoomMap) × (add_room people club (some 1) init_rooms ≡ ok (pos 0, rooms))
    × IsTable rooms
    × (r.admin ≡ some 1)
    × Holds people r.users one_entries
    × ((m : ℕ) (q : Str)
        → hash_room_name q ≡ pos m
        → view m q rooms ≡ (if str_eq club q then some r else view m q init_rooms))
unfolding program
add_room-grows_example =
    add_room-grows people init_rooms club 1146 club_hashed init_rooms-IsTable
      (founder 1 ann_user 194 ann_at ann_hashed) refl (omega arith)

-- `aelm` is at the head of its bucket, with `club` behind it.
remove_room-view_example :
    (rooms : RoomMap) × (remove_room aelm crowded ≡ ok (pos 0, rooms))
    × IsTable rooms
    × ((m : ℕ) (q : Str)
        → hash_room_name q ≡ pos m
        → view m q rooms ≡ (
            if (m == 1146) && heads aelm (get_or crowded 1146 [])
            then none
            else if str_eq aelm q
            then none
            else view m q crowded))
unfolding program
remove_room-view_example = remove_room-view crowded aelm 1146 aelm_hashed crowded-IsTable refl

abbrev some_keys : Keys
some_keys = record { master_key = 1 ∷ 2 ∷ []; hash_key = 3 ∷ [] }

get_keys-set_keys_example :
    (rooms : RoomMap) × (set_keys_in_room club (some some_keys) clubs ≡ ok (pos 1, rooms))
    × (get_keys_from_room club rooms ≡ ok (some some_keys))
    × ((m : ℕ) (q : Str)
        → hash_room_name q ≡ pos m
        → view m q rooms
          ≡ (if str_eq club q then with_keys some_keys (view m q clubs) else view m q clubs))
get_keys-set_keys_example =
    get_keys-set_keys clubs club 1146 club_hashed clubs-IsTable some_keys ann_club club_found
