-- ===== src/Rooms.antt =====
-- src/common/room_manager.h, room_manager.c and room_manager_sec.c: the hash table of rooms, the
-- global `rooms` passed and returned. No node of this table is read once it is freed, so a bucket
-- is the list of its rooms; each room holds a table of users (`Users`). A NULL room name, which the
-- functions test for, is passed by no caller modelled here.
pub mod Table
pub mod Adding
pub mod Apart
pub mod Removal
pub mod Members
pub mod Keyring
pub mod Keeping
pub mod Ending
use bavardage.Prelude.{
  ℕ, ◌==◌, Bool, true, false, Option, none, some, List, [], ◌∷◌, ◌++◌, if◌then◌else◌, is_some,
  get_or, set, replicate,
}
use bavardage.Prelude.Int.{ℤ, pos, negsuc}
use bavardage.CString.{Str, str_eq, strcpy}
use bavardage.Run.{Run, ok, fault, ◌>>=◌}
use bavardage.Hash.{hash_room_size, hash_room_name, index_in}
use bavardage.Wire.{max_room_name_size}
use bavardage.Users.{Cell, Chain, UserMap, create_user_map, user_of, add_user, remove_user}
use bavardage.Users.Store.{Ptr, User, Heap, load}

pub record Keys : Type 0 where
  pub master_key : Str
  pub hash_key : Str

pub record Room : Type 0 where
  pub name : Str
  pub admin : Option Ptr
  pub users : UserMap
  pub k : Option Keys

abbrev pub RoomMap : Type 0
RoomMap = List (List Room)

unfoldable pub init_rooms : RoomMap
init_rooms = replicate hash_room_size []

-- `rooms[hash_room_name (room_name)]`
unfoldable pub room_bucket : Str → RoomMap → Run (ℕ × List Room)
room_bucket room_name rooms = do
  index ← index_in hash_room_size (hash_room_name room_name)
  ok (index, get_or rooms index [])

-- The walk along a bucket to the first room of that name.
unfoldable pub first_named : Str → List Room → Option Room
first_named room_name [] = none
first_named room_name (t ∷ next) =
    if str_eq t.name room_name then some t else first_named room_name next

-- 1 is `true`, 0 is `false`.
unfoldable pub is_room_used : Str → RoomMap → Run Bool
is_room_used room_name rooms = do
  (_, l) ← room_bucket room_name rooms
  ok (is_some (first_named room_name l))

-- `add_user (admin, r->users)`, unless `admin` is NULL
unfoldable pub first_users : Heap → Option Ptr → Run UserMap
first_users h none = ok create_user_map
first_users h (some admin) = do (_, users) ← add_user h admin create_user_map; ok users

unfoldable pub add_room : Heap → Str → Option Ptr → RoomMap → Run (ℤ × RoomMap)
add_room h room_name admin rooms = do
  used ← is_room_used room_name rooms
  elim used [
    | true ↦ ok (negsuc 0, rooms)
    | false ↦ do
      name ← strcpy max_room_name_size room_name
      users ← first_users h admin
      (index, l) ← room_bucket room_name rooms
      let r : Room = record { name = name; admin = admin; users = users; k = none }
      ok (pos 0, set rooms index (r ∷ l))
  ]

-- `prec->next = t->next` at the first match behind the node `prec`.
unfoldable pub splice : Str → List Room → List Room
splice room_name [] = []
splice room_name (t ∷ next) = if str_eq t.name room_name then next else t ∷ splice room_name next

-- The loop of `remove_room`: at a match with no `prec`, where `count` is 1, `rooms[index] = NULL`.
unfoldable pub remove_room_loop : Str → List Room → List Room
remove_room_loop room_name [] = []
remove_room_loop room_name (t ∷ next) =
    if str_eq t.name room_name then [] else t ∷ splice room_name next

unfoldable pub remove_room : Str → RoomMap → Run (ℤ × RoomMap)
remove_room room_name rooms = do
  used ← is_room_used room_name rooms
  elim used [
    | false ↦ ok (negsuc 0, rooms)
    | true ↦ do
      (index, l) ← room_bucket room_name rooms
      ok (pos 0, set rooms index (remove_room_loop room_name l))
  ]

-- `t->current->admin` of the room that was found
abbrev pub admin_of : Option Room → Option Ptr
admin_of none = none
admin_of (some r) = r.admin

unfoldable pub get_admin : Str → RoomMap → Run (Option Ptr)
get_admin room_name rooms = do
  used ← is_room_used room_name rooms
  elim used [
    | false ↦ ok none
    | true ↦ do (_, l) ← room_bucket room_name rooms; ok (admin_of (first_named room_name l))
  ]

-- A change of the users of the first room of that name; a bucket with none is as it was.
unfoldable pub at_first : Str → (UserMap → Run UserMap) → List Room → Run (List Room)
at_first room_name change [] = ok []
at_first room_name change (t ∷ next) = elim (str_eq t.name room_name) [
  | true ↦ do users ← change t.users; ok (record t { users = users } ∷ next)
  | false ↦ do next' ← at_first room_name change next; ok (t ∷ next')
]

-- Both functions below drop the result of the call that they make, and return 0.
unfoldable pub add_user_in_room : Heap → Ptr → Str → RoomMap → Run RoomMap
add_user_in_room h u room_name rooms = do
  (index, l) ← room_bucket room_name rooms
  l' ← at_first room_name (λ users. do (_, users') ← add_user h u users; ok users') l
  ok (set rooms index l')

unfoldable pub remove_user_from_room : Heap → Bool → Ptr → Str → RoomMap → Run RoomMap
remove_user_from_room h keeps u room_name rooms = do
  (index, l) ← room_bucket room_name rooms
  l' ← at_first room_name (λ users. do (_, users') ← remove_user h keeps u users; ok users') l
  ok (set rooms index l')

-- The first loop of `get_users` runs on behind a match: the last room of that name counts.
unfoldable pub last_users : Str → Option UserMap → List Room → Option UserMap
last_users room_name map [] = map
last_users room_name map (t ∷ next) =
    last_users room_name (if str_eq t.name room_name then some t.users else map) next

-- The nodes of one bucket, copied in order.
unfoldable pub copy_chain : Chain → Run (List Ptr)
copy_chain [] = ok []
copy_chain (l ∷ next) = do p ← user_of l; rest ← copy_chain next; ok (p ∷ rest)

unfoldable pub copy_map : UserMap → Run (List Ptr)
copy_map [] = ok []
copy_map (l ∷ map) = do users ← copy_chain l; rest ← copy_map map; ok (users ++ rest)

abbrev pub copy_users : Option UserMap → Run (List Ptr)
copy_users none = ok []
copy_users (some map) = copy_map map

unfoldable pub get_users : Str → RoomMap → Run (List Ptr)
get_users room_name rooms = do
  (_, l) ← room_bucket room_name rooms
  copy_users (last_users room_name none l)

unfoldable pub in_loop : Heap → Ptr → List Ptr → Run Bool
in_loop h u [] = ok false
in_loop h u (l ∷ next) = do
  it ← load h l
  me ← load h u
  if str_eq it.name me.name then ok true else in_loop h u next

unfoldable pub is_user_in_room : Heap → Ptr → Str → RoomMap → Run Bool
is_user_in_room h u room_name rooms = do l ← get_users room_name rooms; in_loop h u l

-- The two nested loops of `get_user_rooms`, over one bucket and over the table.
unfoldable pub rooms_of_bucket : Heap → Ptr → RoomMap → List Room → Run (List Room)
rooms_of_bucket h u rooms [] = ok []
rooms_of_bucket h u rooms (l ∷ next) = do
  member ← is_user_in_room h u l.name rooms
  rest ← rooms_of_bucket h u rooms next
  ok (if member then l ∷ rest else rest)

unfoldable pub rooms_of_table : Heap → Ptr → RoomMap → List (List Room) → Run (List Room)
rooms_of_table h u rooms [] = ok []
rooms_of_table h u rooms (l ∷ table) = do
  found ← rooms_of_bucket h u rooms l
  rest ← rooms_of_table h u rooms table
  ok (found ++ rest)

unfoldable pub get_user_rooms : Heap → Ptr → RoomMap → Run (List Room)
get_user_rooms h u rooms = rooms_of_table h u rooms rooms

-- room_manager_sec.c. `memcpy` of the keys into the first room of that name.
unfoldable pub put_keys : Str → Keys → List Room → List Room
put_keys room_name k [] = []
put_keys room_name k (t ∷ next) =
    if str_eq t.name room_name
    then record t { k = some k } ∷ next
    else t ∷ put_keys room_name k next

-- 1 if the room is there, 0 if not, -1 for a NULL `keys`.
unfoldable pub set_keys_in_room : Str → Option Keys → RoomMap → Run (ℤ × RoomMap)
set_keys_in_room room_name none rooms = ok (negsuc 0, rooms)
set_keys_in_room room_name (some k) rooms = do
  (index, l) ← room_bucket room_name rooms
  ok (
      if is_some (first_named room_name l)
      then (pos 1, set rooms index (put_keys room_name k l))
      else (pos 0, rooms))

abbrev pub keys_of : Option Room → Option Keys
keys_of none = none
keys_of (some r) = r.k

unfoldable pub get_keys_from_room : Str → RoomMap → Run (Option Keys)
get_keys_from_room room_name rooms = do
  (_, l) ← room_bucket room_name rooms
  ok (keys_of (first_named room_name l))
