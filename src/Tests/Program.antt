-- ===== src/Tests/Program.antt =====
-- The names that a run of the server opens, and users and names for the examples.
use bavardage.Prelude.{replicate, set, get_or}
use bavardage.Prelude.Int.{◌+ℤ◌, ◌-ℤ◌, ◌*ℤ◌, tmod}
use bavardage.CString.{Str, codes, str_eq, strcpy}
use bavardage.Hash.{
  is_digit, char_value, digit_value, hash_sum, hash_from, hash_user, hash_room_name, index_in,
  is_alnum, is_login_valid,
}
use bavardage.Users
use bavardage.Users.Store.{User, load, malloc, free}
use bavardage.Rooms
use bavardage.Server.State.{broadcast, create_main_room}
use bavardage.Server.RoomOps
use bavardage.Server.Requests
use bavardage.Server.Connection
use bavardage.Server.Leaving

unfoldable pub program : Unit {0}
unfolding replicate set get_or ◌+ℤ◌ ◌-ℤ◌ ◌*ℤ◌ tmod str_eq strcpy is_digit char_value digit_value
    hash_sum hash_from hash_user hash_room_name index_in is_alnum is_login_valid
    Users.create_user_map Users.user_of Users.named Users.bucket Users.used_loop Users.is_login_used
    Users.add_user Users.get_loop Users.get_user Users.unlinked Users.remove_loop Users.remove_user
    load malloc free Rooms.init_rooms Rooms.room_bucket Rooms.first_named Rooms.is_room_used
    Rooms.first_users Rooms.add_room Rooms.splice Rooms.remove_room_loop Rooms.remove_room
    Rooms.get_admin Rooms.at_first Rooms.add_user_in_room Rooms.remove_user_from_room
    Rooms.last_users Rooms.copy_chain Rooms.copy_map Rooms.get_users Rooms.in_loop
    Rooms.is_user_in_room Rooms.rooms_of_bucket Rooms.rooms_of_table Rooms.get_user_rooms broadcast
    create_main_room RoomOps.list_members RoomOps.name_admin RoomOps.join_room RoomOps.quit_room
    RoomOps.delete_room Requests.on_create_room Requests.on_join_room Requests.on_delete_room
    Requests.quit_member Requests.on_quit_room Requests.on_message Requests.on_mp Requests.serve
    Connection.on_connect_new Connection.on_connect Connection.leave Connection.round
    Connection.receive Connection.hang_up Leaving.leave_room Leaving.leave_rooms
    Leaving.leave_server
program = tt

abbrev pub ann : Str
ann = codes "ann"

abbrev pub bob : Str
bob = codes "bob"

abbrev pub ann_user : User
ann_user = record { name = ann; socket = 4 }

abbrev pub bob_user : User
bob_user = record { name = bob; socket = 5 }
