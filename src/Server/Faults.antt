-- ===== src/Server/Faults.antt =====
-- Requests with a name that the hash does not take into the table: the cases of the `switch` of
-- src/server/server.c do not check the names of rooms, nor the receiver of a private message.
use bavardage.Prelude.{ℕ, ◌≡◌, refl, ◌∙◌}
use bavardage.Prelude.Int.{negsuc}
use bavardage.CString.{Str}
use bavardage.Run.{fault, out_of_bounds}
use bavardage.Hash.{hash_user, hash_room_name}
use bavardage.Wire.{Message, Code, create_room, join_room, quit_room, delete_room, message, mp}
use bavardage.Users
use bavardage.Users.Store.{Ptr, Heap}
use bavardage.Users.Keeping.{bucket-negative}
use bavardage.Rooms.Table.{is_room_used-negative}
use bavardage.Server.State.{Server, Env}
use bavardage.Server.Requests.{
  on_create_room, on_join_room, on_delete_room, on_quit_room, on_message, on_mp, serve,
}

-- The code of a message, and the name in it that is looked up first.
pub data Names (m : Message) : Code → Str → Type 0 where
  creates : Names m create_room m.content
  joins : Names m join_room m.content
  quits : Names m quit_room m.content
  deletes : Names m delete_room m.content
  tells_room : Names m message m.receiver
  tells_user : Names m mp m.receiver

same_hash : (s : Str) → hash_room_name s ≡ hash_user s
unfolding hash_room_name hash_user
same_hash s = refl

is_login_used-negative :
    (h : Heap) (map : Users.UserMap) (s : Str) (n : ℕ)
    → hash_user s ≡ negsuc n
    → Users.is_login_used h s map ≡ fault out_of_bounds
unfolding Users.is_login_used
is_login_used-negative h map s n e = rw (bucket-negative map s n e) refl

-- A request of a connected user whose name has a negative hash is an access outside of a table,
-- whatever the state is.
pub serve-negative :
    (sv : Server) (env : Env) (u : Ptr) (m : Message) {code : Code} {s : Str} (n : ℕ)
    → Names m code s
    → hash_user s ≡ negsuc n
    → serve sv env u m code ≡ fault out_of_bounds
unfolding serve on_create_room on_join_room on_delete_room on_quit_room on_message on_mp
serve-negative sv env u m n creates e =
    rw (is_room_used-negative sv.rooms m.content n (same_hash m.content ∙ e)) refl
serve-negative sv env u m n joins e =
    rw (is_room_used-negative sv.rooms m.content n (same_hash m.content ∙ e)) refl
serve-negative sv env u m n quits e =
    rw (is_room_used-negative sv.rooms m.content n (same_hash m.content ∙ e)) refl
serve-negative sv env u m n deletes e =
    rw (is_room_used-negative sv.rooms m.content n (same_hash m.content ∙ e)) refl
serve-negative sv env u m n tells_room e =
    rw (is_room_used-negative sv.rooms m.receiver n (same_hash m.receiver ∙ e)) refl
serve-negative sv env u m n tells_user e =
    rw (is_login_used-negative sv.heap sv.user_map m.receiver n e) refl
