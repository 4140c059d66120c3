-- ===== src/SecureServer/Leaving.antt =====
-- `case DISCONNECT_SEC` of `handle_connexion` in src/serversec/secure_server.c.
use bavardage.Prelude.{◌≡◌, false, Option, some, List, ◌∷◌, length}
use bavardage.Run.{ok, ◌>>=◌}
use bavardage.Run.Ensures.{Ensures, Ensures-step, Ensures-never}
use bavardage.Wire.{Message}
use bavardage.Users.Store.{Ptr}
use bavardage.Rooms.{Room, get_admin, get_user_rooms}
use bavardage.Accounts.Sql.{Sqlite}
use bavardage.SecureServer.State.{State, Session, Env, same_ptr}
use bavardage.SecureServer.Access.{
  leave_room_sec, leave_rooms_sec, leave_sec, forget_account, on_disconnect_sec,
}
use bavardage.SecureServer.Marking.{leave_room_sec-overflow}

-- A user whose first room is not the user's own, such as the room that `CONNECT_SEC` puts everyone in
-- and that has no admin, does not get off the secure server: `DISCONNECT_SEC` ends in a fault, since
-- `quit_room` writes the keys into the array of the room's name, beyond its 64 characters. The
-- `memcpy` of the literal is taken to copy as many bytes as it is told to.
pub on_disconnect_sec-fault :
    (S : Sqlite) (t : State S) (env : Env) (s : Session) (buffer : Message) (u : Ptr) (l : Room)
    (next : List Room) (boss : Option Ptr)
    → s.user ≡ some u
    → get_user_rooms t.server.heap u t.server.rooms ≡ ok (l ∷ next)
    → get_admin l.name t.server.rooms ≡ ok boss
    → same_ptr (some u) boss ≡ false
    → length env.beyond ≡ 30
    → Ensures (λ _. ⊥) (on_disconnect_sec S t env s buffer)
unfolding on_disconnect_sec leave_sec leave_rooms_sec
on_disconnect_sec-fault S t env s buffer u l next boss user mine found apart over =
    let (e, stops) =
      Ensures-never (leave_room_sec t.server.heap env u l.name t.server.rooms)
        (leave_room_sec-overflow t.server.heap env u l.name t.server.rooms boss over found apart) in
    Ensures-step _ (forget_account S t env s buffer) _
      λ db. rw (user, leave_sec, mine, ◌>>=◌, leave_rooms_sec, stops, ◌>>=◌) tt
