-- ===== src/SecureServer/Anonymous.antt =====
-- `case DELETE_ROOM_SEC` of src/serversec/secure_server.c for a thread whose `u` is NULL: `u` is compared
-- with the result of `get_admin`, which is NULL for a room that has no admin.
use bavardage.Prelude.{
  ℕ, ◌<◌, ◌≡◌, refl, ◌∙◌, ap, Bool, if◌then◌else◌, true, false, none, some, length, is_some,
}
use bavardage.Prelude.Int.{pos}
use bavardage.CString.{Str, str_eq, strcpy, str_eq_refl}
use bavardage.Run.{ok, ◌>>=◌}
use bavardage.Run.Ends.{Ends, Ends-bind, Ends-step, Ends-ok}
use bavardage.Hash.{hash_room_name}
use bavardage.Wire.{Message, max_mess_size}
use bavardage.Users.Store.{Heap}
use bavardage.Rooms.{Room, RoomMap, is_room_used, get_users, remove_room}
use bavardage.Rooms.Table.{view, is_room_used-view, get_admin-view}
use bavardage.Rooms.Removal.{remove_room-view}
use bavardage.Rooms.Keeping.{Housed}
use bavardage.Rooms.Ending.{Lists, get_users-Ends}
use bavardage.Server.State.{Out, broadcast}
use bavardage.Server.Ending.{strcpy-IsOk, broadcast-IsOk}
use bavardage.Accounts.Sql.{Sqlite}
use bavardage.SecureServer.State.{State, Session, Env, Turn}
use bavardage.SecureServer.RoomOps.{delete_room_by}
use bavardage.SecureServer.Requests.{on_delete_room_sec}

module _ (h : Heap) (rooms : RoomMap) (g : Housed h rooms) (s : Str) (n : ℕ)
    (hashed : hash_room_name s ≡ pos n) (r : Room) (found : view n s rooms ≡ some r) where
  abbrev IsGone : RoomMap → Type 0
  IsGone rooms' = is_room_used s rooms' ≡ ok false

  remove_room-IsGone : Ends (λ r. IsGone r.1) (remove_room s rooms)
  remove_room-IsGone =
      let (rooms', run, table, after) =
        remove_room-view rooms s n hashed g.table (ap is_some found) in
      rw run (
        is_room_used-view rooms' s n hashed
        ∙ ap (λ o. ok (is_some o)) (after n s hashed ∙ none_left _))
    where
      none_left :
          (b : Bool) → (if b then none else if str_eq s s then none else view n s rooms) ≡ none
      none_left true = refl
      none_left false = rw str_eq_refl

  delete_room_by-IsGone :
      (junk : Str)
      → length s < max_mess_size
      → Ends (λ r. IsGone r.0) (delete_room_by h junk s rooms)
  unfolding delete_room_by
  delete_room_by-IsGone junk fits =
      let P = λ (r : RoomMap × Out). IsGone r.0 in
      Ends-bind (Lists h) P (get_users s rooms) _ (get_users-Ends h rooms g s n hashed)
        λ users list. Ends-step P (strcpy _ s) _ (strcpy-IsOk _ s fits) λ content.
          Ends-step P (broadcast h _ users) _ (broadcast-IsOk h _ users list) λ told.
            Ends-bind (λ r. IsGone r.1) P (remove_room s rooms) _ remove_room-IsGone λ r gone. gone

-- A thread that serves nobody deletes any room that has no admin, as the home room has none: without
-- a fault, and then the name finds no room. The rooms are in order, and the name fits and has an
-- index for its hash.
pub on_delete_room_sec-nobody :
    {S : Sqlite} (t : State S) (env : Env) (s : Session) (buffer : Message) (n : ℕ) (r : Room)
    → Housed t.server.heap t.server.rooms
    → s.user ≡ none
    → hash_room_name buffer.content ≡ pos n
    → length buffer.content < max_mess_size
    → view n buffer.content t.server.rooms ≡ some r
    → r.admin ≡ none
    → (turn : Turn S) × (on_delete_room_sec t env s buffer ≡ ok turn)
      × (is_room_used buffer.content turn.state.server.rooms ≡ ok false)
unfolding on_delete_room_sec
on_delete_room_sec-nobody {S} t env s buffer n r g nobody hashed fits found free =
    let P = λ (x : Turn S). is_room_used buffer.content x.state.server.rooms ≡ ok false in
    Ends-ok P (on_delete_room_sec t env s buffer) (
      rw (get_admin-view t.server.rooms buffer.content n hashed, ◌>>=◌, found, free, nobody)
        (Ends-bind _ P (delete_room_by t.server.heap env.junk buffer.content t.server.rooms) _
          (delete_room_by-IsGone t.server.heap t.server.rooms g buffer.content n hashed r found
            env.junk fits)
          λ x gone. gone))
