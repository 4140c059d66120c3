-- ===== src/SecureServer/Inviting.antt =====
-- What the answers of an admin to src/serversec/secure_server.c leave in order: accepting, refusing and
-- ejecting a user.
use bavardage.Prelude.{◌≡◌, refl, false, ◌++◌, Option-cases, inl, inr}
use bavardage.CString.{Str, strcpy}
use bavardage.Run.{◌>>=◌}
use bavardage.Run.Ensures.{Ensures, Ensures-bind, Ensures-step, Ensures-cases}
use bavardage.KeyMessage.{put_keys_behind}
use bavardage.Wire.{Message}
use bavardage.Users
use bavardage.Users.Store.{Ptr, load, load-fault}
use bavardage.Rooms.{add_user_in_room, get_admin, get_users, remove_user_from_room}
use bavardage.Rooms.Keeping.{Housed, IsAdmin, add_user_in_room-Housed, remove_user_from_room-Housed}
use bavardage.Server.State.{broadcast}
use bavardage.Accounts.Sql.{Sqlite}
use bavardage.SecureServer.State.{State, Session, Env, deref, same_ptr}
use bavardage.SecureServer.Invitations.{
  complain, eject_by_admin, on_eject_from_room_sec, accept_claimer, on_accept_join_room_sec,
  on_refuse_join_room_sec,
}
use bavardage.SecureServer.Keeping.{Serves}

module _ {S : Sqlite} (t : State S) (env : Env) (s : Session) (buffer : Message)
    (g : Housed t.server.heap t.server.rooms) (anyone : IsAdmin t.server.heap s.user)
    (strict : env.keeps ≡ false) where
  complain-Serves : (text name : Str) → Ensures (Serves t s) (complain t env s buffer text name)
  unfolding complain
  complain-Serves text name =
      Ensures-step (Serves t s) (strcpy _ (text ++ name)) _ λ content. (g, refl, refl, refl)

  -- A claimer who is in no structure makes the request a fault, behind the change of the rooms.
  eject_by_admin-Serves : Ensures (Serves t s) (eject_by_admin t env s buffer)
  unfolding eject_by_admin
  eject_by_admin-Serves =
      let P = Serves t s in
      Ensures-step P (Users.get_user t.server.heap buffer.receiver t.server.user_map) _ λ found.
        Ensures-step P (deref found) _ λ claimer. elim (Option-cases (t.server.heap claimer)) [
          | inl gone ↦
              Ensures-step P
                (remove_user_from_room t.server.heap env.keeps claimer buffer.content
                  t.server.rooms)
                _
                λ rooms. Ensures-step P (strcpy _ buffer.sender) _ λ sender.
                  Ensures-step P (strcpy _ buffer.content) _
                    λ plain. rw (load-fault t.server.heap claimer gone, ◌>>=◌) tt
          | inr (it, there) ↦
              Ensures-bind (Housed t.server.heap) P
                (remove_user_from_room t.server.heap env.keeps claimer buffer.content
                  t.server.rooms)
                _
                (rw strict (
                  remove_user_from_room-Housed t.server.heap claimer it buffer.content
                    t.server.rooms there g))
                λ rooms g'. Ensures-step P (strcpy _ buffer.sender) _ λ sender.
                  Ensures-step P (strcpy _ buffer.content) _ λ plain.
                    Ensures-step P (load t.server.heap claimer) _ λ it'.
                      Ensures-step P (put_keys_behind env.beyond env.stale buffer.content env.keys)
                        _
                        λ content. Ensures-step P (get_users buffer.content rooms) _ λ l.
                          Ensures-step P (broadcast t.server.heap _ l) _
                            λ told. (g', refl, refl, refl)
        ]

  accept_claimer-Serves :
      (claimer : Ptr) → Ensures (Serves t s) (accept_claimer t env s buffer claimer)
  unfolding accept_claimer
  accept_claimer-Serves claimer =
      let P = Serves t s in
      elim (Option-cases (t.server.heap claimer)) [
        | inl gone ↦
            Ensures-step P (add_user_in_room t.server.heap claimer buffer.content t.server.rooms) _
              λ rooms. Ensures-step P (strcpy _ buffer.sender) _ λ sender.
                Ensures-step P (put_keys_behind env.beyond env.stale buffer.content env.keys) _
                  λ content. rw (load-fault t.server.heap claimer gone, ◌>>=◌) tt
        | inr (it, there) ↦
            Ensures-bind (Housed t.server.heap) P
              (add_user_in_room t.server.heap claimer buffer.content t.server.rooms) _
              (add_user_in_room-Housed t.server.heap claimer it buffer.content t.server.rooms there
                g)
              λ rooms g'. Ensures-step P (strcpy _ buffer.sender) _ λ sender.
                Ensures-step P (put_keys_behind env.beyond env.stale buffer.content env.keys) _
                  λ content. Ensures-step P (load t.server.heap claimer) _ λ it'.
                    Ensures-step P (get_users buffer.content rooms) _ λ l.
                      Ensures-step P (broadcast t.server.heap _ l) _ λ told. (g', refl, refl, refl)
      ]

  pub on_accept_join_room_sec-Serves : Ensures (Serves t s) (on_accept_join_room_sec t env s buffer)
  unfolding on_accept_join_room_sec
  on_accept_join_room_sec-Serves =
      let P = Serves t s in
      Ensures-step P (get_admin buffer.content t.server.rooms) _ λ boss.
        Ensures-cases P (same_ptr s.user boss) _ _
          (Ensures-step P (Users.get_user t.server.heap buffer.receiver t.server.user_map) _
            λ found. elim (Option-cases found) [
              | inl nobody ↦ rw nobody (complain-Serves _ buffer.receiver)
              | inr (claimer, there) ↦ rw there (accept_claimer-Serves claimer)
            ])
          (complain-Serves _ buffer.content)

  pub on_eject_from_room_sec-Serves : Ensures (Serves t s) (on_eject_from_room_sec t env s buffer)
  unfolding on_eject_from_room_sec
  on_eject_from_room_sec-Serves =
      Ensures-step (Serves t s) (get_admin buffer.content t.server.rooms) _ λ boss.
        Ensures-cases (Serves t s) (same_ptr s.user boss) _ _ eject_by_admin-Serves
          (complain-Serves _ buffer.content)

  pub on_refuse_join_room_sec-Serves : Ensures (Serves t s) (on_refuse_join_room_sec t env s buffer)
  unfolding on_refuse_join_room_sec
  on_refuse_join_room_sec-Serves =
      let P = Serves t s in
      Ensures-step P (get_admin buffer.content t.server.rooms) _ λ boss.
        Ensures-cases P (same_ptr s.user boss) _ _
          (Ensures-step P (Users.get_user t.server.heap buffer.receiver t.server.user_map) _
            λ found. Ensures-step P (strcpy _ buffer.content) _ λ content.
              Ensures-step P (deref found) _ λ claimer.
                Ensures-step P (load t.server.heap claimer) _ λ it. (g, refl, refl, refl))
          (complain-Serves _ buffer.content)
