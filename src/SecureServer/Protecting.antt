-- ===== src/SecureServer/Protecting.antt =====
-- What the requests that are an admin's do to the rooms of others: the cases `DELETE_ROOM_SEC`,
-- `EJECT_FROM_ROOM_SEC`, `ACCEPT_JOIN_ROOM_SEC` and `REFUSE_JOIN_ROOM_SEC` of `handle_connexion` in
-- src/serversec/secure_server.c.
use bavardage.Prelude.{
  ℕ, ◌≡◌, refl, sym, ◌∙◌, ap, true, false, Option, none, some, [], ◌∷◌, ◌++◌, ◌⊎◌, inl, inr, get_or,
}
use mathlib.Core.Bool.{false≢true}
use bavardage.Prelude.Int.{pos}
use bavardage.CString.{Str, strcpy}
use bavardage.Run.{Run, ok, ◌>>=◌}
use bavardage.Run.Ensures.{
  Ensures, Ensures-step, Ensures-bind, Ensures-bind_eq, Ensures-split, Ensures-mono,
}
use bavardage.Hash.{hash_room_name}
use bavardage.Wire.{
  Message, SecCode, secure, delete_room_sec, accept_join_room_sec, refuse_join_room_sec,
  eject_from_room_sec,
}
use bavardage.KeyMessage.{put_keys_behind}
use bavardage.Users
use bavardage.Users.Store.{Ptr, Heap, load}
use bavardage.Rooms.{
  Room, RoomMap, get_admin, add_user_in_room, remove_user_from_room, remove_room, first_named,
  get_users,
}
use bavardage.Rooms.Table.{view, get_admin-view}
use bavardage.Rooms.Apart.{
  Same, add_user_in_room-Same, remove_user_from_room-Same, remove_room-Same,
}
use bavardage.Server.State.{Out, broadcast}
use bavardage.Accounts.Sql.{Sqlite}
use bavardage.SecureServer.State.{State, Session, Env, Turn, deref, same_ptr}
use bavardage.SecureServer.RoomOps.{delete_room_by}
use bavardage.SecureServer.Requests.{on_delete_room_sec}
use bavardage.SecureServer.Invitations.{
  complain, eject_by_admin, accept_claimer, on_eject_from_room_sec, on_accept_join_room_sec,
  on_refuse_join_room_sec,
}
use bavardage.SecureServer.Rounds.{switch, receive_sec, reply}

-- The requests that are the admin's.
pub data IsAdminCode : SecCode → Type 0 where
  deletes : IsAdminCode delete_room_sec
  ejects : IsAdminCode eject_from_room_sec
  accepts : IsAdminCode accept_join_room_sec
  refuses : IsAdminCode refuse_join_room_sec

ok-injective : {a b : Option Ptr} → ok a ≡ ok b → a ≡ b
ok-injective e = cc

module _ (rooms : RoomMap) (s : Str) (m : ℕ) (apart : hash_room_name s ≡ pos m → ⊥) where
  delete_room_by-Same :
      (h : Heap) (junk : Str)
      → Ensures (λ r. Same rooms s m apart r.0) (delete_room_by h junk s rooms)
  unfolding delete_room_by
  delete_room_by-Same h junk =
      let Q : RoomMap × Out → Type 0 = λ r. Same rooms s m apart r.0 in
      Ensures-step Q (get_users s rooms) _ λ users. Ensures-step Q (strcpy _ s) _ λ content.
        Ensures-step Q (broadcast h _ users) _ λ told.
          Ensures-bind (λ r. Same rooms s m apart r.1) Q (remove_room s rooms) _
            (remove_room-Same rooms s m apart) λ r same. same

module _ {S : Sqlite} (t : State S) (env : Env) (s : Session) (buffer : Message) (m : ℕ) where
  abbrev Keeps : Turn S → Type 0
  Keeps r = get_or r.state.server.rooms m [] ≡ get_or t.server.rooms m []

  -- By the admin of a room in another bucket.
  module _ (apart : hash_room_name buffer.content ≡ pos m → ⊥) where
    eject-Keeps : Ensures Keeps (eject_by_admin t env s buffer)
    unfolding eject_by_admin
    eject-Keeps =
        Ensures-step Keeps (Users.get_user t.server.heap buffer.receiver t.server.user_map) _
          λ found. Ensures-step Keeps (deref found) _ λ claimer.
            Ensures-bind _ Keeps
              (remove_user_from_room t.server.heap env.keeps claimer buffer.content t.server.rooms)
              _
              (remove_user_from_room-Same t.server.rooms buffer.content m apart t.server.heap
                env.keeps claimer)
              λ rooms same. Ensures-step Keeps (strcpy _ buffer.sender) _ λ sender.
                Ensures-step Keeps (strcpy _ buffer.content) _ λ plain.
                  Ensures-step Keeps (load t.server.heap claimer) _ λ it.
                    Ensures-step Keeps
                      (put_keys_behind env.beyond env.stale buffer.content env.keys) _
                      λ content.
                        Ensures-step Keeps (get_users buffer.content rooms) _
                          λ l. Ensures-step Keeps (broadcast t.server.heap _ l) _ λ told. same

    accept-Keeps : (claimer : Ptr) → Ensures Keeps (accept_claimer t env s buffer claimer)
    unfolding accept_claimer
    accept-Keeps claimer =
        Ensures-bind _ Keeps (add_user_in_room t.server.heap claimer buffer.content t.server.rooms)
          _ (add_user_in_room-Same t.server.rooms buffer.content m apart t.server.heap claimer)
          λ rooms same. Ensures-step Keeps (strcpy _ buffer.sender) _ λ sender.
            Ensures-step Keeps (put_keys_behind env.beyond env.stale buffer.content env.keys) _
              λ content. Ensures-step Keeps (load t.server.heap claimer) _ λ it.
                Ensures-step Keeps (get_users buffer.content rooms) _
                  λ l. Ensures-step Keeps (broadcast t.server.heap _ l) _ λ told. same

    invite-Keeps :
        (found : Option Ptr) (text : Str)
        → Ensures Keeps (elim found [
          | none ↦ complain t env s buffer text buffer.receiver
          | some claimer ↦ accept_claimer t env s buffer claimer
        ])
    unfolding complain
    invite-Keeps none text =
        Ensures-step Keeps (strcpy _ (text ++ buffer.receiver)) _ λ content. refl
    invite-Keeps (some claimer) text = accept-Keeps claimer

  module _ (q : Str) (room : Room) (found : view m q t.server.rooms ≡ some room)
      (guarded : hash_room_name buffer.content ≡ pos m
        → (buffer.content ≡ q) × (same_ptr s.user room.admin ≡ false)) where
    -- Before the reply is written.
    abbrev Spares : Turn S → Type 0
    Spares r = Keeps r × ((hash_room_name buffer.content ≡ pos m → ⊥) ⊎ (r.out ≡ []))

    other_room :
        (boss : Option Ptr)
        → get_admin buffer.content t.server.rooms ≡ ok boss
        → same_ptr s.user boss ≡ true
        → hash_room_name buffer.content ≡ pos m
        → ⊥
    other_room boss e same hashed =
        let (at, other) = guarded hashed in
        let admin = get_admin-view t.server.rooms buffer.content m hashed in
        let own : get_admin buffer.content t.server.rooms ≡ ok room.admin =
          rw (admin, at, found) refl in
        let is_boss : boss ≡ room.admin = ok-injective (sym e ∙ own) in
        false≢true (sym other ∙ ap (same_ptr s.user) (sym is_boss) ∙ same)

    guard-Spares :
        (run refused : Run (Turn S))
        → ((hash_room_name buffer.content ≡ pos m → ⊥) → Ensures Keeps run)
        → Ensures Spares refused
        → Ensures Spares (
            get_admin buffer.content t.server.rooms >>= λ boss. elim (same_ptr s.user boss) [
              | true ↦ run
              | false ↦ refused
            ])
    guard-Spares run refused keeps spares =
        Ensures-bind_eq Spares (get_admin buffer.content t.server.rooms) _ λ boss e.
          Ensures-split Spares (same_ptr s.user boss) _ _
            (λ same.
              let apart = other_room boss e same in
              Ensures-mono Keeps Spares run (keeps apart) λ r kept. (kept, inl apart))
            (λ other. spares)

    complain-Spares : (text name : Str) → Ensures Spares (complain t env s buffer text name)
    unfolding complain
    complain-Spares text name =
        Ensures-step Spares (strcpy _ (text ++ name)) _ λ content. (refl, inr refl)

    delete-Spares : Ensures Spares (on_delete_room_sec t env s buffer)
    unfolding on_delete_room_sec
    delete-Spares =
        guard-Spares _ _
          (λ apart.
            Ensures-bind (λ r. Same t.server.rooms buffer.content m apart r.0) Keeps
              (delete_room_by t.server.heap env.junk buffer.content t.server.rooms) _
              (delete_room_by-Same t.server.rooms buffer.content m apart t.server.heap env.junk)
              λ r same. same)
          (refl, inr refl)

    eject-Spares : Ensures Spares (on_eject_from_room_sec t env s buffer)
    unfolding on_eject_from_room_sec
    eject-Spares = guard-Spares _ _ eject-Keeps (complain-Spares _ buffer.content)

    accept-Spares : Ensures Spares (on_accept_join_room_sec t env s buffer)
    unfolding on_accept_join_room_sec
    accept-Spares =
        guard-Spares _ _
          (λ apart.
            Ensures-step Keeps (Users.get_user t.server.heap buffer.receiver t.server.user_map) _
              λ claimer. invite-Keeps apart claimer _)
          (complain-Spares _ buffer.content)

    refuse-Spares : Ensures Spares (on_refuse_join_room_sec t env s buffer)
    unfolding on_refuse_join_room_sec
    refuse-Spares =
        guard-Spares _ _
          (λ apart.
            Ensures-step Keeps (Users.get_user t.server.heap buffer.receiver t.server.user_map) _
              λ found. Ensures-step Keeps (strcpy _ buffer.content) _ λ content.
                Ensures-step Keeps (deref found) _
                  λ claimer. Ensures-step Keeps (load t.server.heap claimer) _ λ it. refl)
          (complain-Spares _ buffer.content)

    -- Behind the request the room is found as it was, and if it is the one that the request names, the
    -- reply is all that is written.
    abbrev pub Spared : Turn S → Type 0
    Spared r =
        (view m q r.state.server.rooms ≡ some room)
        × ((hash_room_name buffer.content ≡ pos m → ⊥) ⊎ (r.out ≡ (s.ssl, r.session.response) ∷ []))

    replied-Spared :
        (run : Run (Turn S))
        → Ensures Spares run
        → Ensures Spared (run >>= λ r. ok (reply S t env s r))
    replied-Spared run spares = Ensures-bind Spares Spared run _ spares λ r (kept, quiet). (
      ap (first_named q) kept ∙ found,
      elim quiet [
        | inl apart ↦ inl apart
        | inr silent ↦ inr (ap (λ (o : Out). o ++ (s.ssl, r.session.response) ∷ []) silent)
      ],
    )

    -- A request to delete a secure room, to eject, to accept or to refuse a user, and any room in the
    -- table that is either the one that the request names, with another admin than the user of the
    -- thread, or one whose name has another index in the table than that name: unless the request is
    -- a fault of C, the table finds that room behind it as before, with its members, its admin and
    -- its keys. And if it is the one that the request names, the reply to the client is the only
    -- message.
    pub receive_sec-Spared :
        {code : SecCode}
        → IsAdminCode code
        → buffer.code ≡ secure code
        → Ensures Spared (receive_sec S t env s buffer)
    unfolding receive_sec switch
    receive_sec-Spared deletes e = rw (e, switch) (replied-Spared _ delete-Spares)
    receive_sec-Spared ejects e = rw (e, switch) (replied-Spared _ eject-Spares)
    receive_sec-Spared accepts e = rw (e, switch) (replied-Spared _ accept-Spares)
    receive_sec-Spared refuses e = rw (e, switch) (replied-Spared _ refuse-Spares)
