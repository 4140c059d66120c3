-- ===== src/SecureServer/Rounds.antt =====
-- The loop of `handle_connexion` in src/serversec/secure_server.c: the `switch`, the reply, and the
-- end of a broken connection. No lock is taken: a round is one step here, which leaves out what two
-- threads do at once.
use bavardage.Prelude.{false, [], ◌∷◌, ◌++◌}
use bavardage.Run.{Run, ok, ◌>>=◌}
use bavardage.Wire.{
  Message, Code, secure, create_room_sec, delete_room_sec, quit_room_sec, join_room_sec,
  disconnect_sec, connect_sec, del_account_sec, mp_sec, connect_ok, accept_join_room_sec,
  refuse_join_room_sec, eject_from_room_sec,
}
use bavardage.Accounts.Sql.{Sqlite}
use bavardage.Accounts.{change_status}
use bavardage.SecureServer.State.{State, Session, Env, Turn}
use bavardage.SecureServer.Requests.{
  on_create_room_sec, on_delete_room_sec, on_quit_room_sec, on_mp_sec,
}
use bavardage.SecureServer.Invitations.{
  on_eject_from_room_sec, on_accept_join_room_sec, on_refuse_join_room_sec, on_join_room_sec,
}
use bavardage.SecureServer.Access.{
  on_disconnect_sec, on_del_account_sec, on_connect_ok, on_connect_sec,
}

module _ (S : Sqlite) (t : State S) (env : Env) (s : Session) where
  -- The reply behind the `switch`. `pthread_exit` comes before it.
  abbrev pub reply : Turn S → Turn S
  reply r = record r { out = r.out ++ (s.ssl, r.session.response) ∷ [] }

  abbrev pub replied : Run (Turn S) → Run (Turn S)
  replied m = do r ← m; ok (reply r)

  -- A code without a case leaves the response of the round before.
  unfoldable pub switch : Message → Code → Run (Turn S)
  switch buffer (secure create_room_sec) = replied (on_create_room_sec t env s buffer)
  switch buffer (secure eject_from_room_sec) = replied (on_eject_from_room_sec t env s buffer)
  switch buffer (secure accept_join_room_sec) = replied (on_accept_join_room_sec t env s buffer)
  switch buffer (secure refuse_join_room_sec) = replied (on_refuse_join_room_sec t env s buffer)
  switch buffer (secure join_room_sec) = replied (on_join_room_sec t env s buffer)
  switch buffer (secure quit_room_sec) = replied (on_quit_room_sec t env s buffer)
  switch buffer (secure delete_room_sec) = replied (on_delete_room_sec t env s buffer)
  switch buffer (secure mp_sec) = replied (on_mp_sec t env s buffer)
  switch buffer (secure disconnect_sec) = on_disconnect_sec S t env s buffer
  switch buffer (secure del_account_sec) = replied (on_del_account_sec S t env s buffer)
  switch buffer (secure connect_ok) = ok (reply (on_connect_ok S t env s buffer))
  switch buffer (secure connect_sec) = replied (on_connect_sec S t env s buffer)
  switch buffer code = ok (reply (record { state = t; session = s; out = [] }))

  -- `bytes > 0`
  unfoldable pub receive_sec : Message → Run (Turn S)
  receive_sec buffer = switch buffer buffer.code

  -- `bytes <= 0`, with the message of the last round in `buffer`. The user stays in all tables.
  unfoldable pub hang_up_sec : Message → Run (Turn S)
  hang_up_sec buffer = do
    (_, db) ← change_status S t.db buffer.sender
    ok (record { state = record t { db = db }; session = record s { running = false }; out = [] })
