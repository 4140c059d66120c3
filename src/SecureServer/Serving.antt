-- ===== src/SecureServer/Serving.antt =====
-- Every request to src/serversec/secure_server.c but those that change the users, through the `switch`
-- and the reply.
use bavardage.Prelude.{ℕ, ◌≡◌, refl, sym, ap, false}
use mathlib.Core.Path.{subst}
use bavardage.Prelude.Int.{ℤ, pos, negsuc}
use bavardage.CString.{Str}
use bavardage.Run.{Run}
use bavardage.Run.Ensures.{Ensures, Ensures-bind, Ensures-step, Ensures-mono}
use bavardage.Wire.{
  Message, Code, SecCode, secure, create_room_sec, delete_room_sec, quit_room_sec, join_room_sec,
  connect_sec, del_account_sec, mp_sec, accept_join_room_sec, refuse_join_room_sec,
  eject_from_room_sec,
}
use bavardage.Users.Store.{load}
use bavardage.Rooms.Keeping.{Housed, IsAdmin}
use bavardage.Accounts.Sql.{Sqlite}
use bavardage.Accounts.{is_connected, delete_user}
use bavardage.SecureServer.State.{State, Session, Env, Turn, deref}
use bavardage.SecureServer.Access.{on_del_account_sec, delete_own_account}
use bavardage.SecureServer.Rounds.{replied, switch, receive_sec}
use bavardage.SecureServer.Guarded.{Asks, on_join_room_sec-Asks}
use bavardage.SecureServer.Keeping.{
  Serves, on_create_room_sec-Serves, on_delete_room_sec-Serves, on_quit_room_sec-Serves,
  on_mp_sec-Serves,
}
use bavardage.SecureServer.Inviting.{
  on_accept_join_room_sec-Serves, on_eject_from_room_sec-Serves, on_refuse_join_room_sec-Serves,
}

-- Both branches of a test of -1 against 1.
pub Ensures-sign {ℓ κ} :
    {A : Type ℓ} (Q : A → Type κ) (z : ℤ) (m n : ℕ → Run A)
    → ((k : ℕ) → Ensures Q (m k))
    → ((k : ℕ) → Ensures Q (n k))
    → Ensures Q (elim z [ pos k ↦ m k | negsuc k ↦ n k ])
Ensures-sign Q (pos k) m n p q = p k
Ensures-sign Q (negsuc k) m n p q = q k

-- Neither a `CONNECT_SEC` nor a `DISCONNECT_SEC`.
abbrev pub KeepsUsers : Code → Type 0
KeepsUsers (secure connect_sec) = ⊥
KeepsUsers (secure SecCode.disconnect_sec) = ⊥
KeepsUsers _ = Unit

module _ (S : Sqlite) (t : State S) (env : Env) (s : Session) (buffer : Message)
    (g : Housed t.server.heap t.server.rooms) where
  delete_own_account-Serves :
      (db : S.Db) (name : Str) → Ensures (Serves t s) (delete_own_account S t env s buffer db name)
  unfolding delete_own_account
  delete_own_account-Serves db name = Ensures-step (Serves t s) (delete_user S db name) _ λ r.
      Ensures-sign (Serves t s) r.0 _ _ (λ k. (g, refl, refl, refl)) (λ k. (g, refl, refl, refl))

  on_del_account_sec-Serves : Ensures (Serves t s) (on_del_account_sec S t env s buffer)
  unfolding on_del_account_sec
  on_del_account_sec-Serves =
      let P = Serves t s in
      Ensures-step P (is_connected S env.fuel t.db buffer.sender s.subject) _ λ r.
        Ensures-sign P r.0 _ _
          (λ k. Ensures-step P (deref s.user) _ λ u. Ensures-step P (load t.server.heap u) _ λ me.
            Ensures-step P (is_connected S env.fuel r.1 me.name s.subject) _ λ again.
              Ensures-sign P again.0 _ _ (λ i. delete_own_account-Serves again.1 me.name)
                (λ i. (g, refl, refl, refl)))
          (λ k. (g, refl, refl, refl))

  Asks-Serves : (r : Turn S) → Asks S t env s buffer r → Serves t s r
  Asks-Serves r (same, mine, _) = (
    subst (λ x. Housed t.server.heap x.server.rooms) (sym same) g,
    ap (λ x. x.server.heap) same,
    ap (λ x. x.server.user_map) same,
    mine,
  )

  -- The reply changes no table.
  replied-Serves :
      (m : Run (Turn S)) → Ensures (Serves t s) m → Ensures (Serves t s) (replied S t env s m)
  replied-Serves m h = Ensures-bind (Serves t s) (Serves t s) m _ h λ r h'. h'

  pub switch-Serves :
      IsAdmin t.server.heap s.user
      → env.keeps ≡ false
      → (code : Code) → KeepsUsers code
      → Ensures (Serves t s) (switch S t env s buffer code)
  unfolding switch
  switch-Serves anyone strict (secure create_room_sec) k =
      replied-Serves _ (on_create_room_sec-Serves t env s buffer g anyone strict)
  switch-Serves anyone strict (secure delete_room_sec) k =
      replied-Serves _ (on_delete_room_sec-Serves t env s buffer g anyone strict)
  switch-Serves anyone strict (secure quit_room_sec) k =
      replied-Serves _ (on_quit_room_sec-Serves t env s buffer g anyone strict)
  switch-Serves anyone strict (secure mp_sec) k =
      replied-Serves _ (on_mp_sec-Serves t env s buffer g anyone strict)
  switch-Serves anyone strict (secure accept_join_room_sec) k =
      replied-Serves _ (on_accept_join_room_sec-Serves t env s buffer g anyone strict)
  switch-Serves anyone strict (secure eject_from_room_sec) k =
      replied-Serves _ (on_eject_from_room_sec-Serves t env s buffer g anyone strict)
  switch-Serves anyone strict (secure refuse_join_room_sec) k =
      replied-Serves _ (on_refuse_join_room_sec-Serves t env s buffer g anyone strict)
  switch-Serves anyone strict (secure join_room_sec) k = replied-Serves _ (
      Ensures-mono (Asks S t env s buffer) (Serves t s) _ (on_join_room_sec-Asks S t env s buffer)
        Asks-Serves)
  switch-Serves anyone strict (secure del_account_sec) k =
      replied-Serves _ on_del_account_sec-Serves
  switch-Serves anyone strict (secure connect_sec) k = absurd k
  switch-Serves anyone strict (secure SecCode.disconnect_sec) k = absurd k
  switch-Serves anyone strict _ k = (g, refl, refl, refl)

  -- A request read by a thread whose user, if any, is allocated, but `CONNECT_SEC` and `DISCONNECT_SEC`, where an access behind `free`
  -- is a fault: unless it is a fault of C, it leaves rooms that were in order in order, and the users
  -- and their table as they were.
  pub receive_sec-Serves :
      IsAdmin t.server.heap s.user
      → env.keeps ≡ false
      → KeepsUsers buffer.code
      → Ensures (Serves t s) (receive_sec S t env s buffer)
  unfolding receive_sec
  receive_sec-Serves anyone strict keeps = switch-Serves anyone strict buffer.code keeps
