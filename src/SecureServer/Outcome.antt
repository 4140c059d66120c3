-- ===== src/SecureServer/Outcome.antt =====
-- One round of `handle_connexion` in src/serversec/secure_server.c, in every case, and the end of a
-- broken connection: the invariant, whom the table of users finds, and the thread's own user.
use bavardage.Prelude.{
  ◌≡◌, refl, sym, ap, Bool, true, false, none, some, ◌⊎◌, inl, inr, Option-cases,
}
use mathlib.Core.Path.{subst}
use bavardage.Run.Ensures.{Ensures, Ensures-bind, Ensures-step, Ensures-mono}
use bavardage.Wire.{Message, Code, secure, connect_sec}
use bavardage.Wire
use bavardage.Users.Store.{Ptr}
use bavardage.Rooms.Keeping.{Housed, IsAdmin}
use bavardage.Server.State.{Server}
use bavardage.Server.Rounds.{IsServer, IsNamed}
use bavardage.Server.Allocating.{Stays}
use bavardage.Server.Outcome.{IsServer-same}
use bavardage.Accounts.Sql.{Sqlite}
use bavardage.Accounts.{change_status, is_connected, check_user, check_certificate, add_user_db}
use bavardage.SecureServer.State.{State, Session, Env, Turn}
use bavardage.SecureServer.Access.{
  enter, enter_new, on_connect_sec, on_disconnect_sec, leave_sec, forget_account,
}
use bavardage.SecureServer.Rounds.{switch, receive_sec, hang_up_sec}
use bavardage.SecureServer.Keeping.{Serves}
use bavardage.SecureServer.Serving.{Ensures-sign, KeepsUsers, switch-Serves}
use bavardage.SecureServer.Joining.{Enters, enter-Enters}
use bavardage.SecureServer.Staying.{IsKnown, leave_sec-none}

pub record Outcome {S : Sqlite} (t : State S) (env : Env) (s : Session) (r : Turn S) : Type 0 where
  pub server : IsServer r.state.server
  pub stay : Stays t.server r.state.server
  pub user :
      (r.session.running ≡ false)
      ⊎ (r.session.user ≡ s.user)
      ⊎ ((r.session.user ≡ some env.fresh)
          × ((holder : Ptr) × IsNamed r.state.server env.fresh holder))

Stays-same : (sv sv' : Server) → sv'.heap ≡ sv.heap → sv'.user_map ≡ sv.user_map → Stays sv sv'
Stays-same sv sv' h m = record {
  kept = λ q v here. rw h here;
  named = λ q holder c. record {
    me = c.me;
    here = rw h c.here;
    index = c.index;
    hashed = c.hashed;
    found = rw (h, m) c.found;
  };
}

Serves-Outcome :
    {S : Sqlite} (t : State S) (env : Env) (s : Session) (r : Turn S)
    → IsServer t.server
    → Serves t s r
    → Outcome t env s r
Serves-Outcome t env s r g (rooms, h, m, mine) = record {
  server = IsServer-same t.server r.state.server g h m rooms;
  stay = Stays-same t.server r.state.server h m;
  user = inr (inl mine);
}

module _ (S : Sqlite) (t : State S) (env : Env) (s : Session) (buffer : Message)
    (g : IsServer t.server) (strict : env.keeps ≡ false) (fresh : t.server.heap env.fresh ≡ none)
    (known : IsKnown t.server s.user) where
  same_server :
      (r : Turn S) → r.state.server ≡ t.server → r.session.user ≡ s.user → Outcome t env s r
  same_server r same mine = Serves-Outcome t env s r g (
    subst (λ x. Housed t.server.heap x.rooms) (sym same) g.rooms,
    ap (λ x. x.heap) same,
    ap (λ x. x.user_map) same,
    mine,
  )

  enter-Outcome :
      (db : S.Db) (first : Bool) → Ensures (Outcome t env s) (enter S t env s buffer db first)
  enter-Outcome db first =
      Ensures-mono (Enters t env) (Outcome t env s) (enter S t env s buffer db first)
        (enter-Enters S t env s buffer db first g fresh)
        λ r (server, mine, named, stay). record {
          server = server;
          stay = stay;
          user = inr (inr (mine, named));
        }

  on_connect_sec-Outcome : Ensures (Outcome t env s) (on_connect_sec S t env s buffer)
  unfolding on_connect_sec enter_new
  on_connect_sec-Outcome =
      let P = Outcome t env s in
      Ensures-step P (is_connected S env.fuel t.db buffer.sender s.subject) _ λ status.
        Ensures-sign P status.0 _ _
          (λ k. Ensures-step P (check_user S env.fuel status.1 buffer.sender s.subject) _ λ unknown.
            Ensures-sign P unknown _ _
              (λ i. Ensures-step P (check_certificate S env.fuel status.1 s.subject) _ λ unused.
                Ensures-sign P unused _ _
                  (λ j.
                    Ensures-step P (add_user_db S status.1 buffer.sender s.subject) _
                      λ added. enter-Outcome added.1 true)
                  (λ j. same_server _ refl refl))
              (λ i. enter-Outcome status.1 s.first_connection))
          (λ k. same_server _ refl refl)

  on_disconnect_sec-Outcome : Ensures (Outcome t env s) (on_disconnect_sec S t env s buffer)
  unfolding on_disconnect_sec
  on_disconnect_sec-Outcome =
      let P = Outcome t env s in
      Ensures-step P (forget_account S t env s buffer) _ λ db.
        Ensures-bind (λ r. (s.user ≡ none) × (r.0 ≡ t.server)) P (leave_sec t.server env s.user) _
          (leave_sec-none t.server env g strict s.user known)
          λ r (nobody, same).
            Ensures-step P (change_status S db buffer.sender) _ λ told. same_server _ same refl

  anyone : IsAdmin t.server.heap s.user
  anyone = elim (Option-cases s.user) [
    | inl nobody ↦ rw nobody tt
    | inr (u, mine) ↦ let (holder, c) = known u mine in rw mine (c.me, c.here)
  ]

  served :
      (code : Code) → KeepsUsers code → Ensures (Outcome t env s) (switch S t env s buffer code)
  served code keeps =
      Ensures-mono (Serves t s) (Outcome t env s) (switch S t env s buffer code)
        (switch-Serves S t env s buffer g.rooms anyone strict code keeps)
        (λ r. Serves-Outcome t env s r g)

  switch-Outcome : (code : Code) → Ensures (Outcome t env s) (switch S t env s buffer code)
  unfolding switch
  switch-Outcome (secure connect_sec) =
      Ensures-bind (Outcome t env s) (Outcome t env s) (on_connect_sec S t env s buffer) _
        on_connect_sec-Outcome λ r o. record { server = o.server; stay = o.stay; user = o.user }
  switch-Outcome (secure Wire.disconnect_sec) = on_disconnect_sec-Outcome
  switch-Outcome code = served code tt

  -- A round of a thread that has no user or one whose name the table of users finds, where an access
  -- behind `free` is a fault and `malloc` gives an address without a structure: unless it is a fault of
  -- C, the tables are in order behind it, whoever the table found under a name it still finds, and
  -- the thread ends, or keeps its user, or has a new one whose name the table finds.
  pub receive_sec-Outcome : Ensures (Outcome t env s) (receive_sec S t env s buffer)
  unfolding receive_sec
  receive_sec-Outcome = switch-Outcome buffer.code

  pub hang_up_sec-Outcome : Ensures (Outcome t env s) (hang_up_sec S t env s buffer)
  unfolding hang_up_sec
  hang_up_sec-Outcome =
      Ensures-step (Outcome t env s) (change_status S t.db buffer.sender) _
        λ r. same_server _ refl refl
