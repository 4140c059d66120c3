-- ===== src/SecureServer/Joining.antt =====
-- Behind the checks of `case CONNECT_SEC` of src/serversec/secure_server.c: the new user is registered,
-- unless its login is, and joins the home room; those who were connected stay so.
use bavardage.Prelude.{
  ℕ, ◌≡◌, refl, ◌∙◌, ap, Bool, false, none, some, ==_refl, is_some, inl, inr, Option-cases,
}
use bavardage.Prelude.Int.{pos, negsuc}
use bavardage.CString.{Str, strcpy, str_eq_refl}
use bavardage.Run.{ok, ◌>>=◌}
use bavardage.Run.Ensures.{Ensures, Ensures-bind, Ensures-step, Ensures-mono}
use bavardage.Hash.{hash_user}
use bavardage.Wire.{Message, max_name_size}
use bavardage.Users
use bavardage.Users.Store.{Ptr, User, Heap, malloc}
use bavardage.Users.Valid.{add_user-new, add_user-used, is_login_used-lookup}
use bavardage.Users.Keeping.{hash-cases, add_user-negative}
use bavardage.Users.Chains.{lookup}
use bavardage.Rooms.{RoomMap}
use bavardage.Rooms.Keeping.{Housed}
use bavardage.Server.RoomOps.{join_room}
use bavardage.Server.Keeping.{join_room-Housed}
use bavardage.Server.Rounds.{IsServer, IsClient, IsNamed}
use bavardage.Server.Joining.{
  strcpy-same, held, registered_after, IsClient-after, Stays-after, lookup-unused,
}
use bavardage.Server.Allocating.{
  Stays, malloc_self, Housed-malloc, held_housing, IsServer-housing, found-housing, Stays-housing,
}
use bavardage.Accounts.Sql.{Sqlite}
use bavardage.Accounts.{change_status}
use bavardage.SecureServer.State.{State, Session, Env, Turn, home_room_sec}
use bavardage.SecureServer.RoomOps.{join_room_sec}
use bavardage.SecureServer.Access.{enter}

-- The two servers have one function, up to what writes to a socket.
join_room_sec-join_room :
    (h : Heap) (junk : Str) (u : Ptr) (name : Str) (rooms : RoomMap)
    → join_room_sec h junk u name rooms ≡ join_room h junk u name rooms
unfolding join_room_sec join_room
join_room_sec-join_room h junk u name rooms = refl

-- Whoever gets in under a login that has an index and that nobody in the table of users has: if it is
-- no fault of C, the tables are in order behind it, the thread serves the new user, who is
-- connected, and so is everyone who was.
pub enter-IsServer :
    (S : Sqlite) (t : State S) (env : Env) (s : Session) (buffer : Message) (db : S.Db)
    (first : Bool) (g : IsServer t.server) (n : ℕ)
    → t.server.heap env.fresh ≡ none
    → hash_user buffer.sender ≡ pos n
    → Users.is_login_used t.server.heap buffer.sender t.server.user_map ≡ ok false
    → Ensures
        (λ r.
          IsServer r.state.server
          × IsClient r.state.server env.fresh
          × (r.session.user ≡ some env.fresh)
          × Stays t.server r.state.server)
        (enter S t env s buffer db first)
unfolding enter
enter-IsServer S t env s buffer db first g n fresh hashed unused =
    let sv = t.server in
    let free = lookup-unused sv g buffer.sender n hashed unused in
    let u : User = record { name = buffer.sender; socket = s.ssl } in
    let p = env.fresh in
    let P = λ (r : Turn S).
      IsServer r.state.server
      × IsClient r.state.server env.fresh
      × (r.session.user ≡ some env.fresh)
      × Stays t.server r.state.server in
    Ensures-step P (change_status S db buffer.sender) _ λ changed.
      Ensures-bind (λ x. x ≡ buffer.sender) P (strcpy max_name_size buffer.sender) _
        (strcpy-same max_name_size buffer.sender)
        λ name same.
          let self = malloc_self sv.heap p u in
          let once = add_user-new (held sv g p u fresh n hashed free) p u n self hashed free in
          let twice = add_user-used once.1 p u n self hashed (rw (==_refl, str_eq_refl) refl) in
          rw same (
            rw (once.0, ◌>>=◌, twice, ◌>>=◌, join_room_sec-join_room)
              (Ensures-bind (λ r. Housed (malloc sv.heap p u) r.0) P
                (join_room (malloc sv.heap p u) env.junk p home_room_sec sv.rooms) _
                (join_room-Housed (record sv { heap = malloc sv.heap p u })
                  (Housed-malloc sv.heap p u sv.rooms fresh g.rooms) p u self buffer env.junk
                  home_room_sec)
                λ r g'. (
                  registered_after sv g p u fresh n hashed free r.0 g',
                  IsClient-after sv g p u fresh n hashed free r.0 g',
                  refl,
                  Stays-after sv g p u fresh n hashed free r.0 g',
                )))

-- The tables are in order behind a login, the thread serves the user at the fresh address, under
-- whose name the table finds someone, and whoever it found before, it finds.
abbrev pub Enters : {S : Sqlite} → State S → Env → Turn S → Type 0
Enters t env r =
    IsServer r.state.server
    × (r.session.user ≡ some env.fresh)
    × ((holder : Ptr) × IsNamed r.state.server env.fresh holder)
    × Stays t.server r.state.server

module _ (S : Sqlite) (t : State S) (env : Env) (s : Session) (buffer : Message) (db : S.Db)
    (first : Bool) (g : IsServer t.server) (fresh : t.server.heap env.fresh ≡ none) where
  -- The user whom the table has under the login stays the one it finds.
  enter-used :
      (n : ℕ) (holder : Ptr)
      → hash_user buffer.sender ≡ pos n
      → lookup buffer.sender (g.registry n) ≡ some holder
      → Ensures (Enters t env) (enter S t env s buffer db first)
  unfolding enter
  enter-used n holder hashed used =
      let sv = t.server in
      let u : User = record { name = buffer.sender; socket = s.ssl } in
      let p = env.fresh in
      let P = Enters t env in
      Ensures-step P (change_status S db buffer.sender) _ λ changed.
        Ensures-bind (λ x. x ≡ buffer.sender) P (strcpy max_name_size buffer.sender) _
          (strcpy-same max_name_size buffer.sender)
          λ name same.
            let self = malloc_self sv.heap p u in
            let kept =
              add_user-used (held_housing sv g p u fresh) p u n self hashed (ap is_some used) in
            rw same (
              rw (kept, ◌>>=◌, kept, ◌>>=◌, join_room_sec-join_room)
                (Ensures-bind (λ r. Housed (malloc sv.heap p u) r.0) P
                  (join_room (malloc sv.heap p u) env.junk p home_room_sec sv.rooms) _
                  (join_room-Housed (record sv { heap = malloc sv.heap p u })
                    (Housed-malloc sv.heap p u sv.rooms fresh g.rooms) p u self buffer env.junk
                    home_room_sec)
                  λ r g'. (
                    IsServer-housing sv g p u fresh r.0 g',
                    refl,
                    (
                      holder,
                      record {
                        me = u;
                        here = self;
                        index = n;
                        hashed = hashed;
                        found = found-housing sv g p u fresh buffer.sender n holder hashed used;
                      },
                    ),
                    Stays-housing sv g p u fresh r.0 g',
                  )))

  enter-negative :
      (n : ℕ)
      → hash_user buffer.sender ≡ negsuc n
      → Ensures (Enters t env) (enter S t env s buffer db first)
  unfolding enter
  enter-negative n hashed =
      let P = Enters t env in
      let u : User = record { name = buffer.sender; socket = s.ssl } in
      Ensures-step P (change_status S db buffer.sender) _ λ changed.
        Ensures-bind (λ x. x ≡ buffer.sender) P (strcpy max_name_size buffer.sender) _
          (strcpy-same max_name_size buffer.sender)
          λ name same. rw same (
            rw
              (
                add_user-negative (held_housing t.server g env.fresh u fresh) env.fresh u
                    (malloc_self t.server.heap env.fresh u) n hashed,
                ◌>>=◌,
              )
              tt)

  -- Whoever gets in, under whatever login, if it is no fault of C: the tables are in order, the
  -- thread serves the new structure, and the table of users finds someone under its name: the new
  -- user, or whoever had the name before, since whoever it found under a name it still finds.
  pub enter-Enters : Ensures (Enters t env) (enter S t env s buffer db first)
  enter-Enters = elim (hash-cases buffer.sender) [
    | inr (n, hashed) ↦ enter-negative n hashed
    | inl (n, hashed) ↦ elim (Option-cases (lookup buffer.sender (g.registry n))) [
      | inr (holder, used) ↦ enter-used n holder hashed used
      | inl free ↦
          Ensures-mono _ (Enters t env) (enter S t env s buffer db first)
            (enter-IsServer S t env s buffer db first g n fresh hashed
              (is_login_used-lookup g.registered buffer.sender n hashed ∙ ap ok (ap is_some free)))
            λ r (server, client, mine, stay). (server, mine, (env.fresh, client), stay)
    ]
  ]
