-- ===== src/SecureServer/Start.antt =====
-- Where the secure server starts: `create_main_room` of src/serversec/secure_server.c, if the memory that
-- `malloc` returns for the table of users happens to be zero. And what becomes of its users.
use bavardage.Prelude.{ℕ, ◌<◌, ◌++◌, length, ◌≡◌, refl, true, false, none, some, [], arith}
use mathlib.Core.Bool.{false≢true}
use mathlib.Core.Path.{subst}
use bavardage.Prelude.Int.{pos}
use bavardage.Run.{ok}
use bavardage.CString.{codes}
use bavardage.Hash.{hash_room_name}
use bavardage.Wire.{Message, clear_message, max_name_size}
use bavardage.Users
use bavardage.Users.{create_user_map}
use bavardage.Users.Store.{Ptr, User, Heap}
use bavardage.Rooms.{is_room_used}
use bavardage.Server.State.{Server}
use bavardage.Server.Start.{first_room, IsServer-new}
use bavardage.Server.Rounds.{IsServer, IsNamed}
use bavardage.Accounts.Sql.{Sqlite}
use bavardage.SecureServer.State.{State, Session, Env, Turn, home_room_sec, create_main_room_sec}
use bavardage.SecureServer.Rounds.{hang_up_sec}
use bavardage.Accounts.{run_query, change_status}
use bavardage.Accounts.Ending.{sprintf_one-ok}
use bavardage.SecureServer.System.{
  IsSafe, behind, Step, broken, here, next, System, Reach, Reach-Stays, Serving, IsSystem,
}

home_index : (n : ℕ) × (hash_room_name home_room_sec ≡ pos n)
unfolding hash_room_name
home_index = (_, refl)

-- With a zeroed table of users the secure server starts without a fault, in order, with its home
-- room.
pub create_main_room_sec-IsServer :
    (h : Heap)
    → (sv : Server) × (create_main_room_sec h create_user_map ≡ ok sv)
      × IsServer sv
      × (is_room_used home_room_sec sv.rooms ≡ ok true)
unfolding create_main_room_sec
create_main_room_sec-IsServer h =
    let (n, hashed) = home_index in
    let (rooms, run, g, used) = first_room h home_room_sec n hashed (omega arith) in
    (
      record { rooms = rooms; user_map = create_user_map; heap = h },
      rw run,
      IsServer-new h rooms g,
      used,
    )

finds :
    (sv : Server) (me : User) {q p : Ptr} (c : IsNamed sv q p)
    → sv.heap q ≡ some me
    → Users.get_user sv.heap me.name sv.user_map ≡ ok (some p)
finds sv me {q} {p} c stands =
    let there = c.here in
    let same : c.me ≡ me = cc in
    subst (λ (x : User). Users.get_user sv.heap x.name sv.user_map ≡ ok (some p)) same c.found

module _ {S : Sqlite} where
  -- Before the first connection no thread runs.
  abbrev pub started : State S → System S
  started t = record {
    state = t;
    sessions = λ i. record {
      ssl = 0;
      user = none;
      first_connection = false;
      subject = [];
      response = clear_message;
      running = false;
    };
  }

  pub started-IsSystem : (t : State S) → IsServer t.server → IsSystem (started t)
  started-IsSystem t g = record {
    server = g;
    named = λ i u serving. absurd (false≢true serving.0);
    apart = λ i j u one two. absurd (false≢true one.0);
  }

  -- `change_status` is called, and nothing else happens.
  hung_up :
      (v : State S) (env : Env) (s : Session) (buffer : Message)
      → length buffer.sender < max_name_size
      → (r : Turn S) × (hang_up_sec S v env s buffer ≡ ok r)
        × (r.session.running ≡ false)
        × (r.out ≡ [])
        × (r.state.server ≡ v.server)
  unfolding hang_up_sec change_status
  hung_up v env s buffer fits =
      let before = codes "UPDATE users set is_connected = not is_connected where login = '" in
      let (_, db) = run_query S v.db (before ++ (buffer.sender ++ codes "'")) in
      (
        record { state = record v { db = db }; session = record s { running = false }; out = [] },
        rw (sprintf_one-ok before buffer.sender (codes "'") (omega (arith, fits))) refl,
        refl,
        refl,
        refl,
      )

  -- From a server in order, before its first connection, in every order of rounds without faults of
  -- C: when the connection of a running thread with a user breaks, with a sender of fewer than 64
  -- characters in the last message, the thread ends without a fault, tells nobody, and leaves all
  -- rooms, with their members, and the table of users as they were. Whomever that table then finds
  -- under the user's name, it finds under it in every system that follows.
  pub nobody_leaves :
      (t : State S) {v : System S}
      → IsServer t.server
      → Reach (started t) v
      → (i : ℕ) (u : Ptr) (me : User) → Serving v i u
      → v.state.server.heap u ≡ some me
      → (env : Env) (buffer : Message) → IsSafe v env
      → length buffer.sender < max_name_size
      → (r : Turn S) × (hang_up_sec S v.state env (v.sessions i) buffer ≡ ok r)
        × (r.session.running ≡ false)
        × (r.out ≡ [])
        × (r.state.server ≡ v.state.server)
        × ((holder : Ptr) × ((w : System S)
              → Reach (behind v i r) w
              → Users.get_user w.state.server.heap me.name w.state.server.user_map
                ≡ ok (some holder)))
  nobody_leaves t {v} g reached i u me serving stands env buffer safe fits =
      let (s, _) = Reach-Stays reached (started-IsSystem t g) in
      let (holder, c) = s.named i u serving in
      let (r, run, ended, quiet, same) = hung_up v.state env (v.sessions i) buffer fits in
      let broke : Step v (behind v i r) = broken i env buffer serving.0 safe run in
      let (s', cut) = Reach-Stays (next here broke) s in
      (
        r,
        run,
        ended,
        quiet,
        same,
        (
          holder,
          λ w reach.
              let later = (Reach-Stays reach s').1 in
              finds w.state.server me (later.named u holder (cut.named u holder c))
                (later.kept u me (cut.kept u me stands)),
        ),
      )
