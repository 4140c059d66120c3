-- ===== src/Server/Connection.antt =====
-- The loop of `handle_connexion` in src/server/server.c: one round for each message received, and
-- the end of the thread. The mutex makes a round one step; the end of a broken connection takes
-- no lock in the source.
use bavardage.Prelude.{ℕ, Bool, true, false, Option, none, some, [], ◌∷◌, ◌++◌}
use bavardage.CString.{codes, strcpy}
use bavardage.Run.{Run, ok, ◌>>=◌}
use bavardage.Hash.{is_login_valid}
use bavardage.Wire.{
  Message, Code, max_name_size, clear_message, connect, disconnect, connect_ko, ok_code,
}
use bavardage.Users
use bavardage.Users.Store.{Ptr, malloc}
use bavardage.Server.State.{Server, Env, Out, home_room}
use bavardage.Server.RoomOps.{join_room}
use bavardage.Server.Requests.{Reply, answer, serve}
use bavardage.Server.Leaving.{leave_server}

-- The locals of a thread: its socket, `u`, and whether the thread still runs.
pub record Session : Type 0 where
  pub socket : ℕ
  pub user : Option Ptr
  pub running : Bool

unfoldable pub on_connect_new : Server → Env → ℕ → Message → Run Reply
on_connect_new sv env s buffer = do
  name ← strcpy max_name_size buffer.sender
  let heap = malloc sv.heap env.fresh (record { name = name; socket = s })
  (_, user_map) ← Users.add_user heap env.fresh sv.user_map
  (rooms, out) ← join_room heap env.junk env.fresh home_room sv.rooms
  ok (record {
    server = record { rooms = rooms; user_map = user_map; heap = heap };
    out = (s, record clear_message { code = connect }) ∷ out;
    response = record clear_message { code = ok_code };
  })

-- `case CONNECT`: the reply, and the thread's `u` behind it.
unfoldable pub on_connect : Server → Env → ℕ → Option Ptr → Message → Run (Reply × Option Ptr)
on_connect sv env s (some u) buffer =
    ok (answer sv connect_ko (codes "You are already connected"), some u)
on_connect sv env s none buffer = elim (is_login_valid buffer.sender) [
  | false ↦ ok (answer sv connect_ko (codes "Login not acceptable"), none)
  | true ↦ do
    used ← Users.is_login_used sv.heap buffer.sender sv.user_map
    elim used [
      | true ↦ ok (answer sv connect_ko (codes "Login already in use, change your login"), none)
      | false ↦ do reply ← on_connect_new sv env s buffer; ok (reply, some env.fresh)
    ]
]

-- Both ends of a thread: `u`, unless it is NULL, leaves. `exit_thread` is behind it.
unfoldable pub leave : Server → Env → Option Ptr → Run (Server × Out)
leave sv env none = ok (sv, [])
leave sv env (some u) = leave_server sv env u

abbrev pub exit_thread : Session → Session
exit_thread s = record s { running = false }

abbrev pub Round : Type 0
Round = Server × Session × Out

-- The reply of a case is written to the thread's socket.
abbrev pub respond : Session → Reply → Round
respond s r = (r.server, s, r.out ++ (s.socket, r.response) ∷ [])

-- One round with a message. Without a user, all but two codes only prepare a response: the write
-- stands in the other branch.
unfoldable pub round : Server → Env → Session → Message → Code → Option Ptr → Run Round
round sv env s buffer disconnect user = do
  (left, out) ← leave sv env user
  ok (left, exit_thread s, out ++ (s.socket, record clear_message { code = disconnect }) ∷ [])
round sv env s buffer connect user = do
  (reply, user') ← on_connect sv env s.socket user buffer
  ok (respond (record s { user = user' }) reply)
round sv env s buffer code none = ok (sv, s, [])
round sv env s buffer code (some u) = do reply ← serve sv env u buffer code; ok (respond s reply)

-- `receive > 0`
unfoldable pub receive : Server → Env → Session → Message → Run Round
receive sv env s buffer = round sv env s buffer buffer.code s.user

-- `receive <= 0`: the connection is broken, and nothing is written to it.
unfoldable pub hang_up : Server → Env → Session → Run Round
hang_up sv env s = do (left, out) ← leave sv env s.user; ok (left, exit_thread s, out)
