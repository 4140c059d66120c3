-- ===== src/Server/Start.antt =====
-- Where the chat server starts: `create_main_room` of src/server/server.c, if the memory that
-- `malloc` returns for the table of users happens to be zero. And what the invariant says of every
-- system that follows.
use bavardage.Prelude.{
  ℕ, ◌≡◌, ◌≢◌, refl, sym, ◌∙◌, ap, true, false, Option, none, some, [], ◌∷◌, ◌<◌, length, arith,
  get_or, set, get_or-replicate,
}
use mathlib.Core.Bool.{false≢true}
use mathlib.Core.Path.{subst}
use bavardage.Prelude.Int.{pos}
use bavardage.CString.{Str, str_eq_refl}
use bavardage.Run.{ok}
use bavardage.Hash.{hash_room_name}
use bavardage.Users
use bavardage.Users.{create_user_map}
use bavardage.Users.Store.{Ptr, User, Heap}
use bavardage.Users.Valid.{no_entries, create-Holds}
use bavardage.Rooms.{RoomMap, init_rooms, first_named, add_room, is_room_used}
use bavardage.Wire.{max_room_name_size}
use bavardage.Rooms.Table.{view, init_rooms-IsTable, is_room_used-view}
use bavardage.Rooms.Adding.{nobody, add_room-new, view-insert}
use bavardage.Rooms.Keeping.{Housed, Housed-init, add_room-Housed}
use bavardage.Run.Ensures.{Ensures-ok}
use bavardage.Server.State.{Server, home_room, create_main_room}
use bavardage.Server.Rounds.{IsServer, IsClient}
use bavardage.Server.System.{System, IsSystem, Serving, Reach, Reach-IsSystem}

pub home_index : (n : ℕ) × (hash_room_name home_room ≡ pos n)
unfolding hash_room_name
home_index = (_, refl)

view-init : (n : ℕ) (s : Str) → view n s init_rooms ≡ none
unfolding init_rooms first_named
view-init n s = rw get_or-replicate

-- The first room, of nobody: it is added, rooms are in order, and its name is found.
pub first_room :
    (h : Heap) (home : Str) (n : ℕ)
    → hash_room_name home ≡ pos n
    → length home < max_room_name_size
    → (rooms : RoomMap) × (add_room h home none init_rooms ≡ ok (pos 0, rooms))
      × Housed h rooms
      × (is_room_used home rooms ≡ ok true)
first_room h home n hashed fits =
    let free = view-init n home in
    let (r, run, named, _, _) = add_room-new h init_rooms home n hashed nobody free fits in
    let rooms : RoomMap = set init_rooms n (r ∷ get_or init_rooms n []) in
    (
      rooms,
      run,
      Ensures-ok _ _ (pos 0, rooms) (add_room-Housed h home none init_rooms tt (Housed-init h)) run,
      is_room_used-view rooms home n hashed
          ∙ rw (view-insert h init_rooms home n hashed r n home init_rooms-IsTable named hashed)
              (rw str_eq_refl),
    )

pub IsServer-new :
    (h : Heap) (rooms : RoomMap)
    → Housed h rooms
    → IsServer (record { rooms = rooms; user_map = create_user_map; heap = h })
IsServer-new h rooms g = record { registry = no_entries; registered = create-Holds h; rooms = g }

-- With a zeroed table of users the server starts without a fault, in order, with its home room.
pub create_main_room-IsServer :
    (h : Heap)
    → (sv : Server) × (create_main_room h create_user_map ≡ ok sv)
      × IsServer sv
      × (is_room_used home_room sv.rooms ≡ ok true)
unfolding create_main_room
create_main_room-IsServer h =
    let (n, hashed) = home_index in
    let (rooms, run, g, used) = first_room h home_room n hashed (omega arith) in
    (
      record { rooms = rooms; user_map = create_user_map; heap = h },
      rw run,
      IsServer-new h rooms g,
      used,
    )

-- Before the first connection no thread runs.
abbrev pub started : Server → System
started sv = record {
  server = sv;
  sessions = λ i. record { socket = 0; user = none; running = false };
}

pub started-IsSystem : (sv : Server) → IsServer sv → IsSystem (started sv)
started-IsSystem sv g = record {
  server = g;
  clients = λ i u serving. absurd (false≢true serving.0);
  apart = λ i j u one two. absurd (false≢true one.0);
}

found_under :
    (sv : Server) (u : Ptr) (me : User)
    → sv.heap u ≡ some me
    → IsClient sv u
    → Users.get_user sv.heap me.name sv.user_map ≡ ok (some u)
found_under sv u me here c =
    let there = c.here in
    let same : c.me ≡ me = cc in
    subst (λ (x : User). Users.get_user sv.heap x.name sv.user_map ≡ ok (some u)) same c.found

ok-injective : {a b : Option Ptr} → ok a ≡ ok b → a ≡ b
ok-injective e = cc

-- From a server in order, before its first connection, in every order of rounds without faults of
-- C: the users of two running threads have different logins, and the table of users finds the first
-- under its login.
pub logins-apart :
    {sv : Server} {t : System}
    → IsServer sv
    → Reach (started sv) t
    → (i j : ℕ) (u v : Ptr) (me you : User) → Serving t i u
    → Serving t j v
    → t.server.heap u ≡ some me
    → t.server.heap v ≡ some you
    → i ≢ j
    → (me.name ≢ you.name) × (Users.get_user t.server.heap me.name t.server.user_map ≡ ok (some u))
logins-apart {sv} {t} g r i j u v me you one two here there apart =
    let s = Reach-IsSystem r (started-IsSystem sv g) in
    let mine = found_under t.server u me here (s.clients i u one) in
    let yours = found_under t.server v you there (s.clients j v two) in
    (
      λ same.
          let users : some u ≡ some v = ok-injective (
            sym mine
            ∙ ap (λ (x : Str). Users.get_user t.server.heap x t.server.user_map) same
            ∙ yours) in
          apart (s.apart i j v (one.0, one.1 ∙ users) two),
      mine,
    )
