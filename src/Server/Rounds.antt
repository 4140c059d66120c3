-- ===== src/Server/Rounds.antt =====
-- The invariant of the chat server, and the rounds of a connection that change its users. Accesses
-- behind `free` are faults here (`env.keeps` is false).
use bavardage.Prelude.{ℕ, ◌≡◌, refl, ◌∙◌, ap, false, some, List, [], ◌∷◌, is_some}
use bavardage.Prelude.Int.{pos}
use bavardage.CString.{Str}
use bavardage.Run.{ok}
use bavardage.Run.Ensures.{Ensures, Ensures-bind, Ensures-step, Ensures-cases}
use bavardage.Hash.{hash_user}
use bavardage.Wire.{clear_message}
use bavardage.Users
use bavardage.Users.Store.{Ptr, User}
use bavardage.Users.Chains.{Entries, lookup}
use bavardage.Users.Valid.{Holds, get_user-lookup}
use bavardage.Users.Remove.{remove_user-fault}
use bavardage.Rooms.{Room, get_admin, get_user_rooms, remove_user_from_room}
use bavardage.Rooms.Keeping.{Housed, remove_user_from_room-Housed}
use bavardage.Server.State.{Server, Env, Out}
use bavardage.Server.RoomOps
use bavardage.Server.RoomOps.{is_ptr}
use bavardage.Server.Keeping.{delete_room-Housed}
use bavardage.Server.Leaving.{leave_room, leave_rooms, leave_server}

-- The table of users holds a registry, and the rooms are in order.
pub record IsServer (sv : Server) : Type 0 where
  pub registry : ℕ → Entries
  pub registered : Holds sv.heap sv.user_map registry
  pub rooms : Housed sv.heap sv.rooms

-- `u` is an allocated user, and the table of users finds `holder` under its name.
pub record IsNamed (sv : Server) (u holder : Ptr) : Type 0 where
  pub me : User
  pub here : sv.heap u ≡ some me
  pub index : ℕ
  pub hashed : hash_user me.name ≡ pos index
  pub found : Users.get_user sv.heap me.name sv.user_map ≡ ok (some holder)

-- `u` is an allocated user that the table of users finds under its own name.
abbrev pub IsClient : Server → Ptr → Type 0
IsClient sv u = IsNamed sv u u

pub IsClient-lookup :
    {sv : Server} {u holder : Ptr} (g : IsServer sv) (c : IsNamed sv u holder)
    → lookup c.me.name (g.registry c.index) ≡ some holder
IsClient-lookup g c =
    let e = get_user-lookup g.registered c.me.name c.index c.hashed in let f = c.found in cc

-- The users and their table stay; the rooms are in order.
abbrev Stays : Server → Server × Out → Type 0
Stays sv r = Housed sv.heap r.0.rooms × (r.0.heap ≡ sv.heap) × (r.0.user_map ≡ sv.user_map)

leave_room-Stays :
    (sv : Server) (env : Env) (u : Ptr) (me : User) (s : Str)
    → env.keeps ≡ false
    → sv.heap u ≡ some me
    → Housed sv.heap sv.rooms
    → Ensures (Stays sv) (leave_room sv env u s)
unfolding leave_room
leave_room-Stays sv env u me s strict here g =
    let P = Stays sv in
    Ensures-step P (get_admin s sv.rooms) _ λ boss.
      Ensures-cases P (is_ptr u boss) _ _
        (Ensures-bind (λ r. Housed sv.heap r.0) P (RoomOps.delete_room sv.heap env.junk s sv.rooms)
          _ (delete_room-Housed sv g u me here clear_message env.junk s) λ r g'. (g', refl, refl))
        (Ensures-step P (RoomOps.quit_room sv.heap env.junk u s sv.rooms) _ λ out.
          Ensures-bind (Housed sv.heap) P (remove_user_from_room sv.heap env.keeps u s sv.rooms) _
            (rw strict (remove_user_from_room-Housed sv.heap u me s sv.rooms here g))
            λ rooms g'. (g', refl, refl))

leave_rooms-Stays :
    (sv : Server) (env : Env) (u : Ptr) (me : User) (l : List Room)
    → env.keeps ≡ false
    → sv.heap u ≡ some me
    → Housed sv.heap sv.rooms
    → Ensures (Stays sv) (leave_rooms sv env u l)
unfolding leave_rooms
leave_rooms-Stays sv env u me [] strict here g = (g, refl, refl)
leave_rooms-Stays sv env u me (l ∷ next) strict here g =
    Ensures-bind (Stays sv) (Stays sv) (leave_room sv env u l.name) _
      (leave_room-Stays sv env u me l.name strict here g)
      λ r (g', h, m).
        Ensures-bind (Stays r.0) (Stays sv) (leave_rooms r.0 env u next) _
          (leave_rooms-Stays r.0 env u me next strict (rw h here) (rw h g'))
          λ r' (g'', h', m'). (rw (← h) g'', h' ∙ h, m' ∙ m)

-- Where an access behind `free` is a fault, a connected user cannot leave: no way out is without a
-- fault of C, since `remove_user` reads the node that it has freed.
pub leave_server-fault :
    (sv : Server) (env : Env) (u : Ptr)
    → env.keeps ≡ false
    → IsServer sv
    → IsClient sv u
    → Ensures (λ _. ⊥) (leave_server sv env u)
unfolding leave_server
leave_server-fault sv env u strict g c =
    Ensures-step _ (get_user_rooms sv.heap u sv.rooms) _ λ mine.
      Ensures-bind (Stays sv) _ (leave_rooms sv env u mine) _
        (leave_rooms-Stays sv env u c.me mine strict c.here g.rooms)
        λ r (_, h, m).
          rw
            (
              h,
              m,
              strict,
              remove_user-fault g.registered u c.me c.index c.here c.hashed
                  (ap is_some (IsClient-lookup g c)),
            )
            tt
