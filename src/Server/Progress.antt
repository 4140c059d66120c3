-- ===== src/Server/Progress.antt =====
-- Progress of src/server/server.c: which messages of a connected client are answered, whatever the
-- state, and that a free login of letters and digits gets in.
use bavardage.Prelude.{
  ap, ℕ, All, ◌<◌, ◌≡◌, sym, ◌∙◌, true, false, none, some, [], ◌∷◌, arith, length, Bool-cases,
  Option-cases, inl, inr,
}
use bavardage.Prelude.Int.{pos}
use bavardage.CString.{Str, str_eq}
use bavardage.Run.{ok, ◌>>=◌}
use bavardage.Run.Ends.{IsOk, Ends-step, Ends-Ensures, Ends-ok}
use bavardage.Hash.{hash_user, is_login_valid}
use bavardage.Hash.Range.{hash-index}
use bavardage.Wire.{Message, Code, max_name_size, max_mess_size, max_room_name_size}
use bavardage.Users
use bavardage.Users.Store.{Ptr, User, Heap, malloc}
use bavardage.Users.Chains.{Entries, lookup}
use bavardage.Users.Valid.{is_login_used-lookup, add_user-new}
use bavardage.Rooms.Adding.{strcpy-ok}
use bavardage.Rooms.Members.{Stands-at}
use bavardage.Server.State.{Server, Env, home_room}
use bavardage.Server.RoomOps.{join_room}
use bavardage.Server.Requests.{Reply, on_mp, serve}
use bavardage.Server.Connection.{Session, respond, on_connect_new, receive, round}
use bavardage.Server.Keeping.{Serves, serve-Serves}
use bavardage.Server.Rounds.{IsServer, IsClient}
use bavardage.Server.Joining.{held, lookup-unused, on_connect_new-IsServer}
use bavardage.Server.Allocating.{malloc_self, Housed-malloc}
use bavardage.Server.Start.{home_index}
use bavardage.Server.Delivery.{on_mp-delivers}
use bavardage.Server.Answering.{
  Quits, on_create_room-IsOk, on_join_room-IsOk, on_delete_room-IsOk, on_quit_room-IsOk,
  on_message-IsOk,
}
use bavardage.Server.Ending.{Named, join_room-IsOk}

lookup-at :
    (h : Heap) (s : Str) (es : Entries) (q : Ptr)
    → All (λ e. h e.0 ≡ some e.1) es
    → lookup s es ≡ some q
    → (u : User) × (h q ≡ some u)
lookup-at h s [] q at found = cc
lookup-at h s (e ∷ es) q at found = elim (Bool-cases (str_eq e.1.name s)) [
  | inl same ↦
      let here : some e.0 ≡ some q = rw same at found in
      let it : e.0 ≡ q = cc in (e.1, rw (← it) at.0)
  | inr other ↦ lookup-at h s es q at.1 (rw other at found)
]

home-Named : Named home_room max_mess_size
home-Named =
    let (n, hashed) = home_index in record { index = n; hashed = hashed; fits = omega arith }

-- What the names in a message of user `u` must be, by its code: `CONNECT` and `DISCONNECT` are left
-- out.
abbrev pub Fits : Server → Ptr → Message → Code → Type 0
Fits sv u m Code.connect = ⊥
Fits sv u m Code.disconnect = ⊥
Fits sv u m Code.create_room =
    Named m.content max_room_name_size × (length m.sender < max_name_size)
Fits sv u m Code.join_room = Named m.content max_mess_size
Fits sv u m Code.delete_room = Named m.content max_mess_size
Fits sv u m Code.quit_room = Named m.content max_mess_size × Quits sv u m
Fits sv u m Code.message = Named m.receiver max_mess_size × (length m.sender < max_name_size)
Fits sv u m Code.mp = (n : ℕ) × (hash_user m.receiver ≡ pos n)
Fits sv u m _ = Unit

module _ (sv : Server) (env : Env) (g : IsServer sv) (u : Ptr) (c : IsClient sv u)
    (m : Message) where
  on_mp-IsOk : (n : ℕ) → hash_user m.receiver ≡ pos n → IsOk (on_mp sv m)
  unfolding on_mp
  on_mp-IsOk n hashed = elim (Option-cases (lookup m.receiver (g.registry n))) [
    | inl absent ↦ rw (is_login_used-lookup g.registered m.receiver n hashed, absent) tt
    | inr (q, found) ↦
        let (it, here) =
          lookup-at sv.heap m.receiver (g.registry n) q
            (Stands-at sv.heap _ (g.registry n) (g.registered.stands n)) found in
        rw
          (on_mp-delivers sv m n it g.registered hashed (λ p e.
            let same : some q ≡ some p = sym found ∙ e in let at : q ≡ p = cc in rw (← at) here))
          tt
  ]

  serve-IsOk : (code : Code) → Fits sv u m code → IsOk (serve sv env u m code)
  unfolding serve
  serve-IsOk Code.create_room (named, sender) = on_create_room-IsOk sv env g u c m named sender
  serve-IsOk Code.join_room named = on_join_room-IsOk sv env g u c m named
  serve-IsOk Code.delete_room named = on_delete_room-IsOk sv env g u c m named
  serve-IsOk Code.quit_room (named, quits) = on_quit_room-IsOk sv env g u c m named quits
  serve-IsOk Code.message (named, sender) = on_message-IsOk sv env g u c m named sender
  serve-IsOk Code.mp (n, hashed) = on_mp-IsOk n hashed
  serve-IsOk Code.connect never = absurd never
  serve-IsOk Code.disconnect never = absurd never
  serve-IsOk _ _ = tt

  -- Every other request of a connected client is answered, where an access behind `free` is a fault: if
  -- the names in the message fit and have an index for their hash, and the room to quit is not
  -- another's, there is no fault, the case's messages are written and then its response, to the
  -- client's socket, the rooms are in order behind it, and the users and their table as they were.
  pub receive-answers :
      (s : Session)
      → s.user ≡ some u
      → env.keeps ≡ false
      → Fits sv u m m.code
      → (r : Reply) × (receive sv env s m ≡ ok (respond s r)) × Serves sv r
  unfolding receive round
  receive-answers s mine strict fits =
      let (r, run, serves) = Ends-ok (Serves sv) (serve sv env u m m.code) (
        Ends-Ensures (λ _. Unit) (Serves sv) (serve sv env u m m.code) (serve-IsOk m.code fits)
          (serve-Serves sv g.rooms u c.me c.here m env m.code strict)) in
      (r, ap (λ user. round sv env s m m.code user) mine ∙ served s m.code r fits run, serves)
    where
      served :
          (s : Session) (code : Code) (r : Reply)
          → Fits sv u m code
          → serve sv env u m code ≡ ok r
          → round sv env s m code (some u) ≡ ok (respond s r)
      served s Code.connect r never run = absurd never
      served s Code.disconnect r never run = absurd never
      served s code r fits run = ap (λ x. x >>= λ reply. ok (respond s reply)) run

-- `CONNECT` with a login of letters and digits that fits and that nobody has: there is no fault, the
-- invariant holds behind it, the new user is connected, and so is everyone who was.
pub on_connect_new-enters :
    (sv : Server) (env : Env) (s : ℕ) (buffer : Message) (g : IsServer sv)
    → sv.heap env.fresh ≡ none
    → is_login_valid buffer.sender ≡ true
    → length buffer.sender < max_name_size
    → Users.is_login_used sv.heap buffer.sender sv.user_map ≡ ok false
    → (r : Reply) × (on_connect_new sv env s buffer ≡ ok r)
      × IsServer r.server
      × IsClient r.server env.fresh
      × ((q : Ptr) → IsClient sv q → IsClient r.server q)
unfolding on_connect_new
on_connect_new-enters sv env s buffer g fresh valid fits unused =
    let (r, run, (server, client, stay)) = Ends-ok _ (on_connect_new sv env s buffer) (
      Ends-Ensures (λ _. Unit) _ (on_connect_new sv env s buffer) ends
        (on_connect_new-IsServer sv env s buffer g fresh valid unused)) in
    (r, run, server, client, stay)
  where
    ends : IsOk (on_connect_new sv env s buffer)
    ends =
        let (n, hashed, _, _) = hash-index buffer.sender valid in
        let free = lookup-unused sv g buffer.sender n hashed unused in
        let u : User = record { name = buffer.sender; socket = s } in
        let p = env.fresh in
        let self = malloc_self sv.heap p u in
        rw
          (
            strcpy-ok max_name_size buffer.sender fits,
            ◌>>=◌,
            (add_user-new (held sv g p u fresh n hashed free) p u n self hashed free).0,
          )
          (Ends-step (λ (r : Reply). Unit)
            (join_room (malloc sv.heap p u) env.junk p home_room sv.rooms) _
            (join_room-IsOk (malloc sv.heap p u) sv.rooms
              (Housed-malloc sv.heap p u sv.rooms fresh g.rooms) home_room home-Named env.junk p u n
              self hashed)
            λ r. tt)
