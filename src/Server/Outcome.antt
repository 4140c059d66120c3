-- ===== src/Server/Outcome.antt =====
-- One round of `handle_connexion` in src/server/server.c, in every case: the invariant, the users
-- who stay connected, and the thread's own user.
use bavardage.Prelude.{◌≡◌, refl, sym, ◌∙◌, ap, false, Option, none, some, ◌⊎◌, inl, inr}
use bavardage.Run.{ok}
use bavardage.Run.Ensures.{Ensures, Ensures-bind, Ensures-bind_eq, Ensures-split, Ensures-mono}
use bavardage.Hash.{is_login_valid}
use bavardage.Wire.{Message, Code}
use bavardage.Users
use bavardage.Users.Store.{Ptr}
use bavardage.Rooms.Keeping.{Housed}
use bavardage.Server.State.{Server, Env}
use bavardage.Server.Requests.{Reply, serve}
use bavardage.Server.Leaving.{leave_server}
use bavardage.Server.Keeping.{serve-Serves}
use bavardage.Server.Connection.{
  Session, Round, leave, on_connect, on_connect_new, round, receive, hang_up,
}
use bavardage.Server.Rounds.{IsServer, IsClient, leave_server-fault}
use bavardage.Server.Joining.{on_connect_new-IsServer}

pub record Outcome (sv : Server) (env : Env) (s : Session) (r : Round) : Type 0 where
  pub server : IsServer r.0
  pub stay : (q : Ptr) → IsClient sv q → IsClient r.0 q
  pub user :
      (r.1.running ≡ false)
      ⊎ (r.1.user ≡ s.user)
      ⊎ ((r.1.user ≡ some env.fresh) × IsClient r.0 env.fresh)

pub IsServer-same :
    (sv sv' : Server)
    → IsServer sv
    → sv'.heap ≡ sv.heap
    → sv'.user_map ≡ sv.user_map
    → Housed sv.heap sv'.rooms
    → IsServer sv'
IsServer-same sv sv' g h m rooms = record {
  registry = g.registry;
  registered = rw (h, m) g.registered;
  rooms = rw h rooms;
}

IsClient-same :
    (sv sv' : Server) (q : Ptr)
    → sv'.heap ≡ sv.heap
    → sv'.user_map ≡ sv.user_map
    → IsClient sv q
    → IsClient sv' q
IsClient-same sv sv' q h m c = record {
  me = c.me;
  here = rw h c.here;
  index = c.index;
  hashed = c.hashed;
  found = rw (h, m) c.found;
}

module _ (sv : Server) (env : Env) (s : Session) (buffer : Message) (g : IsServer sv)
    (strict : env.keeps ≡ false) (fresh : sv.heap env.fresh ≡ none) where
  -- The reply and the thread's user behind a `CONNECT`.
  abbrev Connects : Option Ptr → Reply × Option Ptr → Type 0
  Connects user r =
      IsServer r.0.server
      × ((q : Ptr) → IsClient sv q → IsClient r.0.server q)
      × ((r.1 ≡ user) ⊎ ((r.1 ≡ some env.fresh) × IsClient r.0.server env.fresh))

  on_connect-Connects :
      (user : Option Ptr) → Ensures (Connects user) (on_connect sv env s.socket user buffer)
  unfolding on_connect
  on_connect-Connects (some u) = (g, λ q c. c, inl refl)
  on_connect-Connects none =
      let P = Connects none in
      Ensures-split P (is_login_valid buffer.sender) _ _
        (λ valid.
          Ensures-bind_eq P (Users.is_login_used sv.heap buffer.sender sv.user_map) _ λ used unused.
            Ensures-split P used _ _ (λ _. (g, (λ q c. c), inl refl))
              (λ e.
                Ensures-bind _ P (on_connect_new sv env s.socket buffer) _
                  (on_connect_new-IsServer sv env s.socket buffer g fresh valid (unused ∙ ap ok e))
                  λ r (server, client, stay). (server, stay, inr (refl, client))))
        (λ _. (g, (λ q c. c), inl refl))

  leave-Outcome :
      (user : Option Ptr)
      → ((u : Ptr) → user ≡ some u → IsClient sv u)
      → Ensures (λ r. (user ≡ none) × (r.0 ≡ sv)) (leave sv env user)
  unfolding leave
  leave-Outcome none c = (refl, refl)
  leave-Outcome (some u) c =
      Ensures-mono (λ _. ⊥) _ (leave_server sv env u)
        (leave_server-fault sv env u strict g (c u refl)) (λ r no. absurd no)

  pub round-Outcome :
      (code : Code) (user : Option Ptr)
      → s.user ≡ user
      → ((u : Ptr) → user ≡ some u → IsClient sv u)
      → Ensures (Outcome sv env s) (round sv env s buffer code user)
  unfolding round
  round-Outcome Code.disconnect user e c =
      Ensures-bind _ (Outcome sv env s) (leave sv env user) _ (leave-Outcome user c)
        λ r (_, same). record { server = rw same g; stay = rw same (λ q d. d); user = inl refl }
  round-Outcome Code.connect user e c =
      Ensures-bind (Connects user) (Outcome sv env s) (on_connect sv env s.socket user buffer) _
        (on_connect-Connects user)
        λ r (server, stay, mine). record {
          server = server;
          stay = stay;
          user = inr (elim mine [ inl same ↦ inl (same ∙ sym e) | inr new ↦ inr new ]);
        }
  round-Outcome code none e c = record { server = g; stay = λ q d. d; user = inr (inl refl) }
  round-Outcome code (some u) e c =
      let d = c u refl in
      Ensures-bind _ (Outcome sv env s) (serve sv env u buffer code) _
        (serve-Serves sv g.rooms u d.me d.here buffer env code strict)
        λ r (rooms, h, m). record {
          server = IsServer-same sv r.server g h m rooms;
          stay = λ q. IsClient-same sv r.server q h m;
          user = inr (inl refl);
        }

  module _ (mine : (u : Ptr) → s.user ≡ some u → IsClient sv u) where
    -- A round with a message, of a thread whose user is connected if it has one, either is a fault
    -- of C or keeps the invariant, leaves connected whoever was, and ends the thread, or keeps its
    -- user, or gives it the user at the fresh address, then connected.
    pub receive-Outcome : Ensures (Outcome sv env s) (receive sv env s buffer)
    unfolding receive
    receive-Outcome = round-Outcome buffer.code s.user refl mine

    pub hang_up-Outcome : Ensures (Outcome sv env s) (hang_up sv env s)
    unfolding hang_up
    hang_up-Outcome =
        Ensures-bind _ (Outcome sv env s) (leave sv env s.user) _ (leave-Outcome s.user mine)
          λ r (_, same). record { server = rw same g; stay = rw same (λ q d. d); user = inl refl }
