-- ===== src/Server/Listening.antt =====
-- `start_listening` of src/server/server.c and of src/serversec/secure_server.c, up to their loops.
use bavardage.Prelude.{ℕ, ◌≡◌, true, Option, none, some, Option-cases, inl, inr}
use mathlib.Core.Path.{subst}
use bavardage.CString.{Str}
use bavardage.Run.{Run, ok, ◌>>=◌}
use bavardage.Run.Ensures.{Ensures, Ensures-step}
use bavardage.Users.{UserMap, create_user_map}
use bavardage.Users.Store.{Heap}
use bavardage.Rooms.{is_room_used}
use bavardage.Sockets.{SocketTcp, System, creer_socket_ecoute_tcp}
use bavardage.Server.State.{Server, home_room, create_main_room}
use bavardage.Server.Rounds.{IsServer}
use bavardage.Server.Start.{create_main_room-IsServer}

-- The state with which the loop of `acceptSocketTCP` starts, and the socket that it accepts from;
-- `none` where -1 is returned.
abbrev pub Listening : Type 0
Listening = Option (Server × SocketTcp)

module _ (S : System) (k : S.Kernel) (addr : Str) (port : ℕ) where
  -- `main_room` is the program's `create_main_room`.
  abbrev pub listen_with : Run Server → Run (Listening × S.Kernel)
  listen_with main_room = do
    (made, k') ← creer_socket_ecoute_tcp S k addr port
    elim made [ none ↦ ok (none, k') | some s ↦ do sv ← main_room; ok (some (sv, s), k') ]

  unfoldable pub start_listening : Heap → UserMap → Run (Listening × S.Kernel)
  start_listening h uninitialised = listen_with (create_main_room h uninitialised)

  -- Wherever the loop starts, with a zeroed table of users, the server is in order and has its home
  -- room.
  pub start_listening-IsServer :
      (h : Heap)
      → Ensures
          (λ r.
            (sv : Server) (s : SocketTcp)
            → r.0 ≡ some (sv, s)
            → IsServer sv × (is_room_used home_room sv.rooms ≡ ok true))
          (start_listening h create_user_map)
  unfolding start_listening
  start_listening-IsServer h =
      let (start, run, good, used) = create_main_room-IsServer h in
      Ensures-step _ (creer_socket_ecoute_tcp S k addr port) _ λ made. elim (Option-cases made.0) [
        | inl nothing ↦ rw nothing (λ sv s e. cc)
        | inr (listener, there) ↦
            rw (there, run, ◌>>=◌)
              (λ sv s e.
                let same : start ≡ sv = first-injective e in
                subst (λ x. IsServer x × (is_room_used home_room x.rooms ≡ ok true)) same
                  (good, used))
      ]
    where
      first-injective :
          {a b : Server} {s u : SocketTcp} → ◌≡◌ {A = Listening} (some (a, s)) (some (b, u)) → a ≡ b
      first-injective e = cc
