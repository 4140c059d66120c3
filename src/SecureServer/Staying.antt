-- ===== src/SecureServer/Staying.antt =====
-- Why nobody gets off src/serversec/secure_server.c: what `case DISCONNECT_SEC` of `handle_connexion`
-- does to the tables, where accesses behind `free` are faults.
use bavardage.Prelude.{◌≡◌, refl, ap, false, Option, none, some, is_some}
use bavardage.Run.{◌>>=◌}
use bavardage.Run.Ensures.{Ensures, Ensures-step, Ensures-mono}
use bavardage.Users.Store.{Ptr}
use bavardage.Users.Remove.{remove_user-fault}
use bavardage.Rooms.{get_user_rooms}
use bavardage.Server.State.{Server}
use bavardage.Server.Rounds.{IsServer, IsNamed, IsClient-lookup}
use bavardage.SecureServer.State.{Env}
use bavardage.SecureServer.Access.{leave_rooms_sec, leave_sec}

-- The table of users finds someone under the name of the user of a thread, if it has one.
abbrev pub IsKnown : Server → Option Ptr → Type 0
IsKnown sv user = (u : Ptr) → user ≡ some u → (holder : Ptr) × IsNamed sv u holder

module _ (sv : Server) (env : Env) (g : IsServer sv) (strict : env.keeps ≡ false) where
  leave_sec-stays :
      (u holder : Ptr) → IsNamed sv u holder → Ensures (λ _. ⊥) (leave_sec sv env (some u))
  unfolding leave_sec
  leave_sec-stays u holder c = Ensures-step _ (get_user_rooms sv.heap u sv.rooms) _ λ rooms.
      Ensures-step _ (leave_rooms_sec sv.heap env u rooms sv.rooms) _ λ left.
        rw
          (
            strict,
            remove_user-fault g.registered u c.me c.index c.here c.hashed
                (ap is_some (IsClient-lookup g c)),
            ◌>>=◌,
          )
          tt

  -- Only a thread without a user ends by `DISCONNECT_SEC`, and then the tables stay.
  pub leave_sec-none :
      (user : Option Ptr)
      → IsKnown sv user
      → Ensures (λ r. (user ≡ none) × (r.0 ≡ sv)) (leave_sec sv env user)
  unfolding leave_sec
  leave_sec-none none known = (refl, refl)
  leave_sec-none (some u) known =
      let (holder, c) = known u refl in
      Ensures-mono (λ _. ⊥) _ (leave_sec sv env (some u)) (leave_sec-stays u holder c)
        (λ r no. absurd no)
