-- ===== src/Tests/Start.antt =====
-- The server from its start: two users connect, each in a thread of its own.
use bavardage.Prelude.{ℕ, true, false, none, some, [], ◌≡◌, ◌≢◌, refl, sym, ◌∙◌, arith}
use mathlib.Core.Path.{subst}
use bavardage.CString.{Str}
use bavardage.Run.{Run, ok, fault}
use bavardage.Wire.{Message, Code, clear_message}
use bavardage.Users.{create_user_map, get_user}
use bavardage.Users.Store.{Ptr, Heap}
use bavardage.Server.State.{Server, Env, create_main_room}
use bavardage.Server.Connection.{Session, Round, receive}
use bavardage.Server.Rounds.{IsServer, IsClient}
use bavardage.Server.System.{
  System, Reach, here, next, accepted, handled, IsSystem, Reach-IsSystem, Serving, with_session,
}
use bavardage.Server.Start.{create_main_room-IsServer, started, started-IsSystem, logins-apart}
use bavardage.Tests.Program.{program, ann, bob, ann_user, bob_user}

unfoldable pub or_else : {A : Type 0} → A → Run A → A
or_else d (ok a) = a
or_else d (fault e) = d

abbrev pub empty : Heap
empty p = none

abbrev pub fresh_at : Ptr → Env
fresh_at p = record { fresh = p; keeps = false; junk = [] }

abbrev pub hello : Str → Message
hello s = record clear_message { code = Code.connect; sender = s }

abbrev pub start : Server
start =
    or_else (record { rooms = []; user_map = []; heap = empty })
      (create_main_room empty create_user_map)

starts : create_main_room empty create_user_map ≡ ok start
unfolding program or_else
starts = refl

pub start-IsServer : IsServer start
start-IsServer =
    let (sv, run, good, _) = create_main_room-IsServer empty in
    let same : sv ≡ start = ok-injective (sym run ∙ starts) in subst IsServer same good
  where
    ok-injective : {a b : Server} → ok a ≡ ok b → a ≡ b
    ok-injective e = cc

abbrev pub idle : ℕ → Session
idle socket = record { socket = socket; user = none; running = true }

abbrev pub first : Round
first = or_else (start, idle 4, []) (receive start (fresh_at 1) (idle 4) (hello ann))

abbrev second : Round
second = or_else (start, idle 5, []) (receive first.0 (fresh_at 2) (idle 5) (hello bob))

first_connects : receive start (fresh_at 1) (idle 4) (hello ann) ≡ ok (first.0, first.1, first.2)
unfolding program or_else
first_connects = refl

second_connects :
    receive first.0 (fresh_at 2) (idle 5) (hello bob) ≡ ok (second.0, second.1, second.2)
unfolding program or_else
second_connects = refl

abbrev running_first : System
running_first = record (started start) {
  sessions = with_session (started start).sessions 0 (idle 4);
}

abbrev after_first : System
after_first = record { server = first.0; sessions = with_session running_first.sessions 0 first.1 }

abbrev running_second : System
running_second = record after_first { sessions = with_session after_first.sessions 1 (idle 5) }

abbrev after_second : System
after_second = record {
  server = second.0;
  sessions = with_session running_second.sessions 1 second.1;
}

two_connect : Reach (started start) after_second
unfolding program or_else
two_connect =
    next
      (next
        (next (next here (accepted 0 4 refl))
          (handled 0 (fresh_at 1) (hello ann) refl (refl, refl) first_connects))
        (accepted 1 5 refl))
      (handled 1 (fresh_at 2) (hello bob) refl (refl, refl) second_connects)

Reach-IsSystem_example : IsSystem after_second
Reach-IsSystem_example = Reach-IsSystem two_connect (started-IsSystem start start-IsServer)

first_serves : Serving after_second 0 1
unfolding program or_else
first_serves = (refl, refl)

second_serves : Serving after_second 1 2
unfolding program or_else
second_serves = (refl, refl)

ann_stands : after_second.server.heap 1 ≡ some ann_user
unfolding program or_else
ann_stands = refl

bob_stands : after_second.server.heap 2 ≡ some bob_user
unfolding program or_else
bob_stands = refl

logins-apart_example :
    (ann ≢ bob) × (get_user after_second.server.heap ann after_second.server.user_map ≡ ok (some 1))
logins-apart_example =
    logins-apart start-IsServer two_connect 0 1 1 2 ann_user bob_user first_serves second_serves
      ann_stands bob_stands (omega arith)

one_connects : Reach (started start) after_first
unfolding program or_else
one_connects =
    next (next here (accepted 0 4 refl))
      (handled 0 (fresh_at 1) (hello ann) refl (refl, refl) first_connects)

pub first-IsServer : IsServer first.0
first-IsServer = (Reach-IsSystem one_connects (started-IsSystem start start-IsServer)).server

pub ann_connected : first.0.heap 1 ≡ some ann_user
unfolding program or_else
ann_connected = refl

pub first-IsClient : IsClient first.0 1
unfolding program or_else
first-IsClient = record { me = ann_user; here = refl; index = 194; hashed = refl; found = refl }
