-- ===== src/Tests/SecureThreads.antt =====
-- Threads of the secure server: one lets a user in, and its connection breaks.
use bavardage.Prelude.{◌≡◌, refl, sym, ◌∙◌, false, true, none, some, [], arith}
use mathlib.Core.Path.{subst}
use bavardage.Run.{ok}
use bavardage.Run.Ensures.{Ensures}
use bavardage.Wire
use bavardage.Wire.{Message, secure, clear_message}
use bavardage.Users
use bavardage.Users.{create_user_map}
use bavardage.Users.Store.{Ptr}
use bavardage.Rooms.{Room, is_room_used}
use bavardage.Server.State.{Server}
use bavardage.Server.Rounds.{IsServer}
use bavardage.SecureServer.State.{State, Session, Env, Turn, home_room_sec, create_main_room_sec}
use bavardage.SecureServer.Access.{enter, on_connect_sec}
use bavardage.SecureServer.RoomOps.{join_room_sec}
use bavardage.Accounts.{
  is_connected, check_user, change_status, sprintf_one, sprintf_two, fetch, fetch_loop,
}
use bavardage.SecureServer.Requests.{on_delete_room_sec}
use bavardage.SecureServer.Rounds.{receive_sec, switch, hang_up_sec}
use bavardage.SecureServer.Joining.{Enters, enter-Enters}
use bavardage.SecureServer.System.{
  System, with_session, behind, Serving, Reach, here, next, accepted, handled, IsSystem,
  Reach-Stays,
}
use bavardage.Server.Allocating.{Stays}
use bavardage.SecureServer.Accepting.{Handshake, newcomer, greet}
use bavardage.SecureServer.Start.{
  create_main_room_sec-IsServer, started, started-IsSystem, nobody_leaves,
}
use bavardage.SecureServer.Anonymous.{on_delete_room_sec-nobody}
use bavardage.Tests.Program.{program, ann, ann_user}
use bavardage.Tests.Start.{or_else, empty}
use bavardage.Tests.AccountRuns.{row_store, card}
use bavardage.Tests.SecureRuns.{chance, connects}

unfoldable secure_program : Unit {0}
unfolding program create_main_room_sec receive_sec switch hang_up_sec on_connect_sec greet enter
    join_room_sec is_connected check_user change_status sprintf_one sprintf_two fetch fetch_loop
secure_program = tt

abbrev secure_start : Server
secure_start =
    or_else (record { rooms = []; user_map = []; heap = empty })
      (create_main_room_sec empty create_user_map)

secure_starts : create_main_room_sec empty create_user_map ≡ ok secure_start
unfolding secure_program or_else
secure_starts = refl

ok-injective : {a b : Server} → ok a ≡ ok b → a ≡ b
ok-injective e = cc

secure_start-IsServer : IsServer secure_start
secure_start-IsServer =
    let (sv, run, good, _) = create_main_room_sec-IsServer empty in
    let same : sv ≡ secure_start = ok-injective (sym run ∙ secure_starts) in
    subst IsServer same good

abbrev opened : State row_store
opened = record { server = secure_start; db = 1 }

abbrev guest : Session
guest = newcomer 4 card clear_message

abbrev presented : Handshake
presented = record { accepted = true; subject = some card; verified = true }

abbrev let_in : Turn row_store
let_in =
    or_else (record { state = opened; session = guest; out = [] })
      (receive_sec row_store opened chance guest connects)

lets_in : receive_sec row_store opened chance guest connects ≡ ok let_in
unfolding secure_program or_else
lets_in = refl

-- `malloc` gives another address behind the login.
abbrev chance_again : Env
chance_again = record chance { fresh = 10 }

abbrev with_guest : System row_store
with_guest = record (started opened) { sessions = with_session (started opened).sessions 0 guest }

abbrev with_ann : System row_store
with_ann = behind with_guest 0 let_in

ann_enters : Reach (started opened) with_ann
unfolding secure_program or_else
ann_enters =
    next (next here (accepted 0 4 [] clear_message presented refl refl))
      (handled 0 chance connects refl (refl, refl) lets_in)

Reach-Stays_example : IsSystem with_ann × Stays secure_start with_ann.state.server
Reach-Stays_example = Reach-Stays ann_enters (started-IsSystem opened secure_start-IsServer)

guest_serves : Serving with_ann 0 9
unfolding secure_program or_else
guest_serves = (refl, refl)

ann_here : with_ann.state.server.heap 9 ≡ some ann_user
unfolding secure_program or_else
ann_here = refl

nobody_leaves_example :
    (r : Turn row_store) × (hang_up_sec row_store with_ann.state chance_again
        (with_ann.sessions 0)
        connects
      ≡ ok r)
    × (r.session.running ≡ false)
    × (r.out ≡ [])
    × (r.state.server ≡ with_ann.state.server)
    × ((holder : Ptr) × ((w : System row_store)
          → Reach (behind with_ann 0 r) w
          → Users.get_user w.state.server.heap ann w.state.server.user_map ≡ ok (some holder)))
unfolding secure_program or_else
nobody_leaves_example =
    nobody_leaves opened secure_start-IsServer ann_enters 0 9 ann_user guest_serves ann_here
      chance_again connects (refl, refl) (omega arith)

enter-Enters_example :
    Ensures (Enters opened chance) (enter row_store opened chance guest connects 1 false)
unfolding secure_program or_else
enter-Enters_example =
    enter-Enters row_store opened chance guest connects 1 false secure_start-IsServer refl

abbrev homeless : Message
homeless = record clear_message { code = secure Wire.delete_room_sec; content = home_room_sec }

abbrev home : Room
home = record { name = home_room_sec; admin = none; users = create_user_map; k = none }

on_delete_room_sec-nobody_example :
    (turn : Turn row_store) × (on_delete_room_sec opened chance guest homeless ≡ ok turn)
    × (is_room_used home_room_sec turn.state.server.rooms ≡ ok false)
unfolding secure_program or_else
on_delete_room_sec-nobody_example =
    on_delete_room_sec-nobody opened chance guest homeless 1327 home secure_start-IsServer.rooms
      refl refl (omega arith) refl refl
