-- ===== src/Server/Answering.antt =====
-- Requests to src/server/server.c that are answered: with names whose hash is an index of its table
-- and that fit their arrays, the cases of the `switch` of `handle_connexion` end without a fault.
use bavardage.Prelude.{ℕ, ◌<◌, ◌≡◌, true, false, some, arith, length, ==_refl, ◌⊎◌, inl, inr}
use bavardage.CString.{Str, str_eq, strcpy}
use bavardage.Run.{ok, ◌>>=◌}
use bavardage.Run.Ends.{IsOk, Ends-bind, Ends-step, Ends-split}
use bavardage.Wire.{Message, max_name_size, max_mess_size, max_room_name_size}
use bavardage.Users.Store.{Ptr, load}
use bavardage.Rooms.{
  is_room_used, add_room, add_user_in_room, is_user_in_room, get_admin, get_users,
}
use bavardage.Rooms.Keeping.{Housed, IsAdmin}
use bavardage.Rooms.Ending.{
  Lists, get_users-Ends, is_user_in_room-IsOk, get_admin-Ends, add_user_in_room-Ends, add_room-Ends,
}
use bavardage.Server.State.{Server, Env, home_room, broadcast}
use bavardage.Server.RoomOps
use bavardage.Server.RoomOps.{is_ptr, list_members, name_admin, join_room}
use bavardage.Server.Requests.{
  Reply, on_create_room, on_join_room, on_delete_room, on_quit_room, on_message,
}
use bavardage.Server.Rounds.{IsServer, IsClient}
use bavardage.Server.Ending.{
  Named, strcpy-IsOk, load-IsOk, broadcast-IsOk, is_room_used-IsOk, join_room-IsOk,
  delete_room-IsOk,
}

-- A room that is not there, the home room, or one's own.
abbrev pub Quits : Server → Ptr → Message → Type 0
Quits sv u m =
    (is_room_used m.content sv.rooms ≡ ok false)
    ⊎ (str_eq home_room m.content ≡ true)
    ⊎ (get_admin m.content sv.rooms ≡ ok (some u))

module _ (sv : Server) (env : Env) (g : IsServer sv) (u : Ptr) (c : IsClient sv u)
    (m : Message) where
  abbrev P : Reply → Type 0
  P r = Unit

  pub on_create_room-IsOk :
      Named m.content max_room_name_size
      → length m.sender < max_name_size
      → IsOk (on_create_room sv u m)
  unfolding on_create_room
  on_create_room-IsOk named sender_fits =
      let n = named.index in
      Ends-step P (is_room_used m.content sv.rooms) _ (is_room_used-IsOk sv.rooms m.content named)
        λ used.
          Ends-step P (strcpy _ m.content) _ (strcpy-IsOk _ m.content (omega (arith, named.fits)))
            λ content.
              Ends-split P used _ _ (λ _. tt)
                λ _.
                  Ends-bind (λ r. Housed sv.heap r.1) P
                    (add_room sv.heap m.content (some u) sv.rooms) _
                    (add_room-Ends sv.heap sv.rooms g.rooms m.content n named.hashed u c.me c.index
                      c.here c.hashed named.fits)
                    λ r g'.
                      Ends-bind (Housed sv.heap) P (add_user_in_room sv.heap u m.content r.1) _
                        (add_user_in_room-Ends sv.heap r.1 g' m.content n named.hashed u c.me
                          c.index c.here c.hashed)
                        λ rooms _.
                          Ends-step P (strcpy _ m.sender) _ (strcpy-IsOk _ m.sender sender_fits)
                            λ sender.
                              Ends-step P (load sv.heap u) _ (load-IsOk sv.heap u c.me c.here)
                                λ me. tt

  member-IsOk : {size : ℕ} (s : Str) → Named s size → IsOk (is_user_in_room sv.heap u s sv.rooms)
  member-IsOk s named =
      is_user_in_room-IsOk sv.heap sv.rooms g.rooms s named.index named.hashed u c.me c.here

  pub on_join_room-IsOk : Named m.content max_mess_size → IsOk (on_join_room sv env.junk u m)
  unfolding on_join_room
  on_join_room-IsOk named =
      Ends-step P (is_room_used m.content sv.rooms) _ (is_room_used-IsOk sv.rooms m.content named)
        λ used.
          Ends-split P used _ _
            (λ _.
              Ends-step P (is_user_in_room sv.heap u m.content sv.rooms) _
                (member-IsOk m.content named)
                λ member.
                  Ends-split P member _ _ (λ _. tt)
                    λ _.
                      Ends-step P (join_room sv.heap env.junk u m.content sv.rooms) _
                        (join_room-IsOk sv.heap sv.rooms g.rooms m.content named env.junk u c.me
                          c.index c.here c.hashed)
                        λ r.
                          Ends-step P (strcpy _ m.content) _ (strcpy-IsOk _ m.content named.fits)
                            λ content. tt)
            (λ _. tt)

  pub on_delete_room-IsOk : Named m.content max_mess_size → IsOk (on_delete_room sv env.junk u m)
  unfolding on_delete_room
  on_delete_room-IsOk named =
      Ends-step P (is_room_used m.content sv.rooms) _ (is_room_used-IsOk sv.rooms m.content named)
        λ used.
          Ends-split P used _ _
            (λ _.
              Ends-bind (IsAdmin sv.heap) P (get_admin m.content sv.rooms) _
                (get_admin-Ends sv.heap sv.rooms g.rooms m.content named.index named.hashed)
                λ boss _.
                  Ends-split P (is_ptr u boss) _ _
                    (λ _.
                      Ends-step P (RoomOps.delete_room sv.heap env.junk m.content sv.rooms) _
                        (delete_room-IsOk sv.heap sv.rooms g.rooms m.content named env.junk)
                        λ r.
                          Ends-step P (strcpy _ m.content) _ (strcpy-IsOk _ m.content named.fits)
                            λ content. tt)
                    (λ _. tt))
            (λ _. tt)

  pub on_quit_room-IsOk :
      Named m.content max_mess_size → Quits sv u m → IsOk (on_quit_room sv env u m)
  unfolding on_quit_room
  on_quit_room-IsOk named (inl absent) = rw (absent, ◌>>=◌) tt
  on_quit_room-IsOk named (inr (inl home)) =
      Ends-step P (is_room_used m.content sv.rooms) _ (is_room_used-IsOk sv.rooms m.content named)
        λ used. Ends-split P used _ _ (λ _. rw home tt) (λ _. tt)
  on_quit_room-IsOk named (inr (inr own)) =
      Ends-step P (is_room_used m.content sv.rooms) _ (is_room_used-IsOk sv.rooms m.content named)
        λ used.
          Ends-split P used _ _
            (λ _.
              Ends-split P (str_eq home_room m.content) _ _ (λ _. tt)
                λ _.
                  rw (own, ◌>>=◌, ==_refl)
                    (Ends-step P (is_user_in_room sv.heap u m.content sv.rooms) _
                      (member-IsOk m.content named)
                      λ member. Ends-split P member _ _ (λ _. on_delete_room-IsOk named) (λ _. tt)))
            (λ _. tt)

  pub on_message-IsOk :
      Named m.receiver max_mess_size → length m.sender < max_name_size → IsOk (on_message sv u m)
  unfolding on_message
  on_message-IsOk named sender_fits =
      Ends-step P (is_room_used m.receiver sv.rooms) _ (is_room_used-IsOk sv.rooms m.receiver named)
        λ used.
          Ends-split P used _ _
            (λ _. Ends-step P (strcpy _ m.sender) _ (strcpy-IsOk _ m.sender sender_fits) λ sender.
              Ends-step P (is_user_in_room sv.heap u m.receiver sv.rooms) _
                (member-IsOk m.receiver named)
                λ member.
                  Ends-split P member _ _
                    (λ _.
                      Ends-bind (Lists sv.heap) P (get_users m.receiver sv.rooms) _
                        (get_users-Ends sv.heap sv.rooms g.rooms m.receiver named.index
                          named.hashed)
                        λ l found.
                          Ends-step P (broadcast sv.heap m l) _ (broadcast-IsOk sv.heap m l found)
                            λ out. tt)
                    (λ _. tt))
            (λ _. tt)
