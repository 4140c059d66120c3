-- ===== src/Server/Keeping.antt =====
-- What each request leaves in order, where accesses behind `free` are faults: the rooms, and the
-- structures and the table of users as they were. Requests of users who are connected only; the
-- rounds that change the users are in `Rounds`.
use bavardage.Prelude.{◌≡◌, refl, false, some, []}
use bavardage.CString.{Str, str_eq, strcpy}
use bavardage.Run.Ensures.{Ensures, Ensures-bind, Ensures-step, Ensures-cases}
use bavardage.Wire.{Message, Code}
use bavardage.Users
use bavardage.Users.Store.{Ptr, User, load}
use bavardage.Rooms.{
  RoomMap, is_room_used, add_room, add_user_in_room, is_user_in_room, get_admin, get_users,
  remove_user_from_room, remove_room,
}
use bavardage.Rooms.Keeping.{
  Housed, add_room-Housed, remove_room-Housed, add_user_in_room-Housed,
  remove_user_from_room-Housed,
}
use bavardage.Server.State.{Server, Env, Out, home_room, broadcast}
use bavardage.Server.RoomOps
use bavardage.Server.RoomOps.{is_ptr}
use bavardage.Server.Requests.{
  Reply, on_create_room, on_join_room, on_delete_room, quit_member, on_quit_room, on_message, on_mp,
  serve, socket_of,
}

-- The reply's state has rooms in order, and else is the state before.
abbrev pub Serves : Server → Reply → Type 0
Serves sv r =
    Housed sv.heap r.server.rooms × (r.server.heap ≡ sv.heap) × (r.server.user_map ≡ sv.user_map)

module _ (sv : Server) (g : Housed sv.heap sv.rooms) (u : Ptr) (me : User)
    (here : sv.heap u ≡ some me) (buffer : Message) where
  on_create_room-Serves : Ensures (Serves sv) (on_create_room sv u buffer)
  unfolding on_create_room
  on_create_room-Serves =
      let P = Serves sv in
      Ensures-step P (is_room_used buffer.content sv.rooms) _ λ used.
        Ensures-step P (strcpy _ buffer.content) _ λ content.
          Ensures-cases P used _ _ (g, refl, refl)
            (Ensures-bind (λ r. Housed sv.heap r.1) P
              (add_room sv.heap buffer.content (some u) sv.rooms) _
              (add_room-Housed sv.heap buffer.content (some u) sv.rooms (me, here) g)
              λ r g₁.
                Ensures-bind (Housed sv.heap) P (add_user_in_room sv.heap u buffer.content r.1) _
                  (add_user_in_room-Housed sv.heap u me buffer.content r.1 here g₁)
                  λ rooms g₂.
                    Ensures-step P (strcpy _ buffer.sender) _
                      λ sender. Ensures-step P (load sv.heap u) _ λ me'. (g₂, refl, refl))

  pub join_room-Housed :
      (junk s : Str)
      → Ensures (λ r. Housed sv.heap r.0) (RoomOps.join_room sv.heap junk u s sv.rooms)
  unfolding RoomOps.join_room
  join_room-Housed junk s =
      let P = λ (r : RoomMap × Out). Housed sv.heap r.0 in
      Ensures-step P (get_users s sv.rooms) _ λ users. Ensures-step P (load sv.heap u) _ λ me'.
        Ensures-step P (strcpy _ s) _ λ content.
          Ensures-step P (broadcast sv.heap _ users) _ λ told.
            Ensures-bind (Housed sv.heap) P (add_user_in_room sv.heap u s sv.rooms) _
              (add_user_in_room-Housed sv.heap u me s sv.rooms here g)
              λ rooms' g'. Ensures-step P (get_admin s rooms') _ λ boss.
                Ensures-step P (RoomOps.name_admin sv.heap me' _ boss) _ λ named.
                  Ensures-step P (get_users s rooms') _ λ members.
                    Ensures-step P (RoomOps.list_members sv.heap me' boss _ members) _ λ listed. g'

  pub delete_room-Housed :
      (junk s : Str)
      → Ensures (λ r. Housed sv.heap r.0) (RoomOps.delete_room sv.heap junk s sv.rooms)
  unfolding RoomOps.delete_room
  delete_room-Housed junk s =
      let P = λ (r : RoomMap × Out). Housed sv.heap r.0 in
      Ensures-step P (get_users s sv.rooms) _ λ users. Ensures-step P (strcpy _ s) _ λ content.
        Ensures-step P (broadcast sv.heap _ users) _ λ told.
          Ensures-bind (λ r. Housed sv.heap r.1) P (remove_room s sv.rooms) _
            (remove_room-Housed sv.heap s sv.rooms g) λ r g'. g'

  on_join_room-Serves : (junk : Str) → Ensures (Serves sv) (on_join_room sv junk u buffer)
  unfolding on_join_room
  on_join_room-Serves junk =
      let P = Serves sv in
      Ensures-step P (is_room_used buffer.content sv.rooms) _ λ used.
        Ensures-cases P used _ _
          (Ensures-step P (is_user_in_room sv.heap u buffer.content sv.rooms) _ λ member.
            Ensures-cases P member _ _ (g, refl, refl)
              (Ensures-bind (λ r. Housed sv.heap r.0) P
                (RoomOps.join_room sv.heap junk u buffer.content sv.rooms) _
                (join_room-Housed junk buffer.content)
                λ r g'. Ensures-step P (strcpy _ buffer.content) _ λ content. (g', refl, refl)))
          (g, refl, refl)

  on_delete_room-Serves : (junk : Str) → Ensures (Serves sv) (on_delete_room sv junk u buffer)
  unfolding on_delete_room
  on_delete_room-Serves junk =
      let P = Serves sv in
      Ensures-step P (is_room_used buffer.content sv.rooms) _ λ used.
        Ensures-cases P used _ _
          (Ensures-step P (get_admin buffer.content sv.rooms) _ λ boss.
            Ensures-cases P (is_ptr u boss) _ _
              (Ensures-bind (λ r. Housed sv.heap r.0) P
                (RoomOps.delete_room sv.heap junk buffer.content sv.rooms) _
                (delete_room-Housed junk buffer.content)
                λ r g'. Ensures-step P (strcpy _ buffer.content) _ λ content. (g', refl, refl))
              (g, refl, refl))
          (g, refl, refl)

  quit_member-Serves :
      (env : Env) → env.keeps ≡ false → Ensures (Serves sv) (quit_member sv env u buffer)
  unfolding quit_member
  quit_member-Serves env strict =
      let P = Serves sv in
      Ensures-step P (RoomOps.quit_room sv.heap env.junk u buffer.content sv.rooms) _ λ out.
        Ensures-bind (Housed sv.heap) P
          (remove_user_from_room sv.heap env.keeps u buffer.content sv.rooms) _
          (rw strict (remove_user_from_room-Housed sv.heap u me buffer.content sv.rooms here g))
          λ rooms g'. Ensures-step P (strcpy _ buffer.content) _ λ content. (g', refl, refl)

  on_quit_room-Serves :
      (env : Env) → env.keeps ≡ false → Ensures (Serves sv) (on_quit_room sv env u buffer)
  unfolding on_quit_room
  on_quit_room-Serves env strict =
      let P = Serves sv in
      Ensures-step P (is_room_used buffer.content sv.rooms) _ λ used.
        Ensures-cases P used _ _
          (Ensures-cases P (str_eq home_room buffer.content) _ _ (g, refl, refl)
            (Ensures-step P (get_admin buffer.content sv.rooms) _ λ boss.
              Ensures-cases P (is_ptr u boss) _ _
                (Ensures-step P (is_user_in_room sv.heap u buffer.content sv.rooms) _ λ member.
                  Ensures-cases P member _ _ (on_delete_room-Serves env.junk) (g, refl, refl))
                (quit_member-Serves env strict)))
          (g, refl, refl)

  on_message-Serves : Ensures (Serves sv) (on_message sv u buffer)
  unfolding on_message
  on_message-Serves =
      let P = Serves sv in
      Ensures-step P (is_room_used buffer.receiver sv.rooms) _ λ used.
        Ensures-cases P used _ _
          (Ensures-step P (strcpy _ buffer.sender) _ λ _.
            Ensures-step P (is_user_in_room sv.heap u buffer.receiver sv.rooms) _ λ member.
              Ensures-cases P member _ _
                (Ensures-step P (get_users buffer.receiver sv.rooms) _
                  λ users. Ensures-step P (broadcast sv.heap buffer users) _ λ out. (g, refl, refl))
                (g, refl, refl))
          (g, refl, refl)

  on_mp-Serves : Ensures (Serves sv) (on_mp sv buffer)
  unfolding on_mp
  on_mp-Serves =
      let P = Serves sv in
      Ensures-step P (Users.is_login_used sv.heap buffer.receiver sv.user_map) _ λ used.
        Ensures-cases P used _ _
          (Ensures-cases P (str_eq buffer.content []) _ _ (g, refl, refl)
            (Ensures-step P (Users.get_user sv.heap buffer.receiver sv.user_map) _
              λ receiver. Ensures-step P (socket_of sv.heap receiver) _ λ socket. (g, refl, refl)))
          (g, refl, refl)

  -- A request of a user at an allocated address, where an access behind `free` is a fault: unless it
  -- is a fault of C, it leaves rooms that were in order in order, and the users and their table as
  -- they were.
  pub serve-Serves :
      (env : Env) (code : Code)
      → env.keeps ≡ false
      → Ensures (Serves sv) (serve sv env u buffer code)
  unfolding serve
  serve-Serves env Code.create_room strict = on_create_room-Serves
  serve-Serves env Code.join_room strict = on_join_room-Serves env.junk
  serve-Serves env Code.quit_room strict = on_quit_room-Serves env strict
  serve-Serves env Code.delete_room strict = on_delete_room-Serves env.junk
  serve-Serves env Code.message strict = on_message-Serves
  serve-Serves env Code.mp strict = on_mp-Serves
  serve-Serves env _ strict = (g, refl, refl)
