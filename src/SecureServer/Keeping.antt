-- ===== src/SecureServer/Keeping.antt =====
-- What the requests to src/serversec/secure_server.c leave in order, where accesses behind `free` are
-- faults: the rooms, and the structures and the table of users as they were.
use bavardage.Prelude.{◌≡◌, refl, false, Option, none, some, ◌∷◌, ◌++◌, Option-cases, inl, inr}
use bavardage.CString.{Str, str_eq, strcpy}
use bavardage.Run.{Run, ◌>>=◌}
use bavardage.Run.Ensures.{Ensures, Ensures-bind, Ensures-step, Ensures-cases}
use bavardage.Bytes.{c_str, strtok_first}
use bavardage.KeyMessage.{bar, put_keys_behind}
use bavardage.Wire.{Message}
use bavardage.Users
use bavardage.Users.Store.{Ptr, User, Heap, load}
use bavardage.Rooms.{
  RoomMap, is_room_used, add_room, add_user_in_room, is_user_in_room, get_admin, get_users,
  remove_user_from_room, remove_room,
}
use bavardage.Rooms.Keeping.{
  Housed, IsAdmin, add_room-Housed, remove_room-Housed, add_user_in_room-Housed,
  remove_user_from_room-Housed,
}
use bavardage.Server.State.{Out, broadcast}
use bavardage.Accounts.Sql.{Sqlite}
use bavardage.SecureServer.State.{State, Session, Env, Turn, deref, same_ptr, home_room_sec}
use bavardage.SecureServer.RoomOps.{Quit, quit_room_by, delete_room_by, mark_name}
use bavardage.SecureServer.Requests.{
  on_create_room_sec, on_delete_room_sec, quit_member_sec, on_quit_room_sec, on_mp_sec,
}

-- The rooms are in order, and else the tables are those before, and so is the thread's user.
abbrev pub Serves : {S : Sqlite} → State S → Session → Turn S → Type 0
Serves t s r =
    Housed t.server.heap r.state.server.rooms
    × (r.state.server.heap ≡ t.server.heap)
    × (r.state.server.user_map ≡ t.server.user_map)
    × (r.session.user ≡ s.user)

-- What follows the thread's user: a fault where it is NULL, and else about an allocated user.
user_cases {ℓ κ} :
    {A : Type ℓ} {h : Heap} (Q : A → Type κ) (user : Option Ptr)
    → IsAdmin h user
    → (f : Ptr → Run A) → ((u : Ptr) (me : User) → h u ≡ some me → Ensures Q (f u))
    → Ensures Q (deref user >>= f)
unfolding deref
user_cases Q none anyone f next = tt
user_cases Q (some u) (me, here) f next = next u me here

module _ {S : Sqlite} (t : State S) (env : Env) (s : Session) (buffer : Message)
    (g : Housed t.server.heap t.server.rooms) (anyone : IsAdmin t.server.heap s.user)
    (strict : env.keeps ≡ false) where
  pub on_create_room_sec-Serves : Ensures (Serves t s) (on_create_room_sec t env s buffer)
  unfolding on_create_room_sec
  on_create_room_sec-Serves =
      let P = Serves t s in
      Ensures-step P (is_room_used buffer.content t.server.rooms) _ λ used.
        Ensures-cases P used _ _
          (Ensures-step P (strcpy _ buffer.content) _ λ content. (g, refl, refl, refl))
          (Ensures-bind (λ r. Housed t.server.heap r.1) P
            (add_room t.server.heap buffer.content s.user t.server.rooms) _
            (add_room-Housed t.server.heap buffer.content s.user t.server.rooms anyone g)
            λ r g₁.
              user_cases P s.user anyone (λ v. add_user_in_room t.server.heap v _ r.1 >>= _)
                λ u me here.
                  Ensures-bind (Housed t.server.heap) P
                    (add_user_in_room t.server.heap u buffer.content r.1) _
                    (add_user_in_room-Housed t.server.heap u me buffer.content r.1 here g₁)
                    λ rooms g₂. Ensures-step P (strcpy _ buffer.sender) _ λ sender.
                      Ensures-step P (put_keys_behind env.beyond env.stale buffer.content env.keys)
                        _ λ content. (g₂, refl, refl, refl))

  pub on_delete_room_sec-Serves : Ensures (Serves t s) (on_delete_room_sec t env s buffer)
  unfolding on_delete_room_sec delete_room_by
  on_delete_room_sec-Serves =
      let P = Serves t s in
      let Q : RoomMap × Out → Type 0 = λ r. Housed t.server.heap r.0 in
      Ensures-step P (get_admin buffer.content t.server.rooms) _ λ boss.
        Ensures-cases P (same_ptr s.user boss) _ _
          (Ensures-bind Q P (delete_room_by t.server.heap env.junk buffer.content t.server.rooms) _
            (Ensures-step Q (get_users buffer.content t.server.rooms) _ λ users.
              Ensures-step Q (strcpy _ buffer.content) _ λ content.
                Ensures-step Q (broadcast t.server.heap _ users) _ λ told.
                  Ensures-bind (λ r. Housed t.server.heap r.1) Q
                    (remove_room buffer.content t.server.rooms) _
                    (remove_room-Housed t.server.heap buffer.content t.server.rooms g) λ r g'. g')
            λ r g'. (g', refl, refl, refl))
          (g, refl, refl, refl)

  quit_room_by-Housed :
      (u : Ptr) (me : User) (array : Str)
      → t.server.heap u ≡ some me
      → Ensures
          (λ q. Housed t.server.heap q.rooms)
          (quit_room_by t.server.heap env u array t.server.rooms)
  unfolding quit_room_by
  quit_room_by-Housed u me array here =
      let Q : Quit → Type 0 = λ q. Housed t.server.heap q.rooms in
      Ensures-bind (Housed t.server.heap) Q
        (remove_user_from_room t.server.heap env.keeps u (c_str array) t.server.rooms) _
        (rw strict
          (remove_user_from_room-Housed t.server.heap u me (c_str array) t.server.rooms here g))
        λ rooms g'. Ensures-step Q (load t.server.heap u) _ λ it.
          Ensures-step Q (strcpy _ (c_str array)) _ λ content.
            Ensures-step Q (mark_name env array) _ λ marked.
              Ensures-step Q (get_users (c_str marked) rooms) _
                λ l. Ensures-step Q (broadcast t.server.heap _ l) _ λ out. g'

  quit_member_sec-Serves : Ensures (Serves t s) (quit_member_sec t env s buffer)
  unfolding quit_member_sec
  quit_member_sec-Serves =
      let P = Serves t s in
      let array = buffer.content ++ (0 ∷ env.stale) in
      user_cases P s.user anyone (λ v. quit_room_by t.server.heap env v array t.server.rooms >>= _)
        λ u me here.
          Ensures-bind (λ q. Housed t.server.heap q.rooms) P
            (quit_room_by t.server.heap env u array t.server.rooms) _
            (quit_room_by-Housed u me array here)
            λ left g'. elim (Option-cases (strtok_first bar (c_str left.array))) [
              | inl none_left ↦ rw none_left tt
              | inr (name, found) ↦
                  rw found (Ensures-step P (strcpy _ name) _ λ content. (g', refl, refl, refl))
            ]

  pub on_quit_room_sec-Serves : Ensures (Serves t s) (on_quit_room_sec t env s buffer)
  unfolding on_quit_room_sec
  on_quit_room_sec-Serves =
      let P = Serves t s in
      Ensures-step P (is_room_used buffer.content t.server.rooms) _ λ used.
        Ensures-cases P used _ _
          (Ensures-cases P (str_eq home_room_sec buffer.content) _ _ (g, refl, refl, refl)
            (Ensures-step P (get_admin buffer.content t.server.rooms) _ λ boss.
              Ensures-cases P (same_ptr s.user boss) _ _
                (Ensures-step P (deref s.user) _ λ v.
                  Ensures-step P (is_user_in_room t.server.heap v buffer.content t.server.rooms) _
                    λ member.
                      Ensures-cases P member _ _ on_delete_room_sec-Serves (g, refl, refl, refl))
                quit_member_sec-Serves))
          (g, refl, refl, refl)

  pub on_mp_sec-Serves : Ensures (Serves t s) (on_mp_sec t env s buffer)
  unfolding on_mp_sec
  on_mp_sec-Serves =
      let P = Serves t s in
      Ensures-step P (Users.get_user t.server.heap buffer.receiver t.server.user_map) _ λ found.
        elim (Option-cases found) [
          | inl nobody ↦ rw nobody (g, refl, refl, refl)
          | inr (other, there) ↦ rw there (
              Ensures-step P (put_keys_behind env.beyond env.stale buffer.receiver env.keys) _
                λ theirs. Ensures-step P (deref s.user) _ λ v.
                  Ensures-step P (load t.server.heap v) _ λ it.
                    Ensures-step P (put_keys_behind env.beyond env.stale buffer.sender env.keys) _
                      λ ours. Ensures-step P (load t.server.heap other) _ λ that.
                        Ensures-step P (strcpy _ buffer.content) _ λ content.
                          Ensures-step P (strcpy _ buffer.receiver) _
                            λ receiver. (g, refl, refl, refl))
        ]
