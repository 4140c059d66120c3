-- ===== src/Server/Creating.antt =====
-- `CREATE_ROOM` of src/server/server.c from a connected user, for a free name that fits.
use bavardage.Prelude.{
  ℕ, zero, suc, ◌<◌, ◌≡◌, refl, ◌∙◌, ap, true, none, some, List, [], ◌∷◌, arith, length, get_or,
  set, get_or-set_self, if◌then◌else◌, ==_refl,
}
use bavardage.Prelude.Int.{pos, negsuc}
use bavardage.CString.{Str, str_eq, str_eq_refl}
use bavardage.Run.{Run, ok, ◌>>=◌}
use bavardage.Hash.{hash_user, hash_room_name}
use bavardage.Wire.{
  Message, clear_message, create_room, admin, ok_code, max_name_size, max_mess_size,
  max_room_name_size,
}
use bavardage.Users.{UserMap}
use bavardage.Users
use bavardage.Users.Store.{Ptr, User, Heap, load-ok}
use bavardage.Users.Valid.{Holds, no_entries, insert, add_user-used}
use bavardage.Rooms.{Room, RoomMap, add_user_in_room, at_first}
use bavardage.Rooms.Table.{view, IsTable, is_room_used-view, room_bucket-index, index-lt-size}
use bavardage.Rooms.Adding.{founder, strcpy-ok, add_room-new, IsTable-insert, view-insert}
use bavardage.Server.State.{Server}
use bavardage.Server.Requests.{Reply, on_create_room}

set-set : {A : Type 0} (l : List A) (n : ℕ) (x : A) → set (set l n x) n x ≡ set l n x
unfolding set
set-set [] n x = refl
set-set (y ∷ l) zero x = refl
set-set {A = A} (y ∷ l) (suc n) x = ap (λ (m : List A). y ∷ m) (set-set l n x)

at_first-same :
    (s : Str) (change : UserMap → Run UserMap) (r : Room) (l : List Room)
    → str_eq r.name s ≡ true
    → change r.users ≡ ok r.users
    → at_first s change (r ∷ l) ≡ ok (r ∷ l)
unfolding at_first
at_first-same s change r l same stays = rw (same, stays, at_first) refl

-- The founder is registered already, so the room stays as it is.
add_user_in_room-founder :
    (h : Heap) (rooms : RoomMap) (u : Ptr) (me : User) (k : ℕ) (s : Str) (n : ℕ) (r : Room)
    (l : List Room)
    → h u ≡ some me
    → hash_user me.name ≡ pos k
    → hash_room_name s ≡ pos n
    → n < length rooms
    → r.name ≡ s
    → Holds h r.users (insert k (u, me) no_entries)
    → add_user_in_room h u s (set rooms n (r ∷ l)) ≡ ok (set rooms n (r ∷ l))
unfolding add_user_in_room
add_user_in_room-founder h rooms u me k s n r l here there hashed inside same holds =
    let old : Users.add_user h u r.users ≡ ok (negsuc 0, r.users) =
      add_user-used holds u me k here there (rw (==_refl, str_eq_refl) refl) in
    let name : str_eq r.name s ≡ true = ap (λ (x : Str). str_eq x s) same ∙ str_eq_refl s in
    rw
      (
        room_bucket-index (set rooms n (r ∷ l)) s n hashed,
        get_or-set_self rooms n (r ∷ l) [] inside,
        at_first-same s (λ users. Users.add_user h u users >>= λ x. ok x.1) r l name (rw old refl),
      )
      (ap ok (set-set rooms n (r ∷ l)))

-- The two messages that the founder gets, and the response.
abbrev pub created : Server → User → Message → RoomMap → Reply
created sv me m rooms =
    let r : Message = record clear_message { sender = m.sender; content = m.content } in
    let named : Message = record r { sender = me.name } in
    record {
      server = record sv { rooms = rooms };
      out =
          (me.socket, record r { code = create_room })
          ∷ (me.socket, record named { code = admin })
          ∷ [];
      response = record named { code = ok_code };
    }

module _ (sv : Server) (table : IsTable sv.rooms) (u : Ptr) (me : User) (k : ℕ) (m : Message)
    (n : ℕ) (here : sv.heap u ≡ some me) (there : hash_user me.name ≡ pos k)
    (hashed : hash_room_name m.content ≡ pos n) (free : view n m.content sv.rooms ≡ none)
    (fits : length m.content < max_room_name_size)
    (sender_fits : length m.sender < max_name_size) where
  -- From a connected user whose login has an index for its hash, with a free name that fits and has
  -- one too, over a table of rooms in order: there is no fault, the founder is told of the room and
  -- then of its admin, and the table is in order, finds the room, with the founder as admin and only
  -- member, under the name, and every other name with such a hash finds what it found before.
  pub on_create_room-creates :
      (r : Room) × (rooms : RoomMap) × (on_create_room sv u m ≡ ok (created sv me m rooms))
      × IsTable rooms
      × (r.admin ≡ some u)
      × Holds sv.heap r.users (insert k (u, me) no_entries)
      × ((i : ℕ) (q : Str)
          → hash_room_name q ≡ pos i
          → view i q rooms ≡ (if str_eq m.content q then some r else view i q sv.rooms))
  unfolding on_create_room
  on_create_room-creates =
      let (r, run, same, boss, holds) =
        add_room-new sv.heap sv.rooms m.content n hashed (founder u me k here there) free fits in
      let inside : n < length sv.rooms = rw table.width (index-lt-size m.content n hashed) in
      (
        r,
        set sv.rooms n (r ∷ get_or sv.rooms n []),
        rw
            (
              is_room_used-view sv.rooms m.content n hashed,
              free,
              strcpy-ok max_mess_size m.content (omega (arith, fits)),
              run,
              ◌>>=◌,
              add_user_in_room-founder sv.heap sv.rooms u me k m.content n r (get_or sv.rooms n [])
                  here there hashed inside same holds,
              strcpy-ok max_name_size m.sender sender_fits,
              load-ok sv.heap u here,
            )
            refl,
        IsTable-insert sv.heap sv.rooms m.content n hashed r table same free fits,
        boss,
        holds,
        λ i q. view-insert sv.heap sv.rooms m.content n hashed r i q table same,
      )
