-- ===== src/Server/Ending.antt =====
-- `join_room` and `delete_room` of src/server/server.c, and what they call, end without a fault where
-- the rooms are in order and the name fits and has an index for its hash.
use bavardage.Prelude.{ℕ, All, ◌<◌, ◌≡◌, Option, none, some, [], ◌∷◌, length, List}
use bavardage.Prelude.Int.{pos}
use bavardage.CString.{Str, strcpy}
use bavardage.Run.Ends.{IsOk, Ends-bind, Ends-step}
use bavardage.Hash.{hash_user, hash_room_name}
use bavardage.Wire.{Message, max_mess_size}
use bavardage.Users.Store.{Ptr, User, Heap, load-ok, load}
use bavardage.Users.Chains.{Entries}
use bavardage.Rooms.{RoomMap, is_room_used, add_user_in_room, get_admin, get_users, remove_room}
use bavardage.Rooms.Table.{is_room_used-view}
use bavardage.Rooms.Adding.{strcpy-ok}
use bavardage.Rooms.Members.{addresses}
use bavardage.Rooms.Keeping.{Housed, IsAdmin}
use bavardage.Rooms.Ending.{
  Lists, get_users-Ends, get_admin-Ends, remove_room-Ends, add_user_in_room-Ends,
}
use bavardage.Server.State.{Out, broadcast}
use bavardage.Server.RoomOps
use bavardage.Server.RoomOps.{is_ptr, list_members, name_admin, join_room}
use bavardage.Server.Delivery.{broadcast-copies}

-- A name of a room whose hash is an index of the table, and that is shorter than an array.
pub record Named (s : Str) (size : ℕ) : Type 0 where
  pub index : ℕ
  pub hashed : hash_room_name s ≡ pos index
  pub fits : length s < size

pub strcpy-IsOk : (size : ℕ) (s : Str) → length s < size → IsOk (strcpy size s)
strcpy-IsOk size s fits = rw (strcpy-ok size s fits) tt

pub load-IsOk : (h : Heap) (p : Ptr) (u : User) → h p ≡ some u → IsOk (load h p)
load-IsOk h p u here = rw (load-ok h p here) tt

pub broadcast-IsOk : (h : Heap) (m : Message) (l : List Ptr) → Lists h l → IsOk (broadcast h m l)
broadcast-IsOk h m l found = rw (found.same, broadcast-copies h m found.entries found.at) tt

pub is_room_used-IsOk :
    (rooms : RoomMap) (s : Str) {size : ℕ} → Named s size → IsOk (is_room_used s rooms)
is_room_used-IsOk rooms s named = rw (is_room_used-view rooms s named.index named.hashed) tt

list_members-IsOk :
    (h : Heap) (me : User) (boss : Option Ptr) (m : Message) (es : Entries)
    → All (λ e. h e.0 ≡ some e.1) es
    → IsOk (list_members h me boss m (addresses es))
unfolding list_members
list_members-IsOk h me boss m [] at = tt
list_members-IsOk h me boss m (e ∷ es) at =
    Ends-step _ (load h e.0) _ (load-IsOk h e.0 e.1 at.0) λ it.
      Ends-step _ (list_members h me boss m (addresses es)) _
        (list_members-IsOk h me boss m es at.1) λ rest. tt

name_admin-IsOk :
    (h : Heap) (me : User) (m : Message) (boss : Option Ptr)
    → IsAdmin h boss
    → IsOk (name_admin h me m boss)
unfolding name_admin
name_admin-IsOk h me m none it = tt
name_admin-IsOk h me m (some a) (u, here) =
    Ends-step _ (load h a) _ (load-IsOk h a u here) λ boss. tt

module _ (h : Heap) (rooms : RoomMap) (g : Housed h rooms) (s : Str)
    (named : Named s max_mess_size) where
  pub join_room-IsOk :
      (junk : Str) (u : Ptr) (me : User) (k : ℕ)
      → h u ≡ some me
      → hash_user me.name ≡ pos k
      → IsOk (join_room h junk u s rooms)
  unfolding join_room
  join_room-IsOk junk u me k here there =
      let P = λ (r : RoomMap × Out). Unit in
      let n = named.index in
      let hashed = named.hashed in
      Ends-bind (Lists h) P (get_users s rooms) _ (get_users-Ends h rooms g s n hashed) λ users old.
        Ends-step P (load h u) _ (load-IsOk h u me here) λ it.
          Ends-step P (strcpy _ s) _ (strcpy-IsOk _ s named.fits) λ content.
            Ends-step P (broadcast h _ users) _ (broadcast-IsOk h _ users old) λ told.
              Ends-bind (Housed h) P (add_user_in_room h u s rooms) _
                (add_user_in_room-Ends h rooms g s n hashed u me k here there)
                λ rooms' g'.
                  Ends-bind (IsAdmin h) P (get_admin s rooms') _
                    (get_admin-Ends h rooms' g' s n hashed)
                    λ boss it'.
                      Ends-step P (name_admin h it _ boss) _ (name_admin-IsOk h it _ boss it')
                        λ first.
                          Ends-bind (Lists h) P (get_users s rooms') _
                            (get_users-Ends h rooms' g' s n hashed)
                            λ members new. rw new.same (
                              Ends-step P (list_members h it boss _ (addresses new.entries)) _
                                (list_members-IsOk h it boss _ new.entries new.at) λ listed. tt)

  pub delete_room-IsOk : (junk : Str) → IsOk (RoomOps.delete_room h junk s rooms)
  unfolding RoomOps.delete_room
  delete_room-IsOk junk =
      let P = λ (r : RoomMap × Out). Unit in
      let n = named.index in
      Ends-bind (Lists h) P (get_users s rooms) _ (get_users-Ends h rooms g s n named.hashed)
        λ users found. Ends-step P (strcpy _ s) _ (strcpy-IsOk _ s named.fits) λ content.
          Ends-step P (broadcast h _ users) _ (broadcast-IsOk h _ users found) λ told.
            Ends-bind (λ r. Housed h r.1) P (remove_room s rooms) _
              (remove_room-Ends h rooms g s n named.hashed) λ r good. tt
