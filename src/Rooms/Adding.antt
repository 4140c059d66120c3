-- ===== src/Rooms/Adding.antt =====
-- `add_room` of src/common/room_manager.c on each of its paths.
use bavardage.Prelude.{
  ℕ, ◌<◌, ◌≡◌, refl, true, Option, none, some, [], ◌∷◌, arith, ◌==◌, if◌then◌else◌, is_some, length,
  get_or, set, get_or-set_self, get_or-set_ne, lt→ltb, Bool-cases, inl, inr, ==_iff,
}
use bavardage.Prelude.Int.{pos, negsuc}
use bavardage.CString.{Str, str_eq, strcpy}
use bavardage.Run.{ok, fault, overflow, out_of_bounds, ◌>>=◌}
use bavardage.Wire.{max_room_name_size}
use bavardage.Hash.{hash_room_name, hash_user}
use bavardage.Users.{UserMap, create_user_map}
use bavardage.Users.Store.{Ptr, User, Heap}
use bavardage.Users.Chains.{Entries}
use bavardage.Users.Valid.{Holds, no_entries, insert, create-Holds, added, add_user-new}
use bavardage.Rooms.{Room, RoomMap, first_named, first_users, add_room}
use bavardage.Rooms.Table.{
  view, IsTable, IsTable-set, room_bucket-index, is_room_used-view, is_room_used-negative,
  index-lt-size, name-apart,
}

-- The admin of a new room is an allocated user with a hashable name, or there is none; `es` are
-- the users of the room.
pub data Founder (h : Heap) : Option Ptr → (ℕ → Entries) → Type 0 where
  nobody : Founder h none no_entries
  founder :
      (a : Ptr) (u : User) (m : ℕ)
      → h a ≡ some u
      → hash_user u.name ≡ pos m
      → Founder h (some a) (insert m (a, u) no_entries)

first_users-Holds :
    (h : Heap) {admin : Option Ptr} {es : ℕ → Entries}
    → Founder h admin es
    → (users : UserMap) × (first_users h admin ≡ ok users) × Holds h users es
unfolding first_users
first_users-Holds h nobody = (create_user_map, refl, create-Holds h)
first_users-Holds h (founder a u m here hashed) =
    let (run, holds) = add_user-new (create-Holds h) a u m here hashed refl in
    (added (create-Holds h) a u m here hashed, rw run, holds)

pub strcpy-ok : (size : ℕ) (s : Str) → length s < size → strcpy size s ≡ ok s
unfolding strcpy
strcpy-ok size s h = rw (lt→ltb (length s) size h)

pub add_room-negative :
    (h : Heap) (rooms : RoomMap) (s : Str) (n : ℕ) (admin : Option Ptr)
    → hash_room_name s ≡ negsuc n
    → add_room h s admin rooms ≡ fault out_of_bounds
unfolding add_room
add_room-negative h rooms s n admin e = rw (is_room_used-negative rooms s n e)

module _ (h : Heap) (rooms : RoomMap) (s : Str) (n : ℕ) (hashed : hash_room_name s ≡ pos n) where
  -- A name in use is refused with -1, and the table is unchanged.
  pub add_room-used :
      (admin : Option Ptr)
      → is_some (view n s rooms) ≡ true
      → add_room h s admin rooms ≡ ok (negsuc 0, rooms)
  unfolding add_room
  add_room-used admin used = rw (is_room_used-view rooms s n hashed, used)

  -- A free name of 64 bytes or more overruns the array in the new structure.
  pub add_room-overflow :
      (admin : Option Ptr)
      → view n s rooms ≡ none
      → (length s < max_room_name_size → ⊥)
      → add_room h s admin rooms ≡ fault overflow
  unfolding add_room strcpy
  add_room-overflow admin free long = rw (is_room_used-view rooms s n hashed, free) (ground arith)

  pub add_room-free :
      (admin : Option Ptr)
      → view n s rooms ≡ none
      → length s < max_room_name_size
      → add_room h s admin rooms ≡ (
          first_users h admin >>= λ users. ok (
            pos 0,
            set rooms n
                (record { name = s; admin = admin; users = users; k = none } ∷ get_or rooms n []),
          ))
  unfolding add_room
  add_room-free admin free short = rw (
    is_room_used-view rooms s n hashed,
    free,
    strcpy-ok max_room_name_size s short,
    room_bucket-index rooms s n hashed,
  )

  pub add_room-new :
      {admin : Option Ptr} {es : ℕ → Entries}
      → Founder h admin es
      → view n s rooms ≡ none
      → length s < max_room_name_size
      → (r : Room) × (add_room h s admin rooms ≡ ok (pos 0, set rooms n (r ∷ get_or rooms n [])))
        × (r.name ≡ s)
        × (r.admin ≡ admin)
        × Holds h r.users es
  add_room-new {admin} by free short =
      let (users, run, holds) = first_users-Holds h by in
      (
        record { name = s; admin = admin; users = users; k = none },
        rw (add_room-free admin free short, run),
        refl,
        refl,
        holds,
      )

  -- With the new room in its bucket the table is still in order, and every name finds what it
  -- found before, but the new one.
  pub IsTable-insert :
      (r : Room)
      → IsTable rooms
      → r.name ≡ s
      → view n s rooms ≡ none
      → length s < max_room_name_size
      → IsTable (set rooms n (r ∷ get_or rooms n []))
  IsTable-insert r table same free short =
      IsTable-set rooms n (r ∷ get_or rooms n []) table (index-lt-size s n hashed)
        ((rw same hashed, rw same short), table.homes n) (rw same free, table.distinct n)

  pub view-insert :
      (r : Room) (m : ℕ) (q : Str)
      → IsTable rooms
      → r.name ≡ s
      → hash_room_name q ≡ pos m
      → view m q (set rooms n (r ∷ get_or rooms n []))
        ≡ (if str_eq s q then some r else view m q rooms)
  unfolding first_named
  view-insert r m q table same there = elim (Bool-cases (m == n)) [
    | inl here ↦ rw ((==_iff m n).0 here) (
        rw (
          get_or-set_self rooms n (r ∷ get_or rooms n []) []
              (rw table.width (index-lt-size s n hashed)),
          same,
        ))
    | inr apart ↦ rw (
      get_or-set_ne rooms n m (r ∷ get_or rooms n []) [] (ground arith),
      name-apart s n hashed m q there apart,
    )
  ]

  -- Over a table in order, a free name that fits and has an index for its hash, by nobody or by an
  -- allocated admin whose login has one too, gives a table in order in which that name finds the new
  -- room, with its admin and its first users, and every other name with such a hash what it found
  -- before.
  pub add_room-grows :
      {admin : Option Ptr} {es : ℕ → Entries}
      → IsTable rooms
      → Founder h admin es
      → view n s rooms ≡ none
      → length s < max_room_name_size
      → (r : Room) × (rooms' : RoomMap) × (add_room h s admin rooms ≡ ok (pos 0, rooms'))
        × IsTable rooms'
        × (r.admin ≡ admin)
        × Holds h r.users es
        × ((m : ℕ) (q : Str)
            → hash_room_name q ≡ pos m
            → view m q rooms' ≡ (if str_eq s q then some r else view m q rooms))
  add_room-grows table by free short =
      let (r, run, same, boss, holds) = add_room-new by free short in
      (
        r,
        set rooms n (r ∷ get_or rooms n []),
        run,
        IsTable-insert r table same free short,
        boss,
        holds,
        λ m q. view-insert r m q table same,
      )
