-- ===== src/Rooms/Keeping.antt =====
-- Every way of using the table of rooms that ends normally leaves rooms in order: the table itself,
-- the users of each room, and the admin of each room an allocated structure.
use bavardage.Prelude.{
  ℕ, All, ◌<◌, ◌≡◌, refl, ap, true, false, Option, none, some, List, [], ◌∷◌, arith, ◌==◌, is_some,
  length, get_or, set, Bool-cases, Option-cases, inl, inr, ltb, ltb→lt, lt→ltb, ==_iff,
  get_or-set_self, get_or-set_ne, get_or-replicate,
}
use bavardage.Prelude.Int.{pos}
use bavardage.CString.{Str, str_eq}
use bavardage.Run.{Run, ok, ◌>>=◌}
use bavardage.Run.Ensures.{Ensures, Ensures-bind}
use bavardage.Hash.{hash_room_size, hash_room_name}
use bavardage.Wire.{max_room_name_size}
use bavardage.Users.{UserMap, add_user, remove_user, create_user_map}
use bavardage.Users.Store.{Ptr, User, Heap}
use bavardage.Users.Valid.{create-Holds, no_entries}
use bavardage.Users.Keeping.{InOrder, add_user-InOrder, remove_user-InOrder}
use bavardage.Rooms.{
  Room, RoomMap, init_rooms, room_bucket, first_named, first_users, add_room, remove_room,
  remove_room_loop, at_first, add_user_in_room, remove_user_from_room,
}
use bavardage.Rooms.Table.{
  view, IsTable, IsHome, DistinctRooms, IsTable-set, index-lt-size, room_bucket-index,
  room_bucket-negative, init_rooms-IsTable, room_hash-cases,
}
use bavardage.Rooms.Adding.{add_room-used, add_room-negative, add_room-overflow, add_room-free}
use bavardage.Rooms.Removal.{
  All-remove, DistinctRooms-remove, remove_room-absent, remove_room-used, remove_room-negative,
}

abbrev pub IsAdmin : Heap → Option Ptr → Type 0
IsAdmin h none = Unit
IsAdmin h (some a) = (u : User) × (h a ≡ some u)

abbrev pub IsHoused : Heap → Room → Type 0
IsHoused h r = InOrder h r.users × IsAdmin h r.admin

pub record Housed (h : Heap) (rooms : RoomMap) : Type 0 where
  pub table : IsTable rooms
  pub housed : (i : ℕ) → All (IsHoused h) (get_or rooms i [])

-- One bucket in order.
pub record Tidy (h : Heap) (i : ℕ) (l : List Room) : Type 0 where
  pub homes : All (IsHome i) l
  pub distinct : DistinctRooms l
  pub housed : All (IsHoused h) l

pub Tidy-bucket :
    {h : Heap} {rooms : RoomMap} → Housed h rooms → (i : ℕ) → Tidy h i (get_or rooms i [])
Tidy-bucket g i = record {
  homes = g.table.homes i;
  distinct = g.table.distinct i;
  housed = g.housed i;
}

pub Housed-set :
    (h : Heap) (rooms : RoomMap) (n : ℕ) (l : List Room)
    → Housed h rooms
    → n < hash_room_size
    → Tidy h n l
    → Housed h (set rooms n l)
Housed-set h rooms n l g inside t = record {
  table = IsTable-set rooms n l g.table inside t.homes t.distinct;
  housed = λ i. elim (Bool-cases (i == n)) [
    | inl same ↦
        rw ((==_iff i n).0 same)
          (rw (get_or-set_self rooms n l [] (rw g.table.width inside)) t.housed)
    | inr apart ↦ rw (get_or-set_ne rooms n i l [] (ground arith)) (g.housed i)
  ];
}

pub Housed-init : (h : Heap) → Housed h init_rooms
unfolding init_rooms
Housed-init h = record { table = init_rooms-IsTable; housed = λ i. rw get_or-replicate tt }

-- Where `room_bucket` ends, it is at an index with its bucket.
pub room_bucket-at :
    (s : Str) (rooms : RoomMap)
    → Ensures
        (λ r. (hash_room_name s ≡ pos r.0) × (r.0 < hash_room_size) × (r.1 ≡ get_or rooms r.0 []))
        (room_bucket s rooms)
room_bucket-at s rooms = elim (room_hash-cases s) [
  | inl (n, e) ↦ rw (room_bucket-index rooms s n e) (e, index-lt-size s n e, refl)
  | inr (n, e) ↦ rw (room_bucket-negative rooms s n e) tt
]

module _ (h : Heap) (s : Str) (change : UserMap → Run UserMap)
    (keep : (m : UserMap) → InOrder h m → Ensures (InOrder h) (change m)) where
  at_first-nil : at_first s change [] ≡ ok []
  unfolding at_first
  at_first-nil = refl

  at_first-here :
      (r : Room) (l : List Room)
      → str_eq r.name s ≡ true
      → at_first s change (r ∷ l)
        ≡ (change r.users >>= λ users. ok (record r { users = users } ∷ l))
  unfolding at_first
  at_first-here r l same = rw (same, at_first)

  at_first-behind :
      (r : Room) (l : List Room)
      → str_eq r.name s ≡ false
      → at_first s change (r ∷ l) ≡ (at_first s change l >>= λ l'. ok (r ∷ l'))
  unfolding at_first
  at_first-behind r l other = rw (other, at_first)

  -- The names, and so what is found, stay in place.
  abbrev Kept : ℕ → List Room → List Room → Type 0
  Kept i l l' = Tidy h i l' × ((q : Str) → first_named q l ≡ none → first_named q l' ≡ none)

  at_first-Kept : (i : ℕ) (l : List Room) → Tidy h i l → Ensures (Kept i l) (at_first s change l)
  unfolding first_named
  at_first-Kept i [] t = rw at_first-nil (t, λ q e. e)
  at_first-Kept i (r ∷ l) t = elim (Bool-cases (str_eq r.name s)) [
    | inl same ↦ rw (at_first-here r l same) (
        Ensures-bind (InOrder h) (Kept i (r ∷ l)) (change r.users) _ (keep r.users t.housed.0.0)
          λ m good. (
            record {
              homes = t.homes;
              distinct = t.distinct;
              housed = ((good, t.housed.0.1), t.housed.1);
            },
            λ q e. ground arith,
          ))
    | inr other ↦ rw (at_first-behind r l other) (
        Ensures-bind (Kept i l) (Kept i (r ∷ l)) (at_first s change l) _
          (at_first-Kept i l
            (record { homes = t.homes.1; distinct = t.distinct.1; housed = t.housed.1 }))
          λ l' (t', names). (
            record {
              homes = (t.homes.0, t'.homes);
              distinct = (names r.name t.distinct.0, t'.distinct);
              housed = (t.housed.0, t'.housed);
            },
            λ q e. ground (arith, names q),
          ))
  ]

  pub at_first-Housed :
      (rooms : RoomMap)
      → Housed h rooms
      → Ensures
          (Housed h)
          (do (index, l) ← room_bucket s rooms; l' ← at_first s change l; ok (set rooms index l'))
  at_first-Housed rooms g =
      Ensures-bind _ (Housed h) (room_bucket s rooms) _ (room_bucket-at s rooms)
        λ r (hashed, inside, at).
          Ensures-bind (Kept r.0 r.1) (Housed h) (at_first s change r.1) _
            (at_first-Kept r.0 r.1 (rw at (Tidy-bucket g r.0)))
            λ l' (t, _). Housed-set h rooms r.0 l' g inside t

Tidy-removed :
    (h : Heap) (s : Str) (i : ℕ) (l : List Room) → Tidy h i l → Tidy h i (remove_room_loop s l)
Tidy-removed h s i l t = record {
  homes = All-remove (IsHome i) s l t.homes;
  distinct = DistinctRooms-remove s l t.distinct;
  housed = All-remove (IsHoused h) s l t.housed;
}

pub add_user_in_room-Housed :
    (h : Heap) (u : Ptr) (it : User) (s : Str) (rooms : RoomMap)
    → h u ≡ some it
    → Housed h rooms
    → Ensures (Housed h) (add_user_in_room h u s rooms)
unfolding add_user_in_room
add_user_in_room-Housed h u it s rooms here g =
    at_first-Housed h s (λ m. add_user h u m >>= λ r. ok r.1)
      (λ m (es, holds).
        Ensures-bind (λ r. InOrder h r.1) (InOrder h) (add_user h u m) _
          (add_user-InOrder holds u it here) (λ r good. good))
      rooms g

pub remove_user_from_room-Housed :
    (h : Heap) (u : Ptr) (it : User) (s : Str) (rooms : RoomMap)
    → h u ≡ some it
    → Housed h rooms
    → Ensures (Housed h) (remove_user_from_room h false u s rooms)
unfolding remove_user_from_room
remove_user_from_room-Housed h u it s rooms here g =
    at_first-Housed h s (λ m. remove_user h false u m >>= λ r. ok r.1)
      (λ m (es, holds).
        Ensures-bind (λ r. r.1 ≡ m) (InOrder h) (remove_user h false u m) _
          (remove_user-InOrder holds u it here) (λ r same. rw same (es, holds)))
      rooms g

-- A removal that ends leaves rooms in order.
pub remove_room-Housed :
    (h : Heap) (s : Str) (rooms : RoomMap)
    → Housed h rooms
    → Ensures (λ r. Housed h r.1) (remove_room s rooms)
remove_room-Housed h s rooms g = elim (room_hash-cases s) [
  | inr (n, e) ↦ rw (remove_room-negative rooms s n e) tt
  | inl (n, e) ↦ elim (Option-cases (view n s rooms)) [
    | inl absent ↦ rw (remove_room-absent rooms s n e g.table absent) g
    | inr (r, found) ↦
        let (run, table) = remove_room-used rooms s n e g.table (ap is_some found) in
        rw run (
          Housed-set h rooms n (remove_room_loop s (get_or rooms n [])) g (index-lt-size s n e)
            (Tidy-removed h s n (get_or rooms n []) (Tidy-bucket g n)))
  ]
]

first_users-InOrder :
    (h : Heap) (admin : Option Ptr) → IsAdmin h admin → Ensures (InOrder h) (first_users h admin)
unfolding first_users
first_users-InOrder h none boss = (no_entries, create-Holds h)
first_users-InOrder h (some a) (u, here) =
    Ensures-bind (λ r. InOrder h r.1) (InOrder h) (add_user h a create_user_map) _
      (add_user-InOrder (create-Holds h) a u here) (λ r good. good)

-- A creation by an allocated admin or by nobody, over rooms in order: unless it is a fault of C, it
-- leaves rooms in order, whether it adds the room or refuses it.
pub add_room-Housed :
    (h : Heap) (s : Str) (admin : Option Ptr) (rooms : RoomMap)
    → IsAdmin h admin
    → Housed h rooms
    → Ensures (λ r. Housed h r.1) (add_room h s admin rooms)
add_room-Housed h s admin rooms boss g = elim (room_hash-cases s) [
  | inr (n, e) ↦ rw (add_room-negative h rooms s n admin e) tt
  | inl (n, e) ↦ elim (Option-cases (view n s rooms)) [
    | inr (r, found) ↦ rw (add_room-used h rooms s n e admin (ap is_some found)) g
    | inl free ↦ elim (Bool-cases (ltb (length s) max_room_name_size)) [
      | inr long ↦
          rw
            (add_room-overflow h rooms s n e admin free
              (λ short. ground (arith, lt→ltb (length s) max_room_name_size short)))
            tt
      | inl short ↦ rw (add_room-free h rooms s n e admin free (ltb→lt _ _ short)) (
          Ensures-bind (InOrder h) (λ r. Housed h r.1) (first_users h admin) _
            (first_users-InOrder h admin boss)
            λ users good. Housed-set h rooms n _ g (index-lt-size s n e) (record {
              homes = ((e, ltb→lt _ _ short), g.table.homes n);
              distinct = (free, g.table.distinct n);
              housed = ((good, boss), g.housed n);
            }))
    ]
  ]
]
