-- ===== src/Rooms/Removal.antt =====
-- `remove_room` of src/common/room_manager.c: what each name finds afterwards. A match at the head
-- of a bucket empties the bucket, whatever stands behind it.
use bavardage.Prelude.{
  ℕ, All, ◌≡◌, Bool, true, false, ◌&&◌, none, List, [], ◌∷◌, arith, ◌==◌, if◌then◌else◌, is_some,
  get_or, set, get_or-set_self, get_or-set_ne, Bool-cases, inl, inr, ==_iff, ==_refl,
}
use bavardage.Prelude.Int.{pos, negsuc}
use bavardage.CString.{Str, str_eq, str_eq_refl, eq_of_str_eq}
use bavardage.Run.{ok, fault, out_of_bounds}
use bavardage.Hash.{hash_room_name}
use bavardage.Rooms.{Room, RoomMap, first_named, remove_room, remove_room_loop, splice}
use bavardage.Rooms.Table.{
  view, IsTable, IsTable-set, IsHome, DistinctRooms, room_bucket-index, is_room_used-view,
  is_room_used-negative, index-lt-size, name-apart,
}

-- The bucket begins with a room of that name.
abbrev pub heads : Str → List Room → Bool
heads s [] = false
heads s (t ∷ next) = str_eq t.name s

first_named-splice :
    (s q : Str) (l : List Room)
    → DistinctRooms l
    → first_named q (splice s l) ≡ (if str_eq s q then none else first_named q l)
unfolding first_named splice
first_named-splice s q [] distinct = ground arith
first_named-splice s q (t ∷ next) distinct = ground (
  arith,
  eq_of_str_eq t.name s,
  eq_of_str_eq s q,
  eq_of_str_eq t.name q,
  str_eq_refl s,
  str_eq_refl q,
  distinct.0,
  first_named-splice s q next distinct.1,
)

All-splice {ℓ} : (P : Room → Type ℓ) (s : Str) (l : List Room) → All P l → All P (splice s l)
unfolding splice
All-splice P s [] h = h
All-splice P s (t ∷ next) h = elim (Bool-cases (str_eq t.name s)) [
  | inl same ↦ rw same h.1
  | inr other ↦ rw other (h.0, All-splice P s next h.1)
]

pub All-remove {ℓ} :
    (P : Room → Type ℓ) (s : Str) (l : List Room) → All P l → All P (remove_room_loop s l)
unfolding remove_room_loop
All-remove P s [] h = h
All-remove P s (t ∷ next) h = elim (Bool-cases (str_eq t.name s)) [
  | inl same ↦ rw same tt
  | inr other ↦ rw other (h.0, All-splice P s next h.1)
]

first_named-splice-none :
    (s q : Str) (l : List Room) → first_named q l ≡ none → first_named q (splice s l) ≡ none
unfolding first_named splice
first_named-splice-none s q [] h = h
first_named-splice-none s q (t ∷ next) h = ground (arith, first_named-splice-none s q next)

DistinctRooms-splice : (s : Str) (l : List Room) → DistinctRooms l → DistinctRooms (splice s l)
unfolding splice
DistinctRooms-splice s [] h = h
DistinctRooms-splice s (t ∷ next) h = elim (Bool-cases (str_eq t.name s)) [
  | inl same ↦ rw same h.1
  | inr other ↦
      rw other (first_named-splice-none s t.name next h.0, DistinctRooms-splice s next h.1)
]

first_named-remove :
    (s q : Str) (l : List Room)
    → DistinctRooms l
    → first_named q (remove_room_loop s l)
      ≡ (if heads s l then none else if str_eq s q then none else first_named q l)
unfolding first_named remove_room_loop
first_named-remove s q [] distinct = ground arith
first_named-remove s q (t ∷ next) distinct = ground (
  arith,
  eq_of_str_eq s q,
  eq_of_str_eq t.name q,
  str_eq_refl s,
  first_named-splice s q next distinct.1,
)

pub DistinctRooms-remove :
    (s : Str) (l : List Room) → DistinctRooms l → DistinctRooms (remove_room_loop s l)
unfolding remove_room_loop
DistinctRooms-remove s [] h = h
DistinctRooms-remove s (t ∷ next) h = elim (Bool-cases (str_eq t.name s)) [
  | inl same ↦ rw same tt
  | inr other ↦
      rw other (first_named-splice-none s t.name next h.0, DistinctRooms-splice s next h.1)
]

pub remove_room-negative :
    (rooms : RoomMap) (s : Str) (n : ℕ)
    → hash_room_name s ≡ negsuc n
    → remove_room s rooms ≡ fault out_of_bounds
unfolding remove_room
remove_room-negative rooms s n e = rw (is_room_used-negative rooms s n e)

module _ (rooms : RoomMap) (s : Str) (n : ℕ) (hashed : hash_room_name s ≡ pos n)
    (table : IsTable rooms) where
  abbrev pub removed : RoomMap
  removed = set rooms n (remove_room_loop s (get_or rooms n []))

  -- A name that is not in use is refused with -1, and the table is unchanged.
  pub remove_room-absent : view n s rooms ≡ none → remove_room s rooms ≡ ok (negsuc 0, rooms)
  unfolding remove_room
  remove_room-absent absent = rw (is_room_used-view rooms s n hashed, absent)

  pub remove_room-used :
      is_some (view n s rooms) ≡ true
      → (remove_room s rooms ≡ ok (pos 0, removed)) × IsTable removed
  unfolding remove_room
  remove_room-used used = (
    rw (is_room_used-view rooms s n hashed, used, room_bucket-index rooms s n hashed),
    IsTable-set rooms n _ table (index-lt-size s n hashed)
        (All-remove (IsHome n) s _ (table.homes n)) (DistinctRooms-remove s _ (table.distinct n)),
  )

  pub view-removed :
      (m : ℕ) (q : Str)
      → hash_room_name q ≡ pos m
      → view m q removed ≡ (
          if (m == n) && heads s (get_or rooms n [])
          then none
          else if str_eq s q
          then none
          else view m q rooms)
  view-removed m q there = elim (Bool-cases (m == n)) [
    | inl here ↦ rw ((==_iff m n).0 here) (
        rw
          (
            get_or-set_self rooms n (remove_room_loop s (get_or rooms n [])) []
                (rw table.width (index-lt-size s n hashed)),
            ==_refl,
          )
          (first_named-remove s q (get_or rooms n []) (table.distinct n)))
    | inr apart ↦ rw (
      get_or-set_ne rooms n m (remove_room_loop s (get_or rooms n [])) [] (ground arith),
      apart,
      name-apart s n hashed m q there apart,
    )
  ]

  -- A removal of a name in use answers 0 and leaves a table in order in which that name finds
  -- nothing. The others with an index for their hash find what they found, but for those in the same
  -- bucket if the room stood at its head: they find nothing either. The name itself has an index for
  -- its hash, and the table was in order.
  pub remove_room-view :
      is_some (view n s rooms) ≡ true
      → (rooms' : RoomMap) × (remove_room s rooms ≡ ok (pos 0, rooms'))
        × IsTable rooms'
        × ((m : ℕ) (q : Str)
            → hash_room_name q ≡ pos m
            → view m q rooms' ≡ (
                if (m == n) && heads s (get_or rooms n [])
                then none
                else if str_eq s q
                then none
                else view m q rooms))
  remove_room-view used =
      let (run, order) = remove_room-used used in (removed, run, order, view-removed)
