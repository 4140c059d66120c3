-- ===== src/Rooms/Table.antt =====
-- The table of rooms against its contract: what the lookups of src/common/room_manager.c find,
-- and what `add_room` does to that on each of its paths.
use bavardage.Prelude.{
  ℕ, All, ◌<◌, ◌≡◌, refl, sym, ◌∙◌, ap, false, Option, none, some, List, [], ◌∷◌, arith, ◌==◌,
  is_some, length, get_or, set, length-set, length-replicate, get_or-replicate, get_or-set_self,
  get_or-set_ne, lt→ltb, Bool-cases, ◌⊎◌, inl, inr, ==_iff,
}
use bavardage.Prelude.Int.{ℤ, pos, negsuc}
use bavardage.CString.{Str, str_eq, eq_of_str_eq}
use bavardage.Run.{ok, fault, out_of_bounds}
use bavardage.Wire.{max_room_name_size}
use bavardage.Hash.{hash_room_size, hash_room_name, index_in}
use bavardage.Hash.Range.{hash_bounds}
use bavardage.Rooms.{
  Room, RoomMap, init_rooms, room_bucket, first_named, is_room_used, get_admin, admin_of,
  get_keys_from_room, keys_of,
}

-- The room of that name, for a name that hashes to `n`.
abbrev pub view : ℕ → Str → RoomMap → Option Room
view n s rooms = first_named s (get_or rooms n [])

abbrev pub DistinctRooms : List Room → Type 0
DistinctRooms [] = Unit
DistinctRooms (r ∷ rs) = (first_named r.name rs ≡ none) × DistinctRooms rs

-- A room stands in its own bucket, and its name has fitted in the array of the structure.
abbrev pub IsHome : ℕ → Room → Type 0
IsHome i r = (hash_room_name r.name ≡ pos i) × (length r.name < max_room_name_size)

pub record IsTable (rooms : RoomMap) : Type 0 where
  pub width : length rooms ≡ hash_room_size
  pub homes : (i : ℕ) → All (IsHome i) (get_or rooms i [])
  pub distinct : (i : ℕ) → DistinctRooms (get_or rooms i [])

pub init_rooms-IsTable : IsTable init_rooms
unfolding init_rooms
init_rooms-IsTable = record {
  width = length-replicate {A = List Room} hash_room_size [];
  homes = λ i. rw get_or-replicate tt;
  distinct = λ i. rw get_or-replicate tt;
}

pub index-lt-size : (s : Str) (n : ℕ) → hash_room_name s ≡ pos n → n < hash_room_size
index-lt-size s n e = omega (arith, rw e at ((hash_bounds s).1))

-- A hash is an index or negative.
pub room_hash-cases :
    (s : Str) → ((n : ℕ) × (hash_room_name s ≡ pos n)) ⊎ ((n : ℕ) × (hash_room_name s ≡ negsuc n))
room_hash-cases s = go (hash_room_name s) refl
  where
    go :
        (z : ℤ)
        → hash_room_name s ≡ z
        → ((n : ℕ) × (hash_room_name s ≡ pos n)) ⊎ ((n : ℕ) × (hash_room_name s ≡ negsuc n))
    go (pos n) e = inl (n, e)
    go (negsuc n) e = inr (n, e)

-- Names with different hashes differ.
pub name-apart :
    (s : Str) (n : ℕ)
    → hash_room_name s ≡ pos n
    → (m : ℕ) (q : Str) → hash_room_name q ≡ pos m
    → (m == n) ≡ false
    → str_eq s q ≡ false
name-apart s n hashed m q there apart = elim (Bool-cases (str_eq s q)) [
  | inr other ↦ other
  | inl same ↦
      let hash : pos m ≡ pos n =
        sym there ∙ ap hash_room_name (sym (eq_of_str_eq s q same)) ∙ hashed in
      ground arith
]

pub room_bucket-index :
    (rooms : RoomMap) (s : Str) (n : ℕ)
    → hash_room_name s ≡ pos n
    → room_bucket s rooms ≡ ok (n, get_or rooms n [])
unfolding room_bucket index_in
room_bucket-index rooms s n e = rw (e, lt→ltb n hash_room_size (index-lt-size s n e))

pub room_bucket-negative :
    (rooms : RoomMap) (s : Str) (n : ℕ)
    → hash_room_name s ≡ negsuc n
    → room_bucket s rooms ≡ fault out_of_bounds
unfolding room_bucket index_in
room_bucket-negative rooms s n e = rw e

pub is_room_used-negative :
    (rooms : RoomMap) (s : Str) (n : ℕ)
    → hash_room_name s ≡ negsuc n
    → is_room_used s rooms ≡ fault out_of_bounds
unfolding is_room_used
is_room_used-negative rooms s n e = rw (room_bucket-negative rooms s n e)

module _ (rooms : RoomMap) (s : Str) (n : ℕ) (hashed : hash_room_name s ≡ pos n) where
  pub is_room_used-view : is_room_used s rooms ≡ ok (is_some (view n s rooms))
  unfolding is_room_used
  is_room_used-view = rw (room_bucket-index rooms s n hashed)

  pub get_admin-view : get_admin s rooms ≡ ok (admin_of (view n s rooms))
  unfolding get_admin
  get_admin-view = ground (arith, is_room_used-view, room_bucket-index rooms s n hashed)

  pub get_keys-view : get_keys_from_room s rooms ≡ ok (keys_of (view n s rooms))
  unfolding get_keys_from_room
  get_keys-view = rw (room_bucket-index rooms s n hashed)

pub first_named-name : (s : Str) (l : List Room) (r : Room) → first_named s l ≡ some r → r.name ≡ s
unfolding first_named
first_named-name s [] r e = cc
first_named-name s (t ∷ next) r e = ground (arith, eq_of_str_eq t.name s, first_named-name s next r)

-- A bucket replaced by another that is in order.
pub IsTable-set :
    (rooms : RoomMap) (n : ℕ) (l : List Room)
    → IsTable rooms
    → n < hash_room_size
    → All (IsHome n) l
    → DistinctRooms l
    → IsTable (set rooms n l)
IsTable-set rooms n l table inside homes distinct = record {
  width = rw length-set table.width;
  homes = λ i. elim (Bool-cases (i == n)) [
    | inl same ↦
        rw ((==_iff i n).0 same) (rw (get_or-set_self rooms n l [] (rw table.width inside)) homes)
    | inr apart ↦ rw (get_or-set_ne rooms n i l [] (ground arith)) (table.homes i)
  ];
  distinct = λ i. elim (Bool-cases (i == n)) [
    | inl same ↦
        rw ((==_iff i n).0 same)
          (rw (get_or-set_self rooms n l [] (rw table.width inside)) distinct)
    | inr apart ↦ rw (get_or-set_ne rooms n i l [] (ground arith)) (table.distinct i)
  ];
}
