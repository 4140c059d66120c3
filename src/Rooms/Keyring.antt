-- ===== src/Rooms/Keyring.antt =====
-- The two operations of src/common/room_manager_sec.c against each other.
use bavardage.Prelude.{
  ℕ, ◌≡◌, refl, ◌∙◌, ap, Option, none, some, List, [], ◌∷◌, arith, ◌==◌, if◌then◌else◌, get_or, set,
  get_or-set_self, get_or-set_ne, Bool-cases, inl, inr, ==_iff,
}
use bavardage.Prelude.Int.{pos}
use bavardage.CString.{Str, str_eq, str_eq_refl, eq_of_str_eq}
use bavardage.Run.{ok, ◌>>=◌}
use bavardage.Hash.{hash_room_name}
use bavardage.Rooms.{
  Room, RoomMap, Keys, first_named, put_keys, set_keys_in_room, keys_of, get_keys_from_room,
}
use bavardage.Rooms.Table.{
  view, IsTable, room_bucket-index, get_keys-view, index-lt-size, name-apart,
}

-- The room with other keys, and the rest of it as it was.
abbrev pub with_keys : Keys → Option Room → Option Room
with_keys k none = none
with_keys k (some r) = some (record r { k = some k })

first_named-put_keys :
    (s q : Str) (k : Keys) (l : List Room)
    → first_named q (put_keys s k l)
      ≡ (if str_eq s q then with_keys k (first_named q l) else first_named q l)
unfolding first_named put_keys
first_named-put_keys s q k [] = ground arith
first_named-put_keys s q k (t ∷ next) = ground (
  arith,
  eq_of_str_eq t.name s,
  eq_of_str_eq s q,
  eq_of_str_eq t.name q,
  str_eq_refl q,
  first_named-put_keys s q k next,
)

module _ (rooms : RoomMap) (s : Str) (n : ℕ) (hashed : hash_room_name s ≡ pos n)
    (table : IsTable rooms) (k : Keys) where
  view-keyed :
      (m : ℕ) (q : Str)
      → hash_room_name q ≡ pos m
      → view m q (set rooms n (put_keys s k (get_or rooms n [])))
        ≡ (if str_eq s q then with_keys k (view m q rooms) else view m q rooms)
  view-keyed m q there = elim (Bool-cases (m == n)) [
    | inl here ↦ rw ((==_iff m n).0 here) (
        rw
          (get_or-set_self rooms n (put_keys s k (get_or rooms n [])) []
            (rw table.width (index-lt-size s n hashed)))
          (first_named-put_keys s q k (get_or rooms n [])))
    | inr apart ↦ rw (
      get_or-set_ne rooms n m (put_keys s k (get_or rooms n [])) [] (ground arith),
      name-apart s n hashed m q there apart,
    )
  ]

  -- Keys set for a room that the table finds: 1 is returned, the room's keys are then found to be
  -- those, and every other name whose hash is an index finds the room that it found, keys included.
  pub get_keys-set_keys :
      (r : Room)
      → view n s rooms ≡ some r
      → (rooms' : RoomMap) × (set_keys_in_room s (some k) rooms ≡ ok (pos 1, rooms'))
        × (get_keys_from_room s rooms' ≡ ok (some k))
        × ((m : ℕ) (q : Str)
            → hash_room_name q ≡ pos m
            → view m q rooms'
              ≡ (if str_eq s q then with_keys k (view m q rooms) else view m q rooms))
  unfolding set_keys_in_room
  get_keys-set_keys r found =
      let rooms' = set rooms n (put_keys s k (get_or rooms n [])) in
      (
        rooms',
        rw (room_bucket-index rooms s n hashed, ◌>>=◌, found) refl,
        get_keys-view rooms' s n hashed
            ∙ ap (λ (o : Option Room). ok (keys_of o)) (view-keyed n s hashed)
            ∙ rw (str_eq_refl, found) refl,
        view-keyed,
      )
