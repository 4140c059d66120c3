-- ===== src/Rooms/Apart.antt =====
-- The operations of src/common/room_manager.c on the room of one name, and the other buckets.
use bavardage.Prelude.{
  ℕ, Bool, List, ◌≡◌, refl, sym, ◌∙◌, ap, inl, inr, [], set, get_or, get_or-set_ne, arith,
  Bool-cases, ◌==◌, ==_iff,
}
use bavardage.Prelude.Int.{pos}
use bavardage.CString.{Str}
use bavardage.Run.Ensures.{Ensures, Ensures-step, Ensures-bind, Ensures-cases}
use bavardage.Hash.{hash_room_name}
use bavardage.Users.Store.{Ptr, Heap}
use bavardage.Rooms.{
  Room, RoomMap, is_room_used, room_bucket, add_user_in_room, remove_user_from_room, remove_room,
  at_first,
}
use bavardage.Rooms.Keeping.{room_bucket-at}

-- The operations on a room change no bucket but that of its name.
module _ (rooms : RoomMap) (s : Str) (m : ℕ) (apart : hash_room_name s ≡ pos m → ⊥) where
  abbrev pub Same : RoomMap → Type 0
  Same rooms' = get_or rooms' m [] ≡ get_or rooms m []

  set-Same : (i : ℕ) (l : List Room) → hash_room_name s ≡ pos i → Same (set rooms i l)
  set-Same i l hashed = elim (Bool-cases (m == i)) [
    | inl here ↦ absurd (apart (hashed ∙ ap pos (sym ((==_iff m i).0 here))))
    | inr other ↦ get_or-set_ne rooms i m l [] (ground arith)
  ]

  pub add_user_in_room-Same : (h : Heap) (u : Ptr) → Ensures Same (add_user_in_room h u s rooms)
  unfolding add_user_in_room
  add_user_in_room-Same h u =
      Ensures-bind _ Same (room_bucket s rooms) _ (room_bucket-at s rooms)
        λ r (hashed, _, _). Ensures-step Same (at_first s _ r.1) _ λ l. set-Same r.0 l hashed

  pub remove_user_from_room-Same :
      (h : Heap) (keeps : Bool) (u : Ptr) → Ensures Same (remove_user_from_room h keeps u s rooms)
  unfolding remove_user_from_room
  remove_user_from_room-Same h keeps u =
      Ensures-bind _ Same (room_bucket s rooms) _ (room_bucket-at s rooms)
        λ r (hashed, _, _). Ensures-step Same (at_first s _ r.1) _ λ l. set-Same r.0 l hashed

  pub remove_room-Same : Ensures (λ r. Same r.1) (remove_room s rooms)
  unfolding remove_room
  remove_room-Same =
      Ensures-step (λ r. Same r.1) (is_room_used s rooms) _
        λ used.
          Ensures-cases (λ r. Same r.1) used _ _
            (Ensures-bind _ (λ r. Same r.1) (room_bucket s rooms) _ (room_bucket-at s rooms)
              λ r (hashed, _, _). set-Same r.0 _ hashed)
            refl
