-- ===== src/Rooms/Ending.antt =====
-- The functions of src/common/room_manager.c end without a fault: on rooms in order, with names whose
-- hash is an index of the table, that fit, and for allocated users.
use bavardage.Prelude.{
  ℕ, All, ◌<◌, ◌≡◌, refl, ap, none, some, List, [], ◌∷◌, is_some, length, get_or, Option-cases,
  Bool-cases, inl, inr,
}
use bavardage.Prelude.Int.{pos}
use bavardage.CString.{Str, str_eq}
use bavardage.Run.{ok, ◌>>=◌}
use bavardage.Run.Ends.{Ends, IsOk, Ends-bind, Ends-split, Ends-Ensures}
use bavardage.Hash.{hash_room_name, hash_user, hash_user_map_size}
use bavardage.Wire.{max_room_name_size}
use bavardage.Users.{UserMap, add_user, create_user_map}
use bavardage.Users.Store.{Ptr, User, Heap, load-ok}
use bavardage.Users.Chains.{Entries, lookup}
use bavardage.Users.Valid.{Holds, create-Holds, add_user-new, add_user-used}
use bavardage.Rooms.{
  Room, RoomMap, first_named, first_users, add_room, remove_room, get_admin, at_first,
  add_user_in_room, get_users, in_loop, is_user_in_room,
}
use bavardage.Rooms.Table.{view, room_bucket-index, get_admin-view}
use bavardage.Rooms.Adding.{add_room-used, add_room-free}
use bavardage.Rooms.Removal.{remove_room-absent, remove_room-used}
use bavardage.Rooms.Members.{
  addresses, entries_of, entries_of-at, last_users-first, get_users-entries,
}
use bavardage.Rooms.Keeping.{
  Housed, IsHoused, IsAdmin, add_room-Housed, remove_room-Housed, add_user_in_room-Housed,
}

first_named-IsHoused :
    (h : Heap) (s : Str) (l : List Room) (r : Room)
    → All (IsHoused h) l
    → first_named s l ≡ some r
    → IsHoused h r
unfolding first_named
first_named-IsHoused h s [] r all found = cc
first_named-IsHoused h s (t ∷ next) r all found = elim (Bool-cases (str_eq t.name s)) [
  | inl same ↦
      let here : some t ≡ some r = rw same at found in let it : t ≡ r = cc in rw (← it) all.0
  | inr other ↦ first_named-IsHoused h s next r all.1 (rw other at found)
]

-- A list of allocated users.
pub record Lists (h : Heap) (l : List Ptr) : Type 0 where
  pub entries : Entries
  pub at : All (λ e. h e.0 ≡ some e.1) entries
  pub same : l ≡ addresses entries

module _ (h : Heap) (rooms : RoomMap) (g : Housed h rooms) (s : Str) (n : ℕ)
    (hashed : hash_room_name s ≡ pos n) where
  get_users-none : view n s rooms ≡ none → get_users s rooms ≡ ok []
  unfolding get_users
  get_users-none absent = rw (
    room_bucket-index rooms s n hashed,
    last_users-first s none (get_or rooms n []) (g.table.distinct n),
    absent,
  )

  pub get_users-Ends : Ends (Lists h) (get_users s rooms)
  get_users-Ends = elim (Option-cases (view n s rooms)) [
    | inl absent ↦ rw (get_users-none absent) (record { entries = []; at = tt; same = refl })
    | inr (r, found) ↦
        let ((es, holds), _) = first_named-IsHoused h s (get_or rooms n []) r (g.housed n) found in
        rw (get_users-entries g.table s n hashed r found holds) (record {
          entries = entries_of hash_user_map_size es;
          at = entries_of-at h r.users es hash_user_map_size holds.stands;
          same = refl;
        })
  ]

  in_loop-IsOk :
      (u : Ptr) (me : User) (es : Entries)
      → h u ≡ some me
      → All (λ e. h e.0 ≡ some e.1) es
      → IsOk (in_loop h u (addresses es))
  unfolding in_loop
  in_loop-IsOk u me [] here at = tt
  in_loop-IsOk u me (e ∷ es) here at =
      rw (load-ok h e.0 at.0, load-ok h u here, ◌>>=◌)
        (elim (Bool-cases (str_eq e.1.name me.name)) [
          | inl same ↦ rw same tt
          | inr other ↦ rw other (in_loop-IsOk u me es here at.1)
        ])

  pub is_user_in_room-IsOk :
      (u : Ptr) (me : User) → h u ≡ some me → IsOk (is_user_in_room h u s rooms)
  unfolding is_user_in_room
  is_user_in_room-IsOk u me here =
      Ends-bind (Lists h) _ (get_users s rooms) _ get_users-Ends
        λ l found. rw found.same (in_loop-IsOk u me found.entries here found.at)

  pub get_admin-Ends : Ends (IsAdmin h) (get_admin s rooms)
  get_admin-Ends = elim (Option-cases (view n s rooms)) [
    | inl absent ↦ rw (get_admin-view rooms s n hashed, absent) tt
    | inr (r, found) ↦
        rw (get_admin-view rooms s n hashed, found)
          (first_named-IsHoused h s (get_or rooms n []) r (g.housed n) found).1
  ]

  pub remove_room-Ends : Ends (λ r. Housed h r.1) (remove_room s rooms)
  remove_room-Ends =
      Ends-Ensures (λ _. Unit) (λ r. Housed h r.1) (remove_room s rooms)
        (elim (Option-cases (view n s rooms)) [
          | inl absent ↦ rw (remove_room-absent rooms s n hashed g.table absent) tt
          | inr (r, found) ↦ rw (remove_room-used rooms s n hashed g.table (ap is_some found)).0 tt
        ])
        (remove_room-Housed h s rooms g)

  module _ (u : Ptr) (me : User) (k : ℕ) (here : h u ≡ some me)
      (there : hash_user me.name ≡ pos k) where
    add_user-IsOk :
        (m : UserMap) (es : ℕ → Entries) → Holds h m es → IsOk (add_user h u m >>= λ r. ok r.1)
    add_user-IsOk m es holds = elim (Option-cases (lookup me.name (es k))) [
      | inl free ↦ rw (add_user-new holds u me k here there free).0 tt
      | inr (q, used) ↦ rw (add_user-used holds u me k here there (ap is_some used)) tt
    ]

    at_first-IsOk :
        (l : List Room)
        → All (IsHoused h) l
        → IsOk (at_first s (λ users. add_user h u users >>= λ r. ok r.1) l)
    unfolding at_first
    at_first-IsOk [] all = tt
    at_first-IsOk (t ∷ next) (((es, holds), _), all) =
        Ends-split _ (str_eq t.name s) _ _
          (λ same.
            Ends-bind _ _ (add_user h u t.users >>= λ r. ok r.1) _ (add_user-IsOk t.users es holds)
              λ m good. tt)
          (λ other. Ends-bind _ _ (at_first s _ next) _ (at_first-IsOk next all) λ l good. tt)

    first_users-IsOk : IsOk (first_users h (some u))
    unfolding first_users
    first_users-IsOk = add_user-IsOk create_user_map _ (create-Holds h)

    pub add_user_in_room-Ends : Ends (Housed h) (add_user_in_room h u s rooms)
    unfolding add_user_in_room
    add_user_in_room-Ends =
        Ends-Ensures (λ _. Unit) (Housed h) (add_user_in_room h u s rooms) ends
          (add_user_in_room-Housed h u me s rooms here g)
      where
        ends : IsOk (add_user_in_room h u s rooms)
        ends =
            rw (room_bucket-index rooms s n hashed, ◌>>=◌)
              (Ends-bind _ _
                (at_first s (λ users. add_user h u users >>= λ r. ok r.1) (get_or rooms n [])) _
                (at_first-IsOk (get_or rooms n []) (g.housed n)) λ l good. tt)

    pub add_room-Ends :
        length s < max_room_name_size → Ends (λ r. Housed h r.1) (add_room h s (some u) rooms)
    add_room-Ends short =
        Ends-Ensures (λ _. Unit) (λ r. Housed h r.1) (add_room h s (some u) rooms)
          (elim (Option-cases (view n s rooms)) [
            | inr (r, found) ↦ rw (add_room-used h rooms s n hashed (some u) (ap is_some found)) tt
            | inl free ↦
                rw (add_room-free h rooms s n hashed (some u) free short)
                  (Ends-bind _ _ (first_users h (some u)) _ first_users-IsOk λ m good. tt)
          ])
          (add_room-Housed h s (some u) rooms (me, here) g)
