-- ===== src/Rooms/Members.antt =====
-- Who is in a room: `get_users` lists the users of the room's table, bucket by bucket, and the
-- walk of `is_user_in_room` over that list is a lookup in the table.
use bavardage.Prelude.{
  ℕ, zero, suc, ◌<◌, All, ◌≡◌, ◌≢◌, refl, sym, ◌∙◌, ap, Option, none, some, List, [], ◌∷◌, ◌++◌,
  arith, is_some, length, map, get_or, Bool-cases, inl, inr,
}
use bavardage.Prelude.Int.{pos}
use bavardage.CString.{Str, str_eq, eq_of_str_eq}
use bavardage.Run.{ok}
use bavardage.Hash.{hash_room_name, hash_user, hash_user_map_size}
use bavardage.Hash.Range.{hash_bounds}
use bavardage.Users.{Chain, UserMap, user_of}
use bavardage.Users.Store.{Ptr, User, Heap, load-ok}
use bavardage.Users.Chains.{Entries, Stands, lookup}
use bavardage.Users.Valid.{Holds}
use bavardage.Rooms.{
  Room, RoomMap, first_named, last_users, copy_chain, copy_map, get_users, in_loop, is_user_in_room,
}
use bavardage.Rooms.Table.{view, IsTable, DistinctRooms, room_bucket-index}

abbrev pub addresses : Entries → List Ptr
addresses [] = []
addresses (e ∷ es) = e.0 ∷ addresses es

-- The entries of the first `count` buckets, in order.
abbrev pub entries_of : ℕ → (ℕ → Entries) → Entries
entries_of zero es = []
entries_of (suc count) es = es zero ++ entries_of count (λ j. es (suc j))

addresses-append : (a b : Entries) → addresses (a ++ b) ≡ addresses a ++ addresses b
addresses-append [] b = refl
addresses-append (e ∷ a) b = ap (λ (r : List Ptr). e.0 ∷ r) (addresses-append a b)

copy_chain-addresses :
    (h : Heap) (cs : Chain) (es : Entries) → Stands h cs es → copy_chain cs ≡ ok (addresses es)
unfolding copy_chain user_of
copy_chain-addresses h [] [] st = refl
copy_chain-addresses h [] (e ∷ es) st = elim st [ ]
copy_chain-addresses h (c ∷ cs) [] st = elim st [ ]
copy_chain-addresses h (c ∷ cs) (e ∷ es) st = rw st.0 (rw (copy_chain-addresses h cs es st.2))

copy_map-addresses :
    (h : Heap) (m : UserMap) (es : ℕ → Entries)
    → ((j : ℕ) → Stands h (get_or m j []) (es j))
    → copy_map m ≡ ok (addresses (entries_of (length m) es))
unfolding copy_map get_or
copy_map-addresses h [] es st = refl
copy_map-addresses h (c ∷ m) es st = rw (
  copy_chain-addresses h c (es zero) (st zero),
  copy_map-addresses h m (λ j. es (suc j)) (λ j. st (suc j)),
  addresses-append,
)

in_loop-lookup :
    (h : Heap) (u : Ptr) (me : User) (es : Entries)
    → h u ≡ some me
    → All (λ e. h e.0 ≡ some e.1) es
    → in_loop h u (addresses es) ≡ ok (is_some (lookup me.name es))
unfolding in_loop
in_loop-lookup h u me [] here at = refl
in_loop-lookup h u me (e ∷ es) here at =
    ground
      (arith, load-ok h e.0 {u = e.1}, load-ok h u {u = me}, in_loop-lookup h u me es here at.1)

pub Stands-at :
    (h : Heap) (cs : Chain) (es : Entries) → Stands h cs es → All (λ e. h e.0 ≡ some e.1) es
Stands-at h [] [] st = tt
Stands-at h [] (e ∷ es) st = elim st [ ]
Stands-at h (c ∷ cs) [] st = elim st [ ]
Stands-at h (c ∷ cs) (e ∷ es) st = (st.1, Stands-at h cs es st.2)

All-append {ℓ κ} :
    {Item : Type ℓ} (Good : Item → Type κ) (front back : List Item)
    → All Good front
    → All Good back
    → All Good (front ++ back)
All-append Good [] back none_left rest = rest
All-append Good (item ∷ front) back (first, others) rest =
    (first, All-append Good front back others rest)

pub entries_of-at :
    (h : Heap) (m : UserMap) (es : ℕ → Entries) (count : ℕ)
    → ((j : ℕ) → Stands h (get_or m j []) (es j))
    → All (λ e. h e.0 ≡ some e.1) (entries_of count es)
unfolding get_or
entries_of-at h m es zero st = tt
entries_of-at h [] es (suc count) st =
    All-append (λ e. h e.0 ≡ some e.1) (es zero) _ (Stands-at h [] (es zero) (st zero))
      (entries_of-at h [] (λ j. es (suc j)) count (λ j. st (suc j)))
entries_of-at h (c ∷ m) es (suc count) st =
    All-append (λ e. h e.0 ≡ some e.1) (es zero) _ (Stands-at h c (es zero) (st zero))
      (entries_of-at h m (λ j. es (suc j)) count (λ j. st (suc j)))

lookup-append_none : (s : Str) (a b : Entries) → lookup s a ≡ none → lookup s (a ++ b) ≡ lookup s b
lookup-append_none s [] b h = refl
lookup-append_none s (e ∷ a) b h = ground (arith, lookup-append_none s a b)

lookup-append_rest_none :
    (s : Str) (a b : Entries) → lookup s b ≡ none → lookup s (a ++ b) ≡ lookup s a
lookup-append_rest_none s [] b h = h
lookup-append_rest_none s (e ∷ a) b h = ground (arith, lookup-append_rest_none s a b)

lookup-entries_none :
    (s : Str) (es : ℕ → Entries) (count : ℕ)
    → ((j : ℕ) → lookup s (es j) ≡ none)
    → lookup s (entries_of count es) ≡ none
lookup-entries_none s es zero h = refl
lookup-entries_none s es (suc count) h =
    lookup-append_none s (es zero) _ (h zero)
    ∙ lookup-entries_none s (λ j. es (suc j)) count (λ j. h (suc j))

lookup-entries :
    (s : Str) (es : ℕ → Entries) (count n : ℕ)
    → n < count
    → ((j : ℕ) → j ≢ n → lookup s (es j) ≡ none)
    → lookup s (entries_of count es) ≡ lookup s (es n)
lookup-entries s es zero n inside apart = elim inside [ ]
lookup-entries s es (suc count) zero inside apart =
    lookup-append_rest_none s (es zero) _
      (lookup-entries_none s (λ j. es (suc j)) count (λ j. apart (suc j) (omega arith)))
lookup-entries s es (suc count) (suc n) inside apart =
    lookup-append_none s (es zero) _ (apart zero (omega arith))
    ∙ lookup-entries s (λ j. es (suc j)) count n (omega arith) (λ j ne. apart (suc j) (omega arith))

lookup-elsewhere :
    (s : Str) (n j : ℕ) (es : Entries)
    → hash_user s ≡ pos n
    → j ≢ n
    → All (λ e. hash_user e.1.name ≡ pos j) es
    → lookup s es ≡ none
lookup-elsewhere s n j [] hashed ne placed = refl
lookup-elsewhere s n j (e ∷ es) hashed ne placed = elim (Bool-cases (str_eq e.1.name s)) [
  | inl same ↦
      let hash : pos j ≡ pos n =
        sym placed.0 ∙ ap hash_user (eq_of_str_eq e.1.name s same) ∙ hashed in
      absurd (ne (ground arith))
  | inr other ↦ rw other (lookup-elsewhere s n j es hashed ne placed.1)
]

abbrev users_of : Option Room → Option UserMap → Option UserMap
users_of none map = map
users_of (some r) map = some r.users

pub last_users-first :
    (s : Str) (map : Option UserMap) (l : List Room)
    → DistinctRooms l
    → last_users s map l ≡ users_of (first_named s l) map
unfolding last_users first_named
last_users-first s map [] distinct = refl
last_users-first s map (t ∷ next) distinct = elim (Bool-cases (str_eq t.name s)) [
  | inr other ↦ rw other (last_users-first s map next distinct.1)
  | inl same ↦ rw same (
      last_users-first s (some t.users) next distinct.1
      ∙ ap (λ (o : Option Room). users_of o (some t.users))
          (rw (eq_of_str_eq t.name s same) at distinct.0))
]

module _ {h : Heap} {rooms : RoomMap} (table : IsTable rooms) (s : Str) (n : ℕ)
    (hashed : hash_room_name s ≡ pos n) (r : Room) (found : view n s rooms ≡ some r)
    {es : ℕ → Entries} (holds : Holds h r.users es) where
  -- The list for a room that the table finds is the users registered in it, in the order of the
  -- buckets.
  pub get_users-entries : get_users s rooms ≡ ok (addresses (entries_of hash_user_map_size es))
  unfolding get_users
  get_users-entries = rw (
    room_bucket-index rooms s n hashed,
    last_users-first s none (get_or rooms n []) (table.distinct n),
    found,
    copy_map-addresses h r.users es holds.stands,
    holds.width,
  )

  -- The walk over that list, for a user whose name has an index for its hash, finds whom a lookup in
  -- the table of the room finds.
  pub is_user_in_room-lookup :
      (u : Ptr) (me : User) (m : ℕ)
      → h u ≡ some me
      → hash_user me.name ≡ pos m
      → is_user_in_room h u s rooms ≡ ok (is_some (lookup me.name (es m)))
  unfolding is_user_in_room
  is_user_in_room-lookup u me m here there = rw (
    get_users-entries,
    in_loop-lookup h u me (entries_of hash_user_map_size es) here
        (entries_of-at h r.users es hash_user_map_size holds.stands),
    lookup-entries me.name es hash_user_map_size m
        (omega (arith, rw there at ((hash_bounds me.name).0)))
        (λ j ne. lookup-elsewhere me.name m j (es j) there ne (holds.placed j)),
  )
