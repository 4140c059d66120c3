-- ===== src/SecureClient/Keyring.antt =====
-- The keys that `receive_message_sec` of src/client/libclientsec.c takes from a message of the secure
-- server, in the client's table of rooms.
use bavardage.Prelude.{
  ℕ, suc, ◌<◌, ◌≡◌, refl, ◌∙◌, ap, false, none, some, [], length, Option-cases, inl, inr,
}
use bavardage.Prelude.Int.{ℤ, pos, negsuc}
use bavardage.CString.{Str, str_eq, str_eq_refl}
use bavardage.Run.{ok, ◌>>=◌}
use bavardage.Hash.{hash_room_name}
use bavardage.Wire.{
  Message, SecCode, secure, max_room_name_size, create_room_sec, join_room_sec, refresh_keyiv,
  mp_sec_ok,
}
use bavardage.Users.Store.{Heap}
use bavardage.Rooms.{Keys, Room, RoomMap, add_room, get_keys_from_room}
use bavardage.Rooms.Table.{view, IsTable}
use bavardage.Rooms.Adding.{nobody, add_room-used, add_room-grows}
use bavardage.Rooms.Keyring.{get_keys-set_keys}
use bavardage.KeyMessage.{take_keys}
use bavardage.SecureClient.Cipher.{Crypto}
use bavardage.SecureClient.State.{SecureClient, Env, returns}
use bavardage.SecureClient.Receiving.{keep_keys, on_keys, handle, receive_message_sec}

-- The messages with keys in them.
pub data IsKeyCode : SecCode → Type 0 where
  created : IsKeyCode create_room_sec
  joined : IsKeyCode join_room_sec
  refreshed : IsKeyCode refresh_keyiv
  private : IsKeyCode mp_sec_ok

module _ (h : Heap) (rooms : RoomMap) (name : Str) (n : ℕ) (hashed : hash_room_name name ≡ pos n)
    (table : IsTable rooms) (fits : length name < max_room_name_size) where
  -- The room is there behind `add_room`, whether it was before or not.
  made_room :
      (made : RoomMap) × (z : ℤ) × (r : Room) × (add_room h name none rooms ≡ ok (z, made))
      × (view n name made ≡ some r)
      × IsTable made
      × ((m : ℕ) (q : Str)
          → hash_room_name q ≡ pos m
          → str_eq name q ≡ false
          → view m q made ≡ view m q rooms)
  made_room = elim (Option-cases (view n name rooms)) [
    | inr (r, there) ↦ (
      rooms,
      negsuc 0,
      r,
      add_room-used h rooms name n hashed none (rw there refl),
      there,
      table,
      λ m q e apart. refl,
    )
    | inl free ↦
        let (r, made, run, table', _, _, views) =
          add_room-grows h rooms name n hashed table nobody free fits in
        (
          made,
          pos 0,
          r,
          run,
          views n name hashed ∙ rw (str_eq_refl name) refl,
          table',
          λ m q e apart. views m q e ∙ rw apart refl,
        )
  ]

  keep_keys-keyed :
      (content : Str) (k : Keys)
      → take_keys content ≡ ok (name, k)
      → (rooms' : RoomMap) × (keep_keys h content rooms ≡ ok rooms')
        × (get_keys_from_room name rooms' ≡ ok (some k))
        × ((m : ℕ) (q : Str)
            → hash_room_name q ≡ pos m
            → str_eq name q ≡ false
            → view m q rooms' ≡ view m q rooms)
  unfolding keep_keys
  keep_keys-keyed content k taken =
      let (made, z, r, run, there, table', views) = made_room in
      let (rooms', keyed, found, views') = get_keys-set_keys made name n hashed table' k r there in
      (
        rooms',
        rw (taken, ◌>>=◌, run, ◌>>=◌, keyed) refl,
        found,
        λ m q e apart. views' m q e ∙ rw apart (views m q e apart),
      )

-- A message with the keys of a room, of any of the four codes: the client then has those keys for
-- that room, whether it knew the room or not, and every other room that it finds is as it was. For a
-- table of rooms in order, and a name that fits and has an index for its hash.
pub receive_message_sec-keys :
    (C : Crypto) (env : Env) (h : Heap) (s : SecureClient) (m : Message) (bytes : ℕ)
    {code : SecCode}
    → IsKeyCode code
    → m.code ≡ secure code
    → (name : Str) (n : ℕ) (k : Keys) → hash_room_name name ≡ pos n
    → IsTable s.rooms
    → length name < max_room_name_size
    → take_keys m.content ≡ ok (name, k)
    → (rooms : RoomMap) × (receive_message_sec C env h s (pos (suc bytes)) m
        ≡ ok (returns (record s { rooms = rooms }) (pos 0) []))
      × (get_keys_from_room name rooms ≡ ok (some k))
      × ((i : ℕ) (q : Str)
          → hash_room_name q ≡ pos i
          → str_eq name q ≡ false
          → view i q rooms ≡ view i q s.rooms)
unfolding receive_message_sec handle on_keys
receive_message_sec-keys C env h s m bytes {code} kind e name n k hashed table fits taken =
    let (rooms, run, found, views) =
      keep_keys-keyed h s.rooms name n hashed table fits m.content k taken in
    (rooms, ap (λ code. handle C env h s m code) e ∙ handled kind ∙ kept rooms run, found, views)
  where
    handled :
        {code : SecCode}
        → IsKeyCode code
        → handle C env h s m (secure code) ≡ on_keys C env h s m.content
    handled created = refl
    handled joined = refl
    handled refreshed = refl
    handled private = refl

    kept :
        (rooms : RoomMap)
        → keep_keys h m.content s.rooms ≡ ok rooms
        → on_keys C env h s m.content ≡ ok (returns (record s { rooms = rooms }) (pos 0) [])
    kept rooms run = rw (run, ◌>>=◌) refl
