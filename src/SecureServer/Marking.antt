-- ===== src/SecureServer/Marking.antt =====
-- What `quit_room` of src/serversec/secure_server.c does to the array of the room's name: where it
-- is an array of 64 characters, and where it is the `content` of a message.
use bavardage.Prelude.{
  ℕ, ◌+◌, ◌-◌, ◌<◌, ◌≤◌, ◌≡◌, refl, sym, ◌∙◌, ap, false, Option, some, [], ◌∷◌, ◌++◌, arith, length,
  length-append, take, drop, ◌==◌, All-append,
}
use mathlib.Core.List.{append_assoc}
use bavardage.CString.{Str, strcpy}
use bavardage.Run.{ok, ◌>>=◌}
use bavardage.Run.Ensures.{Ensures, Ensures-bind, Ensures-step}
use bavardage.Bytes.{memcpy, c_str, strcat_into}
use bavardage.Bytes.Copying.{
  Lacks, c_str-ends, memcpy-behind, memcpy-keeps, memcpy-size, memcpy-overflow, length-drop,
}
use bavardage.KeyMessage.{bar}
use bavardage.Wire.{max_room_name_size, max_mess_size}
use bavardage.Users.Store.{Ptr, User, Heap, load, load-ok}
use bavardage.Rooms.{RoomMap, get_users, get_admin, remove_user_from_room}
use bavardage.Rooms.Adding.{strcpy-ok}
use bavardage.Server.State.{broadcast}
use bavardage.SecureServer.State.{Env, same_ptr}
use bavardage.SecureServer.RoomOps.{mark_name, quit_room_by}
use bavardage.SecureServer.Access.{name_array, leave_room_sec}

-- The second `memcpy` writes 32 bytes from position 33 behind a string of one character at least.
mark_name-fault :
    (env : Env) (array : Str)
    → length array ≤ max_room_name_size
    → length env.beyond ≡ 30
    → Ensures (λ _. ⊥) (mark_name env array)
unfolding mark_name strcat_into
mark_name-fault env array short over =
    Ensures-bind (λ b. length b ≤ max_room_name_size) _
      (memcpy (length (c_str array)) (bar ∷ 0 ∷ []) array) _
      (memcpy-size max_room_name_size (length (c_str array)) (bar ∷ 0 ∷ []) array short)
      λ barred fits.
        let n : ℕ = length (c_str barred) in
        Ensures-bind (λ b. length b ≤ max_room_name_size) _
          (memcpy (n + 1) env.keys.master_key barred) _
          (memcpy-size max_room_name_size (n + 1) env.keys.master_key barred fits)
          λ first fits'.
            rw (memcpy-overflow (n + 33) (bar ∷ 0 ∷ env.beyond) first (omega (arith, over, fits')))
              tt

length-take_le : (n : ℕ) (a : Str) → length (take n a) ≤ n
length-take_le ℕ.zero a = omega arith
length-take_le (ℕ.suc n) [] = omega arith
length-take_le (ℕ.suc n) (c ∷ a) = omega (arith, length-take_le n a)

quit_room_by-fault :
    (h : Heap) (env : Env) (u : Ptr) (array : Str) (rooms : RoomMap)
    → length array ≤ max_room_name_size
    → length env.beyond ≡ 30
    → Ensures (λ _. ⊥) (quit_room_by h env u array rooms)
unfolding quit_room_by
quit_room_by-fault h env u array rooms short over =
    Ensures-step _ (remove_user_from_room h env.keeps u (c_str array) rooms) _ λ rooms'.
      Ensures-step _ (load h u) _ λ me.
        Ensures-step _ (strcpy max_mess_size (c_str array)) _ λ content.
          Ensures-bind (λ _. ⊥) _ (mark_name env array) _ (mark_name-fault env array short over)
            λ marked never. absurd never

-- A user who disconnects while in a room that has another admin, or none, does not get past that
-- room: `quit_room` writes the keys into the array of the room's name, beyond its 64 characters. The
-- `memcpy` of the literal is taken to copy as many bytes as it is told to.
pub leave_room_sec-overflow :
    (h : Heap) (env : Env) (u : Ptr) (name : Str) (rooms : RoomMap) (boss : Option Ptr)
    → length env.beyond ≡ 30
    → get_admin name rooms ≡ ok boss
    → same_ptr (some u) boss ≡ false
    → Ensures (λ _. ⊥) (leave_room_sec h env u name rooms)
unfolding leave_room_sec
leave_room_sec-overflow h env u name rooms boss over found apart =
    rw (found, ◌>>=◌, apart)
      (Ensures-bind (λ _. ⊥) _ (quit_room_by h env u (name_array env name) rooms) _
        (quit_room_by-fault h env u (name_array env name) rooms
          (length-take_le max_room_name_size (name ++ (0 ∷ env.stale))) over)
        λ left never. absurd never)

-- The array of the name, with the bar, as the string that its first bytes now are.
abbrev marked : Str → Str → Str
marked name rest = (name ++ (bar ∷ 0 ∷ [])) ++ rest

module _ (name : Str) (plain : Lacks 0 name) where
  barred-Lacks : Lacks 0 (name ++ (bar ∷ []))
  barred-Lacks = All-append (λ c. (c == 0) ≡ false) name (bar ∷ []) plain (refl, tt)

  marked-ends : (rest : Str) → marked name rest ≡ (name ++ (bar ∷ [])) ++ (0 ∷ rest)
  marked-ends rest =
      append_assoc name (bar ∷ 0 ∷ []) rest ∙ sym (append_assoc name (bar ∷ []) (0 ∷ rest))

  c_str-marked : (rest : Str) → c_str (marked name rest) ≡ name ++ (bar ∷ [])
  c_str-marked rest =
      ap c_str (marked-ends rest) ∙ c_str-ends (name ++ (bar ∷ [])) rest barred-Lacks

  length-marked : (rest : Str) → length (c_str (marked name rest)) ≡ length name + 1
  length-marked rest = ap length (c_str-marked rest) ∙ length-append name (bar ∷ [])

  strcat-marked :
      (stale : Str)
      → 1 ≤ length stale
      → strcat_into (name ++ (0 ∷ stale)) (bar ∷ []) ≡ ok (marked name (drop 1 stale))
  unfolding strcat_into
  strcat-marked stale room =
      rw (c_str-ends name stale plain)
        (memcpy-behind name (0 ∷ stale) (bar ∷ 0 ∷ []) (length name) refl (omega (arith, room)))
      ∙ ap (λ (x : Str). ok x) (sym (append_assoc name (bar ∷ 0 ∷ []) (drop 1 stale)))

  -- The array behind the copies: the string is the name with a bar.
  mark_name-bar :
      (env : Env) (stale : Str)
      → length env.beyond ≡ 30
      → length env.keys.master_key ≡ 32
      → length env.keys.hash_key ≡ 16
      → 68 ≤ length stale
      → (z : Str) × (mark_name env (name ++ (0 ∷ stale)) ≡ ok (marked name z))
  unfolding mark_name
  mark_name-bar env stale over master hash room =
      let front = name ++ (bar ∷ 0 ∷ []) in
      let front_size : length front ≡ length name + 2 = length-append name (bar ∷ 0 ∷ []) in
      let rest = drop 1 stale in
      let rest_size : length rest ≡ length stale - 1 = length-drop 1 stale in
      let n = length name + 1 in
      let (z₁, first, size₁) =
        memcpy-keeps front rest env.keys.master_key (n + 1) (omega (arith, front_size))
          (omega (arith, front_size, rest_size, master, room)) in
      let (z₂, second, size₂) =
        memcpy-keeps front z₁ (bar ∷ 0 ∷ env.beyond) (n + 33) (omega (arith, front_size))
          (omega (arith, front_size, rest_size, size₁, over, room)) in
      let (z₃, third, _) =
        memcpy-keeps front z₂ env.keys.hash_key (n + 34) (omega (arith, front_size))
          (omega (arith, front_size, rest_size, size₁, size₂, hash, room)) in
      (
        z₃,
        rw
            (
              strcat-marked stale (omega (arith, room)),
              ◌>>=◌,
              length-marked rest,
              first,
              ◌>>=◌,
              second,
              ◌>>=◌,
            )
            third,
      )

  -- Quitting a secure room: the array of the room's name is changed before the members are looked
  -- up, so they are those of a room called `name|`. If there is no such room, nobody is told, neither
  -- that the user is gone nor the fresh keys. For a name without a zero byte that fits, in an array
  -- with 68 bytes behind it, a user who could be taken out of the room, keys of their sizes, and a
  -- `memcpy` of the literal that copies as many bytes as it is told to.
  pub quit_room_by-silent :
      (h : Heap) (env : Env) (u : Ptr) (stale : Str) (rooms rooms' : RoomMap) (me : User)
      → length env.beyond ≡ 30
      → length env.keys.master_key ≡ 32
      → length env.keys.hash_key ≡ 16
      → 68 ≤ length stale
      → length name < max_mess_size
      → h u ≡ some me
      → remove_user_from_room h env.keeps u name rooms ≡ ok rooms'
      → get_users (name ++ (bar ∷ [])) rooms' ≡ ok []
      → (array : Str) × (quit_room_by h env u (name ++ (0 ∷ stale)) rooms
          ≡ ok (record { rooms = rooms'; array = array; out = [] }))
  unfolding quit_room_by broadcast
  quit_room_by-silent h env u stale rooms rooms' me over master hash room fits here gone nobody =
      let (z, run) = mark_name-bar env stale over master hash room in
      (
        marked name z,
        rw
            (
              c_str-ends name stale plain,
              gone,
              ◌>>=◌,
              load-ok h u here,
              ◌>>=◌,
              strcpy-ok max_mess_size name fits,
              ◌>>=◌,
              run,
              ◌>>=◌,
              c_str-marked z,
              nobody,
              ◌>>=◌,
            )
            refl,
      )
