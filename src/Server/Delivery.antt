-- ===== src/Server/Delivery.antt =====
-- What `MESSAGE` and `MP` of src/server/server.c deliver, and to whom, on every branch.
use bavardage.Prelude.{
  ℕ, All, ◌<◌, ◌≡◌, refl, none, some, [], ◌∷◌, arith, if◌then◌else◌, is_some, length, Option-cases,
  Bool-cases, inl, inr,
}
use bavardage.Prelude.Int.{pos}
use bavardage.CString.{codes, str_eq}
use bavardage.Run.{ok}
use bavardage.Wire.{Message, max_name_size, clear_message, message_ko, mp_ko, ok_code}
use bavardage.Hash.{hash_user, hash_room_name, hash_user_map_size}
use bavardage.Users.Store.{Ptr, User, Heap, load-ok}
use bavardage.Users.Chains.{Entries, lookup}
use bavardage.Users.Valid.{Holds, get_user-lookup, is_login_used-lookup}
use bavardage.Rooms.{Room}
use bavardage.Rooms.Table.{view, IsTable, is_room_used-view}
use bavardage.Rooms.Adding.{strcpy-ok}
use bavardage.Rooms.Members.{
  addresses, entries_of, entries_of-at, get_users-entries, is_user_in_room-lookup,
}
use bavardage.Server.State.{Server, Out, broadcast}
use bavardage.Server.Requests.{Reply, answer, on_message, on_mp}

-- One copy of `m` for each entry, to the entry's socket.
abbrev pub copies : Message → Entries → Out
copies m [] = []
copies m (e ∷ es) = (e.1.socket, m) ∷ copies m es

pub broadcast-copies :
    (h : Heap) (m : Message) (es : Entries)
    → All (λ e. h e.0 ≡ some e.1) es
    → broadcast h m (addresses es) ≡ ok (copies m es)
unfolding broadcast
broadcast-copies h m [] at = refl
broadcast-copies h m (e ∷ es) at = rw (load-ok h e.0 at.0, broadcast-copies h m es at.1)

module _ (sv : Server) (table : IsTable sv.rooms) (buffer : Message) (n : ℕ)
    (hashed : hash_room_name buffer.receiver ≡ pos n) where
  -- A message to a room that does not exist is refused and reaches nobody.
  pub on_message-no_room :
      (u : Ptr)
      → view n buffer.receiver sv.rooms ≡ none
      → on_message sv u buffer ≡ ok (answer sv message_ko (codes "This room does not exist"))
  unfolding on_message
  on_message-no_room u absent = rw (is_room_used-view sv.rooms buffer.receiver n hashed, absent)

  module _ (r : Room) (found : view n buffer.receiver sv.rooms ≡ some r) {es : ℕ → Entries}
      (holds : Holds sv.heap r.users es) (short : length buffer.sender < max_name_size) (u : Ptr)
      (me : User) (here : sv.heap u ≡ some me) (m : ℕ) (there : hash_user me.name ≡ pos m) where
    abbrev pub delivered : Reply
    delivered = record {
      server = sv;
      out = copies buffer (entries_of hash_user_map_size es);
      response = record clear_message { code = ok_code };
    }

    -- A message to a room that the table finds, with a sender's name that fits: from a member it is
    -- copied, unchanged, once to each user of the room, in the order of the buckets; from anyone
    -- else it is refused. There is no fault, and the state stays.
    pub on_message-delivers :
        on_message sv u buffer
        ≡ ok (
            if is_some (lookup me.name (es m))
            then delivered
            else answer sv message_ko (codes "You are not allowed to send a message to this room"))
    unfolding on_message
    on_message-delivers = elim (Option-cases (lookup me.name (es m))) [
      | inl absent ↦ rw (
        is_room_used-view sv.rooms buffer.receiver n hashed,
        found,
        strcpy-ok max_name_size buffer.sender short,
        is_user_in_room-lookup table buffer.receiver n hashed r found holds u me m here there,
        absent,
      )
      | inr (q, member) ↦ rw (
        is_room_used-view sv.rooms buffer.receiver n hashed,
        found,
        strcpy-ok max_name_size buffer.sender short,
        is_user_in_room-lookup table buffer.receiver n hashed r found holds u me m here there,
        member,
        get_users-entries table buffer.receiver n hashed r found holds,
        broadcast-copies sv.heap buffer (entries_of hash_user_map_size es)
            (entries_of-at sv.heap r.users es hash_user_map_size holds.stands),
      )
    ]

abbrev pub forwarded : Server → Message → ℕ → Reply
forwarded sv buffer socket = record { server = sv; out = (socket, buffer) ∷ []; response = buffer }

-- A private message to a login whose hash is an index goes, unchanged, to the user of that login;
-- it is refused if nobody has the login or the text is empty. There is no fault, and the state
-- stays.
pub on_mp-delivers :
    (sv : Server) (buffer : Message) (n : ℕ) {es : ℕ → Entries} (it : User)
    → Holds sv.heap sv.user_map es
    → hash_user buffer.receiver ≡ pos n
    → ((q : Ptr) → lookup buffer.receiver (es n) ≡ some q → sv.heap q ≡ some it)
    → on_mp sv buffer
      ≡ ok (
          if is_some (lookup buffer.receiver (es n))
          then (if str_eq buffer.content []
              then answer sv mp_ko (codes "You can not send an empty message")
              else forwarded sv buffer it.socket)
          else answer sv mp_ko (codes "You can not send a message to an non-existing user"))
unfolding on_mp
on_mp-delivers sv buffer n {es} it holds hashed at =
    elim (Option-cases (lookup buffer.receiver (es n))) [
      | inl absent ↦ rw (is_login_used-lookup holds buffer.receiver n hashed, absent)
      | inr (q, found) ↦ elim (Bool-cases (str_eq buffer.content [])) [
        | inl empty ↦ ground (arith, is_login_used-lookup holds buffer.receiver n hashed)
        | inr text ↦ ground (
          arith,
          is_login_used-lookup holds buffer.receiver n hashed,
          get_user-lookup holds buffer.receiver n hashed,
          load-ok sv.heap q (at q found),
        )
      ]
    ]
