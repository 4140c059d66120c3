-- ===== src/Wire.antt =====
-- The message of src/common/common.h, as it travels between client and server, and the constants
-- of its `code` field, with those that src/common/commonsec.h adds for the secure protocol.
use bavardage.Prelude.{[]}
use bavardage.Prelude.Int.{ℤ, negsuc}
use bavardage.CString.{Str}
use Prim.Native.Nat.{ℕ}

abbrev pub max_name_size : ℕ
max_name_size = 64

abbrev pub max_room_name_size : ℕ
max_room_name_size = 64

abbrev pub max_mess_size : ℕ
max_mess_size = 4096

-- The codes of src/common/commonsec.h; `HELP` is 0.
pub data SecCode : Type 0 where
  create_room_sec delete_room_sec quit_room_sec join_room_sec disconnect_sec connect_sec : SecCode
  del_account_sec create_room_sec_ko join_room_sec_ko connect_sec_ko mp_sec_ko : SecCode
  delete_room_sec_ko message_sec_ko quit_room_sec_ko mp_sec connect_ko_sec_ok connect_ok
        connect_sec_ok mp_sec_ok :
      SecCode
  ask_join_room_sec accept_join_room_sec refuse_join_room_sec eject_from_room_sec : SecCode
  refresh_keyiv help : SecCode

-- One constructor for each constant that the servers or the clients name, and the rest of `int`.
pub data Code : Type 0 where
  create_room delete_room quit_room join_room disconnect connect message : Code
  ok_code ko mp add_user rm_user new_user admin : Code
  create_room_ko join_room_ko delete_room_ko connect_ko message_ko mp_ko quit_room_ko : Code
  secure : SecCode → Code
  other : ℤ → Code

-- The fields are what the arrays hold: the C string before the first zero byte, and for the
-- messages of the secure protocol with keys in them the bytes of `content`.
pub record Message : Type 0 where
  pub code : Code
  pub sender : Str
  pub receiver : Str
  pub content : Str

-- `clear_message`, on any message.
abbrev pub clear_message : Message
clear_message = record { code = other (negsuc 0); sender = []; receiver = []; content = [] }
