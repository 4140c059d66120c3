-- ===== src/Hash.antt =====
-- The hash of src/common/user_manager.c (`hash_user`) and of src/common/room_manager.c
-- (`hash_room_name`), and `is_login_valid` of src/server/server.c, whose test decides for which
-- logins the hash is an index. `char` is signed, as on the program's platform, and `%` truncates.
pub mod Range
use bavardage.Prelude.{ℕ, ◌-◌, Bool, true, false, ◌&&◌, ◌||◌, [], ◌∷◌, ltb, leb, if◌then◌else◌}
use bavardage.Prelude.Int.{ℤ, pos, negsuc, ◌+ℤ◌, ◌-ℤ◌, ◌*ℤ◌, tmod}
use bavardage.CString.{Str}
use bavardage.Run.{Run, ok, fault, out_of_bounds}

abbrev pub hash_user_map_size : ℕ
hash_user_map_size = 1997

abbrev pub hash_room_size : ℕ
hash_room_size = 1997

unfoldable pub is_digit : ℕ → Bool
is_digit c = leb b'0' c && leb c b'9'

-- `(int) c` for a signed `char c`.
unfoldable pub char_value : ℕ → ℤ
char_value c = if ltb c 128 then pos c else negsuc (255 - c)

-- What one character adds.
unfoldable pub digit_value : ℕ → ℤ
unfolding is_digit char_value ◌-ℤ◌ ◌+ℤ◌
digit_value c = if is_digit c then char_value c -ℤ pos b'0' else char_value c -ℤ pos b'A' +ℤ pos 10

-- The sum of which the loop takes the remainder.
unfoldable pub hash_sum : ℤ → ℕ → ℤ
unfolding digit_value ◌*ℤ◌ ◌+ℤ◌
hash_sum hash c = hash *ℤ pos 100 +ℤ digit_value c

-- The loop of both functions, from a hash computed so far.
unfoldable pub hash_from : ℕ → ℤ → Str → ℤ
unfolding hash_sum tmod
hash_from size hash [] = hash
hash_from size hash (c ∷ s) = hash_from size (tmod (hash_sum hash c) size) s

unfoldable pub hash_user : Str → ℤ
unfolding hash_from
hash_user login = hash_from hash_user_map_size (pos 0) login

unfoldable pub hash_room_name : Str → ℤ
unfolding hash_from
hash_room_name room_name = hash_from hash_room_size (pos 0) room_name

-- The index of `map[index]` in a table of `size` entries.
unfoldable pub index_in : ℕ → ℤ → Run ℕ
index_in size (pos n) = if ltb n size then ok n else fault out_of_bounds
index_in size (negsuc n) = fault out_of_bounds

-- The character test of `is_login_valid`.
unfoldable pub is_alnum : ℕ → Bool
is_alnum c = (leb b'0' c && leb c b'9') || (leb b'a' c && leb c b'z') || (leb b'A' c && leb c b'Z')

unfoldable pub is_login_valid : Str → Bool
unfolding is_alnum
is_login_valid [] = true
is_login_valid (c ∷ s) = if is_alnum c then is_login_valid s else false
