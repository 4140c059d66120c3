-- ===== src/Client/Words.antt =====
-- Command lines of src/client/libclient.c cut into words: `strtok` with a space, the table of
-- `create_table_param`, its length `len`, `extract_code` and `str_sub`.
use bavardage.Prelude.{
  ℕ, ◌+◌, ◌-◌, true, false, Option, none, some, List, [], ◌∷◌, ◌++◌, ◌==◌, if◌then◌else◌, length,
  ltb, take, drop,
}
use bavardage.CString.{Str, codes, str_eq}
use bavardage.Run.{Run, ok, fault, overflow, out_of_bounds}
use bavardage.Wire.{
  Code, create_room, delete_room, quit_room, join_room, disconnect, connect, message, mp,
}

abbrev pub space : ℕ
space = b' '

-- A word that has ended; `strtok` gives no empty ones.
unfoldable pub word_end : Str → List Str → List Str
word_end [] rest = rest
word_end (c ∷ w) rest = (c ∷ w) ∷ rest

-- What successive calls of `strtok (…, " ")` return, from within the word `word`.
unfoldable pub words_from : Str → Str → List Str
unfolding word_end
words_from word [] = word_end word []
words_from word (c ∷ s) = elim (c == space) [
  | true ↦ word_end word (words_from [] s)
  | false ↦ words_from (word ++ c ∷ []) s
]

unfoldable pub words : Str → List Str
words s = words_from [] s

abbrev pub table_size : ℕ
table_size = 100

-- The loop writes one entry of the table for each word.
unfoldable pub create_table_param : Str → Run (List Str)
create_table_param string =
    let tab = words string in if ltb table_size (length tab) then fault overflow else ok tab

-- The loop stops at a NULL entry, and a full table has none.
unfoldable pub tab_len : List Str → Run ℕ
tab_len tab = if ltb (length tab) table_size then ok (length tab) else fault out_of_bounds

-- The `if`s in their order; -1 is `none`. `str + 1` skips the slash.
unfoldable pub command_code : Str → Option Code
command_code command =
    if str_eq command (codes "CREATE_ROOM")
    then some create_room
    else if str_eq command (codes "DELETE_ROOM")
    then some delete_room
    else if str_eq command (codes "DISCONNECT")
    then some disconnect
    else if str_eq command (codes "CONNECT")
    then some connect
    else if str_eq command (codes "QUIT_ROOM")
    then some quit_room
    else if str_eq command (codes "JOIN_ROOM")
    then some join_room
    else if str_eq command (codes "MESSAGE")
    then some message
    else if str_eq command (codes "MP")
    then some mp
    else none

abbrev pub after_slash : Str → Str
after_slash [] = []
after_slash (_ ∷ command) = command

unfoldable pub extract_code : Str → Option Code
extract_code str = command_code (after_slash str)

-- `s[start .. end)`; NULL unless `start < end`. A position behind the terminator is outside of
-- the string.
unfoldable pub str_sub : Str → ℕ → ℕ → Run (Option Str)
str_sub s start end =
    if ltb start end
    then (if ltb (length s + 1) end
        then fault out_of_bounds
        else ok (some (take (end - start) (drop start s))))
    else ok none
