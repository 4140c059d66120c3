-- ===== src/KeyMessage.antt =====
-- The keys of a secure room in the `content` of a message: `name|master key|hash key`, as
-- src/serversec/secure_server.c puts it together and src/client/libclientsec.c takes it apart.
pub mod Exchange
use bavardage.Prelude.{ℕ, ◌+◌, Option, none, some, List, [], ◌∷◌, ◌++◌, length}
use bavardage.CString.{Str, codes}
use bavardage.Run.{Run, ok, fault, null_pointer, ◌>>=◌}
use bavardage.Bytes.{memcpy, bytes_at, c_str, strcpy_into, strcat_into, strtok_first}
use bavardage.Rooms.{Keys}

abbrev pub bar : ℕ
bar = b'|'

-- From `strcpy (response.content, …)` on. `stale` is what the array holds before, `name` the string
-- whose length gives the positions. `memcpy (…, "|", 32)` reads 30 bytes beyond its literal, which
-- are `beyond`.
unfoldable pub put_keys_behind : Str → Str → Str → Keys → Run Str
put_keys_behind beyond stale name k = do
  named ← strcpy_into stale name
  barred ← strcat_into named (bar ∷ [])
  first ← memcpy (length name + 1) k.master_key barred
  second ← memcpy (length name + 33) (bar ∷ 0 ∷ beyond) first
  memcpy (length name + 34) k.hash_key second

-- The room's name, and the keys behind it.
unfoldable pub take_keys : Str → Run (Str × Keys)
take_keys content = elim (strtok_first bar (c_str content)) [
  | none ↦ fault null_pointer
  | some room_name ↦ do
    master ← bytes_at (length room_name + 1) 32 content
    hash ← bytes_at (length room_name + 34) 16 content
    ok (room_name, record { master_key = master; hash_key = hash })
]
