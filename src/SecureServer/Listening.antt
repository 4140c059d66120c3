-- ===== src/SecureServer/Listening.antt =====
-- `start_listening` of src/serversec/secure_server.c, up to its loop; what it sets up for OpenSSL is left
-- out.
use bavardage.Prelude.{ℕ}
use bavardage.CString.{Str}
use bavardage.Run.{Run}
use bavardage.Users.{UserMap}
use bavardage.Users.Store.{Heap}
use bavardage.Sockets.{System}
use bavardage.Server.Listening.{Listening, listen_with}
use bavardage.SecureServer.State.{create_main_room_sec}

module _ (S : System) (k : S.Kernel) (addr : Str) (port : ℕ) where
  unfoldable pub start_listening_sec : Heap → UserMap → Run (Listening × S.Kernel)
  start_listening_sec h uninitialised =
      listen_with S k addr port (create_main_room_sec h uninitialised)
