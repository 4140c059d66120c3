-- ===== src/Client/Connecting.antt =====
-- `connect_socket` of src/client/libclient.c, and `connect_secure_socket` and
-- `connect_with_authentication` of src/client/libclientsec.c, over the sockets.
use bavardage.Prelude.{ℕ, ◌≡◌, refl, Bool, true, false, Option, none, some}
use bavardage.Prelude.Int.{ℤ, pos, negsuc}
use bavardage.CString.{Str}
use bavardage.Sockets.{SocketTcp, System, unless_failed, creer_socket_tcp, connect_socket_tcp}

-- What is returned, the global socket, and the system behind the calls.
pub record Connected (S : System) : Type 0 where
  pub status : ℤ
  pub socket : Option SocketTcp
  pub kernel : S.Kernel

module _ (S : System) where
  -- Behind `creerSocketTCP`. A connection that fails leaves the global socket set.
  unfoldable pub connect_made : Option SocketTcp → S.Kernel → Str → ℕ → Connected S
  connect_made none k addr port = record { status = negsuc 0; socket = none; kernel = k }
  connect_made (some s) k addr port =
      let co = connect_socket_tcp S k s addr port in
      let status = unless_failed co.0 (negsuc 0) (pos 0) in
      record { status = status; socket = some s; kernel = co.1 }

  unfoldable pub connect_socket : S.Kernel → Str → ℕ → Connected S
  connect_socket k addr port =
      let made = creer_socket_tcp S k in connect_made made.0 made.1 addr port

  -- The handshake follows; if `SSL_connect` fails, the program exits, which is `none`.
  unfoldable pub connect_secure_socket : Bool → S.Kernel → Str → ℕ → Option (Connected S)
  connect_secure_socket shakes k addr port =
      let r = connect_socket k addr port in
      elim r.status [ negsuc _ ↦ some r | pos _ ↦ elim shakes [ true ↦ some r | false ↦ none ] ]

  -- Neither result is looked at: the sockets of the two clients.
  unfoldable pub connect_with_authentication :
      Bool → S.Kernel → Str → ℕ → Str → ℕ → Option (Option SocketTcp × Option SocketTcp)
  connect_with_authentication shakes k chatservaddr chatservport secservaddr secservport =
      let chat = connect_socket k chatservaddr chatservport in
      elim (connect_secure_socket shakes chat.kernel secservaddr secservport) [
        | none ↦ none
        | some sec ↦ some (chat.socket, sec.socket)
      ]

  -- Whether the connection came about or not, only a system without a free socket leaves the global
  -- one NULL, by which the commands tell whether there is a connection.
  pub connect_socket-set :
      (k : S.Kernel) (addr : Str) (port : ℕ)
      → (connect_socket k addr port).socket ≡ (creer_socket_tcp S k).0
  unfolding connect_socket connect_made
  connect_socket-set k addr port = keeps (creer_socket_tcp S k).0 (creer_socket_tcp S k).1
    where
      keeps :
          (made : Option SocketTcp) (k : S.Kernel) → (connect_made made k addr port).socket ≡ made
      keeps none k = refl
      keeps (some s) k = refl
