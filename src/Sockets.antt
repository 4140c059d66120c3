-- ===== src/Sockets.antt =====
-- src/common/SocketTCP.c over a parameter for the system calls and the resolver. `malloc` succeeds.
pub mod Descriptors
use bavardage.Prelude.{ℕ, Option, none, some}
use bavardage.Prelude.Int.{ℤ, pos, negsuc}
use bavardage.CString.{Str}
use bavardage.Run.{Run, ok, fault, null_pointer, ◌>>=◌}

pub record SocketTcp : Type 0 where
  pub socket : ℤ

-- `sin_port`, before `htons`, and `sin_addr`.
pub record SockAddr : Type 0 where
  pub port : ℕ
  pub address : ℕ

-- The calls that the file makes: the state of the system, the result of each call with the state
-- behind it, -1 for a failure, and the resolver.
pub record System : Type 1 where
  pub Kernel : Type 0
  pub socket : Kernel → ℤ × Kernel
  pub connect : Kernel → ℤ → SockAddr → ℤ × Kernel
  pub bind : Kernel → ℤ → SockAddr → ℤ × Kernel
  pub listen : Kernel → ℤ → ℕ → ℤ × Kernel
  pub accept : Kernel → ℤ → ℤ × Kernel
  pub shutdown : Kernel → ℤ → ℤ × Kernel
  -- the first address of `gethostbyname`; NULL is `none`
  pub gethostbyname : Str → Option ℕ
  -- -1 is `none`
  pub inet_addr : Str → Option ℕ

-- `SIZE_QUEUE`
abbrev pub size_queue : ℕ
size_queue = 100

abbrev pub alloc_socket_tcp : SocketTcp
alloc_socket_tcp = record { socket = negsuc 0 }

-- `== -1` on the result of a call.
abbrev pub unless_failed {ℓ} : {A : Type ℓ} → ℤ → A → A → A
unless_failed (negsuc ℕ.zero) failed done = failed
unless_failed _ failed done = done

module _ (S : System) where
  unfoldable pub creer_socket_tcp : S.Kernel → Option SocketTcp × S.Kernel
  creer_socket_tcp k =
      let r = S.socket k in
      unless_failed r.0 (none, r.1) (some (record alloc_socket_tcp { socket = r.0 }), r.1)

  -- 0 is `none`. An address that is no number is a name.
  unfoldable pub init_sock_addr : Str → ℕ → Option SockAddr
  init_sock_addr adresse port = elim (S.gethostbyname adresse) [
    | none ↦ none
    | some h ↦ elim (S.inet_addr adresse) [
      | none ↦ some (record { port = port; address = h })
      | some a ↦ some (record { port = port; address = a })
    ]
  ]

  unfoldable pub connect_socket_tcp : S.Kernel → SocketTcp → Str → ℕ → ℤ × S.Kernel
  connect_socket_tcp k s adresse port = elim (init_sock_addr adresse port) [
    | none ↦ (negsuc 0, k)
    | some address ↦
        let r = S.connect k s.socket address in unless_failed r.0 (negsuc 0, r.1) (pos 0, r.1)
  ]

  -- A `SocketTCP` that could not be made is followed all the same, behind the resolver.
  unfoldable pub creer_socket_ecoute_tcp : S.Kernel → Str → ℕ → Run (Option SocketTcp × S.Kernel)
  creer_socket_ecoute_tcp k adresse port =
      let made = creer_socket_tcp k in
      elim (init_sock_addr adresse port) [
        | none ↦ ok (none, made.1)
        | some address ↦ elim made.0 [
          | none ↦ fault null_pointer
          | some s ↦
              let bound = S.bind made.1 s.socket address in
              unless_failed bound.0 (ok (none, bound.1)) (
                let heard = S.listen bound.1 s.socket size_queue in
                unless_failed heard.0 (ok (none, heard.1)) (ok (some s, heard.1)))
        ]
      ]

  -- The structure comes with a socket of its own, whose descriptor the accepted one replaces.
  unfoldable pub accept_socket_tcp : S.Kernel → SocketTcp → Run (Option SocketTcp × S.Kernel)
  accept_socket_tcp k socket =
      let made = creer_socket_tcp k in
      let co = S.accept made.1 socket.socket in
      unless_failed co.0 (ok (none, co.1)) (elim made.0 [
        | none ↦ fault null_pointer
        | some s ↦ ok (some (record s { socket = co.0 }), co.1)
      ])

  -- `free (socket)` takes the structure away, if the call succeeds.
  unfoldable pub close_socket_tcp : S.Kernel → SocketTcp → ℤ × S.Kernel
  close_socket_tcp k socket =
      let ret = S.shutdown k socket.socket in unless_failed ret.0 (negsuc 0, ret.1) ret
