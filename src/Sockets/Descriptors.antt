-- ===== src/Sockets/Descriptors.antt =====
-- What src/common/SocketTCP.c does with the descriptors that the system gives it.
use bavardage.Prelude.{ℕ, ◌≡◌, refl, sym, ◌∙◌, ap, Option, none, some, List, ◌∷◌, ◌⊎◌, inl, inr}
use mathlib.Core.Path.{subst, ap₂}
use bavardage.Prelude.Int.{ℤ, pos, negsuc}
use bavardage.Run.{ok}
use bavardage.Run.Ensures.{Ensures, Ensures-ok}
use bavardage.Sockets.{
  SocketTcp, System, unless_failed, creer_socket_tcp, accept_socket_tcp, close_socket_tcp,
}

-- What the system documents: `socket` and `accept` open a descriptor if they do not fail, and none of
-- the calls that the file makes closes one.
pub record IsUnix (S : System) : Type 1 where
  pub descriptors : S.Kernel → List ℤ
  pub socket_opens :
      (k : S.Kernel)
      → let r = S.socket k in
        descriptors r.1 ≡ unless_failed r.0 (descriptors k) (r.0 ∷ descriptors k)
  pub accept_opens :
      (k : S.Kernel) (fd : ℤ)
      → let r = S.accept k fd in
        descriptors r.1 ≡ unless_failed r.0 (descriptors k) (r.0 ∷ descriptors k)
  pub shutdown_keeps : (k : S.Kernel) (fd : ℤ) → descriptors (S.shutdown k fd).1 ≡ descriptors k

-- A result of a call is -1, or any test for -1 goes the other way.
failed-cases :
    (z : ℤ) → (z ≡ negsuc 0) ⊎ ((A : Type 0) (failed done : A) → unless_failed z failed done ≡ done)
failed-cases (negsuc ℕ.zero) = inl refl
failed-cases (negsuc (ℕ.suc n)) = inr (λ A failed done. refl)
failed-cases (pos n) = inr (λ A failed done. refl)

module _ (S : System) (unix : IsUnix S) (k : S.Kernel) (socket : SocketTcp) where
  -- The socket returned has the last descriptor, and another one was opened, which nothing holds.
  abbrev pub Loses : Option SocketTcp × S.Kernel → Type 0
  Loses r =
      (s : SocketTcp)
      → r.0 ≡ some s
      → (lost : ℤ) × (unix.descriptors r.1 ≡ s.socket ∷ lost ∷ unix.descriptors k)

  made_cases :
      let made = creer_socket_tcp S k in
      (made.0 ≡ none)
      ⊎ ((fd : ℤ) × (made.0 ≡ some (record { socket = fd }))
          × (unix.descriptors made.1 ≡ fd ∷ unix.descriptors k))
  unfolding creer_socket_tcp
  made_cases = elim (failed-cases (S.socket k).0) [
    | inl e ↦ inl (rw e refl)
    | inr done ↦ inr (
      (S.socket k).0,
      ap (λ (r : Option SocketTcp × S.Kernel). r.0) (done _ _ _),
      ap (λ (r : Option SocketTcp × S.Kernel). unix.descriptors r.1) (done _ _ _)
          ∙ unix.socket_opens k
          ∙ done _ _ _,
    )
  ]

  -- Whoever accepts a connection by `acceptSocketTCP`, unless it is a fault of C: the socket has the
  -- descriptor of the connection, and one more descriptor was opened, which no structure has.
  pub accept_socket_tcp-Loses : Ensures Loses (accept_socket_tcp S k socket)
  unfolding accept_socket_tcp
  accept_socket_tcp-Loses =
      let made = creer_socket_tcp S k in
      elim (failed-cases (S.accept made.1 socket.socket).0) [
        | inl e ↦ rw e (λ s gone. cc)
        | inr done ↦ subst (Ensures Loses) (sym (done _ _ _)) (elim made_cases [
          | inl nothing ↦ rw nothing tt
          | inr (fd, at, opened) ↦ rw at (λ s e.
              let same : (S.accept made.1 socket.socket).0 ≡ s.socket =
                ap (λ (o : SocketTcp). o.socket) (some-injective e) in
              (
                fd,
                unix.accept_opens made.1 socket.socket
                    ∙ done _ _ _
                    ∙ ap₂ (λ a l. a ∷ l) same opened,
              ))
        ])
      ]
    where
      some-injective : {a b : SocketTcp} → some a ≡ some b → a ≡ b
      some-injective e = cc

  close_socket_tcp-keeps :
      (k' : S.Kernel) (s : SocketTcp)
      → unix.descriptors (close_socket_tcp S k' s).1 ≡ unix.descriptors k'
  unfolding close_socket_tcp
  close_socket_tcp-keeps k' s = elim (failed-cases (S.shutdown k' s.socket).0) [
    | inl e ↦ rw e (unix.shutdown_keeps k' s.socket)
    | inr done ↦
        ap (λ (r : ℤ × S.Kernel). unix.descriptors r.1) (done _ _ _)
        ∙ unix.shutdown_keeps k' s.socket
  ]

  -- A connection that is accepted and then closed leaves two descriptors open for good: its own, and
  -- one that no structure has. The system opens and keeps descriptors as documented.
  pub accept-close_loses :
      (s : SocketTcp) (k' : S.Kernel)
      → accept_socket_tcp S k socket ≡ ok (some s, k')
      → (lost : ℤ) × (unix.descriptors (close_socket_tcp S k' s).1
          ≡ s.socket ∷ lost ∷ unix.descriptors k)
  accept-close_loses s k' run =
      let (lost, opened) =
        Ensures-ok Loses (accept_socket_tcp S k socket) (some s, k') accept_socket_tcp-Loses run s
          refl in
      (lost, close_socket_tcp-keeps k' s ∙ opened)
