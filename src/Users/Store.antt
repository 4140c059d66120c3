-- ===== src/Users/Store.antt =====
-- The heap of `USER` structures. The name of a user never changes after `CONNECT` has filled the
-- structure in, so an address holds one value until it is freed.
use bavardage.Prelude.{ℕ, ◌≡◌, Option, none, some, ◌==◌, if◌then◌else◌}
use bavardage.CString.{Str}
use bavardage.Run.{Run, ok, fault, use_after_free}

abbrev pub Ptr : Type 0
Ptr = ℕ

-- `socket` names the peer: the `SocketTCP` of the chat server, the `SSL` of the secure server.
pub record User : Type 0 where
  pub name : Str
  pub socket : ℕ

abbrev pub Heap : Type 0
Heap = Ptr → Option User

-- `*u`: an access to an address that holds no structure is one to freed memory.
unfoldable pub load : Heap → Ptr → Run User
load h p = elim (h p) [ none ↦ fault use_after_free | some u ↦ ok u ]

unfoldable pub malloc : Heap → Ptr → User → Heap
malloc h p u q = if q == p then some u else h q

unfoldable pub free : Heap → Ptr → Heap
free h p q = if q == p then none else h q

pub load-ok : (h : Heap) (p : Ptr) {u : User} → h p ≡ some u → load h p ≡ ok u
unfolding load
load-ok h p e = rw (e, load)

pub load-fault : (h : Heap) (p : Ptr) → h p ≡ none → load h p ≡ fault use_after_free
unfolding load
load-fault h p e = rw (e, load)
