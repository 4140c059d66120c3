-- ===== src/Server/Allocating.antt =====
-- A structure that `malloc` gives, at an address that held none: what was in order in
-- src/server/server.c stays so, and whoever was found is found.
use bavardage.Prelude.{
  ℕ, All, ◌≡◌, ◌∙◌, ap, Option, none, some, List, [], ◌∷◌, arith, get_or, ==_refl,
}
use bavardage.Prelude.Int.{pos}
use bavardage.CString.{Str}
use bavardage.Run.{ok}
use bavardage.Hash.{hash_user}
use bavardage.Users
use bavardage.Users.Store.{Ptr, User, Heap, malloc}
use bavardage.Users.Chains.{lookup}
use bavardage.Users.Valid.{Holds, get_user-lookup}
use bavardage.Users.Keeping.{Holds-malloc}
use bavardage.Rooms.{Room, RoomMap}
use bavardage.Rooms.Keeping.{Housed, IsHoused, IsAdmin}
use bavardage.Server.State.{Server}
use bavardage.Server.Rounds.{IsServer, IsNamed, IsClient-lookup}

pub malloc_self : (h : Heap) (p : Ptr) (u : User) → malloc h p u p ≡ some u
unfolding malloc
malloc_self h p u = rw ==_refl

pub malloc_old :
    (h : Heap) (p q : Ptr) (u v : User) → h p ≡ none → h q ≡ some v → malloc h p u q ≡ some v
unfolding malloc
malloc_old h p q u v fresh here = ground arith

IsAdmin-malloc :
    (h : Heap) (p : Ptr) (u : User) (admin : Option Ptr)
    → h p ≡ none
    → IsAdmin h admin
    → IsAdmin (malloc h p u) admin
IsAdmin-malloc h p u none fresh boss = tt
IsAdmin-malloc h p u (some a) fresh (v, here) = (v, malloc_old h p a u v fresh here)

All-malloc :
    (h : Heap) (p : Ptr) (u : User) (l : List Room)
    → h p ≡ none
    → All (IsHoused h) l
    → All (IsHoused (malloc h p u)) l
All-malloc h p u [] fresh g = tt
All-malloc h p u (r ∷ l) fresh (((es, holds), boss), g) = (
  ((es, Holds-malloc h p u r.users es fresh holds), IsAdmin-malloc h p u r.admin fresh boss),
  All-malloc h p u l fresh g,
)

pub Housed-malloc :
    (h : Heap) (p : Ptr) (u : User) (rooms : RoomMap)
    → h p ≡ none
    → Housed h rooms
    → Housed (malloc h p u) rooms
Housed-malloc h p u rooms fresh g = record {
  table = g.table;
  housed = λ i. All-malloc h p u (get_or rooms i []) fresh (g.housed i);
}

-- Allocated users stay as they are, and whomever the table finds under their names, it still finds.
pub record Stays (sv sv' : Server) : Type 0 where
  pub kept : (q : Ptr) (v : User) → sv.heap q ≡ some v → sv'.heap q ≡ some v
  pub named : (q holder : Ptr) → IsNamed sv q holder → IsNamed sv' q holder

-- A structure is allocated, and the table of users stays as it was.
module _ (sv : Server) (g : IsServer sv) (p : Ptr) (u : User) (fresh : sv.heap p ≡ none) where
  abbrev pub housing : RoomMap → Server
  housing rooms = record sv { rooms = rooms; heap = malloc sv.heap p u }

  pub held_housing : Holds (malloc sv.heap p u) sv.user_map g.registry
  held_housing = Holds-malloc sv.heap p u sv.user_map g.registry fresh g.registered

  pub IsServer-housing :
      (rooms : RoomMap) → Housed (malloc sv.heap p u) rooms → IsServer (housing rooms)
  IsServer-housing rooms g' = record {
    registry = g.registry;
    registered = held_housing;
    rooms = g';
  }

  -- Whoever was found under a name still is.
  pub found-housing :
      (s : Str) (n : ℕ) (q : Ptr)
      → hash_user s ≡ pos n
      → lookup s (g.registry n) ≡ some q
      → Users.get_user (malloc sv.heap p u) s sv.user_map ≡ ok (some q)
  found-housing s n q hashed e = get_user-lookup held_housing s n hashed ∙ ap ok e

  pub Stays-housing :
      (rooms : RoomMap) → Housed (malloc sv.heap p u) rooms → Stays sv (housing rooms)
  Stays-housing rooms g' = record {
    kept = λ q v. malloc_old sv.heap p q u v fresh;
    named = λ q holder c. record {
      me = c.me;
      here = malloc_old sv.heap p q u c.me fresh c.here;
      index = c.index;
      hashed = c.hashed;
      found = found-housing c.me.name c.index holder c.hashed (IsClient-lookup g c);
    };
  }
