-- ===== src/Server/Joining.antt =====
-- `case CONNECT` of src/server/server.c for a login that is free: the new user is registered and
-- joins the home room; those who were connected stay so.
use bavardage.Prelude.{
  ℕ, ◌≡◌, refl, sym, ◌∙◌, ap, true, false, none, some, arith, ◌==◌, Bool-cases, inl, inr, ==_refl,
  ==_iff, ltb, length,
}
use bavardage.Prelude.Int.{pos}
use bavardage.CString.{Str, str_eq, str_eq_refl, eq_of_str_eq, strcpy}
use bavardage.Run.{ok}
use bavardage.Run.Ensures.{Ensures, Ensures-bind}
use bavardage.Hash.{hash_user, is_login_valid}
use bavardage.Hash.Range.{hash-index}
use bavardage.Wire.{Message, max_name_size}
use bavardage.Users
use bavardage.Users.Store.{Ptr, User, Heap, malloc}
use bavardage.Users.Chains.{Entries, lookup}
use bavardage.Users.Valid.{
  Holds, insert, added, get_user-lookup, is_login_used-lookup, add_user-new,
}
use bavardage.Users.Keeping.{Holds-malloc}
use bavardage.Rooms.{RoomMap}
use bavardage.Rooms.Keeping.{Housed}
use bavardage.Server.State.{Server, Env, home_room}
use bavardage.Server.RoomOps.{join_room}
use bavardage.Server.Keeping.{join_room-Housed}
use bavardage.Server.Rounds.{IsServer, IsClient, IsClient-lookup}
use bavardage.Server.Requests.{Reply}
use bavardage.Server.Connection.{on_connect_new}
use bavardage.Server.Allocating.{malloc_self, malloc_old, Housed-malloc, Stays}

pub strcpy-same : (size : ℕ) (s : Str) → Ensures (λ t. t ≡ s) (strcpy size s)
unfolding strcpy
strcpy-same size s = elim (Bool-cases (ltb (length s) size)) [
  | inl short ↦ rw (short, Ensures) refl
  | inr long ↦ rw (long, Ensures) tt
]

-- Who was found under another name than the new one is still found.
lookup-insert_old :
    (es : ℕ → Entries) (n : ℕ) (p : Ptr) (u : User) (m : ℕ) (s : Str) (q : Ptr)
    → lookup u.name (es n) ≡ none
    → lookup s (es m) ≡ some q
    → lookup s (insert n (p, u) es m) ≡ some q
lookup-insert_old es n p u m s q free old = elim (Bool-cases (m == n)) [
  | inr apart ↦ rw apart old
  | inl here ↦ elim (Bool-cases (str_eq u.name s)) [
    | inr other ↦ rw (here, other) old
    | inl same ↦ absurd (
        none≢some (
          sym free
          ∙ ap (λ (x : Str). lookup x (es n)) (eq_of_str_eq u.name s same)
          ∙ ap (λ (i : ℕ). lookup s (es i)) (sym ((==_iff m n).0 here))
          ∙ old))
  ]
]
  where
    none≢some : {o : Ptr} → none ≡ some o → ⊥
    none≢some e = cc

module _ (sv : Server) (g : IsServer sv) (p : Ptr) (u : User) (fresh : sv.heap p ≡ none) (n : ℕ)
    (hashed : hash_user u.name ≡ pos n) (free : lookup u.name (g.registry n) ≡ none) where
  abbrev pub grown : Heap
  grown = malloc sv.heap p u

  pub held : Holds grown sv.user_map g.registry
  held = Holds-malloc sv.heap p u sv.user_map g.registry fresh g.registered

  pub held_after :
      Holds grown (added held p u n (malloc_self sv.heap p u) hashed) (insert n (p, u) g.registry)
  held_after = (add_user-new held p u n (malloc_self sv.heap p u) hashed free).1

  -- The state with the user registered, over any rooms that are in order there.
  abbrev pub after : RoomMap → Server
  after rooms = record {
    rooms = rooms;
    user_map = added held p u n (malloc_self sv.heap p u) hashed;
    heap = grown;
  }

  pub registered_after : (rooms : RoomMap) → Housed grown rooms → IsServer (after rooms)
  registered_after rooms g' = record {
    registry = insert n (p, u) g.registry;
    registered = held_after;
    rooms = g';
  }

  pub IsClient-after : (rooms : RoomMap) → Housed grown rooms → IsClient (after rooms) p
  IsClient-after rooms g' = record {
    me = u;
    here = malloc_self sv.heap p u;
    index = n;
    hashed = hashed;
    found = get_user-lookup held_after u.name n hashed ∙ rw (==_refl, str_eq_refl);
  }

  pub Stays-after : (rooms : RoomMap) → Housed grown rooms → Stays sv (after rooms)
  Stays-after rooms g' = record {
    kept = λ q v. malloc_old sv.heap p q u v fresh;
    named = λ q holder c. record {
      me = c.me;
      here = malloc_old sv.heap p q u c.me fresh c.here;
      index = c.index;
      hashed = c.hashed;
      found =
          get_user-lookup held_after c.me.name c.index c.hashed
          ∙ ap ok (
              lookup-insert_old g.registry n p u c.index c.me.name holder free
                (IsClient-lookup g c));
    };
  }

pub lookup-unused :
    (sv : Server) (g : IsServer sv) (s : Str) (n : ℕ)
    → hash_user s ≡ pos n
    → Users.is_login_used sv.heap s sv.user_map ≡ ok false
    → lookup s (g.registry n) ≡ none
lookup-unused sv g s n hashed unused = ground (arith, is_login_used-lookup g.registered s n hashed)

-- `CONNECT` with a login of letters and digits that nobody has: if the case is no fault of C, the
-- invariant holds behind it, the new user is connected, and so is everyone who was.
pub on_connect_new-IsServer :
    (sv : Server) (env : Env) (s : ℕ) (buffer : Message) (g : IsServer sv)
    → sv.heap env.fresh ≡ none
    → is_login_valid buffer.sender ≡ true
    → Users.is_login_used sv.heap buffer.sender sv.user_map ≡ ok false
    → Ensures
        (λ r.
          IsServer r.server
          × IsClient r.server env.fresh
          × ((q : Ptr) → IsClient sv q → IsClient r.server q))
        (on_connect_new sv env s buffer)
unfolding on_connect_new
on_connect_new-IsServer sv env s buffer g fresh valid unused =
    let (n, hashed, _, _) = hash-index buffer.sender valid in
    let free = lookup-unused sv g buffer.sender n hashed unused in
    let u : User = record { name = buffer.sender; socket = s } in
    let p = env.fresh in
    let P = λ (r : Reply).
      IsServer r.server
      × IsClient r.server env.fresh
      × ((q : Ptr) → IsClient sv q → IsClient r.server q) in
    Ensures-bind (λ t. t ≡ buffer.sender) P (strcpy max_name_size buffer.sender) _
      (strcpy-same max_name_size buffer.sender)
      λ name same.
        let self = malloc_self sv.heap p u in
        rw same (
          rw (add_user-new (held sv g p u fresh n hashed free) p u n self hashed free).0 (
            Ensures-bind (λ r. Housed (malloc sv.heap p u) r.0) P
              (join_room (malloc sv.heap p u) env.junk p home_room sv.rooms) _
              (join_room-Housed (record sv { heap = malloc sv.heap p u })
                (Housed-malloc sv.heap p u sv.rooms fresh g.rooms) p u self buffer env.junk
                home_room)
              λ r g'. (
                registered_after sv g p u fresh n hashed free r.0 g',
                IsClient-after sv g p u fresh n hashed free r.0 g',
                λ q. (Stays-after sv g p u fresh n hashed free r.0 g').named q q,
              )))
