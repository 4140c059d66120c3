-- ===== src/Users.antt =====
-- src/common/user_manager.h and user_manager.c: the hash table of users. A `user_list` node is a
-- `Cell`, a bucket the list of its nodes in order, and a `user` an address in a heap of `USER`
-- structures. A freed node stays in the chain that still points at it, marked.
pub mod Store
pub mod Chains
pub mod Valid
pub mod Remove
pub mod Keeping
use bavardage.Prelude.{
  ℕ, suc, ◌≡◌, Bool, true, false, Option, none, some, List, [], ◌∷◌, ◌++◌, if◌then◌else◌, ◌==◌,
  is_some, get_or, set, replicate, not,
}
use mathlib.Core.List.{reverse}
use bavardage.Prelude.Int.{ℤ, pos, negsuc}
use bavardage.CString.{Str, str_eq}
use bavardage.Run.{Run, ok, fault, use_after_free, ◌>>=◌}
use bavardage.Hash.{hash_user_map_size, hash_user, index_in}
use bavardage.Users.Store.{Ptr, User, Heap, load}

-- A node: `current_user`, and whether the node has been given back to the allocator.
pub record Cell : Type 0 where
  pub current_user : Ptr
  pub freed : Bool

abbrev pub live : Ptr → Cell
live p = record { current_user = p; freed = false }

abbrev pub Chain : Type 0
Chain = List Cell

abbrev pub UserMap : Type 0
UserMap = List Chain

unfoldable pub create_user_map : UserMap
create_user_map = replicate hash_user_map_size []

-- `t->current_user`
unfoldable pub user_of : Cell → Run Ptr
user_of c = if c.freed then fault use_after_free else ok c.current_user

-- `strcmp (t->current_user->name, login) == 0`
unfoldable pub named : Heap → Str → Cell → Run Bool
named h login c = do p ← user_of c; u ← load h p; ok (str_eq u.name login)

-- `map[hash_user (login)]`
unfoldable pub bucket : Str → UserMap → Run (ℕ × Chain)
bucket login map = do
  index ← index_in hash_user_map_size (hash_user login)
  ok (index, get_or map index [])

unfoldable pub used_loop : Heap → Str → Chain → Run Bool
used_loop h login [] = ok false
used_loop h login (t ∷ next) = do
  found ← named h login t
  if found then ok true else used_loop h login next

-- 1 is `true` and 0 is `false`; the -1 for a NULL login is for no caller.
unfoldable pub is_login_used : Heap → Str → UserMap → Run Bool
is_login_used h login map = do (_, l) ← bucket login map; used_loop h login l

unfoldable pub add_user : Heap → Ptr → UserMap → Run (ℤ × UserMap)
add_user h u map = do
  it ← load h u
  used ← is_login_used h it.name map
  (index, l) ← bucket it.name map
  ok (if used then (negsuc 0, map) else (pos 0, set map index (live u ∷ l)))

unfoldable pub get_loop : Heap → Str → Chain → Run (Option Ptr)
get_loop h login [] = ok none
get_loop h login (t ∷ next) = do
  found ← named h login t
  p ← user_of t
  if found then ok (some p) else get_loop h login next

-- NULL is `none`.
unfoldable pub get_user : Heap → Str → UserMap → Run (Option Ptr)
get_user h login map = do (_, l) ← bucket login map; get_loop h login l

-- A read or a write of `t->next` behind `free (t)`. It is undefined; `keeps` says that the
-- allocator at hand leaves that word of a freed node as it was.
abbrev pub after_free : Bool → Run (Unit {0})
after_free keeps = if keeps then ok tt else fault use_after_free

abbrev pub release : Cell → Cell
release c = record c { freed = true }

-- What the bucket leads to once node `t` has matched.
unfoldable pub unlinked : List Cell → Cell → Chain → Chain
unlinked [] t next = release t ∷ []
unlinked (prec ∷ before) t next = reverse (prec ∷ before) ++ next

-- The loop of `remove_user` over the nodes from `t` on. `before` holds the nodes that it has
-- freed, the last (`prec`) first, and the result is the number of rounds with the nodes that the
-- head of the bucket still leads to. A match sets `t->next` to NULL, so the loop ends behind it; it
-- links `prec`, which is freed, to the rest, and with no `prec` only the matched node is left.
unfoldable pub remove_loop : Heap → Bool → Str → List Cell → Chain → ℕ → Run (ℕ × Chain)
remove_loop h keeps name before [] count = ok (count, reverse before)
remove_loop h keeps name before (t ∷ next) count = do
  found ← named h name t
  elim found [
    | true ↦ do _ ← after_free keeps; ok (suc count, unlinked before t next)
    | false ↦ do
      _ ← after_free keeps
      remove_loop h keeps name (release t ∷ before) next (suc count)
  ]

unfoldable pub remove_user : Heap → Bool → Ptr → UserMap → Run (ℤ × UserMap)
remove_user h keeps u map = do
  it ← load h u
  used ← is_login_used h it.name map
  (index, l) ← bucket it.name map
  elim used [
    | false ↦ ok (negsuc 0, map)
    | true ↦ do
      (count, left) ← remove_loop h keeps it.name [] l 0
      ok (negsuc 0, set map index (if count == 1 then [] else left))
  ]
