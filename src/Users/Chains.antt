-- ===== src/Users/Chains.antt =====
-- A chain of live nodes and the registered users that it stands for: the two lookups of
-- user_manager.c find the first entry of that name.
use bavardage.Prelude.{◌≡◌, refl, Option, none, some, List, [], ◌∷◌, arith, if◌then◌else◌, is_some}
use bavardage.CString.{Str, str_eq}
use bavardage.Run.{ok}
use bavardage.Users.{Cell, live, Chain, used_loop, get_loop, named, user_of}
use bavardage.Users.Store.{Ptr, User, Heap, load, malloc}

abbrev pub Entries : Type 0
Entries = List (Ptr × User)

-- `es` lists the addresses in the nodes of the chain with the structures that stand there.
abbrev pub Stands : Heap → Chain → Entries → Type 0
Stands h [] [] = Unit
Stands h [] (e ∷ es) = ⊥
Stands h (c ∷ cs) [] = ⊥
Stands h (c ∷ cs) (e ∷ es) = (c ≡ live e.0) × (h e.0 ≡ some e.1) × Stands h cs es

abbrev pub lookup : Str → Entries → Option Ptr
lookup s [] = none
lookup s (e ∷ es) = if str_eq e.1.name s then some e.0 else lookup s es

-- No name twice.
abbrev pub Distinct : Entries → Type 0
Distinct [] = Unit
Distinct (e ∷ es) = (lookup e.1.name es ≡ none) × Distinct es

pub named-live :
    (h : Heap) (s : Str) (c : Cell) (e : Ptr × User)
    → c ≡ live e.0
    → h e.0 ≡ some e.1
    → named h s c ≡ ok (str_eq e.1.name s)
unfolding named user_of load
named-live h s c e shape at = rw shape (ground arith)

pub used_loop-lookup :
    (h : Heap) (s : Str) (cs : Chain) (es : Entries)
    → Stands h cs es
    → used_loop h s cs ≡ ok (is_some (lookup s es))
unfolding used_loop
used_loop-lookup h s [] [] st = refl
used_loop-lookup h s [] (e ∷ es) st = elim st [ ]
used_loop-lookup h s (c ∷ cs) [] st = elim st [ ]
used_loop-lookup h s (c ∷ cs) (e ∷ es) st =
    ground (arith, named-live h s c e, used_loop-lookup h s cs es)

pub get_loop-lookup :
    (h : Heap) (s : Str) (cs : Chain) (es : Entries)
    → Stands h cs es
    → get_loop h s cs ≡ ok (lookup s es)
unfolding get_loop user_of
get_loop-lookup h s [] [] st = refl
get_loop-lookup h s [] (e ∷ es) st = elim st [ ]
get_loop-lookup h s (c ∷ cs) [] st = elim st [ ]
get_loop-lookup h s (c ∷ cs) (e ∷ es) st =
    ground (arith, named-live h s c e, get_loop-lookup h s cs es)

-- A structure put at an address that holds none leaves every chain as it was.
pub Stands-malloc :
    (h : Heap) (p : Ptr) (u : User) (cs : Chain) (es : Entries)
    → h p ≡ none
    → Stands h cs es
    → Stands (malloc h p u) cs es
unfolding malloc
Stands-malloc h p u [] [] fresh st = tt
Stands-malloc h p u [] (e ∷ es) fresh st = st
Stands-malloc h p u (c ∷ cs) [] fresh st = st
Stands-malloc h p u (c ∷ cs) (e ∷ es) fresh st =
    (st.0, ground arith, Stands-malloc h p u cs es fresh st.2)
