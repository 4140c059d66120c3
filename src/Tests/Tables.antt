-- ===== src/Tests/Tables.antt =====
-- The table of users on small inputs: `gmx` has the hash of `ann`.
use bavardage.Prelude.{ℕ, ◌≡◌, refl, true, false, none, some, [], ◌∷◌}
use bavardage.Prelude.Int.{pos, negsuc}
use bavardage.CString.{Str, codes}
use bavardage.Run.{ok, fault, use_after_free}
use bavardage.Hash.{hash_user}
use bavardage.Users.{UserMap, create_user_map, add_user, get_user, remove_user}
use bavardage.Users.Store.{User, Heap, malloc}
use bavardage.Users.Chains.{Entries}
use bavardage.Users.Valid.{Holds, no_entries, insert, create-Holds, added, add_user-new}
use bavardage.Users.Remove.{remove_user-fault, remove_user-dangles}
use bavardage.Tests.Program.{program, ann, bob, ann_user, bob_user}

abbrev gmx : Str
gmx = codes "gmx"

abbrev gmx_user : User
gmx_user = record { name = gmx; socket = 6 }

abbrev pub people : Heap
people = malloc (malloc (malloc (λ p. none) 1 ann_user) 2 bob_user) 3 gmx_user

pub ann_hashed : hash_user ann ≡ pos 194
unfolding program
ann_hashed = refl

pub bob_hashed : hash_user bob ≡ pos 297
unfolding program
bob_hashed = refl

gmx_hashed : hash_user gmx ≡ pos 194
unfolding program
gmx_hashed = refl

pub ann_at : people 1 ≡ some ann_user
unfolding program
ann_at = refl

pub bob_at : people 2 ≡ some bob_user
unfolding program
bob_at = refl

gmx_at : people 3 ≡ some gmx_user
unfolding program
gmx_at = refl

abbrev pub one : UserMap
one = added (create-Holds people) 1 ann_user 194 ann_at ann_hashed

abbrev pub one_entries : ℕ → Entries
one_entries = insert 194 (1, ann_user) no_entries

add_user-new_example :
    (add_user people 1 create_user_map ≡ ok (pos 0, one)) × Holds people one one_entries
add_user-new_example = add_user-new (create-Holds people) 1 ann_user 194 ann_at ann_hashed refl

pub one-Holds : Holds people one one_entries
one-Holds = (add_user-new (create-Holds people) 1 ann_user 194 ann_at ann_hashed refl).1

abbrev two : UserMap
two = added one-Holds 3 gmx_user 194 gmx_at gmx_hashed

abbrev two_entries : ℕ → Entries
two_entries = insert 194 (3, gmx_user) one_entries

two-Holds : Holds people two two_entries
unfolding program
two-Holds = (add_user-new one-Holds 3 gmx_user 194 gmx_at gmx_hashed refl).1

remove_user-fault_example : remove_user people false 1 two ≡ fault use_after_free
unfolding program
remove_user-fault_example = remove_user-fault two-Holds 1 ann_user 194 ann_at ann_hashed refl

remove_user-dangles_example :
    (map : UserMap) × (remove_user people true 1 two ≡ ok (negsuc 0, map))
    × ((s : Str) → hash_user s ≡ pos 194 → get_user people s map ≡ fault use_after_free)
unfolding program
remove_user-dangles_example =
    remove_user-dangles two-Holds 1 ann_user 194 ann_at ann_hashed (3, gmx_user)
      ((1, ann_user) ∷ []) refl refl refl
