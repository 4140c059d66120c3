-- ===== src/Users/Keeping.antt =====
-- Every way of using a table of users that ends normally leaves a table in order. Accesses behind
-- `free` are faults here, so a removal that ends has found nobody to remove.
use bavardage.Prelude.{
  ℕ, ◌≡◌, refl, ap, Bool, false, none, some, [], is_some, get_or, Option-cases, inl, inr, ◌⊎◌,
}
use bavardage.Prelude.Int.{ℤ, pos, negsuc}
use bavardage.CString.{Str}
use bavardage.Run.{fault, out_of_bounds}
use bavardage.Run.Ensures.{Ensures}
use bavardage.Hash.{hash_user, index_in}
use bavardage.Users.{UserMap, bucket, is_login_used, add_user, remove_user}
use bavardage.Users.Store.{Ptr, User, Heap, load-ok, malloc}
use bavardage.Users.Chains.{Entries, lookup, Stands-malloc}
use bavardage.Users.Valid.{Holds, insert, add_user-used, add_user-new}
use bavardage.Users.Remove.{remove_user-absent, remove_user-fault}

-- The table holds some users in order.
abbrev pub InOrder : Heap → UserMap → Type 0
InOrder h map = (es : ℕ → Entries) × Holds h map es

pub Holds-malloc :
    (h : Heap) (p : Ptr) (u : User) (map : UserMap) (es : ℕ → Entries)
    → h p ≡ none
    → Holds h map es
    → Holds (malloc h p u) map es
Holds-malloc h p u map es fresh holds = record {
  width = holds.width;
  stands = λ i. Stands-malloc h p u (get_or map i []) (es i) fresh (holds.stands i);
  placed = holds.placed;
  distinct = holds.distinct;
}

pub bucket-negative :
    (map : UserMap) (s : Str) (n : ℕ) → hash_user s ≡ negsuc n → bucket s map ≡ fault out_of_bounds
unfolding bucket index_in
bucket-negative map s n e = rw e

-- A hash is an index or negative.
pub hash-cases :
    (s : Str) → ((n : ℕ) × (hash_user s ≡ pos n)) ⊎ ((n : ℕ) × (hash_user s ≡ negsuc n))
hash-cases s = go (hash_user s) refl
  where
    go :
        (z : ℤ)
        → hash_user s ≡ z
        → ((n : ℕ) × (hash_user s ≡ pos n)) ⊎ ((n : ℕ) × (hash_user s ≡ negsuc n))
    go (pos n) e = inl (n, e)
    go (negsuc n) e = inr (n, e)

module _ {h : Heap} {map : UserMap} {es : ℕ → Entries} (holds : Holds h map es) (p : Ptr) (u : User)
    (here : h p ≡ some u) where
  -- A name whose hash is negative reads outside of the table, in either function.
  pub add_user-negative :
      (n : ℕ) → hash_user u.name ≡ negsuc n → add_user h p map ≡ fault out_of_bounds
  unfolding add_user is_login_used
  add_user-negative n e = rw (load-ok h p here, bucket-negative map u.name n e)

  pub remove_user-negative :
      (keeps : Bool) (n : ℕ)
      → hash_user u.name ≡ negsuc n
      → remove_user h keeps p map ≡ fault out_of_bounds
  unfolding remove_user is_login_used
  remove_user-negative keeps n e = rw (load-ok h p here, bucket-negative map u.name n e)

  pub add_user-InOrder : Ensures (λ r. InOrder h r.1) (add_user h p map)
  add_user-InOrder = elim (hash-cases u.name) [
    | inr (n, e) ↦ rw (add_user-negative n e) tt
    | inl (n, e) ↦ elim (Option-cases (lookup u.name (es n))) [
      | inr (q, used) ↦ rw (add_user-used holds p u n here e (ap is_some used)) (es, holds)
      | inl free ↦
          let (run, after) = add_user-new holds p u n here e free in
          rw run (insert n (p, u) es, after)
    ]
  ]

  pub remove_user-InOrder : Ensures (λ r. r.1 ≡ map) (remove_user h false p map)
  remove_user-InOrder = elim (hash-cases u.name) [
    | inr (n, e) ↦ rw (remove_user-negative false n e) tt
    | inl (n, e) ↦ elim (Option-cases (lookup u.name (es n))) [
      | inr (q, used) ↦ rw (remove_user-fault holds p u n here e (ap is_some used)) tt
      | inl free ↦ rw (remove_user-absent holds p u n here e false free) refl
    ]
  ]
