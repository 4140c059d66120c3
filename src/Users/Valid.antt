-- ===== src/Users/Valid.antt =====
-- The table of users against its contract: it holds, for each index, the users registered there,
-- and adding and looking up act as on a finite map from names to addresses.
use bavardage.Prelude.{
  ℕ, All, ◌<◌, ◌≡◌, refl, true, none, some, [], ◌∷◌, arith, ◌==◌, if◌then◌else◌, is_some, length,
  get_or, set, length-set, length-replicate, get_or-replicate, get_or-set_self, get_or-set_ne,
  lt→ltb, Bool-cases, inl, inr, ==_iff, ==_refl,
}
use bavardage.Prelude.Int.{pos, negsuc}
use bavardage.CString.{Str}
use bavardage.Run.{ok}
use bavardage.Hash.{hash_user_map_size, hash_user, index_in}
use bavardage.Hash.Range.{hash_bounds}
use bavardage.Users.{
  live, Chain, UserMap, create_user_map, bucket, is_login_used, add_user, get_user,
}
use bavardage.Users.Store.{Ptr, User, Heap, load-ok}
use bavardage.Users.Chains.{Entries, Stands, lookup, Distinct, used_loop-lookup, get_loop-lookup}

-- `map` holds the users `es i` in bucket `i`: all registered, under their own hash, and once.
pub record Holds (h : Heap) (map : UserMap) (es : ℕ → Entries) : Type 0 where
  pub width : length map ≡ hash_user_map_size
  pub stands : (i : ℕ) → Stands h (get_or map i []) (es i)
  pub placed : (i : ℕ) → All (λ e. hash_user e.1.name ≡ pos i) (es i)
  pub distinct : (i : ℕ) → Distinct (es i)

abbrev pub no_entries : ℕ → Entries
no_entries i = []

abbrev pub insert : ℕ → Ptr × User → (ℕ → Entries) → ℕ → Entries
insert n e es i = if i == n then e ∷ es i else es i

pub create-Holds : (h : Heap) → Holds h create_user_map no_entries
unfolding create_user_map
create-Holds h = record {
  width = length-replicate {A = Chain} hash_user_map_size [];
  stands = λ i. rw get_or-replicate tt;
  placed = λ i. tt;
  distinct = λ i. tt;
}

pub bucket-index :
    (map : UserMap) (s : Str) (n : ℕ) → hash_user s ≡ pos n → bucket s map ≡ ok (n, get_or map n [])
unfolding bucket index_in
bucket-index map s n e =
    rw (e, lt→ltb n hash_user_map_size (omega (arith, rw e at ((hash_bounds s).0))))

module _ {h : Heap} {map : UserMap} {es : ℕ → Entries} (holds : Holds h map es) where
  -- Whether a name whose hash is an index is in use: whether a user is registered under it.
  pub is_login_used-lookup :
      (s : Str) (n : ℕ)
      → hash_user s ≡ pos n
      → is_login_used h s map ≡ ok (is_some (lookup s (es n)))
  unfolding is_login_used
  is_login_used-lookup s n e =
      rw (bucket-index map s n e) (used_loop-lookup h s _ (es n) (holds.stands n))

  -- The user found under such a name is the one registered under it, and NULL if there is none.
  pub get_user-lookup :
      (s : Str) (n : ℕ) → hash_user s ≡ pos n → get_user h s map ≡ ok (lookup s (es n))
  unfolding get_user
  get_user-lookup s n e =
      rw (bucket-index map s n e) (get_loop-lookup h s _ (es n) (holds.stands n))

  module _ (p : Ptr) (u : User) (n : ℕ) (here : h p ≡ some u)
      (hashed : hash_user u.name ≡ pos n) where
    pub index-lt : n < length map
    index-lt = omega (arith, rw hashed at ((hash_bounds u.name).0), holds.width)

    -- A name that is registered is refused and the table unchanged.
    pub add_user-used :
        is_some (lookup u.name (es n)) ≡ true → add_user h p map ≡ ok (negsuc 0, map)
    unfolding add_user
    add_user-used used = rw (
      load-ok h p here,
      is_login_used-lookup u.name n hashed,
      bucket-index map u.name n hashed,
      used,
    )

    abbrev pub added : UserMap
    added = set map n (live p ∷ get_or map n [])

    -- An allocated user whose name is not registered is added: 0 is returned, and the new table holds
    -- that user at the hash of the name besides those who were there.
    pub add_user-new :
        lookup u.name (es n) ≡ none
        → (add_user h p map ≡ ok (pos 0, added)) × Holds h added (insert n (p, u) es)
    unfolding add_user
    add_user-new absent = (
      rw (
        load-ok h p here,
        is_login_used-lookup u.name n hashed,
        bucket-index map u.name n hashed,
        absent,
      ),
      record {
        width = rw length-set holds.width;
        stands = λ i. elim (Bool-cases (i == n)) [
          | inl same ↦ rw ((==_iff i n).0 same) (
              rw (get_or-set_self map n (live p ∷ get_or map n []) [] index-lt, ==_refl)
                (refl, here, holds.stands n))
          | inr apart ↦
              rw (get_or-set_ne map n i (live p ∷ get_or map n []) [] (ground arith), apart)
                (holds.stands i)
        ];
        placed = λ i. elim (Bool-cases (i == n)) [
          | inl same ↦ rw ((==_iff i n).0 same) (rw ==_refl (hashed, holds.placed n))
          | inr apart ↦ rw apart (holds.placed i)
        ];
        distinct = λ i. elim (Bool-cases (i == n)) [
          | inl same ↦ rw ((==_iff i n).0 same) (rw ==_refl (absent, holds.distinct n))
          | inr apart ↦ rw apart (holds.distinct i)
        ];
      },
    )
