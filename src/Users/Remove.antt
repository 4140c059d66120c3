-- ===== src/Users/Remove.antt =====
-- What `remove_user` does, in every case: its loop frees each node before it follows the node's
-- `next`, up to the match.
use bavardage.Prelude.{
  ℕ, zero, suc, ◌≡◌, refl, Bool, true, false, none, some, List, [], ◌∷◌, ◌++◌, arith, ◌==◌,
  if◌then◌else◌, is_some, get_or, set, Bool-cases, inl, inr, length, get_or-set_self, get_or-set_ne,
  length-set, ==_iff, ==_refl, ◌<◌,
}
use mathlib.Core.Bool.{false≢true}
use mathlib.Core.List.{reverse, reverse-append}
use bavardage.Prelude.Int.{pos, negsuc}
use bavardage.CString.{Str, str_eq}
use bavardage.Run.{ok, fault, use_after_free}
use bavardage.Hash.{hash_user}
use bavardage.Users.{
  Cell, Chain, UserMap, named, remove_loop, remove_user, unlinked, release, get_user, get_loop,
  user_of,
}
use bavardage.Users.Store.{Ptr, User, Heap, load-ok}
use bavardage.Users.Chains.{Entries, Stands, lookup, named-live}
use bavardage.Users.Valid.{Holds, is_login_used-lookup, bucket-index, index-lt}

remove_loop-fault :
    (h : Heap) (s : Str) (cs : Chain) (es : Entries)
    → Stands h cs es
    → is_some (lookup s es) ≡ true
    → remove_loop h false s [] cs 0 ≡ fault use_after_free
unfolding remove_loop
remove_loop-fault h s [] [] st used = absurd (false≢true used)
remove_loop-fault h s [] (e ∷ es) st used = elim st [ ]
remove_loop-fault h s (c ∷ cs) [] st used = elim st [ ]
remove_loop-fault h s (c ∷ cs) (e ∷ es) st used = ground (arith, named-live h s c e)

-- The chain that a match at its first node leaves behind has one round to its count.
remove_loop-head :
    (h : Heap) (s : Str) (cs : Chain) (e : Ptr × User) (es : Entries)
    → Stands h cs (e ∷ es)
    → str_eq e.1.name s ≡ true
    → (left : Chain) × (remove_loop h true s [] cs 0 ≡ ok (1, left))
unfolding remove_loop unlinked
remove_loop-head h s [] e es st same = elim st [ ]
remove_loop-head h s (c ∷ cs) e es st same = (release c ∷ [], ground (arith, named-live h s c e))

unlinked-behind :
    (before : List Cell) (f t : Cell) (next : Chain)
    → unlinked (before ++ f ∷ []) t next ≡ f ∷ (reverse before ++ next)
unfolding unlinked
unlinked-behind [] f t next = refl
unlinked-behind (b ∷ before) f t next = rw (reverse-append (b ∷ before) (f ∷ []))

-- Once the loop has passed node `f`, the bucket still begins with it.
remove_loop-behind :
    (h : Heap) (s : Str) (before : List Cell) (f : Cell) (cs : Chain) (es : Entries) (k : ℕ)
    → Stands h cs es
    → is_some (lookup s es) ≡ true
    → (count : ℕ) × (rest : Chain) × (remove_loop h true s (before ++ f ∷ []) cs k
        ≡ ok (count, f ∷ rest))
      × (k < count)
unfolding remove_loop
remove_loop-behind h s before f [] [] k st used = absurd (false≢true used)
remove_loop-behind h s before f [] (e ∷ es) k st used = elim st [ ]
remove_loop-behind h s before f (c ∷ cs) [] k st used = elim st [ ]
remove_loop-behind h s before f (c ∷ cs) (e ∷ es) k st used =
    elim (Bool-cases (str_eq e.1.name s)) [
      | inl same ↦ (
        suc k,
        reverse before ++ cs,
        rw (named-live h s c e st.0 st.1, same, unlinked-behind),
        omega arith,
      )
      | inr other ↦
          let (count, rest, run, more) =
            remove_loop-behind h s (release c ∷ before) f cs es (suc k) st.2 (rw other at used) in
          (count, rest, rw (named-live h s c e st.0 st.1, other) run, omega arith)
    ]

get_or-set_nil : (map : UserMap) (n : ℕ) → get_or (set map n []) n [] ≡ []
unfolding get_or set
get_or-set_nil [] n = refl
get_or-set_nil (c ∷ map) zero = refl
get_or-set_nil (c ∷ map) (suc n) = get_or-set_nil map n

abbrev pub cleared : ℕ → (ℕ → Entries) → ℕ → Entries
cleared n es i = if i == n then [] else es i

cleared-Holds :
    {h : Heap} {map : UserMap} {es : ℕ → Entries}
    → Holds h map es
    → (n : ℕ) → Holds h (set map n []) (cleared n es)
cleared-Holds {h} {map} {es} holds n = record {
  width = rw length-set holds.width;
  stands = λ i. elim (Bool-cases (i == n)) [
    | inl same ↦ rw ((==_iff i n).0 same) (rw (get_or-set_nil map n, ==_refl) tt)
    | inr apart ↦ rw (get_or-set_ne map n i [] [] (ground arith), apart) (holds.stands i)
  ];
  placed = λ i. elim (Bool-cases (i == n)) [
    | inl same ↦ rw same tt
    | inr apart ↦ rw apart (holds.placed i)
  ];
  distinct = λ i. elim (Bool-cases (i == n)) [
    | inl same ↦ rw same tt
    | inr apart ↦ rw apart (holds.distinct i)
  ];
}

remove_loop-tail :
    (h : Heap) (s : Str) (cs : Chain) (e : Ptr × User) (es : Entries)
    → Stands h cs (e ∷ es)
    → str_eq e.1.name s ≡ false
    → is_some (lookup s es) ≡ true
    → (count : ℕ) × (f : Cell) × (rest : Chain) × (remove_loop h true s [] cs 0
        ≡ ok (count, f ∷ rest))
      × ((count == 1) ≡ false)
      × (f.freed ≡ true)
unfolding remove_loop
remove_loop-tail h s [] e es st other used = elim st [ ]
remove_loop-tail h s (c ∷ cs) e es st other used =
    let (count, rest, run, more) = remove_loop-behind h s [] (release c) cs es 1 st.2 used in
    (count, release c, rest, rw (named-live h s c e st.0 st.1, other) run, ground arith, refl)

get_user-dangling :
    (h : Heap) (map : UserMap) (f : Cell) (rest : Chain) (n : ℕ) (s : Str)
    → n < length map
    → f.freed ≡ true
    → hash_user s ≡ pos n
    → get_user h s (set map n (f ∷ rest)) ≡ fault use_after_free
unfolding get_user get_loop named user_of
get_user-dangling h map f rest n s inside gone hashed = rw (
  bucket-index (set map n (f ∷ rest)) s n hashed,
  get_or-set_self map n (f ∷ rest) [] inside,
  gone,
)

module _ {h : Heap} {map : UserMap} {es : ℕ → Entries} (holds : Holds h map es) (p : Ptr) (u : User)
    (n : ℕ) (here : h p ≡ some u) (hashed : hash_user u.name ≡ pos n) where
  -- A user whose name is not registered is refused, and the table is as it was.
  pub remove_user-absent :
      (keeps : Bool) → lookup u.name (es n) ≡ none → remove_user h keeps p map ≡ ok (negsuc 0, map)
  unfolding remove_user
  remove_user-absent keeps absent = rw (
    load-ok h p here,
    is_login_used-lookup holds u.name n hashed,
    bucket-index map u.name n hashed,
    absent,
  )

  -- Where an access behind `free` is a fault, every removal of a registered user is one.
  pub remove_user-fault :
      is_some (lookup u.name (es n)) ≡ true → remove_user h false p map ≡ fault use_after_free
  unfolding remove_user
  remove_user-fault used = rw (
    load-ok h p here,
    is_login_used-lookup holds u.name n hashed,
    bucket-index map u.name n hashed,
    used,
    remove_loop-fault h u.name (get_or map n []) (es n) (holds.stands n) used,
  )

  -- Where a freed node keeps its `next`, a match at the first node empties the whole bucket, whoever
  -- else is in it, and -1 is returned; the rest of the table is held as before.
  pub remove_user-head :
      (e : Ptr × User) (rest : Entries)
      → es n ≡ e ∷ rest
      → str_eq e.1.name u.name ≡ true
      → (remove_user h true p map ≡ ok (negsuc 0, set map n []))
        × Holds h (set map n []) (cleared n es)
  unfolding remove_user
  remove_user-head e rest shape same =
      let (left, run) =
        remove_loop-head h u.name (get_or map n []) e rest (rw shape at (holds.stands n)) same in
      (
        rw (
          load-ok h p here,
          is_login_used-lookup holds u.name n hashed,
          bucket-index map u.name n hashed,
          shape,
          same,
          run,
        ),
        cleared-Holds holds n,
      )

  -- Where an access behind `free` is no fault in `remove_user` and a freed node keeps its `next`, the
  -- removal of a registered user whose match is not the first node of the bucket returns -1 and
  -- leaves a bucket that begins with a freed node. A later lookup of any name with that hash is an
  -- access to freed memory.
  pub remove_user-dangles :
      (e : Ptr × User) (rest : Entries)
      → es n ≡ e ∷ rest
      → str_eq e.1.name u.name ≡ false
      → is_some (lookup u.name rest) ≡ true
      → (map' : UserMap) × (remove_user h true p map ≡ ok (negsuc 0, map'))
        × ((s : Str) → hash_user s ≡ pos n → get_user h s map' ≡ fault use_after_free)
  unfolding remove_user
  remove_user-dangles e rest shape other used =
      let (count, f, left, run, many, gone) =
        remove_loop-tail h u.name (get_or map n []) e rest (rw shape at (holds.stands n)) other
          used in
      (
        set map n (f ∷ left),
        rw (
          load-ok h p here,
          is_login_used-lookup holds u.name n hashed,
          bucket-index map u.name n hashed,
          shape,
          other,
          used,
          run,
          many,
        ),
        λ s. get_user-dangling h map f left n s (index-lt holds p u n here hashed) gone,
      )
