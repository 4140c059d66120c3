-- ===== src/KeyMessage/Exchange.antt =====
-- What the client takes out of a message is what the secure server has put in.
use bavardage.Prelude.{
  ℕ, ◌+◌, ◌≤◌, ◌≡◌, refl, sym, ◌∙◌, ap, some, [], ◌∷◌, ◌++◌, arith, length, length-append, drop,
}
use mathlib.Core.List.{append_assoc}
use bavardage.CString.{Str}
use bavardage.Run.{ok, ◌>>=◌}
use bavardage.Bytes.{memcpy, bytes_at, c_str, strcpy_into, strcat_into, strtok_first}
use bavardage.Bytes.Copying.{
  Lacks, memcpy-behind, bytes_at-behind, length-drop, c_str-ends, c_str-append, strtok_first-ends,
}
use bavardage.Rooms.{Keys}
use bavardage.KeyMessage.{bar, put_keys_behind, take_keys}

-- The array from its start, and anything behind the keys.
abbrev pub packed : Str → Keys → Str → Str
packed name k rest = name ++ (bar ∷ (k.master_key ++ (bar ∷ (k.hash_key ++ rest))))

-- The keys are put side by side: what stands before the second of them.
rejoin :
    (name master y : Str)
    → name ++ (bar ∷ (master ++ (bar ∷ y))) ≡ (name ++ (bar ∷ (master ++ (bar ∷ [])))) ++ y
rejoin name master y =
    ap (λ (x : Str). name ++ (bar ∷ x)) (sym (append_assoc master (bar ∷ []) y))
    ∙ sym (append_assoc name (bar ∷ (master ++ (bar ∷ []))) y)

length-front :
    (name master : Str)
    → length master ≡ 32
    → length (name ++ (bar ∷ (master ++ (bar ∷ [])))) ≡ length name + 34
length-front name master e =
    omega
      (arith, length-append name (bar ∷ (master ++ (bar ∷ []))), length-append master (bar ∷ []), e)

module _ (beyond stale name : Str) (k : Keys) (named : Lacks 0 name)
    (master : length k.master_key ≡ 32) (hash : length k.hash_key ≡ 16) (over : length beyond ≡ 30)
    (fits : length name + 66 ≤ length stale) where
  abbrev behind_name : Str
  behind_name = drop (length (name ++ (0 ∷ []))) stale

  strcpy-name : strcpy_into stale name ≡ ok (name ++ (0 ∷ behind_name))
  unfolding strcpy_into
  strcpy-name =
      memcpy-behind [] stale (name ++ (0 ∷ [])) 0 refl
        (omega (arith, length-append name (0 ∷ []), fits))
      ∙ ap (λ (x : Str). ok x) (append_assoc name (0 ∷ []) behind_name)

  strcat-bar :
      strcat_into (name ++ (0 ∷ behind_name)) (bar ∷ [])
      ≡ ok (name ++ (bar ∷ 0 ∷ drop 1 behind_name))
  unfolding strcat_into
  strcat-bar = rw (c_str-ends name behind_name named) (
      memcpy-behind name (0 ∷ behind_name) (bar ∷ 0 ∷ []) (length name) refl (
        omega (
          arith,
          length-drop (length (name ++ (0 ∷ []))) stale,
          length-append name (0 ∷ []),
          fits,
        )))

  abbrev behind_bar : Str
  behind_bar = 0 ∷ drop 1 behind_name

  abbrev behind_master : Str
  behind_master = drop (length k.master_key) behind_bar

  abbrev behind_second : Str
  behind_second = 0 ∷ (beyond ++ drop (length (bar ∷ 0 ∷ beyond)) behind_master)

  room_behind_name : length behind_name + (length name + 1) ≡ length stale
  room_behind_name =
      omega
        (arith, length-drop (length (name ++ (0 ∷ []))) stale, length-append name (0 ∷ []), fits)

  room_behind_bar : length behind_bar + (length name + 1) ≡ length stale
  room_behind_bar = omega (arith, length-drop 1 behind_name, room_behind_name, fits)

  room_behind_master : length behind_master + (length name + 33) ≡ length stale
  room_behind_master =
      omega (arith, length-drop (length k.master_key) behind_bar, room_behind_bar, master, fits)

  copy-master :
      memcpy (length name + 1) k.master_key (name ++ (bar ∷ behind_bar))
      ≡ ok (name ++ (bar ∷ (k.master_key ++ behind_master)))
  copy-master =
      ap (λ (x : Str). memcpy (length name + 1) k.master_key x)
        (sym (append_assoc name (bar ∷ []) behind_bar))
      ∙ memcpy-behind (name ++ (bar ∷ [])) behind_bar k.master_key (length name + 1)
          (omega (arith, length-append name (bar ∷ [])))
          (omega (arith, room_behind_bar, master, fits))
      ∙ ap (λ (x : Str). ok x) (append_assoc name (bar ∷ []) (k.master_key ++ behind_master))

  copy-second :
      memcpy (length name + 33) (bar ∷ 0 ∷ beyond) (name ++ (bar ∷ (k.master_key ++ behind_master)))
      ≡ ok (name ++ (bar ∷ (k.master_key ++ (bar ∷ behind_second))))
  copy-second =
      ap (λ (x : Str). memcpy (length name + 33) (bar ∷ 0 ∷ beyond) x)
        (sym (append_assoc name (bar ∷ k.master_key) behind_master))
      ∙ memcpy-behind (name ++ (bar ∷ k.master_key)) behind_master (bar ∷ 0 ∷ beyond)
          (length name + 33) (omega (arith, length-append name (bar ∷ k.master_key), master))
          (omega (arith, room_behind_master, over, fits))
      ∙ ap (λ (x : Str). ok x) (append_assoc name (bar ∷ k.master_key) (bar ∷ behind_second))

  copy-hash :
      memcpy (length name + 34) k.hash_key (name ++ (bar ∷ (k.master_key ++ (bar ∷ behind_second))))
      ≡ ok (packed name k (drop (length k.hash_key) behind_second))
  copy-hash =
      ap (λ (x : Str). memcpy (length name + 34) k.hash_key x)
        (rejoin name k.master_key behind_second)
      ∙ memcpy-behind (name ++ (bar ∷ (k.master_key ++ (bar ∷ [])))) behind_second k.hash_key
          (length name + 34) (omega (arith, length-front name k.master_key master))
          (omega (
            arith,
            length-append beyond (drop (length (bar ∷ 0 ∷ beyond)) behind_master),
            over,
            hash,
          ))
      ∙ ap (λ (x : Str). ok x)
          (sym (rejoin name k.master_key (k.hash_key ++ drop (length k.hash_key) behind_second)))

  put_keys-packed : (rest : Str) × (put_keys_behind beyond stale name k ≡ ok (packed name k rest))
  unfolding put_keys_behind
  put_keys-packed = (
    drop (length k.hash_key) behind_second,
    rw (strcpy-name, ◌>>=◌, strcat-bar, ◌>>=◌, copy-master, ◌>>=◌, copy-second, ◌>>=◌) copy-hash,
  )

token-packed :
    (c : ℕ) (name y : Str)
    → Lacks 0 (c ∷ name)
    → Lacks bar (c ∷ name)
    → strtok_first bar (c_str ((c ∷ name) ++ (bar ∷ y))) ≡ some (c ∷ name)
unfolding c_str
token-packed c name y named one_word =
    ap (λ (x : Str). strtok_first bar x) (c_str-append (c ∷ name) (bar ∷ y) named) ∙ c_str-bar
  where
    c_str-bar : strtok_first bar ((c ∷ name) ++ c_str (bar ∷ y)) ≡ some (c ∷ name)
    c_str-bar = strtok_first-ends bar c name (c_str y) one_word

take_keys-ok :
    (content room_name : Str) (k : Keys)
    → strtok_first bar (c_str content) ≡ some room_name
    → bytes_at (length room_name + 1) 32 content ≡ ok k.master_key
    → bytes_at (length room_name + 34) 16 content ≡ ok k.hash_key
    → take_keys content ≡ ok (room_name, k)
unfolding take_keys
take_keys-ok content room_name k token first second =
    rw (token, take_keys, first, ◌>>=◌, second) refl

take_keys-packed :
    (c : ℕ) (name : Str) (k : Keys) (rest : Str)
    → Lacks 0 (c ∷ name)
    → Lacks bar (c ∷ name)
    → length k.master_key ≡ 32
    → length k.hash_key ≡ 16
    → take_keys (packed (c ∷ name) k rest) ≡ ok (c ∷ name, k)
take_keys-packed c name k rest named one_word master hash =
    let first : bytes_at (length (c ∷ name) + 1) 32 (packed (c ∷ name) k rest) ≡ ok k.master_key =
      ap (λ (x : Str). bytes_at (length (c ∷ name) + 1) 32 x)
        (sym (append_assoc (c ∷ name) (bar ∷ []) (k.master_key ++ (bar ∷ (k.hash_key ++ rest)))))
      ∙ bytes_at-behind ((c ∷ name) ++ (bar ∷ [])) k.master_key (bar ∷ (k.hash_key ++ rest))
          (length (c ∷ name) + 1) 32 (omega (arith, length-append (c ∷ name) (bar ∷ [])))
          (omega (arith, master)) in
    let second : bytes_at (length (c ∷ name) + 34) 16 (packed (c ∷ name) k rest) ≡ ok k.hash_key =
      ap (λ (x : Str). bytes_at (length (c ∷ name) + 34) 16 x)
        (rejoin (c ∷ name) k.master_key (k.hash_key ++ rest))
      ∙ bytes_at-behind ((c ∷ name) ++ (bar ∷ (k.master_key ++ (bar ∷ [])))) k.hash_key rest
          (length (c ∷ name) + 34) 16 (omega (arith, length-front (c ∷ name) k.master_key master))
          (omega (arith, hash)) in
    take_keys-ok (packed (c ∷ name) k rest) (c ∷ name) k
      (token-packed c name (k.master_key ++ (bar ∷ (k.hash_key ++ rest))) named one_word) first
      second

-- For a room whose name is not empty and has neither a bar nor a zero byte, keys of 32 and of 16
-- bytes, and an array with room for 66 bytes behind the name: the server's copies stay inside of
-- the array, whatever it held and whatever stands beyond the literal, and the client takes the same
-- name and the same keys out of it.
pub take_keys-put_keys :
    (beyond stale : Str) (c : ℕ) (name : Str) (k : Keys)
    → Lacks 0 (c ∷ name)
    → Lacks bar (c ∷ name)
    → length k.master_key ≡ 32
    → length k.hash_key ≡ 16
    → length beyond ≡ 30
    → length (c ∷ name) + 66 ≤ length stale
    → (content : Str) × (put_keys_behind beyond stale (c ∷ name) k ≡ ok content)
      × (take_keys content ≡ ok (c ∷ name, k))
take_keys-put_keys beyond stale c name k named one_word master hash over fits =
    let (rest, run) = put_keys-packed beyond stale (c ∷ name) k named master hash over fits in
    (packed (c ∷ name) k rest, run, take_keys-packed c name k rest named one_word master hash)
