-- ===== src/Tests/Hashes.antt =====
-- The hash on small inputs.
use bavardage.Prelude.{ℕ, ◌≡◌, ◌<◌, refl}
use bavardage.Prelude.Int.{pos}
use bavardage.Hash.{hash_user_map_size, hash_user, hash_room_name}
use bavardage.Hash.Range.{hash-index}
use bavardage.Tests.Program.{program, ann}

hash-index_example :
    (n : ℕ) × (hash_user ann ≡ pos n) × (hash_room_name ann ≡ pos n) × (n < hash_user_map_size)
unfolding program
hash-index_example = hash-index ann refl
