-- ===== src/SecureTerminal/Sending.antt =====
-- `traitement_send` of src/client/clientsec-cli.c: a typed line goes to the library of the secure
-- client, and on to that of the chat client if it is no command of the first.
use bavardage.Prelude.{ℕ, [], none, some, Bool, true, false, ◌++◌}
use bavardage.Prelude.Int.{ℤ, pos, negsuc}
use bavardage.CString.{Str}
use bavardage.Stdin.{next_line}
use bavardage.Run.{Run, ok, ◌>>=◌}
use bavardage.Users.Store.{Heap}
use bavardage.SecureClient.Cipher.{Crypto}
use bavardage.SecureClient.State.{SecureClient, Env, Result, returns, send_chat, heard}
use bavardage.SecureClient.Commands.{send_message_sec}

-- -1, -2 and -3 are `negsuc 0`, `negsuc 1` and `negsuc 2`.
abbrev pub is_failure : ℤ → Bool
is_failure (negsuc ℕ.zero) = true
is_failure _ = false

abbrev pub is_unknown : ℤ → Bool
is_unknown (negsuc (ℕ.suc ℕ.zero)) = true
is_unknown _ = false

-- A round of the loop, over the input that is left: the result, whether the thread goes on, and the
-- rest of the input, at whose end the thread ends. `ret = send_message (…) == -1` compares first, so
-- no other answer of the chat client's library is looked at.
unfoldable pub traitement_send :
    Crypto → Env → Heap → SecureClient → Str → Run (Result × Bool × Str)
traitement_send C env h s stdin = do
  (line, rest) ← next_line stdin
  elim line [
    | none ↦ ok (returns s (pos 0) [], false, rest)
    | some mess ↦ do
      r ← send_message_sec C (heard env) h s mess
      elim (is_failure r.status) [
        | true ↦ ok (r, false, rest)
        | false ↦ elim (is_unknown r.status) [
          | false ↦ ok (r, true, rest)
          | true ↦ do
            r' ← send_chat (heard env) r.state mess
            ok (
              record r' { out = r.out ++ r'.out },
              elim (is_failure r'.status) [ true ↦ false | false ↦ true ],
              rest,
            )
        ]
      ]
  ]
