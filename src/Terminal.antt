-- ===== src/Terminal.antt =====
-- src/client/client-cli.c, the program of the chat client: one round of each of its two threads over
-- the library of src/client/libclient.c.
pub mod Talk
use bavardage.Prelude.{
  ℕ, zero, suc, ◌-◌, Bool, true, false, Option, none, some, [], ◌∷◌, ◌++◌, length, take,
}
use bavardage.Prelude.Int.{ℤ, pos, negsuc}
use bavardage.CString.{Str, codes}
use bavardage.Stdin.{newline, next_line}
use bavardage.Run.{Run, ok, fault, null_pointer, ◌>>=◌}
use bavardage.Wire.{Message, Code}
use bavardage.Client.Commands
use bavardage.Client.Commands.{Client, Env, Result, returns, send_message}

-- What the library did, the line on the terminal, and whether the program goes on.
pub record Turn : Type 0 where
  pub result : Result
  pub printed : Str
  pub running : Bool

-- By the result of `send_message`. `error_mess` is indeterminate until the library sets it.
unfoldable pub tell : Result → ℤ → Run Turn
tell r (negsuc zero) = ok (record { result = r; printed = []; running = false })
tell r (negsuc (suc zero)) =
    ok (record { result = r; printed = codes "Unkown command" ++ newline; running = true })
tell r (negsuc (suc (suc zero))) = elim r.error [
  | none ↦ fault null_pointer
  | some text ↦ ok (record { result = r; printed = text ++ newline; running = true })
]
tell r _ = ok (record { result = r; printed = []; running = true })

-- A round of the loop, over the input that is left; at its end the thread ends. A line without a
-- newline, one that is cut at the size of the array too, loses its last character.
unfoldable pub traitement_send : Env → Client → Str → Run (Turn × Str)
traitement_send env c stdin = do
  (line, rest) ← next_line stdin
  elim line [
    | none ↦ ok (record { result = returns c (pos 0) []; printed = []; running = false }, rest)
    | some mess ↦ do r ← send_message env c mess; turn ← tell r r.status; ok (turn, rest)
  ]

abbrev pub shows : Client → Str → Run Turn
shows c text =
    ok (record { result = returns c (pos 0) []; printed = text ++ newline; running = true })

abbrev pub silent : Client → Run Turn
silent c = ok (record { result = returns c (pos 0) []; printed = []; running = true })

-- `printf ("[%s @ %s] %s\n", …)`, with another sign between the names for `MP`.
abbrev pub said : Str → Message → Str
said sign mess =
    codes "[" ++ (mess.sender ++ (sign ++ (mess.receiver ++ (codes "] " ++ mess.content))))

abbrev pub refusal : Message → Str
refusal mess = codes "Error: " ++ mess.content

-- The `switch`.
unfoldable pub show : Client → Message → Code → Run Turn
show c mess Code.ok_code = elim mess.content [ [] ↦ silent c | ch ∷ rest ↦ shows c mess.content ]
show c mess Code.message = shows c (said (codes " @ ") mess)
show c mess Code.mp = shows c (said (codes " > ") mess)
show c mess Code.new_user =
    shows c (codes "The user " ++ (mess.sender ++ (codes " joined the room " ++ mess.content)))
show c mess Code.add_user =
    shows c (codes "USER " ++ (mess.sender ++ (codes " in " ++ (mess.content ++ codes " "))))
show c mess Code.delete_room =
    shows c (codes "The room " ++ (mess.content ++ codes " has been deleted"))
show c mess Code.create_room_ko = shows c (refusal mess)
show c mess Code.quit_room_ko = shows c (refusal mess)
show c mess Code.delete_room_ko = shows c (refusal mess)
show c mess Code.message_ko = shows c (refusal mess)
show c mess Code.mp_ko = shows c (refusal mess)
show c mess Code.connect_ko = shows c (refusal mess)
show c mess _ = silent c

-- The two tests before the `switch`.
unfoldable pub handle : Env → Client → Message → Code → Run Turn
handle env c mess Code.ko = shows c (refusal mess)
handle env c mess Code.disconnect = do
  r ← Commands.disconnect env c
  ok (record {
    result = r;
    printed = codes "You're now disconnected from the chat server" ++ newline;
    running = false;
  })
handle env c mess code = show c mess code

-- A round with the result of `readSocketTCP`; a negative result of the library ends the program.
unfoldable pub traitement_recv : Env → Client → ℤ → Message → Run Turn
traitement_recv env c bytes mess = elim (Commands.receive_message bytes) [
  | negsuc _ ↦ ok (record { result = returns c (pos 0) []; printed = []; running = false })
  | pos _ ↦ handle env c mess mess.code
]
