-- ===== src/Client/Typed.antt =====
-- What a typed `/MESSAGE` or `/MP` line of src/client/libclient.c becomes: one message with that
-- receiver and that text.
use bavardage.Prelude.{
  ℕ, zero, suc, All, ◌+◌, ◌<◌, ◌≡◌, refl, ◌∙◌, ap, true, false, some, List, [], ◌∷◌, ◌++◌, arith,
  ◌==◌, length, ltb, take, drop, Bool-cases, inl, inr,
}
use mathlib.Core.List.{append_assoc, append-nil}
use bavardage.Prelude.Int.{pos}
use bavardage.CString.{Str, codes, str_eq}
use bavardage.Run.{ok, ◌>>=◌}
use bavardage.Wire.{Message, Code, message, mp, max_name_size, max_room_name_size, max_mess_size}
use bavardage.Rooms.Adding.{strcpy-ok}
use bavardage.Client.Words.{
  space, word_end, words_from, words, create_table_param, tab_len, extract_code, command_code,
  table_size,
}
use bavardage.Client.Commands.{
  Client, Env, returns, send_command, send_text, run_command, send_message, buffer_size, with_code,
}

-- A word: no spaces in it.
abbrev pub IsWord : Str → Type 0
IsWord w = All (λ c. (c == space) ≡ false) w

pub words_from-word :
    (word w s : Str) → IsWord w → words_from word (w ++ s) ≡ words_from (word ++ w) s
unfolding words_from
words_from-word word [] s h = rw append-nil refl
words_from-word word (c ∷ w) s h =
    rw (h.0, words_from)
      (words_from-word (word ++ c ∷ []) w s h.1
        ∙ ap (λ (x : Str). words_from x s) (append_assoc word (c ∷ []) w))

-- A text that begins with a word has a word.
words_from-some :
    (c : ℕ) (w s : Str) → (first : Str) × (rest : List Str) × (words_from (c ∷ w) s ≡ first ∷ rest)
unfolding words_from word_end
words_from-some c w [] = (c ∷ w, [], refl)
words_from-some c w (d ∷ s) = elim (Bool-cases (d == space)) [
  | inl gap ↦ (c ∷ w, words_from [] s, rw (gap, words_from) refl)
  | inr more ↦
      let (first, rest, e) = words_from-some c (w ++ d ∷ []) s in
      (first, rest, rw (more, words_from) e)
]

drop-append : (w s : Str) (n k : ℕ) → k ≡ length w + n → drop k (w ++ s) ≡ drop n s
drop-append [] s n k e = let same : k ≡ n = omega (arith, e) in ap (λ (i : ℕ). drop i s) same
drop-append (c ∷ w) s n zero e = absurd (omega (arith, e))
drop-append (c ∷ w) s n (suc k) e = drop-append w s n k (omega (arith, e))

take-all : (n : ℕ) (s : Str) → length s < n → take n s ≡ s
take-all zero s h = elim h [ ]
take-all (suc n) [] h = refl
take-all (suc n) (c ∷ s) h = ap (λ (x : Str). c ∷ x) (take-all n s (omega arith))

words-two :
    (room : Str) (ch : ℕ) (t : Str) (r : ℕ)
    → IsWord (r ∷ room)
    → (ch == space) ≡ false
    → (first : Str) × (rest : List Str) × (words ((r ∷ room) ++ space ∷ ch ∷ t)
        ≡ (r ∷ room) ∷ first ∷ rest)
unfolding words words_from word_end
words-two room ch t r word begins =
    let (first, rest, e) = words_from-some ch [] t in
    (
      first,
      rest,
      words_from-word [] (r ∷ room) (space ∷ ch ∷ t) word
          ∙ ap (λ (l : List Str). (r ∷ room) ∷ l) (rw (begins, words_from) e),
    )

create_table_param-ok :
    (s : Str) (l : List Str) → words s ≡ l → length l < table_size → create_table_param s ≡ ok l
unfolding create_table_param
create_table_param-ok s l e few = rw e (ground arith)

tab_len-ok : (l : List Str) → length l < table_size → tab_len l ≡ ok (length l)
unfolding tab_len
tab_len-ok l few = ground arith

three_enough : (a b first : Str) (rest : List Str) → ltb (length (a ∷ b ∷ first ∷ rest)) 3 ≡ false
three_enough a b first rest = ground arith

abbrev pub sent : Code → Str → Str → Str → Message
sent code login receiver text = record {
  code = code;
  sender = login;
  receiver = receiver;
  content = text;
}

-- The commands with a receiver and a text, and their codes.
pub data IsTexting : Str → Code → Type 0 where
  to_room : IsTexting (codes "/MESSAGE") message
  to_user : IsTexting (codes "/MP") mp

-- A client that is logged in, over a socket that takes what is written, types the name of a
-- receiver (`r ∷ name`) and a text (`ch ∷ t`) that fit in their arrays.
module _ (env : Env) (login : Str) (r : ℕ) (name : Str) (ch : ℕ) (t : Str)
    (word : IsWord (r ∷ name)) (begins : (ch == space) ≡ false) (writes : env.writes ≡ true)
    (login_fits : length login < max_name_size) (name_fits : length (r ∷ name) < max_room_name_size)
    (text_fits : length (ch ∷ t) < max_mess_size) where
  -- The line, from the command's word on.
  abbrev pub line : Str → Str
  line command = command ++ (space ∷ ((r ∷ name) ++ (space ∷ ch ∷ t)))

  rest_of_line :
      (command : Str) (skip : ℕ)
      → skip ≡ length command + 2
      → take max_mess_size (drop (skip + length (r ∷ name)) (line command)) ≡ ch ∷ t
  rest_of_line command skip e =
      let tail : Str = space ∷ ch ∷ t in
      let cut : drop (skip + length (r ∷ name)) (line command) ≡ ch ∷ t =
        drop-append command (space ∷ ((r ∷ name) ++ tail)) (suc (length (r ∷ name) + 1)) _
          (omega (arith, e))
        ∙ drop-append (r ∷ name) tail 1 (length (r ∷ name) + 1) refl in
      rw cut (take-all max_mess_size (ch ∷ t) text_fits)

  send_text-sends :
      (c : Client) (m : Message) (complaint command : Str) (skip : ℕ)
      → c.client_sock ≡ true
      → c.login ≡ some login
      → skip ≡ length command + 2
      → words (line command) ≡ command ∷ words ((r ∷ name) ++ (space ∷ ch ∷ t))
      → length (words (line command)) < table_size
      → send_text env c m (line command) skip complaint
        ≡ ok (
            returns
              (record c { msg = some (sent m.code login (r ∷ name) (ch ∷ t)) })
              (pos 0)
              (sent m.code login (r ∷ name) (ch ∷ t) ∷ []))
  unfolding send_text send_command
  send_text-sends c m complaint command skip socket me e cut few =
      let (first, rest, two) = words-two name ch t r word begins in
      let all : words (line command) ≡ command ∷ (r ∷ name) ∷ first ∷ rest =
        cut ∙ ap (λ (l : List Str). command ∷ l) two in
      let few' : length (command ∷ (r ∷ name) ∷ first ∷ rest) < table_size = rw all at few in
      ground (
        arith,
        create_table_param-ok (line command) (command ∷ (r ∷ name) ∷ first ∷ rest) all few',
        tab_len-ok (command ∷ (r ∷ name) ∷ first ∷ rest) few',
        strcpy-ok max_room_name_size (r ∷ name) name_fits,
        rest_of_line command skip e,
        strcpy-ok max_name_size login login_fits,
      )

  cut-room :
      words (line (codes "/MESSAGE")) ≡ codes "/MESSAGE" ∷ words ((r ∷ name) ++ (space ∷ ch ∷ t))
  unfolding words words_from word_end
  cut-room = refl

  cut-user : words (line (codes "/MP")) ≡ codes "/MP" ∷ words ((r ∷ name) ++ (space ∷ ch ∷ t))
  unfolding words words_from word_end
  cut-user = refl

  -- A client that is logged in types a command with a receiver of one word and a text that does not
  -- begin with a space, fewer than 100 words in all, and everything fits in its array: one message
  -- is written, with the code of the command, the login, that receiver and exactly that text, and 0
  -- is returned.
  pub send_message-text :
      {command : Str} {code : Code}
      → IsTexting command code
      → (c : Client) → c.client_sock ≡ true
      → c.login ≡ some login
      → length (line command) < buffer_size
      → length (words (line command)) < table_size
      → send_message env c (line command)
        ≡ ok (
            returns
              (record c { msg = some (sent code login (r ∷ name) (ch ∷ t)) })
              (pos 0)
              (sent code login (r ∷ name) (ch ∷ t) ∷ []))
  unfolding send_message run_command extract_code command_code str_eq
  send_message-text to_room c socket me fits few =
      rw (strcpy-ok buffer_size (line (codes "/MESSAGE")) fits, ◌>>=◌, cut-room)
        (send_text-sends (with_code (record c { msg = some env.junk }) env.junk message)
          (record env.junk { code = message }) _ (codes "/MESSAGE") 10 socket me refl cut-room few)
  send_message-text to_user c socket me fits few =
      rw (strcpy-ok buffer_size (line (codes "/MP")) fits, ◌>>=◌, cut-user)
        (send_text-sends (with_code (record c { msg = some env.junk }) env.junk mp)
          (record env.junk { code = mp }) _ (codes "/MP") 5 socket me refl cut-user few)
