-- ===== src/SecureServer/Sharing.antt =====
-- The keys that `handle_connexion` of src/serversec/secure_server.c hands out, as the client library
-- (`receive_message_sec` of src/client/libclientsec.c) takes them out of its messages.
use bavardage.Prelude.{ℕ, ◌+◌, ◌<◌, ◌≤◌, ◌≡◌, refl, some, [], ◌∷◌, length}
use bavardage.CString.{Str}
use bavardage.Run.{ok, ◌>>=◌}
use bavardage.Bytes.Copying.{Lacks}
use bavardage.KeyMessage.{bar, put_keys_behind, take_keys}
use bavardage.KeyMessage.Exchange.{take_keys-put_keys}
use bavardage.Wire.{Message, secure, max_mess_size, max_name_size, mp_sec, mp_sec_ok}
use bavardage.Users
use bavardage.Users.Store.{Ptr, User, load-ok}
use bavardage.Rooms.Adding.{strcpy-ok}
use bavardage.Accounts.Sql.{Sqlite}
use bavardage.SecureServer.State.{State, Session, Env, Turn, deref}
use bavardage.SecureServer.Requests.{on_mp_sec}

-- A name as it goes before the keys: not empty, without a bar and a zero byte, short enough.
pub record IsName (stale name : Str) : Type 0 where
  pub c : ℕ
  pub rest : Str
  pub whole : name ≡ c ∷ rest
  pub ends : Lacks 0 (c ∷ rest)
  pub one_word : Lacks bar (c ∷ rest)
  pub fits : length (c ∷ rest) + 66 ≤ length stale

-- What `gen_keys` gives, and the 30 bytes that `memcpy` reads beyond its literal.
pub record GoodKeys (env : Env) : Type 0 where
  pub master : length env.keys.master_key ≡ 32
  pub hash : length env.keys.hash_key ≡ 16
  pub over : length env.beyond ≡ 30

-- The keys behind a name are read back as they are.
pub shared :
    (env : Env) (name : Str)
    → GoodKeys env
    → IsName env.stale name
    → (content : Str) × (put_keys_behind env.beyond env.stale name env.keys ≡ ok content)
      × (take_keys content ≡ ok (name, env.keys))
shared env name g i = rw i.whole (
    take_keys-put_keys env.beyond env.stale i.c i.rest env.keys i.ends i.one_word g.master g.hash
      g.over i.fits)

module _ {S : Sqlite} (t : State S) (env : Env) (s : Session) (buffer : Message) where
  -- A connected user asks for a private talk with a user that the table finds under the receiver's
  -- name: both get a message of the code `MP_SEC_OK`, the one who asks first, and the client library
  -- reads the same keys out of both: for the one who asks under the receiver's name in the request,
  -- for the other under the sender's name in the request, whatever the name of the one who asks is.
  -- For names and a text that fit, names without a bar or a zero byte and not empty, keys and stray
  -- bytes of the lengths that `gen_keys` and `memcpy` give, and users in the heap.
  pub on_mp_sec-shares :
      (u other : Ptr) (me it : User)
      → s.user ≡ some u
      → Users.get_user t.server.heap buffer.receiver t.server.user_map ≡ ok (some other)
      → t.server.heap u ≡ some me
      → t.server.heap other ≡ some it
      → GoodKeys env
      → IsName env.stale buffer.receiver
      → IsName env.stale buffer.sender
      → length buffer.content < max_mess_size
      → length buffer.receiver < max_name_size
      → (r : Turn S) × (mine : Message) × (theirs : Message) × (on_mp_sec t env s buffer ≡ ok r)
        × (r.out ≡ (me.socket, mine) ∷ (it.socket, theirs) ∷ [])
        × (mine.code ≡ secure mp_sec_ok)
        × (theirs.code ≡ secure mp_sec_ok)
        × (take_keys mine.content ≡ ok (buffer.receiver, env.keys))
        × (take_keys theirs.content ≡ ok (buffer.sender, env.keys))
  unfolding on_mp_sec deref
  on_mp_sec-shares u other me it user found here there g to from text_fits name_fits =
      let (c₁, run₁, back₁) = shared env buffer.receiver g to in
      let (c₂, run₂, back₂) = shared env buffer.sender g from in
      let m : Message = record s.response { code = secure mp_sec_ok } in
      let m₁ : Message = record m { content = c₁ } in
      let m₂ : Message = record m { content = c₂ } in
      (
        record {
          state = t;
          session = record s {
            response = record m {
              code = secure mp_sec;
              receiver = buffer.receiver;
              content = buffer.content;
            };
          };
          out = (me.socket, m₁) ∷ (it.socket, m₂) ∷ [];
        },
        m₁,
        m₂,
        rw
            (
              found,
              ◌>>=◌,
              run₁,
              ◌>>=◌,
              user,
              deref,
              ◌>>=◌,
              load-ok t.server.heap u here,
              ◌>>=◌,
              run₂,
              ◌>>=◌,
              load-ok t.server.heap other there,
              ◌>>=◌,
              strcpy-ok max_mess_size buffer.content text_fits,
              ◌>>=◌,
              strcpy-ok max_name_size buffer.receiver name_fits,
            )
            refl,
        refl,
        refl,
        refl,
        back₁,
        back₂,
      )
