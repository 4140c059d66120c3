-- ===== src/SecureServer/Guarded.antt =====
-- What a request to join a secure room does: `handle_connexion` of src/serversec/secure_server.c.
use bavardage.Prelude.{
  ℕ, ◌≡◌, refl, ap, Option, none, some, [], ◌∷◌, length, ◌⊎◌, inl, inr, sym, ◌∙◌, Bool-cases,
  Option-cases, ltb,
}
use bavardage.CString.{Str, strcpy}
use bavardage.Run.{ok, fault, overflow, use_after_free}
use bavardage.Run.Ensures.{Ensures, Ensures-step, Ensures-cases, Ensures-bind_eq}
use bavardage.Wire.{Message, secure, max_mess_size, ask_join_room_sec}
use bavardage.Users.Store.{Ptr, User, Heap, load, load-ok, load-fault}
use bavardage.Rooms.{get_admin, is_room_used, is_user_in_room}
use bavardage.Server.State.{Out}
use bavardage.Accounts.Sql.{Sqlite}
use bavardage.SecureServer.State.{State, Session, Env, Turn, deref}
use bavardage.SecureServer.Invitations.{ask_admin, on_join_room_sec}

deref-some : (p : Option Ptr) {u : Ptr} → deref p ≡ ok u → p ≡ some u
unfolding deref
deref-some none e = cc
deref-some (some v) e = cc

load-some : (h : Heap) (p : Ptr) {u : User} → load h p ≡ ok u → h p ≡ some u
unfolding load
load-some h p {u} e = elim (Option-cases (h p)) [
  | inl none_there ↦
      let never : fault use_after_free ≡ ok u = sym (load-fault h p none_there) ∙ e in cc
  | inr (v, there) ↦ let same : ok v ≡ ok u = sym (load-ok h p there) ∙ e in there ∙ cc
]

strcpy-source : (size : ℕ) (s : Str) {r : Str} → strcpy size s ≡ ok r → r ≡ s
unfolding strcpy
strcpy-source size s {r} e = elim (Bool-cases (ltb (length s) size)) [
  | inl fits ↦ let same : ok s ≡ ok r = sym (rw fits refl) ∙ e in cc
  | inr long ↦ let never : fault overflow ≡ ok r = sym (rw long refl) ∙ e in cc
]

module _ (S : Sqlite) (t : State S) (env : Env) (s : Session) (buffer : Message) where
  -- The one message that a request to join leads to.
  pub record Asked (out : Out) : Type 0 where
    pub boss : Ptr
    pub found : get_admin buffer.content t.server.rooms ≡ ok (some boss)
    pub it : User
    pub stands : t.server.heap boss ≡ some it
    pub m : Message
    pub code : m.code ≡ secure ask_join_room_sec
    pub room : m.content ≡ buffer.content
    pub written : out ≡ (it.socket, m) ∷ []

  abbrev pub Asks : Turn S → Type 0
  Asks r = (r.state ≡ t) × (r.session.user ≡ s.user) × ((r.out ≡ []) ⊎ Asked r.out)

  ask_admin-Asks : (u : Ptr) → Ensures Asks (ask_admin t env s buffer u)
  unfolding ask_admin
  ask_admin-Asks u = Ensures-bind_eq Asks (get_admin buffer.content t.server.rooms) _ λ found e.
      Ensures-step Asks (load t.server.heap u) _ λ me.
        Ensures-bind_eq Asks (strcpy max_mess_size buffer.content) _ λ content copied.
          Ensures-bind_eq Asks (deref found) _ λ boss there.
            Ensures-bind_eq Asks (load t.server.heap boss) _ λ it loaded. (
              refl,
              refl,
              inr (record {
                boss = boss;
                found = e ∙ ap (λ x. ok x) (deref-some found there);
                it = it;
                stands = load-some t.server.heap boss loaded;
                m = record s.response {
                  code = secure ask_join_room_sec;
                  sender = me.name;
                  content = content;
                };
                code = refl;
                room = strcpy-source max_mess_size buffer.content copied;
                written = refl;
              }),
            )

  -- Whoever asks to join a secure room, unless it is a fault of C, the state and the user of the
  -- thread stay as they are, and at most one message is written before the reply: the request, with
  -- the name of the room, to its admin.
  pub on_join_room_sec-Asks : Ensures Asks (on_join_room_sec t env s buffer)
  unfolding on_join_room_sec
  on_join_room_sec-Asks = Ensures-step Asks (is_room_used buffer.content t.server.rooms) _ λ used.
      Ensures-cases Asks used _ _
        (Ensures-step Asks (deref s.user) _ λ u.
          Ensures-step Asks (is_user_in_room t.server.heap u buffer.content t.server.rooms) _
            λ member. Ensures-cases Asks member _ _ (refl, refl, inl refl) (ask_admin-Asks u))
        (refl, refl, inl refl)
