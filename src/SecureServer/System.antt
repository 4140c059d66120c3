-- ===== src/SecureServer/System.antt =====
-- The secure server with its threads: rounds of connections to src/serversec/secure_server.c in any
-- order, each as one step. Steps in which C's behaviour is undefined are not steps; accesses behind
-- `free` are among those.
use bavardage.Prelude.{
  ℕ, ◌≡◌, refl, sym, ◌∙◌, true, false, none, some, ◌==◌, if◌then◌else◌, ◌⊎◌, inl, inr, Bool-cases,
  ==_iff,
}
use mathlib.Core.Path.{subst}
use mathlib.Core.Bool.{false≢true}
use bavardage.CString.{Str}
use bavardage.Run.{ok}
use bavardage.Run.Ensures.{Ensures-ok}
use bavardage.Wire.{Message}
use bavardage.Users.Store.{Ptr}
use bavardage.Server.State.{Server}
use bavardage.Server.Rounds.{IsServer, IsNamed}
use bavardage.Server.Allocating.{Stays}
use bavardage.Accounts.Sql.{Sqlite}
use bavardage.SecureServer.State.{State, Session, Env, Turn}
use bavardage.SecureServer.Accepting.{Handshake, serves, greet, greet-nobody}
use bavardage.SecureServer.Rounds.{receive_sec, hang_up_sec}
use bavardage.SecureServer.Outcome.{Outcome, receive_sec-Outcome, hang_up_sec-Outcome}

-- The shared state, and the threads by number.
pub record System (S : Sqlite) : Type 0 where
  pub state : State S
  pub sessions : ℕ → Session

abbrev pub with_session : (ℕ → Session) → ℕ → Session → ℕ → Session
with_session sessions i s j = if j == i then s else sessions j

-- The system behind a round of thread `i`.
abbrev pub behind : {S : Sqlite} → System S → ℕ → Turn S → System S
behind t i r = record { state = r.state; sessions = with_session t.sessions i r.session }

Stays-self : (sv : Server) → Stays sv sv
Stays-self sv = record { kept = λ q v here. here; named = λ q holder c. c }

module _ {S : Sqlite} where
  -- An access behind `free` is a fault, and `malloc` returns an address that holds no structure.
  abbrev pub IsSafe : System S → Env → Type 0
  IsSafe t env = (env.keeps ≡ false) × (t.state.server.heap env.fresh ≡ none)

  pub data Step (t : System S) : System S → Type 0 where
    accepted :
        (i ssl : ℕ) (stale : Str) (junk : Message) (p : Handshake) {s : Session}
        → (t.sessions i).running ≡ false
        → greet ssl stale junk p ≡ serves s
        → Step t (record t { sessions = with_session t.sessions i s })
    handled :
        (i : ℕ) (env : Env) (buffer : Message) {r : Turn S}
        → (t.sessions i).running ≡ true
        → IsSafe t env
        → receive_sec S t.state env (t.sessions i) buffer ≡ ok r
        → Step t (behind t i r)
    -- a connection breaks, with the last message in `buffer`
    broken :
        (i : ℕ) (env : Env) (buffer : Message) {r : Turn S}
        → (t.sessions i).running ≡ true
        → IsSafe t env
        → hang_up_sec S t.state env (t.sessions i) buffer ≡ ok r
        → Step t (behind t i r)

  pub data Reach (t : System S) : System S → Type 0 where
    here : Reach t t
    next : {u v : System S} → Reach t u → Step u v → Reach t v

  -- The running thread `i` serves the structure at `u`.
  abbrev pub Serving : System S → ℕ → Ptr → Type 0
  Serving t i u = ((t.sessions i).running ≡ true) × ((t.sessions i).user ≡ some u)

  pub record IsSystem (t : System S) : Type 0 where
    pub server : IsServer t.state.server
    pub named : (i : ℕ) (u : Ptr) → Serving t i u → (holder : Ptr) × IsNamed t.state.server u holder
    pub apart : (i j : ℕ) (u : Ptr) → Serving t i u → Serving t j u → i ≡ j

  module _ (t : System S) (g : IsSystem t) (i : ℕ) (running : (t.sessions i).running ≡ true)
      (env : Env) (r : Turn S) (fresh : t.state.server.heap env.fresh ≡ none)
      (o : Outcome t.state env (t.sessions i) r) where
    abbrev IsNew : ℕ → Ptr → Type 0
    IsNew j u = (j ≡ i) × (u ≡ env.fresh) × ((holder : Ptr) × IsNamed r.state.server u holder)

    own : (u : Ptr) → r.session.running ≡ true → r.session.user ≡ some u → Serving t i u ⊎ IsNew i u
    own u on e = elim o.user [
      | inl ended ↦ absurd (false≢true (sym ended ∙ on))
      | inr (inl kept) ↦ inl (running, sym kept ∙ e)
      | inr (inr (new, named)) ↦
          let same : env.fresh ≡ u = cc in
          inr (
            refl,
            sym same,
            subst (λ x. (holder : Ptr) × IsNamed r.state.server x holder) same named,
          )
    ]

    -- Whom a thread serves after the round it served before, or the round has let in.
    origin : (j : ℕ) (u : Ptr) → Serving (behind t i r) j u → Serving t j u ⊎ IsNew j u
    origin j u (on, e) = elim (Bool-cases (j == i)) [
      | inr other ↦ inl (rw other at on, rw other at e)
      | inl same ↦
          subst (λ k. Serving t k u ⊎ IsNew k u) (sym ((==_iff j i).0 same))
            (own u (rw same at on) (rw same at e))
    ]

    not-both : (j k : ℕ) (u : Ptr) → Serving t j u → IsNew k u → ⊥
    not-both j k u old (_, new, _) =
        let (holder, c) = g.named j u old in
        let there = c.here in let gone = rw (← new) at fresh in cc

    behind-IsSystem : IsSystem (behind t i r)
    behind-IsSystem = record {
      server = o.server;
      named = λ j u serving. elim (origin j u serving) [
        | inl old ↦ let (holder, c) = g.named j u old in (holder, o.stay.named u holder c)
        | inr (_, _, named) ↦ named
      ];
      apart = λ j k u one two. elim (origin j u one) [
        | inl old ↦ elim (origin k u two) [
          | inl old' ↦ g.apart j k u old old'
          | inr new ↦ absurd (not-both j k u old new)
        ]
        | inr new ↦ elim (origin k u two) [
          | inl old ↦ absurd (not-both k j u old new)
          | inr new' ↦ new.0 ∙ sym new'.0
        ]
      ];
    }

  accepted-old :
      (t : System S) (i : ℕ) (s : Session) (j : ℕ) (u : Ptr)
      → s.user ≡ none
      → Serving (record t { sessions = with_session t.sessions i s }) j u
      → Serving t j u
  accepted-old t i s j u nobody (on, e) = elim (Bool-cases (j == i)) [
    | inr other ↦ (rw other at on, rw other at e)
    | inl same ↦ absurd (none≢some (sym nobody ∙ rw same at e))
  ]
    where
      none≢some : none ≡ some u → ⊥
      none≢some e = cc

  -- The case of a round that has ended normally.
  round-Outcome :
      {t : System S} (g : IsSystem t) (i : ℕ) (env : Env) (buffer : Message) (r : Turn S)
      → (t.sessions i).running ≡ true
      → IsSafe t env
      → (receive_sec S t.state env (t.sessions i) buffer ≡ ok r)
        ⊎ (hang_up_sec S t.state env (t.sessions i) buffer ≡ ok r)
      → Outcome t.state env (t.sessions i) r
  round-Outcome {t} g i env buffer r running (strict, fresh) (inl run) =
      Ensures-ok _ (receive_sec S t.state env (t.sessions i) buffer) r
        (receive_sec-Outcome S t.state env (t.sessions i) buffer g.server strict fresh
          (λ u e. g.named i u (running, e)))
        run
  round-Outcome {t} g i env buffer r running (strict, fresh) (inr run) =
      Ensures-ok _ (hang_up_sec S t.state env (t.sessions i) buffer) r
        (hang_up_sec-Outcome S t.state env (t.sessions i) buffer g.server strict fresh
          (λ u e. g.named i u (running, e)))
        run

  Step-IsSystem :
      {t u : System S} → Step t u → IsSystem t → IsSystem u × Stays t.state.server u.state.server
  Step-IsSystem {t} (accepted i ssl stale junk p {s} idle starts) g =
      let nobody = greet-nobody ssl stale junk p s starts in
      (
        record {
          server = g.server;
          named = λ j u serving. g.named j u (accepted-old t i s j u nobody serving);
          apart = λ j k u one two.
              g.apart j k u (accepted-old t i s j u nobody one) (accepted-old t i s k u nobody two);
        },
        Stays-self t.state.server,
      )
  Step-IsSystem {t} (handled i env buffer {r} running safe run) g =
      let o = round-Outcome g i env buffer r running safe (inl run) in
      (behind-IsSystem t g i running env r safe.1 o, o.stay)
  Step-IsSystem {t} (broken i env buffer {r} running safe run) g =
      let o = round-Outcome g i env buffer r running safe (inr run) in
      (behind-IsSystem t g i running env r safe.1 o, o.stay)

  -- Every system to which connections and rounds without faults of C lead from one that is in order,
  -- whatever their order, is in order: the tables hold, the table of users finds someone under the
  -- name of each running thread's user, and no two running threads serve the same structure. And
  -- the allocated users stay as they are, and whomever the table found under the name of one, it
  -- still finds.
  pub Reach-Stays :
      {t u : System S} → Reach t u → IsSystem t → IsSystem u × Stays t.state.server u.state.server
  Reach-Stays {t} here g = (g, Stays-self t.state.server)
  Reach-Stays (next r st) g =
      let (g', old) = Reach-Stays r g in
      let (g'', stay) = Step-IsSystem st g' in
      (
        g'',
        record {
          kept = λ q v e. stay.kept q v (old.kept q v e);
          named = λ q holder c. stay.named q holder (old.named q holder c);
        },
      )
