-- ===== src/Server/System.antt =====
-- The chat server with its threads: rounds of connections in any order, as the mutex lets them
-- through. Steps in which C's behaviour is undefined are not steps; accesses behind `free` are
-- among those.
use bavardage.Prelude.{
  ℕ, ◌≡◌, ◌≢◌, refl, sym, ◌∙◌, true, false, none, some, ◌==◌, if◌then◌else◌, ◌⊎◌, inl, inr,
  Bool-cases, ==_iff,
}
use mathlib.Core.Path.{subst}
use mathlib.Core.Bool.{false≢true}
use bavardage.Run.{ok}
use bavardage.Run.Ensures.{Ensures-ok}
use bavardage.Wire.{Message, clear_message}
use bavardage.Users.Store.{Ptr}
use bavardage.Server.State.{Server, Env, Out}
use bavardage.Server.Connection.{Session, receive, hang_up}
use bavardage.Server.Outcome.{Outcome, receive-Outcome, hang_up-Outcome}
use bavardage.Server.Rounds.{IsServer, IsClient}

-- The shared state, and the threads by number.
pub record System : Type 0 where
  pub server : Server
  pub sessions : ℕ → Session

abbrev pub with_session : (ℕ → Session) → ℕ → Session → ℕ → Session
with_session sessions i s j = if j == i then s else sessions j

-- What `malloc` may return: an address that holds no structure.
abbrev pub IsStrict : Server → Env → Type 0
IsStrict sv env = (env.keeps ≡ false) × (sv.heap env.fresh ≡ none)

pub data Step (t : System) : System → Type 0 where
  -- a connection is accepted and its thread starts with no user
  accepted :
      (i socket : ℕ)
      → (t.sessions i).running ≡ false
      → Step t (record t {
        sessions =
            with_session t.sessions i (record { socket = socket; user = none; running = true });
      })
  -- a thread handles a message
  handled :
      (i : ℕ) (env : Env) (buffer : Message) {sv : Server} {s : Session} {out : Out}
      → (t.sessions i).running ≡ true
      → IsStrict t.server env
      → receive t.server env (t.sessions i) buffer ≡ ok (sv, s, out)
      → Step t (record { server = sv; sessions = with_session t.sessions i s })
  -- a connection breaks
  broken :
      (i : ℕ) (env : Env) {sv : Server} {s : Session} {out : Out}
      → (t.sessions i).running ≡ true
      → IsStrict t.server env
      → hang_up t.server env (t.sessions i) ≡ ok (sv, s, out)
      → Step t (record { server = sv; sessions = with_session t.sessions i s })

pub data Reach (t : System) : System → Type 0 where
  here : Reach t t
  next : {u v : System} → Reach t u → Step u v → Reach t v

-- The running thread `i` serves user `u`.
abbrev pub Serving : System → ℕ → Ptr → Type 0
Serving t i u = ((t.sessions i).running ≡ true) × ((t.sessions i).user ≡ some u)

pub record IsSystem (t : System) : Type 0 where
  pub server : IsServer t.server
  pub clients : (i : ℕ) (u : Ptr) → Serving t i u → IsClient t.server u
  pub apart : (i j : ℕ) (u : Ptr) → Serving t i u → Serving t j u → i ≡ j

-- A client's address holds a structure, so it is not the fresh one.
client-ne-fresh :
    (sv : Server) (env : Env) (u : Ptr) → sv.heap env.fresh ≡ none → IsClient sv u → u ≢ env.fresh
client-ne-fresh sv env u fresh c e = let here = c.here in let gone = rw (← e) at fresh in cc

module _ (t : System) (g : IsSystem t) (i : ℕ) (running : (t.sessions i).running ≡ true) (env : Env)
    (sv : Server) (s : Session) (out : Out) (fresh : t.server.heap env.fresh ≡ none)
    (o : Outcome t.server env (t.sessions i) (sv, s, out)) where
  abbrev after : System
  after = record { server = sv; sessions = with_session t.sessions i s }

  abbrev IsNew : ℕ → Ptr → Type 0
  IsNew j u = (j ≡ i) × (u ≡ env.fresh) × IsClient sv u

  own : (u : Ptr) → s.running ≡ true → s.user ≡ some u → Serving t i u ⊎ IsNew i u
  own u r e = elim o.user [
    | inl ended ↦ absurd (false≢true (sym ended ∙ r))
    | inr (inl kept) ↦ inl (running, sym kept ∙ e)
    | inr (inr (new, client)) ↦
        let same : env.fresh ≡ u = cc in inr (refl, sym same, subst (IsClient sv) same client)
  ]

  -- Whom a thread serves after the round it served before, or the round has connected.
  origin : (j : ℕ) (u : Ptr) → Serving after j u → Serving t j u ⊎ IsNew j u
  origin j u (r, e) = elim (Bool-cases (j == i)) [
    | inr other ↦ inl (rw other at r, rw other at e)
    | inl same ↦
        subst (λ k. Serving t k u ⊎ IsNew k u) (sym ((==_iff j i).0 same))
          (own u (rw same at r) (rw same at e))
  ]

  not-both : (j k : ℕ) (u : Ptr) → Serving t j u → IsNew k u → ⊥
  not-both j k u old (_, new, _) = client-ne-fresh t.server env u fresh (g.clients j u old) new

  after-IsSystem : IsSystem after
  after-IsSystem = record {
    server = o.server;
    clients = λ j u serving. elim (origin j u serving) [
      | inl old ↦ o.stay u (g.clients j u old)
      | inr (_, _, client) ↦ client
    ];
    apart = λ j k u one two. elim (origin j u one) [
      | inl old ↦ elim (origin k u two) [
        | inl old' ↦ g.apart j k u old old'
        | inr new ↦ absurd (not-both j k u old new)
      ]
      | inr new ↦ elim (origin k u two) [
        | inl old ↦ absurd (not-both k j u old new)
        | inr new' ↦ new.0 ∙ sym new'.0
      ]
    ];
  }

accepted-IsSystem :
    (t : System) (i socket : ℕ)
    → IsSystem t
    → IsSystem (record t {
      sessions =
          with_session t.sessions i (record { socket = socket; user = none; running = true });
    })
accepted-IsSystem t i socket g = record {
  server = g.server;
  clients = λ j u serving. g.clients j u (old j u serving);
  apart = λ j k u one two. g.apart j k u (old j u one) (old k u two);
}
  where
    none≢some : (u : Ptr) → none ≡ some u → ⊥
    none≢some u e = cc

    old :
        (j : ℕ) (u : Ptr)
        → Serving
            (record t {
              sessions =
                  with_session t.sessions i
                    (record { socket = socket; user = none; running = true });
            })
            j
            u
        → Serving t j u
    old j u (r, e) = elim (Bool-cases (j == i)) [
      | inr other ↦ (rw other at r, rw other at e)
      | inl same ↦ absurd (none≢some u (rw same at e))
    ]

Step-IsSystem : {t u : System} → Step t u → IsSystem t → IsSystem u
Step-IsSystem {t} (accepted i socket idle) g = accepted-IsSystem t i socket g
Step-IsSystem {t} (handled i env buffer {sv} {s} {out} running (strict, fresh) run) g =
    after-IsSystem t g i running env sv s out fresh (
      Ensures-ok _ (receive t.server env (t.sessions i) buffer) (sv, s, out)
        (receive-Outcome t.server env (t.sessions i) buffer g.server strict fresh
          (λ u e. g.clients i u (running, e)))
        run)
Step-IsSystem {t} (broken i env {sv} {s} {out} running (strict, fresh) run) g =
    after-IsSystem t g i running env sv s out fresh (
      Ensures-ok _ (hang_up t.server env (t.sessions i)) (sv, s, out)
        (hang_up-Outcome t.server env (t.sessions i) clear_message g.server strict fresh
          (λ u e. g.clients i u (running, e)))
        run)

-- Every system to which connections and rounds without faults of C lead from one that is in order,
-- whatever their order, is in order: the tables hold, each running thread with a user has a
-- connected one, and no two have the same.
pub Reach-IsSystem : {t u : System} → Reach t u → IsSystem t → IsSystem u
Reach-IsSystem here g = g
Reach-IsSystem (next r st) g = Step-IsSystem st (Reach-IsSystem r g)
