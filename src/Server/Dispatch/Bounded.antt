-- ===== src/Server/Dispatch/Bounded.antt =====
-- One round of the dispatcher, with a bound on the descriptors that it knows.
use file_storage_server.Prelude.{
  ℕ, ◌≤◌, ◌≡◌, refl, subst, Bool, Bool-cases, true, false, List, [], ◌∷◌, ◌++◌, Option, none, some,
  ◌==◌, ◌⊎◌, inl, inr, arith,
}
use file_storage_server.Run
use file_storage_server.Run.{Run, ok}
use file_storage_server.Lis.Seg.{Cell, Holds}
use file_storage_server.Lis.Insert.{new_cell, insert_t-Holds}
use file_storage_server.Protcol.{Request}
use file_storage_server.Server.State.{Server, signal_request}
use file_storage_server.Server.Message.{read_message, read_message-fd}
use file_storage_server.Server.Dispatch.{
  Descriptors, Machine, Round, raise, watch, unwatch, start_dispatcher, connect, watch_again,
  enqueue, take_in,
}

abbrev pub AllAsked : ℕ → List (Cell Request) → Type 0
AllAsked n [] = Unit {0}
AllAsked n (c ∷ cs) = (c.cont.fd ≤ n) × AllAsked n cs

abbrev pub AllGiven : ℕ → List ℕ → Type 0
AllGiven n [] = Unit {0}
AllGiven n (c ∷ cs) = (c ≤ n) × AllGiven n cs

-- The queue is a list in order, and `fd_num` bounds the descriptors whose requests are in it, those
-- in the pipe, and those that `select` watches.
pub record Bounded (m : Machine) : Type 0 where
  pub cells : List (Cell Request)
  pub queued : Holds m.server.queueric cells
  pub asked : AllAsked m.fd_num cells
  pub given : AllGiven m.fd_num m.pipe
  pub watched : (q : ℕ) → m.server.set q ≡ true → q ≤ m.fd_num

-- What `select` and `accept` promise: a descriptor that is ready is one that is watched, the pipe is
-- ready only when there is something in it, and there is a connection to accept.
pub record IsReady (d : Descriptors) (m : Machine) (w : Round) : Type 0 where
  pub among : (q : ℕ) → w.rdset q ≡ true → m.server.set q ≡ true
  pub filled : w.rdset d.pipefd ≡ true → (c : ℕ) × (cs : List ℕ) × (m.pipe ≡ c ∷ cs)
  pub connected : (c : ℕ) × (w.accepted ≡ some c)

raise-old : (c n : ℕ) → n ≤ raise c n
raise-old c n = ground arith

raise-new : (c n : ℕ) → c ≤ raise c n
raise-new c n = ground arith

AllAsked-raise : (c n : ℕ) (cs : List (Cell Request)) → AllAsked n cs → AllAsked (raise c n) cs
AllAsked-raise c n [] h = tt
AllAsked-raise c n (x ∷ cs) h =
    (let up = raise-old c n in omega (arith, up, h.0), AllAsked-raise c n cs h.1)

AllGiven-raise : (c n : ℕ) (cs : List ℕ) → AllGiven n cs → AllGiven (raise c n) cs
AllGiven-raise c n [] h = tt
AllGiven-raise c n (x ∷ cs) h =
    (let up = raise-old c n in omega (arith, up, h.0), AllGiven-raise c n cs h.1)

pub AllAsked-append :
    (n : ℕ) (xs ys : List (Cell Request)) → AllAsked n xs → AllAsked n ys → AllAsked n (xs ++ ys)
AllAsked-append n [] ys h k = k
AllAsked-append n (x ∷ xs) ys h k = (h.0, AllAsked-append n xs ys h.1 k)

watch-cases : (c : ℕ) (set : ℕ → Bool) (q : ℕ) → watch c set q ≡ true → (q ≡ c) ⊎ (set q ≡ true)
watch-cases c set q e = elim (Bool-cases (q == c)) [
  | inl same ↦ inl (ground (arith, same))
  | inr other ↦ inr (ground (arith, other, e))
]

unwatch-kept : (c : ℕ) (set : ℕ → Bool) (q : ℕ) → unwatch c set q ≡ true → set q ≡ true
unwatch-kept c set q e = elim (Bool-cases (q == c)) [
  | inl same ↦ absurd (ground (arith, same, e))
  | inr other ↦ ground (arith, other, e)
]

pub start-Bounded :
    (d : Descriptors) (s : Server) → Holds s.queueric [] → Bounded (start_dispatcher d s)
unfolding start_dispatcher
start-Bounded d s h = record {
  cells = [];
  queued = h;
  asked = tt;
  given = tt;
  watched = λ q e.
      elim (watch-cases d.pipedisp (watch d.pipefd (watch d.fd_skt (λ x. false))) q e) [
        | inl same ↦
            let a = raise-new d.pipedisp (raise d.pipefd (raise d.fd_skt 0)) in
            omega (arith, a, same)
        | inr e ↦
            let a = raise-old d.pipedisp (raise d.pipefd (raise d.fd_skt 0)) in
            elim (watch-cases d.pipefd (watch d.fd_skt (λ x. false)) q e) [
              | inl same ↦
                  let b = raise-new d.pipefd (raise d.fd_skt 0) in omega (arith, a, b, same)
              | inr e ↦
                  let b = raise-old d.pipefd (raise d.fd_skt 0) in
                  elim (watch-cases d.fd_skt (λ x. false) q e) [
                    | inl same ↦ let c = raise-new d.fd_skt 0 in omega (arith, a, b, c, same)
                    | inr e ↦ absurd (let bad : false ≡ true = e in cc)
                  ]
            ]
      ];
}

-- the code ends, with a machine that is bounded
abbrev pub Settles : Run Machine → Type 0
Settles x = (m' : Machine) × (x ≡ ok m') × Bounded m'

pub connect-Settles : (c : ℕ) (m : Machine) → Bounded m → Settles (connect (some c) m)
unfolding connect
connect-Settles c m h = (
  _,
  refl,
  record {
    cells = h.cells;
    queued = h.queued;
    asked = AllAsked-raise c m.fd_num h.cells h.asked;
    given = AllGiven-raise c m.fd_num m.pipe h.given;
    watched = λ q e. elim (watch-cases c m.server.set q e) [
      | inl same ↦ let a = raise-new c m.fd_num in omega (arith, a, same)
      | inr e ↦ let a = raise-old c m.fd_num in let b = h.watched q e in omega (arith, a, b)
    ];
  },
)

pub watch_again-Settles :
    (c : ℕ) (cs : List ℕ) (m : Machine)
    → m.pipe ≡ c ∷ cs
    → Bounded m
    → Settles (watch_again (c ∷ cs) m)
unfolding watch_again
watch_again-Settles c cs m e h =
    let given : AllGiven m.fd_num (c ∷ cs) = subst (AllGiven m.fd_num) e h.given in
    (
      _,
      refl,
      record {
        cells = h.cells;
        queued = h.queued;
        asked = h.asked;
        given = given.1;
        watched = λ q k. elim (watch-cases c m.server.set q k) [
          | inl same ↦ omega (arith, same, given.0)
          | inr k ↦ h.watched q k
        ];
      },
    )

pub take_in-Settles :
    (w : Round) (c : ℕ) (m : Machine) → c ≤ m.fd_num → Bounded m → Settles (take_in w c m)
unfolding take_in enqueue
take_in-Settles w c m below h = go (read_message w.raw w.raw_cont c (w.socket c)) refl
  where
    fewer : (q : ℕ) → unwatch c m.server.set q ≡ true → q ≤ m.fd_num
    fewer q e = h.watched q (unwatch-kept c m.server.set q e)

    go :
        (o : Option Request)
        → read_message w.raw w.raw_cont c (w.socket c) ≡ o
        → Settles (
            Run.◌>>=◌
              (enqueue o (record m.server { set = unwatch c m.server.set }))
              λ s. ok (record m { server = s }))
    go none e = (
      _,
      refl,
      record {
        cells = h.cells;
        queued = h.queued;
        asked = h.asked;
        given = h.given;
        watched = fewer;
      },
    )
    go (some r) e =
        let (q, run, held) = insert_t-Holds m.server.queueric h.cells r r.pathname h.queued in
        let own = read_message-fd w.raw w.raw_cont c (w.socket c) r e in
        (
          record m {
            server = record m.server {
              set = unwatch c m.server.set;
              queueric = q;
              trace = m.server.trace ++ signal_request ∷ [];
            };
          },
          rw run refl,
          record {
            cells = h.cells ++ new_cell m.server.queueric r r.pathname ∷ [];
            queued = held;
            asked = AllAsked-append m.fd_num h.cells _ h.asked (omega (arith, own, below), tt);
            given = h.given;
            watched = fewer;
          },
        )
