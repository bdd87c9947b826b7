-- ===== src/Server/Dispatch/Steps.antt =====
-- The dispatcher and the workers together, a step of one of them at a time: a round of the
-- dispatcher, a round of a worker, and the signal handler's SIGHUP.
use file_storage_server.Prelude.{
  ℕ, zero, suc, ◌≤◌, ◌≡◌, refl, sym, ◌∙◌, ap, subst, true, false, List, [], ◌∷◌, ◌++◌, ◌==◌,
  if◌then◌else◌, arith, length, drop, drop-append, append_assoc, pos,
}
use file_storage_server.Run
use file_storage_server.Run.{Run, ok}
use file_storage_server.Lis.{Lis, is_empty}
use file_storage_server.Lis.Seg.{Cell, Holds}
use file_storage_server.File.{File}
use file_storage_server.Protcol
use file_storage_server.Protcol.{Request}
use file_storage_server.Server.State.{
  Server, ServerConf, Event, sent, logged, logged_int, handed_back, closed, signal_con,
  signal_request, log_line, return, emit,
}
use file_storage_server.Server.Worker.{serve, work}
use file_storage_server.Server.Rounds.{take_request-Holds}
use file_storage_server.Server.Private.{
  AllOwn, AllFrom, Touches, Touches-refl, Ends, done, after, either, emitted,
}
use file_storage_server.Server.Private.Served.{serve-Ends}
use file_storage_server.Server.Dispatch.{Descriptors, Machine, Round, start_dispatcher, dispatch}
use file_storage_server.Server.Dispatch.Ending.{dispatch-Settles}
use file_storage_server.Server.Dispatch.Bounded.{
  AllAsked, AllAsked-append, AllGiven, Bounded, IsReady, start-Bounded,
}

-- the descriptors that are written to `pipefd`
abbrev pub handed : List Event → List ℕ
handed [] = []
handed (handed_back c ∷ es) = c ∷ handed es
handed (sent c b ∷ es) = handed es
handed (logged l ∷ es) = handed es
handed (logged_int l n ∷ es) = handed es
handed (closed c ∷ es) = handed es
handed (signal_con ∷ es) = handed es
handed (signal_request ∷ es) = handed es

-- the machine behind a worker's round that leaves the server `t`
abbrev pub worked_on : Machine → Server → Machine
worked_on m t = record m {
  server = t;
  pipe = m.pipe ++ handed (drop (length m.server.trace) t.trace);
}

pub data Step (d : Descriptors) (sc : ServerConf) (m : Machine) : Machine → Type 0 where
  dispatched :
      {m' : Machine} (w : Round)
      → m.gestore ≡ true
      → IsReady d m w
      → dispatch d w m ≡ ok m'
      → Step d sc m m'
  worked :
      {t : Server} (raw : File) (thread : ℕ)
      → is_empty m.server.queueric ≡ false
      → work sc raw thread m.server ≡ ok (tt, t)
      → Step d sc m (worked_on m t)
  hung_up : Step d sc m (record m { server = record m.server { closesighup = false } })

pub data Reach (d : Descriptors) (sc : ServerConf) (s : Server) : Machine → Type 0 where
  starts : Reach d sc s (start_dispatcher d s)
  goes_on : {m m' : Machine} → Reach d sc s m → Step d sc m m' → Reach d sc s m'

AllFrom-AllAsked : (fd n : ℕ) (cs : List (Cell Request)) → fd ≤ n → AllFrom fd cs → AllAsked n cs
AllFrom-AllAsked fd n [] below h = tt
AllFrom-AllAsked fd n (c ∷ cs) below h =
    (let own = h.0 in omega (arith, own, below), AllFrom-AllAsked fd n cs below h.1)

AllGiven-append : (n : ℕ) (xs ys : List ℕ) → AllGiven n xs → AllGiven n ys → AllGiven n (xs ++ ys)
AllGiven-append n [] ys h k = k
AllGiven-append n (x ∷ xs) ys h k = (h.0, AllGiven-append n xs ys h.1 k)

AllOwn-AllGiven : (fd n : ℕ) (es : List Event) → fd ≤ n → AllOwn fd es → AllGiven n (handed es)
AllOwn-AllGiven fd n [] below h = tt
AllOwn-AllGiven fd n (handed_back c ∷ es) below h =
    (let own = h.0 in omega (arith, own, below), AllOwn-AllGiven fd n es below h.1)
AllOwn-AllGiven fd n (sent c b ∷ es) below h = AllOwn-AllGiven fd n es below h.1
AllOwn-AllGiven fd n (logged l ∷ es) below h = AllOwn-AllGiven fd n es below h.1
AllOwn-AllGiven fd n (logged_int l k ∷ es) below h = AllOwn-AllGiven fd n es below h.1
AllOwn-AllGiven fd n (closed c ∷ es) below h = AllOwn-AllGiven fd n es below h.1
AllOwn-AllGiven fd n (signal_con ∷ es) below h = AllOwn-AllGiven fd n es below h.1
AllOwn-AllGiven fd n (signal_request ∷ es) below h = AllOwn-AllGiven fd n es below h.1

-- the server when the worker has taken its request and logged it
abbrev taken_up : Server → Lis Request → ℕ → Server
taken_up s q thread = record s {
  queueric = q;
  trace =
      (s.trace ++ log_line "Richiesta servita dal thread" (pos 0) ∷ [])
      ++ log_line "TH " (pos thread) ∷ [];
}

-- A round of a worker touches the server as the request's client may.
work-Touches :
    (sc : ServerConf) (raw : File) (thread : ℕ) (s t : Server) (c : Cell Request)
    (cs : List (Cell Request))
    → Holds s.queueric (c ∷ cs)
    → work sc raw thread s ≡ ok (tt, t)
    → (q : Lis Request) × Holds q cs × Touches c.cont.fd (taken_up s q thread) t
unfolding work
work-Touches sc raw thread s t c cs queued run =
    let (q, taken, held) = take_request-Holds s c cs queued in
    let fd = c.cont.fd in
    let start = taken_up s q thread in
    let ends : Ends {A = Unit {0}} fd start (
        Run.◌>>=◌ (serve sc raw c.cont start) λ x.
          (if c.cont.op == Protcol.close_connection then return tt else emit (handed_back fd))
            x.1) =
      after (serve sc raw c.cont start) _ (serve-Ends sc raw c.cont start (Touches-refl fd start))
        λ x u h.
          either (c.cont.op == Protcol.close_connection) _ _ u (done tt u h)
            (done tt _ (emitted (handed_back fd) refl h)) in
    (q, held, ends.touches tt t (sym (rw taken refl) ∙ run))

-- the two lines that a worker logs
logged_lines :
    (thread n : ℕ) (es : List Event)
    → AllGiven n (handed es)
    → AllGiven n (
        handed (log_line "Richiesta servita dal thread" (pos 0) ∷ log_line "TH " (pos thread) ∷ es))
unfolding log_line
logged_lines zero n es h = h
logged_lines (suc k) n es h = h

pub Step-Bounded :
    {d : Descriptors} {sc : ServerConf} {m m' : Machine} → Step d sc m m' → Bounded m → Bounded m'
unfolding is_empty
Step-Bounded {d} {sc} {m} {m'} (dispatched w runs ready e) h =
    let (m₂, e₂, k) = dispatch-Settles d w m ready h in
    let same : m₂ ≡ m' = cc in subst Bounded same k
Step-Bounded {d} {sc} {m} (worked {t} raw thread busy run) h = go h.cells h.queued h.asked
  where
    traced :
        (q : Lis Request) (fd : ℕ) (x : Touches fd (taken_up m.server q thread) t)
        → fd ≤ m.fd_num
        → AllGiven m.fd_num (handed (drop (length m.server.trace) t.trace))
    traced q fd x below =
        let a = log_line "Richiesta servita dal thread" (pos 0) in
        let b = log_line "TH " (pos thread) in
        let whole : t.trace ≡ m.server.trace ++ (a ∷ b ∷ x.events) =
          x.traced
          ∙ append_assoc (m.server.trace ++ a ∷ []) (b ∷ []) x.events
          ∙ append_assoc m.server.trace (a ∷ []) (b ∷ x.events) in
        subst (λ (es : List Event). AllGiven m.fd_num (handed es))
          (sym (
            ap (drop (length m.server.trace)) whole
            ∙ drop-append m.server.trace (a ∷ b ∷ x.events)))
          (logged_lines thread m.fd_num x.events (AllOwn-AllGiven fd m.fd_num x.events below x.own))

    go :
        (cells : List (Cell Request))
        → Holds m.server.queueric cells
        → AllAsked m.fd_num cells
        → Bounded (worked_on m t)
    go [] queued asked = absurd (let none_left = queued.count in ground (arith, busy, none_left))
    go (c ∷ cs) queued asked =
        let (q, held, x) = work-Touches sc raw thread m.server t c cs queued run in
        let (more, holds, from) = x.queue cs held in
        record {
          cells = cs ++ more;
          queued = holds;
          asked =
              AllAsked-append m.fd_num cs more asked.1
                (AllFrom-AllAsked c.cont.fd m.fd_num more asked.0 from);
          given = AllGiven-append m.fd_num m.pipe _ h.given (traced q c.cont.fd x asked.0);
          watched = λ p e. h.watched p (x.watches p e);
        }
Step-Bounded hung_up h = record {
  cells = h.cells;
  queued = h.queued;
  asked = h.asked;
  given = h.given;
  watched = h.watched;
}

-- Along every run of the dispatcher, the workers and SIGHUP from a server whose queue of requests
-- is an empty list in order, where each round of the dispatcher is given what `IsReady` says and
-- each worker's round ends: the queue of requests is a list in order, and `fd_num` bounds the
-- descriptors that are watched, those whose requests are queued, and those in the pipe from the
-- workers.
pub Reach-Bounded :
    (d : Descriptors) (sc : ServerConf) (s : Server) (m : Machine)
    → Holds s.queueric []
    → Reach d sc s m
    → Bounded m
Reach-Bounded d sc s m h starts = start-Bounded d s h
Reach-Bounded d sc s m h (goes_on r step) = Step-Bounded step (Reach-Bounded d sc s _ h r)
