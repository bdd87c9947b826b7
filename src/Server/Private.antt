-- ===== src/Server/Private.antt =====
-- What a worker does to the rest of the server while it answers a client: rules for the steps of
-- the handlers. Their proofs follow the handlers' code, one rule for each step.
pub mod Access
pub mod Opening
pub mod Storing
pub mod Walking
pub mod Served
use file_storage_server.Prelude.{
  ℕ, zero, suc, ◌≡◌, ◌≢◌, refl, sym, ◌∙◌, ap, subst, Bool, true, false, List, [], ◌∷◌, ◌++◌, Option,
  none, some, arith, if◌then◌else◌, pos, append_assoc, append-nil, ℤ, negsuc, String,
}
use file_storage_server.Run
use file_storage_server.Run.{Run, ok, fault, spin, deref}
use file_storage_server.Text.{Text}
use file_storage_server.Lis.{insert_t}
use file_storage_server.Lis.Seg.{Cell, Holds}
use file_storage_server.Lis.Insert.{new_cell, insert_t-Holds}
use file_storage_server.Hash
use file_storage_server.File.{File, read_block}
use file_storage_server.Protcol.{Request, int_bytes}
use file_storage_server.Server.State.{
  Server, Event, sent, logged, logged_int, handed_back, closed, signal_con, signal_request, Act,
  run, send_message, send_file, log_line, load_file, store_file, new_file, contain, getvalue,
  hashins, h_delete,
}

-- an event that concerns no client but `fd`
abbrev pub IsOwn : ℕ → Event → Type 0
IsOwn fd (sent c b) = c ≡ fd
IsOwn fd (handed_back c) = c ≡ fd
IsOwn fd (closed c) = c ≡ fd
IsOwn fd (logged l) = Unit {0}
IsOwn fd (logged_int l n) = Unit {0}
IsOwn fd signal_con = Unit {0}
IsOwn fd signal_request = Unit {0}

abbrev pub AllOwn : ℕ → List Event → Type 0
AllOwn fd [] = Unit {0}
AllOwn fd (e ∷ es) = IsOwn fd e × AllOwn fd es

AllOwn-append : (fd : ℕ) (xs ys : List Event) → AllOwn fd xs → AllOwn fd ys → AllOwn fd (xs ++ ys)
AllOwn-append fd [] ys h k = k
AllOwn-append fd (x ∷ xs) ys h k = (h.0, AllOwn-append fd xs ys h.1 k)

-- requests of the client `fd`
abbrev pub AllFrom : ℕ → List (Cell Request) → Type 0
AllFrom fd [] = Unit {0}
AllFrom fd (c ∷ cs) = (c.cont.fd ≡ fd) × AllFrom fd cs

AllFrom-append :
    (fd : ℕ) (xs ys : List (Cell Request)) → AllFrom fd xs → AllFrom fd ys → AllFrom fd (xs ++ ys)
AllFrom-append fd [] ys h k = k
AllFrom-append fd (x ∷ xs) ys h k = (h.0, AllFrom-append fd xs ys h.1 k)

-- requests of `fd` were added at the tail of the queue, and no others were touched
abbrev pub Grows : ℕ → Server → Server → Type 0
Grows fd s t =
    (cells : List (Cell Request))
    → Holds s.queueric cells
    → (more : List (Cell Request)) × Holds t.queueric (cells ++ more) × AllFrom fd more

-- From `s` to `t` the trace grew by events of the client `fd`, the queue of requests by requests of
-- its own, and `select` watches no descriptor that it did not, and all others that it did.
pub record Touches (fd : ℕ) (s t : Server) : Type 0 where
  pub events : List Event
  pub traced : t.trace ≡ s.trace ++ events
  pub own : AllOwn fd events
  pub queue : Grows fd s t
  pub others : (q : ℕ) → q ≢ fd → t.set q ≡ s.set q
  pub watches : (q : ℕ) → t.set q ≡ true → s.set q ≡ true

pub Grows-refl : (fd : ℕ) (s : Server) → Grows fd s s
Grows-refl fd s cells h = ([], subst (Holds s.queueric) (sym (append-nil cells)) h, tt)

pub Touches-refl : (fd : ℕ) (s : Server) → Touches fd s s
Touches-refl fd s = record {
  events = [];
  traced = sym (append-nil s.trace);
  own = tt;
  queue = Grows-refl fd s;
  others = λ q ne. refl;
  watches = λ q h. h;
}

pub Touches-trans : (fd : ℕ) (s t u : Server) → Touches fd s t → Touches fd t u → Touches fd s u
Touches-trans fd s t u a b = record {
  events = a.events ++ b.events;
  traced =
      b.traced
      ∙ ap (λ (x : List Event). x ++ b.events) a.traced
      ∙ append_assoc s.trace a.events b.events;
  own = AllOwn-append fd a.events b.events a.own b.own;
  queue = λ cells h.
      let (more, holds, from) = a.queue cells h in
      let (more', holds', from') = b.queue (cells ++ more) holds in
      (
        more ++ more',
        subst (Holds u.queueric) (append_assoc cells more more') holds',
        AllFrom-append fd more more' from from',
      );
  others = λ q ne. b.others q ne ∙ a.others q ne;
  watches = λ q h. a.watches q (b.watches q h);
}

-- What a piece of code that starts at `s` ends with, if it ends.
pub record Ends {A : Type 0} (fd : ℕ) (s : Server) (m : Run (A × Server)) : Type 0 where
  pub touches : (a : A) (t : Server) → m ≡ ok (a, t) → Touches fd s t

module _ {fd : ℕ} {s : Server} where
  pub done : {A : Type 0} (a : A) (t : Server) → Touches fd s t → Ends fd s (ok (a, t))
  done a t h = record { touches = λ b u e. let same : t ≡ u = cc in subst (Touches fd s) same h }

  pub Ends-fault : {A : Type 0} → Ends {A = A} fd s fault
  Ends-fault = record { touches = λ b u e. absurd (cc) }

  pub Ends-spin : {A : Type 0} → Ends {A = A} fd s spin
  Ends-spin = record { touches = λ b u e. absurd (cc) }

  -- one step, and the code behind it
  pub after :
      {A B : Type 0} (m : Run (A × Server)) (k : A × Server → Run (B × Server))
      → Ends fd s m
      → ((a : A) (t : Server) → Touches fd s t → Ends fd s (k (a, t)))
      → Ends fd s (Run.◌>>=◌ m k)
  after (ok (a, t)) k h next = next a t (h.touches a t refl)
  after fault k h next = Ends-fault
  after spin k h next = Ends-spin

  pub either :
      {A : Type 0} (b : Bool) (m n : Act A) (t : Server)
      → Ends fd s (m t)
      → Ends fd s (n t)
      → Ends fd s ((if b then m else n) t)
  either true m n t h k = h
  either false m n t h k = k

  pub run-Ends : {A : Type 0} (m : Run A) (t : Server) → Touches fd s t → Ends fd s (run (λ x. m) t)
  run-Ends (ok a) t h = done a t h
  run-Ends fault t h = Ends-fault
  run-Ends spin t h = Ends-spin

  pub contain-Ends : (k : Text) (t : Server) → Touches fd s t → Ends fd s (contain k t)
  contain-Ends k t h = run-Ends (Hash.contain t.table k) t h

  pub getvalue-Ends : (k : Text) (t : Server) → Touches fd s t → Ends fd s (getvalue k t)
  getvalue-Ends k t h = run-Ends (Hash.getvalue t.table k) t h

  pub load-Ends : (p : Option ℕ) (t : Server) → Touches fd s t → Ends fd s (load_file p t)
  load-Ends p t h = run-Ends (Run.◌>>=◌ (deref p) (λ a. deref (t.files a))) t h

  -- a change of the server that touches neither the trace, nor the queue of requests, nor the set
  pub changed :
      {t : Server} (u : Server)
      → u.trace ≡ t.trace
      → u.queueric ≡ t.queueric
      → u.set ≡ t.set
      → Touches fd s t
      → Touches fd s u
  changed {t} u traced queueric set h = record {
    events = h.events;
    traced = traced ∙ h.traced;
    own = h.own;
    queue = λ cells held.
        let (more, holds, from) = h.queue cells held in
        (more, subst (λ q. Holds q (cells ++ more)) (sym queueric) holds, from);
    others = λ q ne. ap (λ f. f q) set ∙ h.others q ne;
    watches = λ q e. h.watches q (ap (λ f. f q) (sym set) ∙ e);
  }

  pub store-Ends :
      (p : Option ℕ) (f : Option File) (t : Server) → Touches fd s t → Ends fd s (store_file p f t)
  store-Ends none f t h = done tt t h
  store-Ends (some p) f t h = done tt _ (changed _ refl refl refl h)

  pub hashins-Ends :
      (k : Text) (p : Option ℕ) (t : Server) → Touches fd s t → Ends fd s (hashins k p t)
  hashins-Ends k none t h = Ends-fault
  hashins-Ends k (some a) t h = go (Hash.hashins t.table k a)
    where
      go :
          (m : Run (Hash.Hash ℕ)) → Ends fd s (Run.◌>>=◌ m λ x. ok (tt {0}, record t { table = x }))
      go (ok x) = done tt _ (changed _ refl refl refl h)
      go fault = Ends-fault
      go spin = Ends-spin

  pub h_delete-Ends : (k : Text) (t : Server) → Touches fd s t → Ends fd s (h_delete k t)
  h_delete-Ends k t h = go (Hash.h_delete t.table k)
    where
      go :
          (m : Run (Bool × Hash.Hash ℕ))
          → Ends fd s (Run.◌>>=◌ m λ r. ok (r.0, record t { table = r.1 }))
      go (ok x) = done x.0 _ (changed _ refl refl refl h)
      go fault = Ends-fault
      go spin = Ends-spin

  pub emitted :
      {t : Server} (e : Event)
      → IsOwn fd e
      → Touches fd s t
      → Touches fd s (record t { trace = t.trace ++ e ∷ [] })
  emitted {t} e own h = Touches-trans fd s t _ h (record {
    events = e ∷ [];
    traced = refl;
    own = (own, tt);
    queue = Grows-refl fd t;
    others = λ q ne. refl;
    watches = λ q e. e;
  })

  pub log_lined :
      {t : Server} (l : String) (n : ℤ)
      → Touches fd s t
      → Touches fd s (record t { trace = t.trace ++ log_line l n ∷ [] })
  unfolding log_line
  log_lined l (pos zero) h = emitted (logged l) tt h
  log_lined l (pos (suc n)) h = emitted (logged_int l (pos (suc n))) tt h
  log_lined l (negsuc n) h = emitted (logged_int l (negsuc n)) tt h

  pub send_file-Ends :
      (fd' : ℕ) (cont : Option (List ℕ)) (dim : ℕ) (t : Server)
      → fd' ≡ fd
      → Touches fd s t
      → Ends fd s (send_file fd' cont dim t)
  unfolding send_file
  send_file-Ends fd' cont dim t own h =
      after
        (run (λ x. read_block cont dim)
          (record t { trace = t.trace ++ sent fd' (int_bytes dim) ∷ [] }))
        _ (run-Ends (read_block cont dim) _ (emitted _ own h))
        λ bytes t h. done tt _ (emitted _ own h)
