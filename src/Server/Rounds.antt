-- ===== src/Server/Rounds.antt =====
-- Rounds of the worker over a queue of requests that never wait: what the server as a map does with
-- them, one after the other, and what is sent and logged.
use file_storage_server.Prelude.{
  ℕ, zero, suc, ◌≡◌, refl, sym, ◌∙◌, ap, subst, List, [], ◌∷◌, ◌++◌, Option, none, some, arith,
  if◌then◌else◌, Bool-cases, inl, inr, pos,
}
use file_storage_server.Run.{ok}
use file_storage_server.Text.{Text, str_eq, str_eq_iff}
use file_storage_server.Lis.{Lis, free_node, load}
use file_storage_server.Lis.Seg.{Cell, Holds}
use file_storage_server.Lis.Remove.{take_head-Holds, free_node-Holds}
use file_storage_server.File.{File, read_block}
use file_storage_server.Server.Sent.{contents}
use file_storage_server.Protcol.{Request, not_present}
use file_storage_server.Server.State.{
  Server, ServerConf, Event, Act, ◌>>◌, return, log_line, handed_back,
}
use file_storage_server.Server.Worker.{serve, take_request, work}
use file_storage_server.Server.Invariant.{Rows, view, IsServer}
use file_storage_server.Server.Spec.{reply, Serves, Handled}
use file_storage_server.Server.Plain.{
  Kind, opening, lock_opening, unlocking, closing, reading, IsKind, spec_of, IsLegible,
  serve-Handled,
}

-- The server seen as a map, and one request on it.
abbrev pub Files : Type 0
Files = Text → Option File

abbrev pub new_file : Kind → Request → Option File → Option File
new_file k r none = none
new_file k r (some f) = some (spec_of k r f).0

abbrev pub answer : Kind → Request → Option File → List Event
answer k r none = reply r not_present ∷ []
answer k r (some f) = (spec_of k r f).1

abbrev pub step_files : Kind → Request → Files → Files
step_files k r m q = if str_eq q r.pathname then new_file k r (m r.pathname) else m q

-- what a round of the worker adds to the trace
abbrev pub round_events : ℕ → Kind → Request → Files → List Event
round_events thread k r m =
    log_line "Richiesta servita dal thread" (pos 0)
    ∷ log_line "TH " (pos thread)
    ∷ (answer k r (m r.pathname) ++ handed_back r.fd ∷ [])

-- the requests of a queue with their kinds, in order
abbrev pub Plain : Type 0
Plain = (k : Kind) × (r : Request) × IsKind k r

abbrev pub after_all : List Plain → Files → Files
after_all [] m = m
after_all ((k, r, is) ∷ rs) m = after_all rs (step_files k r m)

abbrev pub all_events : ℕ → List Plain → Files → List Event
all_events thread [] m = []
all_events thread ((k, r, is) ∷ rs) m =
    round_events thread k r m ++ all_events thread rs (step_files k r m)

-- that many rounds of the worker's loop
unfoldable pub rounds : ℕ → ServerConf → File → ℕ → Act (Unit {0})
unfolding work
rounds zero sc raw thread = return tt
rounds (suc n) sc raw thread = work sc raw thread >> rounds n sc raw thread

-- a server with the same files as another
abbrev Follows : Server → Rows → Files → Server → List Event → Type 0
Follows s rows m t events =
    IsServer t rows
    × ((q : Text) → view t rows q ≡ m q)
    × (t.trace ≡ s.trace ++ events)
    × (t.queueric ≡ s.queueric)
    × (t.fifo ≡ s.fifo)
    × (t.table ≡ s.table)
    × (t.actual_size ≡ s.actual_size)

pub serve-Follows :
    (sc : ServerConf) (raw : File) (s : Server) (rows : Rows) (k : Kind) (r : Request)
    → IsServer s rows
    → IsKind k r
    → IsLegible (view s rows)
    → (t : Server) × (serve sc raw r s ≡ ok (tt, t))
      × Follows s rows (step_files k r (view s rows)) t (answer k r (view s rows r.pathname))
serve-Follows sc raw s rows k r w is legible =
    go (view s rows r.pathname) refl (serve-Handled sc raw s rows r w k is legible)
  where
    go :
        (o : Option File)
        → view s rows r.pathname ≡ o
        → Handled s rows r (spec_of k) (serve sc raw r s) (view s rows r.pathname)
        → (t : Server) × (serve sc raw r s ≡ ok (tt, t))
          × Follows s rows (step_files k r (view s rows)) t (answer k r (view s rows r.pathname))
    go none e h = (
      record s { trace = s.trace ++ reply r not_present ∷ [] },
      subst (Handled s rows r (spec_of k) (serve sc raw r s)) e h,
      rw e (
        record { table = w.table; stored = w.stored; below = w.below },
        λ q. elim (Bool-cases (str_eq q r.pathname)) [
          | inl same ↦ rw same (ap (view s rows) ((str_eq_iff q r.pathname).0 same) ∙ e)
          | inr other ↦ rw other refl
        ],
        refl,
        refl,
        refl,
        refl,
        refl,
      ),
    )
    go (some f) e h =
        let x : Serves s rows r.pathname (spec_of k r f) (serve sc raw r s) =
          subst (Handled s rows r (spec_of k) (serve sc raw r s)) e h in
        (
          x.after,
          x.runs,
          rw e (x.sound, x.reads, x.traced, x.queueric, x.fifo, x.table, x.actual_size),
        )

-- the requests of the queue's cells are those of the list
abbrev pub IsLined : List (Cell Request) → List Plain → Type 0
IsLined [] [] = Unit {0}
IsLined [] (p ∷ ps) = ⊥
IsLined (c ∷ cs) [] = ⊥
IsLined (c ∷ cs) ((k, r, is) ∷ ps) = (c.cont ≡ r) × IsLined cs ps

-- None of these requests changes the contents of a file.
spec-contents :
    (k : Kind) (r : Request) (f : File)
    → ((spec_of k r f).0.cont ≡ f.cont) × ((spec_of k r f).0.dim ≡ f.dim)
spec-contents opening r f = (refl, refl)
spec-contents lock_opening r f = (refl, refl)
spec-contents unlocking r f = (ground arith, ground arith)
spec-contents closing r f = (refl, refl)
spec-contents reading r f = (ground arith, ground arith)

pub step_files-IsLegible :
    (k : Kind) (r : Request) (m : Files) → IsLegible m → IsLegible (step_files k r m)
step_files-IsLegible k r m legible q g e = elim (Bool-cases (str_eq q r.pathname)) [
  | inl same ↦
      go (m r.pathname) refl
        (ap (λ b. if b then new_file k r (m r.pathname) else m q) (sym same) ∙ e)
  | inr other ↦
      legible q g (ap (λ b. if b then new_file k r (m r.pathname) else m q) (sym other) ∙ e)
]
  where
    go :
        (o : Option File)
        → m r.pathname ≡ o
        → new_file k r (m r.pathname) ≡ some g
        → read_block g.cont g.dim ≡ ok (contents g.cont g.dim)
    go none at h =
        absurd
          (let bad : new_file k r none ≡ some g = subst (λ o. new_file k r o ≡ some g) at h in cc)
    go (some f) at h =
        let same : (spec_of k r f).0 ≡ g =
          let found : new_file k r (some f) ≡ some g = subst (λ o. new_file k r o ≡ some g) at h in
          ground (arith, found) in
        let (c, d) = spec-contents k r f in
        subst (λ x. read_block x.cont x.dim ≡ ok (contents x.cont x.dim)) same
          (rw (c, d) (legible r.pathname f at))

pub take_request-Holds :
    (s : Server) (c : Cell Request) (cs : List (Cell Request))
    → Holds s.queueric (c ∷ cs)
    → (q : Lis Request) × (take_request s ≡ ok (c.cont, record s { queueric = q })) × Holds q cs
unfolding take_request load
take_request-Holds s c cs h =
    let (q, run, at, holds) = take_head-Holds s.queueric c cs h in
    (free_node q c.addr, ground (arith, run, at), free_node-Holds q cs c.addr h.distinct.0 holds)
