-- ===== src/Server/Sent.antt =====
-- `readFiles`: which files the walk over the buckets sends.
use file_storage_server.Prelude.{
  ℕ, zero, suc, ◌+◌, ◌-◌, ◌≤◌, ◌<◌, ◌≡◌, refl, sym, ◌∙◌, ap, List, [], ◌∷◌, ◌++◌, Option, none,
  some, arith, ltb, take, length, length-append, append_assoc, append-nil, if◌then◌else◌,
  Bool-cases, inl, inr, ℤ, pos, negsuc,
}
use file_storage_server.Run
use file_storage_server.Run.{Run, ok}
use file_storage_server.Text.{Text}
use file_storage_server.Lis.{Lis}
use file_storage_server.Lis.Seg.{Cell, Seg, first_or}
use file_storage_server.Hash.Rows.{IsBucket, IsRows, total}
use file_storage_server.File.{File, read_block}
use file_storage_server.Protcol.{int_bytes}
use file_storage_server.Server.State.{Server, Event, Act, return, sent, log_line}
use file_storage_server.Server.Capacity.{send_named}
use file_storage_server.Server.Walk.{send_bucket, send_buckets, files_asked, read_files}
use file_storage_server.Server.Invariant.{Rows, IsServer}
use file_storage_server.Server.Release.{all_cells}

-- the first `n` bytes behind a pointer
abbrev pub contents : Option (List ℕ) → ℕ → List ℕ
contents none n = []
contents (some b) n = take n b

-- what is sent and logged for one file
abbrev pub file_events : ℕ → File → List Event
file_events fd f =
    sent fd (int_bytes f.dim)
    ∷ sent fd (int_bytes (length f.path_name + 1))
    ∷ sent fd (f.path_name ++ 0 ∷ [])
    ∷ sent fd (contents f.cont f.dim)
    ∷ log_line "RD" (pos f.dim)
    ∷ []

abbrev pub events_at : ℕ → Option File → List Event
events_at fd none = []
events_at fd (some f) = file_events fd f

abbrev pub events : ℕ → (ℕ → Option File) → List (Cell ℕ) → List Event
events fd files [] = []
events fd files (c ∷ cs) = events_at fd (files c.cont) ++ events fd files cs

-- every pointer reaches a live file whose contents are as long as it says
abbrev pub Readable : (ℕ → Option File) → List (Cell ℕ) → Type 0
Readable files [] = Unit {0}
Readable files (c ∷ cs) =
    ((f : File) × (files c.cont ≡ some f) × (read_block f.cont f.dim ≡ ok (contents f.cont f.dim)))
    × Readable files cs

Readable-split :
    (files : ℕ → Option File) (xs ys : List (Cell ℕ))
    → Readable files (xs ++ ys)
    → Readable files xs × Readable files ys
Readable-split files [] ys h = (tt, h)
Readable-split files (x ∷ xs) ys h = let (a, b) = Readable-split files xs ys h.1 in ((h.0, a), b)

events-append :
    (fd : ℕ) (files : ℕ → Option File) (xs ys : List (Cell ℕ))
    → events fd files (xs ++ ys) ≡ events fd files xs ++ events fd files ys
events-append fd files [] ys = refl
events-append fd files (x ∷ xs) ys =
    ap (λ (e : List Event). events_at fd (files x.cont) ++ e) (events-append fd files xs ys)
    ∙ sym (append_assoc (events_at fd (files x.cont)) (events fd files xs) (events fd files ys))

-- the server with more behind its trace
abbrev pub extended : Server → List Event → Server
extended s es = record s { trace = s.trace ++ es }

abbrev traced : Server → List Event → Run (Unit {0} × Server)
traced s es = ok (tt, record s { trace = es })

pub send_named-events :
    (fd : ℕ) (f : File) (len : ℕ) (name : Text) (s : Server)
    → read_block f.cont f.dim ≡ ok (contents f.cont f.dim)
    → send_named fd f len name s
      ≡ ok (
        tt,
        extended s (
            sent fd (int_bytes f.dim)
            ∷ sent fd (int_bytes len)
            ∷ sent fd name
            ∷ sent fd (contents f.cont f.dim)
            ∷ []),
      )
unfolding send_named
send_named-events fd f len name s readable =
    let a = sent fd (int_bytes f.dim) in
    let b = sent fd (int_bytes len) in
    let c = sent fd name in
    let d = sent fd (contents f.cont f.dim) in
    let e₁ = append_assoc s.trace (a ∷ []) (b ∷ []) in
    let e₂ = append_assoc s.trace (a ∷ b ∷ []) (c ∷ []) in
    let e₃ = append_assoc s.trace (a ∷ b ∷ c ∷ []) (d ∷ []) in ground (arith, readable, e₁, e₂, e₃)

send_bucket-events :
    (fuel : ℕ) (l : Lis ℕ) (prev : Option ℕ) (cs : List (Cell ℕ)) (fd number : ℕ) (s : Server)
    → length cs < fuel
    → Seg l.store prev cs none
    → Readable s.files cs
    → send_bucket fuel l (first_or none cs) fd number s
      ≡ ok (number - length cs, extended s (events fd s.files cs))
unfolding send_bucket
send_bucket-events zero l prev cs fd number s lt seg live = absurd (omega arith)
send_bucket-events (suc fuel) l prev [] fd number s lt seg live = ground (arith, append-nil s.trace)
send_bucket-events (suc fuel) l prev (c ∷ cs) fd number s lt seg live =
    let (f, at, readable) = live.0 in
    let one = send_named-events fd f (length f.path_name + 1) (f.path_name ++ 0 ∷ []) s readable in
    let more =
      send_bucket-events fuel l (some c.addr) cs fd (number - 1) (extended s (file_events fd f))
        (omega arith) seg.1 live.1 in
    let named : List Event =
      sent fd (int_bytes f.dim)
      ∷ sent fd (int_bytes (length f.path_name + 1))
      ∷ sent fd (f.path_name ++ 0 ∷ [])
      ∷ sent fd (contents f.cont f.dim)
      ∷ [] in
    let e = append_assoc s.trace (file_events fd f) (events fd s.files cs) in
    let e' = append_assoc s.trace named (log_line "RD" (pos f.dim) ∷ []) in
    ground (arith, seg.0, at, one, more, e, e')

-- the cells whose files are sent: whole buckets, until the number is reached
abbrev pub sent_cells : ℕ → Rows → List (Cell ℕ)
sent_cells number [] = []
sent_cells number (r ∷ rs) =
    let rest = sent_cells (number - length r) rs in if ltb 0 number then r ++ rest else []

sent_cells-enough :
    (number : ℕ) (rows : Rows) → number ≤ total rows → number ≤ length (sent_cells number rows)
unfolding total
sent_cells-enough number [] h = omega arith
sent_cells-enough number (r ∷ rs) h =
    let more = sent_cells-enough (number - length r) rs (omega (arith, h)) in
    elim (Bool-cases (ltb 0 number)) [
      | inl e ↦ rw e (omega (arith, more, length-append r (sent_cells (number - length r) rs)))
      | inr e ↦ rw e (ground (arith, e))
    ]

-- the part of the loop that looks at one bucket
abbrev bucket_sends : Option (Lis ℕ) → ℕ → ℕ → Act ℕ
unfolding send_bucket
bucket_sends b fd number = elim b [
  | none ↦ return number
  | some l ↦
      if ltb 0 l.length then send_bucket (l.length + 1) l l.header fd number else return number
]

bucket_sends-events :
    (b : Option (Lis ℕ)) (row : List (Cell ℕ)) (fd number : ℕ) (s : Server)
    → IsBucket b row
    → Readable s.files row
    → bucket_sends b fd number s ≡ ok (number - length row, extended s (events fd s.files row))
unfolding bucket_sends
bucket_sends-events none row fd number s is live = rw is (ground (arith, append-nil s.trace))
bucket_sends-events (some l) [] fd number s is live = ground (arith, is.count, append-nil s.trace)
bucket_sends-events (some l) (c ∷ cs) fd number s is live =
    let run =
      send_bucket-events (l.length + 1) l none (c ∷ cs) fd number s (omega (arith, is.count))
        is.linked live in
    ground (arith, is.count, is.head, run)

send_buckets-events :
    (bs : List (Option (Lis ℕ))) (rows : Rows) (fd number : ℕ) (s : Server)
    → length bs ≡ length rows
    → IsRows bs rows
    → Readable s.files (all_cells rows)
    → send_buckets bs fd number s ≡ ok (tt, extended s (events fd s.files (sent_cells number rows)))
unfolding send_buckets bucket_sends
send_buckets-events [] [] fd number s same is live =
    ap (λ (x : List Event). ok (tt, record s { trace = x })) (sym (append-nil s.trace))
send_buckets-events [] (r ∷ rs) fd number s same is live = absurd (omega arith)
send_buckets-events (b ∷ bs) [] fd number s same is live = absurd (omega arith)
send_buckets-events (b ∷ bs) (r ∷ rs) fd number s same is live =
    let (here, there) = Readable-split s.files r (all_cells rs) live in
    let one = bucket_sends-events b r fd number s is.0 here in
    let more =
      send_buckets-events bs rs fd (number - length r) (extended s (events fd s.files r))
        (omega arith) is.1 there in
    let rest = sent_cells (number - length r) rs in
    elim (Bool-cases (ltb 0 number)) [
      | inl e ↦
          rw (send_buckets, e, events-append fd s.files r rest)
            (ap (λ m. Run.◌>>=◌ m (λ x. send_buckets bs fd x.0 x.1)) one
              ∙ more
              ∙ ap (traced s) (append_assoc s.trace (events fd s.files r) (events fd s.files rest)))
      | inr e ↦ rw (send_buckets, e) (ap (traced s) (sym (append-nil s.trace)))
    ]

files_asked-le : (n : ℤ) (nelem : ℕ) → files_asked n nelem ≤ nelem
unfolding files_asked
files_asked-le (pos zero) nelem = omega arith
files_asked-le (pos (suc n)) nelem = ground arith
files_asked-le (negsuc n) nelem = omega arith

-- `readFiles` at a server in order whose files all have readable contents: it sends the number that
-- it announces, the whole table if the request is not positive or exceeds it, and then, with a log
-- line each, the files of whole buckets in the table's order until that number is reached; so it
-- sends at least as many files as it announced, and changes nothing but the trace.
pub read_files-events :
    (fd : ℕ) (n : ℤ) (s : Server) (rows : Rows)
    → IsServer s rows
    → Readable s.files (all_cells rows)
    → (read_files fd n s
        ≡ ok (
          tt,
          extended s (
              sent fd (int_bytes (files_asked n s.table.nelem))
              ∷ events fd s.files (sent_cells (files_asked n s.table.nelem) rows)),
        ))
      × (files_asked n s.table.nelem ≤ length (sent_cells (files_asked n s.table.nelem) rows))
unfolding read_files
read_files-events fd n s rows w live =
    let number = files_asked n s.table.nelem in
    let a = sent fd (int_bytes number) in
    let few = files_asked-le n s.table.nelem in
    (
      send_buckets-events s.table.buckets rows fd number (extended s (a ∷ []))
            (w.table.wide ∙ sym w.table.width) w.table.buckets live
          ∙ ap (traced s)
              (append_assoc s.trace (a ∷ []) (events fd s.files (sent_cells number rows))),
      sent_cells-enough number rows (omega (arith, few, w.table.counted)),
    )
