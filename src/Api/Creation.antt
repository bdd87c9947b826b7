-- ===== src/Api/Creation.antt =====
-- `openFile` and `writeFile` against the server's answers to them.
use file_storage_server.Prelude.{
  ℕ, ◌≤◌, ◌+◌, ◌≡◌, refl, ◌∙◌, ap, Bool, true, List, [], ◌++◌, Option, none, some, arith, length,
  drop, drop-append, take-length, ℤ, pos, ◌+ℤ◌, ltb_ℤ,
}
use file_storage_server.Run.{ok}
use file_storage_server.Text.{Text, str_eq_refl}
use file_storage_server.Lis.Seg.{Cell, Holds}
use file_storage_server.File.{File, read_block}
use file_storage_server.Protcol
use file_storage_server.Protcol.{Request, int_bytes, success, has_flag}
use file_storage_server.Server.State.{Server, ServerConf, Event}
use file_storage_server.Server.Worker.{serve}
use file_storage_server.Server.Open.{serve_open, open_create}
use file_storage_server.Server.Write.{serve_write}
use file_storage_server.Server.Invariant.{Rows, view, IsServer, found}
use file_storage_server.Server.Create.{open_create-Created, creation_events}
use file_storage_server.Server.Stored.{serve_write_fits, write_events}
use file_storage_server.Server.Plain.{bind-ok}
use file_storage_server.Server.Spec.{may_use}
use file_storage_server.Api.{returns, make_request}
use file_storage_server.Api.Backup.{Disk}
use file_storage_server.Api.Opening.{open_request, create_answer, open_file}
use file_storage_server.Api.Sending.{content_request, write_file}
use file_storage_server.Api.Delivery.{
  bytes_to, bytes_to-log_line, bytes_to-sent, bytes_to-nil, read_int-int_bytes,
}

-- a request as the server has it
abbrev pub arrived : Request → ℕ → Request
arrived r client = record r { fd = client }

-- what a client reads of the events that a request adds to the trace
abbrev pub delivered : ℕ → Server → Server → List ℕ
delivered client s t = bytes_to client (drop (length s.trace) t.trace)

pub delivered-events :
    (client : ℕ) (s t : Server) (events : List Event)
    → t.trace ≡ s.trace ++ events
    → delivered client s t ≡ bytes_to client events
delivered-events client s t events e =
    ap (λ (x : List Event). bytes_to client (drop (length s.trace) x)) e
    ∙ ap (bytes_to client) (drop-append s.trace events)

-- the bytes of an answer that is a code, with log lines behind it
creation_bytes :
    (r : Request) (n : ℕ) → bytes_to r.fd (creation_events r n) ≡ int_bytes success ++ []
creation_bytes r n = simp (bytes_to-sent, bytes_to-log_line, bytes_to-nil)

write_bytes : (r : Request) (n : ℤ) → bytes_to r.fd (write_events r n) ≡ int_bytes success ++ []
write_bytes r n = simp (bytes_to-sent, bytes_to-log_line, bytes_to-nil)

pub serve-open_create :
    (sc : ServerConf) (raw : File) (r : Request) (s : Server)
    → r.op ≡ Protcol.open_file
    → r.flags ≡ pos Protcol.o_create
    → serve sc raw r s ≡ open_create sc raw r s
unfolding serve serve_open has_flag
serve-open_create sc raw r s op flags = rw (op, flags) (bind-ok (open_create sc raw r s))

pub serve-serve_write :
    (sc : ServerConf) (raw : File) (r : Request) (s : Server)
    → r.op ≡ Protcol.write_file
    → serve sc raw r s ≡ serve_write sc r s
unfolding serve
serve-serve_write sc raw r s op = rw op refl

module _ (realpath : Text → Text) (n client : ℕ) (answer : Request → List ℕ) (pathname : Text)
    (sc : ServerConf) (raw : File) (s t : Server) (rows : Rows) (w : IsServer s rows) where
  -- `openFile` with O_CREATE against the server: if the server in order, with room in its table and
  -- no file of that name, serves the request that the call sends, the client can read the file on
  -- its own disk, and the bytes that come back are those that the server sends, then the call
  -- returns 1 with nothing left on the socket.
  pub open_file-serve :
      (readable : Text → Bool)
      → view s rows (realpath pathname) ≡ none
      → s.table.nelem + 1 ≤ sc.maxf
      → readable pathname ≡ true
      → serve sc raw (arrived (open_request (realpath pathname) (pos Protcol.o_create)) client) s
        ≡ ok (tt, t)
      → answer (open_request (realpath pathname) (pos Protcol.o_create)) ≡ delivered client s t
      → open_file realpath readable (pos n) answer pathname (pos Protcol.o_create)
        ≡ ok (returns (pos 1), [])
  unfolding open_file create_answer has_flag make_request
  open_file-serve readable absent room opens run stream =
      let r = arrived (open_request (realpath pathname) (pos Protcol.o_create)) client in
      let x = open_create-Created sc raw s rows r w absent room in
      let e = serve-open_create sc raw r s refl refl in
      let same : t ≡ x.after = ground (arith, run, x.runs, e) in
      let bytes =
        stream
        ∙ ap (λ (u : Server). delivered client s u) same
        ∙ delivered-events client s x.after (creation_events r (s.table.nelem + 1)) x.traced
        ∙ creation_bytes r (s.table.nelem + 1) in
      let e₁ = read_int-int_bytes success [] (omega arith) in ground (arith, opens, bytes, e₁)

  -- `writeFile` against the server: if the server in order serves the request that the call sends,
  -- for an open file that the client may use, with a FIFO queue of known cells and the total below
  -- the bound, and the bytes that come back are those that the server sends, then the call returns
  -- 1 with nothing left on the socket, and the server's file has the contents of the client's.
  pub write_file-serve :
      (disk : Disk) (contents_of : Text → Option (List ℕ)) (dirname : Option Text) (f : File)
      (bytes : List ℕ) (queued : List (Cell ℕ))
      → contents_of pathname ≡ some bytes
      → view s rows (realpath pathname) ≡ some f
      → f.isopen ≡ 1
      → may_use f (arrived (content_request (realpath pathname) Protcol.write_file bytes) client)
        ≡ true
      → Holds s.fifo queued
      → ltb_ℤ (s.actual_size +ℤ pos (length bytes)) (pos sc.space) ≡ true
      → serve sc raw
          (arrived (content_request (realpath pathname) Protcol.write_file bytes) client)
          s
        ≡ ok (tt, t)
      → answer (content_request (realpath pathname) Protcol.write_file bytes) ≡ delivered client s t
      → (write_file realpath disk contents_of (pos n) answer (some pathname) dirname
          ≡ ok (returns (pos 1), [], []))
        × ((g : File) × (view t rows (realpath pathname) ≡ some g)
            × (g.cont ≡ some bytes)
            × (g.dim ≡ length bytes))
  unfolding write_file make_request read_block
  write_file-serve disk contents_of dirname f bytes queued has present opened mine held fits run
        stream =
      let r = arrived (content_request (realpath pathname) Protcol.write_file bytes) client in
      let (p, o) = found s rows (realpath pathname) f w present in
      let whole : read_block (some bytes) (length bytes) ≡ ok bytes =
        ground (arith, take-length bytes) in
      let x =
        serve_write_fits sc s rows r f bytes w present opened whole p queued o mine held fits in
      let e = serve-serve_write sc raw r s refl in
      let same : t ≡ x.after = ground (arith, run, x.runs, e) in
      let got =
        stream
        ∙ ap (λ (u : Server). delivered client s u) same
        ∙ delivered-events client s x.after (write_events r (s.actual_size +ℤ pos (length bytes)))
            x.traced
        ∙ write_bytes r (s.actual_size +ℤ pos (length bytes)) in
      let e₁ = read_int-int_bytes success [] (omega arith) in
      (
        ground (arith, has, got, e₁),
        (
          record f { dim = length bytes; cont = some bytes },
          ap (λ (u : Server). view u rows (realpath pathname)) same
              ∙ x.reads (realpath pathname)
              ∙ rw (str_eq_refl (realpath pathname)),
          refl,
          refl,
        ),
      )
