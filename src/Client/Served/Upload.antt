-- ===== src/Client/Served/Upload.antt =====
-- The calls of `CreateWrite` for one new file, at a server in order.
use file_storage_server.Prelude.{
  ℕ, ◌≡◌, refl, ◌∙◌, ap, true, List, [], ◌++◌, Option, none, some, arith, length, drop, pos, ◌+◌,
  ◌≤◌, ◌+ℤ◌, ltb_ℤ, take-length,
}
use file_storage_server.Run.{Run, ok}
use file_storage_server.Text.{Text}
use file_storage_server.Lis.Seg.{Cell, Holds}
use file_storage_server.File.{File, filecreate, open_file, read_block}
use file_storage_server.Protcol
use file_storage_server.Protcol.{Request, int_bytes, success, has_flag, length-int_bytes}
use file_storage_server.Server.State.{Server, ServerConf}
use file_storage_server.Server.Worker.{serve}
use file_storage_server.Server.Open.{open_create}
use file_storage_server.Server.Write.{serve_write}
use file_storage_server.Server.Access.{serve_close}
use file_storage_server.Server.Spec.{may_use, Serves, spec_close}
use file_storage_server.Server.Refine.{serve_close-Serves}
use file_storage_server.Server.Invariant.{Rows, view, IsServer, found}
use file_storage_server.Server.Create.{Created, open_create-Created, creation_events}
use file_storage_server.Server.Stored.{Stored, serve_write_fits, written, write_events}
use file_storage_server.Api
use file_storage_server.Api.{make_request, returns, read_int}
use file_storage_server.Api.Opening.{open_request}
use file_storage_server.Api.Sending.{content_request}
use file_storage_server.Api.Creation.{
  arrived, delivered, delivered-events, serve-open_create, serve-serve_write, open_file-serve,
  write_file-serve,
}
use file_storage_server.Api.Delivery.{
  bytes_to-log_line, bytes_to-sent, bytes_to-nil, read_int-int_bytes,
}
use file_storage_server.Client.Served.{
  World, Setting, open_call, write_call, close_call, open_answer, write_answer, close_answer, ask,
  sends,
}

-- nothing is left on the socket
abbrev pub quiet : Server → World
quiet s = record { server = s; left = [] }

pub serve-serve_close :
    (sc : ServerConf) (raw : File) (r : Request) (s : Server)
    → r.op ≡ Protcol.close_file
    → serve sc raw r s ≡ serve_close r s
unfolding serve
serve-serve_close sc raw r s op = rw op refl

-- a call whose request is served
asked :
    {A : Type 0} (e : Setting) (r : Request) (call : List ℕ → Run (A × List ℕ)) (s t : Server)
    (a : A)
    → serve e.sc e.raw (arrived r e.client) s ≡ ok (tt, t)
    → call (delivered e.client s t) ≡ ok (a, [])
    → ask e r call (quiet s) ≡ ok (a, quiet t)
asked e r call s t a runs answers = ground (arith, runs, answers)

drop-int_bytes : drop 4 (int_bytes success ++ []) ≡ []
unfolding int_bytes
drop-int_bytes = refl

close_success :
    (e : Setting) (pathname : Text)
    → close_answer e pathname (int_bytes success ++ []) ≡ ok (pos 1, [])
unfolding Api.close_file
close_success e pathname =
    let read = read_int-int_bytes success [] (omega arith) in
    let rest : drop 4 (int_bytes success ++ []) ≡ [] = drop-int_bytes in rw (read, rest) refl

module _ (e : Setting) (s : Server) (rows : Rows) (w : IsServer s rows) (pathname : Text) where
  abbrev pub opening : Request
  opening = arrived (open_request (e.realpath pathname) (pos Protcol.o_create)) e.client

  abbrev pub new_file : File
  new_file = open_file (filecreate e.raw (e.realpath pathname) e.client)

  -- `openFile` with O_CREATE
  pub opened :
      view s rows (e.realpath pathname) ≡ none
      → s.table.nelem + 1 ≤ e.sc.maxf
      → e.readable pathname ≡ true
      → (x : Created s rows
          (e.realpath pathname)
          new_file
          (creation_events opening (s.table.nelem + 1))
          (open_create e.sc e.raw opening s))
        × (open_call e pathname (pos Protcol.o_create) (quiet s) ≡ ok (pos 1, quiet x.after))
  unfolding open_call has_flag make_request
  opened absent room opens =
      let x = open_create-Created e.sc e.raw s rows opening w absent room in
      let run = serve-open_create e.sc e.raw opening s refl refl ∙ x.runs in
      let call =
        open_file-serve e.realpath e.fd_skt e.client (λ r. delivered e.client s x.after) pathname
          e.sc e.raw s x.after rows w e.readable absent room opens run refl in
      let back : open_answer e pathname (pos Protcol.o_create) (delivered e.client s x.after)
          ≡ ok (pos 1, []) =
        rw call refl in
      let sent : sends e pathname (pos Protcol.o_create) ≡ true = rw opens refl in
      (
        x,
        rw sent (
            asked e (open_request (e.realpath pathname) (pos Protcol.o_create))
              (open_answer e pathname (pos Protcol.o_create)) s x.after (pos 1) run back),
      )

  abbrev pub writing : List ℕ → Request
  unfolding make_request
  writing bytes = arrived (content_request (e.realpath pathname) Protcol.write_file bytes) e.client

  -- `writeFile` of an open file
  pub stored :
      (dirname : Option Text) (f : File) (bytes : List ℕ) (queued : List (Cell ℕ))
      → e.contents_of pathname ≡ some bytes
      → view s rows (e.realpath pathname) ≡ some f
      → f.isopen ≡ 1
      → may_use f (writing bytes) ≡ true
      → Holds s.fifo queued
      → ltb_ℤ (s.actual_size +ℤ pos (length bytes)) (pos e.sc.space) ≡ true
      → (queued' : List (Cell ℕ)) × (x : Stored s rows
          (e.realpath pathname)
          (written f bytes (length bytes))
          (s.actual_size +ℤ pos (length bytes))
          queued'
          (write_events (writing bytes) (s.actual_size +ℤ pos (length bytes)))
          (serve_write e.sc (writing bytes) s))
        × (write_call e pathname dirname (quiet s) ≡ ok (pos 1, quiet x.after))
  unfolding write_call make_request read_block
  stored dirname f bytes queued has present isopen mine held fits =
      let (p, o) = found s rows (e.realpath pathname) f w present in
      let whole : read_block (some bytes) (length bytes) ≡ ok bytes =
        ground (arith, take-length bytes) in
      let x =
        serve_write_fits e.sc s rows (writing bytes) f bytes w present isopen whole p queued o mine
          held fits in
      let run = serve-serve_write e.sc e.raw (writing bytes) s refl ∙ x.runs in
      let call =
        write_file-serve e.realpath e.fd_skt e.client (λ r. delivered e.client s x.after) pathname
          e.sc e.raw s x.after rows w e.disk e.contents_of dirname f bytes queued has present isopen
          mine held fits run refl in
      let back : write_answer e pathname dirname (delivered e.client s x.after) ≡ ok (pos 1, []) =
        let c = call.0 in rw c refl in
      (
        _,
        x,
        rw (has, write_call)
            (asked e (content_request (e.realpath pathname) Protcol.write_file bytes)
              (write_answer e pathname dirname) s x.after (pos 1) run back),
      )

  abbrev pub closing : Request
  unfolding make_request
  closing = arrived (make_request (e.realpath pathname) Protcol.close_file) e.client

  -- `closeFile`
  pub shut :
      (f : File)
      → view s rows (e.realpath pathname) ≡ some f
      → (x : Serves s rows (e.realpath pathname) (spec_close closing f) (serve_close closing s))
        × (close_call e pathname (quiet s) ≡ ok (pos 1, quiet x.after))
  unfolding close_call make_request Api.close_file
  shut f present =
      let x = serve_close-Serves s rows closing f w present in
      let run = serve-serve_close e.sc e.raw closing s refl ∙ x.runs in
      let came : delivered e.client s x.after ≡ int_bytes success ++ [] =
        delivered-events e.client s x.after (spec_close closing f).1 x.traced
        ∙ simp (bytes_to-sent, bytes_to-log_line, bytes_to-nil) in
      let back : close_answer e pathname (delivered e.client s x.after) ≡ ok (pos 1, []) =
        ap (close_answer e pathname) came ∙ close_success e pathname in
      (
        x,
        asked e (make_request (e.realpath pathname) Protcol.close_file) (close_answer e pathname) s
            x.after (pos 1) run back,
      )
