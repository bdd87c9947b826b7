-- ===== src/Api/Returned/Unread.antt =====
-- `appendToFile` against a server that goes over its bound: the second answer is not read.
use file_storage_server.Prelude.{
  ℕ, ◌<◌, ◌≡◌, refl, sym, ◌∙◌, ap, subst, true, false, List, ◌++◌, Option, none, some, arith,
  length, append-nil, take-length, ℤ, pos, negsuc, ◌+ℤ◌, ltb_ℤ, ◌^◌, if◌then◌else◌,
}
use file_storage_server.Run.{ok}
use file_storage_server.Text.{Text, str_eq}
use file_storage_server.Lis.Seg.{Cell, Holds}
use file_storage_server.File.{File, IsWritten, read_block}
use file_storage_server.Protcol
use file_storage_server.Protcol.{Request, int_bytes, server_full, success}
use file_storage_server.Server.State.{Server, ServerConf}
use file_storage_server.Server.Worker.{serve}
use file_storage_server.Server.Write.{serve_append}
use file_storage_server.Server.Invariant.{Rows, view, IsServer}
use file_storage_server.Server.Appended.{appended}
use file_storage_server.Server.Evict.{items, AllLive}
use file_storage_server.Server.Expelled.{Item, is_named, CanLeave}
use file_storage_server.Server.Full.{length-items, gone, bytes_left}
use file_storage_server.Server.Full.Appended.{append_full_events, counted, serve_append_full}
use file_storage_server.Api.{returns, make_request}
use file_storage_server.Api.Backup.{Disk, Saved}
use file_storage_server.Api.Sending.{content_request, append_to_file}
use file_storage_server.Api.Delivery.{
  bytes_to-log_line, bytes_to-sent, bytes_to-nil, read_int-int_bytes,
}
use file_storage_server.Api.Parts.{bytes_to-append}
use file_storage_server.Api.Creation.{arrived, delivered, delivered-events}
use file_storage_server.Api.Returned.{
  bytes_out, bytes_to-expel_events, AreKept, AreKept-AreLegible, full_answer-bytes_out,
}
use file_storage_server.Api.Delivery.{bytes_to}

bytes_to-append_full_events :
    (r : Request) (m : Text → Option File) (out : List (Cell ℕ)) (total : ℤ)
    → bytes_to r.fd (append_full_events r m out total)
      ≡ int_bytes server_full
        ++ (int_bytes (length out) ++ (bytes_out m (items out) ++ int_bytes success))
bytes_to-append_full_events r m out total =
    let e = bytes_to-expel_events r.fd m (items out) in
    simp (bytes_to-sent, bytes_to-log_line, bytes_to-nil, bytes_to-append, append-nil, e)

pub serve-serve_append :
    (sc : ServerConf) (raw : File) (r : Request) (s : Server)
    → r.op ≡ Protcol.append_file
    → serve sc raw r s ≡ serve_append sc r s
unfolding serve
serve-serve_append sc raw r s op = rw op refl

module _ (realpath : Text → Text) (n client : ℕ) (answer : Request → List ℕ) (pathname : Text)
    (sc : ServerConf) (raw : File) (s t : Server) (rows : Rows) (w : IsServer s rows) (f : File)
    (old bytes : List ℕ) (queued : List (Cell ℕ)) where
  -- the request as the server has it, and what the server throws out
  abbrev pub request : Request
  request = arrived (content_request (realpath pathname) Protcol.append_file bytes) client

  abbrev pub out : List Item
  out = items (gone sc (counted s request) queued)

  -- `appendToFile` with a directory against the server that the append takes past its bound: if the
  -- server serves the request of the call, for an open file whose contents were set and are
  -- readable, at a server in order whose FIFO queue holds live files, where throwing out the oldest
  -- is enough, each of those has an entry in the table whose removal leaves its bucket's tail
  -- pointer right, they have different names without NUL, of fewer than 130 bytes, sizes and a
  -- number that fit into an `int`, contents that were set and are readable, and a place in the
  -- directory, and the file itself is not among them, and the bytes that come back are those that
  -- the server sends, then the server is in order and has the bytes behind the old ones, none of
  -- those files, and every other as before; the call has saved the files, but it returns -1, and
  -- the code SUCCESS stays on the socket.
  pub append_to_file-serve_full :
      (disk : Disk) (contents_of : Text → Option (List ℕ)) (d : Text) (saved : Saved)
      → disk.is_dir d ≡ some true
      → view s rows (realpath pathname) ≡ some f
      → f.isopen ≡ 1
      → IsWritten f
      → read_block f.cont f.dim ≡ ok old
      → ltb_ℤ (pos sc.space) (s.actual_size +ℤ pos (length bytes)) ≡ true
      → Holds s.fifo queued
      → AllLive s.files queued
      → ltb_ℤ (pos sc.space) (bytes_left sc (counted s request) queued) ≡ false
      → CanLeave rows out
      → AreKept disk d (view s rows) out saved
      → length out < 2 ^ 32
      → is_named (realpath pathname) out ≡ false
      → serve sc raw request s ≡ ok (tt, t)
      → answer (content_request (realpath pathname) Protcol.append_file bytes)
        ≡ delivered client s t
      → (append_to_file realpath disk contents_of (pos n) answer pathname bytes (some d)
          ≡ ok (returns (negsuc 0), saved, int_bytes success))
        × ((rows' : Rows) × IsServer t rows'
            × ((q : Text)
                → view t rows' q ≡ (
                    if is_named q out
                    then none
                    else (if str_eq q (realpath pathname)
                        then some (appended f old bytes (length bytes))
                        else view s rows q))))
  unfolding append_to_file make_request read_block
  append_to_file-serve_full disk contents_of d saved folder present opened has stored over held live
        enough leave keeps few spared run stream =
      let block : read_block request.contenuto request.size ≡ ok bytes =
        ground (arith, take-length bytes) in
      let legible = AreKept-AreLegible disk d (view s rows) out saved keeps in
      let x =
        serve_append_full sc s rows request f old bytes w present opened has stored block queued
          over held live enough leave legible spared in
      let e = serve-serve_append sc raw request s refl in
      let same : t ≡ x.after = ground (arith, run, x.runs, e) in
      let cells = gone sc (counted s request) queued in
      let total = bytes_left sc (counted s request) queued in
      let got =
        stream
        ∙ ap (λ (u : Server). delivered client s u) same
        ∙ delivered-events client s x.after (append_full_events request (view s rows) cells total)
            x.traced
        ∙ bytes_to-append_full_events request (view s rows) cells total
        ∙ ap
            (λ (k : ℕ).
              int_bytes server_full
              ++ (int_bytes k ++ (bytes_out (view s rows) out ++ int_bytes success)))
            (sym (length-items cells)) in
      let rest = int_bytes (length out) ++ (bytes_out (view s rows) out ++ int_bytes success) in
      let e₁ = read_int-int_bytes server_full rest (omega arith) in
      let e₂ =
        full_answer-bytes_out disk d (view s rows) folder realpath contents_of (pos n) answer
          (negsuc 0) out saved (int_bytes success) few keeps in
      (
        ground (arith, got, e₁, e₂),
        (
          x.rows',
          subst (λ (u : Server). IsServer u x.rows') (sym same) x.sound,
          λ q. ap (λ (u : Server). view u x.rows' q) same ∙ x.reads q,
        ),
      )
