-- ===== src/Server/Appended.antt =====
-- APPEND where the bytes fit: for whoever holds the lock, since the handler does not look at it.
use file_storage_server.Prelude.{
  ℕ, ◌+◌, ◌≡◌, ◌≢◌, refl, false, List, [], ◌∷◌, ◌++◌, some, pos, arith, append_assoc, ℤ, ◌+ℤ◌,
  ltb_ℤ,
}
use file_storage_server.Run.{ok}
use file_storage_server.Lis.Seg.{Cell, Holds}
use file_storage_server.File.{File, IsWritten, read_block}
use file_storage_server.Protcol.{Request, success, not_open}
use file_storage_server.Server.State.{Server, ServerConf, Event, log_line}
use file_storage_server.Server.Write.{serve_append}
use file_storage_server.Server.Invariant.{
  Rows, view, IsServer, found, with_file, with_file-IsServer, with_file-view,
}
use file_storage_server.Server.Stored.{Stored}
use file_storage_server.Server.Spec.{reply}

-- the file with `more` bytes behind the `old` ones
abbrev pub appended : File → List ℕ → List ℕ → ℕ → File
appended f old more n = record f { dim = f.dim + n; cont = some (old ++ more) }

abbrev pub append_events : Request → ℤ → List Event
append_events r total =
    log_line "byte presenti:" (pos 0) ∷ log_line "NB " total ∷ reply r success ∷ []

module _ (sc : ServerConf) (s : Server) (rows : Rows) (r : Request) (f : File) (w : IsServer s rows)
    (present : view s rows r.pathname ≡ some f) where
  -- APPEND to an open file whose contents were set and are readable, at a server in order, with the
  -- total within the bound: the bytes go behind the old ones, for every client, also where another
  -- one holds the lock; the size is added to the count of bytes, the queue and all other names
  -- stay, SUCCESS is sent after the log lines, and the server stays in order.
  pub serve_append_fits :
      (old more : List ℕ) (queued : List (Cell ℕ))
      → f.isopen ≡ 1
      → IsWritten f
      → read_block f.cont f.dim ≡ ok old
      → read_block r.contenuto r.size ≡ ok more
      → Holds s.fifo queued
      → ltb_ℤ (pos sc.space) (s.actual_size +ℤ pos r.size) ≡ false
      → Stored s rows r.pathname
          (appended f old more r.size)
          (s.actual_size +ℤ pos r.size)
          queued
          (append_events r (s.actual_size +ℤ pos r.size))
          (serve_append sc r s)
  unfolding serve_append
  serve_append_fits old more queued opened (b, written) stored payload held fits =
      let (p, o) = found s rows r.pathname f w present in
      let total = s.actual_size +ℤ pos r.size in
      let f' = appended f old more r.size in
      let t = with_file-IsServer s rows r.pathname p f f' w o refl in
      let a = log_line "byte presenti:" (pos 0) in
      let b' = log_line "NB " total in
      let c = reply r success in
      let e₁ = append_assoc s.trace (a ∷ []) (b' ∷ []) in
      let e₂ = append_assoc s.trace (a ∷ b' ∷ []) (c ∷ []) in
      record {
        after = record (with_file s p f') {
          actual_size = total;
          trace = s.trace ++ append_events r total;
        };
        runs =
            ground
              (arith, o.contained, o.got, o.live, opened, written, stored, payload, fits, e₁, e₂);
        sound = record { table = t.table; stored = t.stored; below = t.below };
        reads = λ k. with_file-view s rows r.pathname k p f f' w o;
        counted = refl;
        queue = held;
        traced = refl;
        table = refl;
        queueric = refl;
      }

  -- APPEND to a file that is not open, at a server in order: NOTOPEN is sent and no file changes,
  -- but the bytes are added to the count all the same.
  pub serve_append_shut :
      f.isopen ≢ 1
      → serve_append sc r s
        ≡ ok (
          tt,
          record s {
            actual_size = s.actual_size +ℤ pos r.size;
            trace = s.trace ++ reply r not_open ∷ [];
          },
        )
  unfolding serve_append
  serve_append_shut shut =
      let (p, o) = found s rows r.pathname f w present in
      ground (arith, o.contained, o.got, o.live, shut)
