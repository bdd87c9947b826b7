-- ===== src/Server/Plain.antt =====
-- The requests on one path name that never wait, at the worker's switch: what the server as a map
-- from path names to files does with each.
use file_storage_server.Prelude.{◌≡◌, refl, Option, some, arith, pos}
use file_storage_server.Run
use file_storage_server.Run.{Run, ok}
use file_storage_server.Text.{Text}
use file_storage_server.File.{File, read_block}
use file_storage_server.Protcol
use file_storage_server.Protcol.{Request, not_present, has_flag}
use file_storage_server.Server.State.{Server, ServerConf}
use file_storage_server.Server.Open.{serve_open, open_lock}
use file_storage_server.Server.Access.{serve_read}
use file_storage_server.Server.Worker.{serve}
use file_storage_server.Server.Invariant.{Rows, view, IsServer, missing}
use file_storage_server.Server.Handled.{
  both, open_only-Handled, open_lock-Handled, serve_unlocks-Handled, serve_close-Handled,
}
use file_storage_server.Server.Refine.{serve_read-Serves}
use file_storage_server.Server.Sent.{contents}
use file_storage_server.Server.Spec.{
  Outcome, spec_open, spec_open_lock, spec_unlock, spec_close, spec_read, Handled,
}

-- opening with O_OPEN and with O_LOCK, UNLOCKS, CLOSE, READ
pub data Kind : Type 0 where
  opening lock_opening unlocking closing reading : Kind

abbrev pub IsKind : Kind → Request → Type 0
IsKind opening r = (r.op ≡ Protcol.open_file) × (r.flags ≡ pos Protcol.o_open)
IsKind lock_opening r = (r.op ≡ Protcol.open_file) × (r.flags ≡ pos Protcol.o_lock)
IsKind unlocking r = r.op ≡ Protcol.unlocks
IsKind closing r = r.op ≡ Protcol.close_file
IsKind reading r = r.op ≡ Protcol.read_file

abbrev pub spec_of : Kind → Request → File → Outcome
spec_of opening = spec_open
spec_of lock_opening = spec_open_lock
spec_of unlocking = spec_unlock
spec_of closing = spec_close
spec_of reading = λ r f. spec_read (contents f.cont f.dim) r f

-- Every file's contents are as long as its size says.
abbrev pub IsLegible : (Text → Option File) → Type 0
IsLegible m =
    (q : Text) (f : File) → m q ≡ some f → read_block f.cont f.dim ≡ ok (contents f.cont f.dim)

pub bind-ok : (m : Run (Unit {0} × Server)) → Run.◌>>=◌ m (λ x. ok (x.0, x.1)) ≡ m
bind-ok (ok a) = refl
bind-ok Run.fault = refl
bind-ok Run.spin = refl

module _ (sc : ServerConf) (raw : File) (s : Server) (rows : Rows) (r : Request)
    (w : IsServer s rows) where
  serve_read-Handled :
      IsLegible (view s rows)
      → Handled s rows r (spec_of reading) (serve_read r s) (view s rows r.pathname)
  unfolding serve_read
  serve_read-Handled legible =
      both s rows r w (spec_of reading) (serve_read r s)
        (λ f e. serve_read-Serves s rows r f w e (contents f.cont f.dim) (legible r.pathname f e))
        (λ e. let (a, b) = missing s rows r.pathname w e in ground (arith, b))

  -- The worker's switch on OPEN with O_OPEN or O_LOCK, UNLOCKS, CLOSE and READ, at a server in
  -- order whose files' contents are as long as their sizes, keeps the specification of one file:
  -- NOTPRESENT for a path name with no file, and else that file and the answer are what the
  -- specification says; nothing else changes.
  pub serve-Handled :
      (k : Kind)
      → IsKind k r
      → IsLegible (view s rows)
      → Handled s rows r (spec_of k) (serve sc raw r s) (view s rows r.pathname)
  unfolding serve serve_open has_flag
  serve-Handled opening is legible = rw (is.0, is.1) (open_only-Handled s rows r w)
  serve-Handled lock_opening is legible =
      rw (is.0, is.1, bind-ok (open_lock r s)) (open_lock-Handled s rows r w)
  serve-Handled unlocking is legible = rw is (serve_unlocks-Handled s rows r w)
  serve-Handled closing is legible = rw is (serve_close-Handled s rows r w)
  serve-Handled reading is legible = rw is (serve_read-Handled legible)
