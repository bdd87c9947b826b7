-- ===== src/Client/Served.antt =====
-- The client's calls of source/api.c against the server of source/server.c: each call sends its
-- request, the server serves it, and the call reads what came back on the socket.
pub mod Upload
pub mod Stores
pub mod Visited
use file_storage_server.Prelude.{
  ℕ, ◌≡◌, refl, ◌∙◌, ap, Bool, true, false, not, ◌&&◌, ◌||◌, List, [], ◌++◌, Option, none, some,
  arith, length, drop, ℤ, pos, if◌then◌else◌,
}
use file_storage_server.Run
use file_storage_server.Run.{Run, ok}
use file_storage_server.Text.{Text}
use file_storage_server.File.{File}
use file_storage_server.Protcol
use file_storage_server.Protcol.{Request, has_flag}
use file_storage_server.Server.State.{Server, ServerConf}
use file_storage_server.Server.Worker.{serve}
use file_storage_server.Api
use file_storage_server.Api.{Result, make_request}
use file_storage_server.Api.Backup.{Disk}
use file_storage_server.Api.Opening
use file_storage_server.Api.Opening.{open_request}
use file_storage_server.Api.Sending
use file_storage_server.Api.Sending.{content_request}
use file_storage_server.Api.Creation.{arrived, delivered}
use file_storage_server.Client.{Do, Calls, Options, pause}

-- the server, and the bytes on the client's socket that no call has read
pub record World : Type 0 where
  pub server : Server
  pub left : List ℕ

-- what is around the client and the server
pub record Setting : Type 0 where
  pub realpath : Text → Text
  pub readable : Text → Bool
  pub contents_of : Text → Option (List ℕ)
  pub disk : Disk
  pub sc : ServerConf
  pub raw : File
  pub client : ℕ
  pub fd_skt : ℕ

module _ (e : Setting) where
  -- A call that sends a request, with what it leaves of the bytes that are there once it is served.
  abbrev pub ask : {A : Type 0} → Request → (List ℕ → Run (A × List ℕ)) → Do World A
  ask r call w = Run.◌>>=◌ (serve e.sc e.raw (arrived r e.client) w.server) λ t.
      Run.◌>>=◌ (call (w.left ++ delivered e.client w.server t.1))
        λ u. ok (u.0, record { server = t.1; left = u.1 })

  -- a call that returns before it sends
  abbrev pub keep : {A : Type 0} → Run (A × List ℕ) → Do World A
  keep call w = Run.◌>>=◌ call λ u. ok (u.0, w)

  -- `openFile` sends if it knows the flags and the file opens on the client's disk
  abbrev pub sends : Text → ℤ → Bool
  unfolding has_flag
  sends pathname flags =
      (has_flag flags Protcol.o_open
        || (has_flag flags Protcol.o_create || has_flag flags Protcol.o_lock))
      && e.readable pathname

  -- what a call makes of the bytes that come back
  abbrev pub open_answer : Text → ℤ → List ℕ → Run (ℤ × List ℕ)
  open_answer pathname flags stream =
      Run.◌>>=◌
        (Opening.open_file e.realpath e.readable (pos e.fd_skt) (λ r. stream) pathname flags)
        λ u. ok (u.0.value, u.1)

  abbrev pub write_answer : Text → Option Text → List ℕ → Run (ℤ × List ℕ)
  write_answer pathname dirname stream =
      Run.◌>>=◌
        (Sending.write_file e.realpath e.disk e.contents_of (pos e.fd_skt) (λ r. stream)
          (some pathname) dirname)
        λ u. ok (u.0.value, u.2)

  abbrev pub close_answer : Text → List ℕ → Run (ℤ × List ℕ)
  close_answer pathname stream =
      Run.◌>>=◌ (Api.close_file e.realpath (pos e.fd_skt) (λ r. stream) pathname)
        λ v. ok (v.value, drop 4 stream)

  unfoldable pub open_call : Text → ℤ → Do World ℤ
  unfolding sends
  open_call pathname flags =
      if sends pathname flags
      then ask (open_request (e.realpath pathname) flags) (open_answer pathname flags)
      else keep (open_answer pathname flags [])

  -- `writeFile` sends if the client can read the file
  unfoldable pub write_call : Text → Option Text → Do World ℤ
  write_call pathname dirname = elim (e.contents_of pathname) [
    | none ↦ keep (write_answer pathname dirname [])
    | some bytes ↦
        ask (content_request (e.realpath pathname) Protcol.write_file bytes)
          (write_answer pathname dirname)
  ]

  -- `closeFile` sends, and reads four bytes
  unfoldable pub close_call : Text → Do World ℤ
  close_call pathname =
      ask (make_request (e.realpath pathname) Protcol.close_file) (close_answer pathname)

  -- these calls, and any others; a pause changes nothing
  abbrev pub served : Calls World → Calls World
  served others = record others {
    open_file = open_call;
    write_file = write_call;
    close_file = close_call;
    usleep = λ n w. ok (tt, w);
  }
