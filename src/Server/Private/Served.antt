-- ===== src/Server/Private/Served.antt =====
-- The worker's switch, by the rules of its cases.
use file_storage_server.Prelude.{◌≡◌, ◌==◌}
use file_storage_server.Run.{ok}
use file_storage_server.File.{File}
use file_storage_server.Protcol
use file_storage_server.Protcol.{Request}
use file_storage_server.Server.State.{Server, ServerConf}
use file_storage_server.Server.Worker.{serve}
use file_storage_server.Server.Private.{Touches, Touches-refl, Ends, done, either}
use file_storage_server.Server.Private.Access.{
  serve_locks-Ends, serve_unlocks-Ends, serve_read-Ends, serve_close-Ends,
}
use file_storage_server.Server.Private.Opening.{serve_open-Ends}
use file_storage_server.Server.Private.Storing.{
  serve_write-Ends, serve_append-Ends, serve_remove-Ends,
}
use file_storage_server.Server.Private.Walking.{serve_read_n-Ends, serve_close_connection-Ends}

pub serve-Ends :
    (sc : ServerConf) (raw : File) (r : Request) {s : Server} (t : Server)
    → Touches r.fd s t
    → Ends r.fd s (serve sc raw r t)
unfolding serve
serve-Ends sc raw r t h = either (r.op == Protcol.open_file) _ _ t (serve_open-Ends r sc raw t h) (
    either (r.op == Protcol.locks) _ _ t (serve_locks-Ends r t h) (
      either (r.op == Protcol.unlocks) _ _ t (serve_unlocks-Ends r t h) (
        either (r.op == Protcol.write_file) _ _ t (serve_write-Ends r sc t h) (
          either (r.op == Protcol.append_file) _ _ t (serve_append-Ends r sc t h) (
            either (r.op == Protcol.read_file) _ _ t (serve_read-Ends r t h) (
              either (r.op == Protcol.read_n) _ _ t (serve_read_n-Ends r t h) (
                either (r.op == Protcol.close_file) _ _ t (serve_close-Ends r t h) (
                  either (r.op == Protcol.remove_file) _ _ t (serve_remove-Ends r t h) (
                    either (r.op == Protcol.close_connection) _ _ t
                      (serve_close_connection-Ends r t h) (done tt t h))))))))))

-- The answer to any request, if it ends: every event that it adds to the trace is a log line, a
-- signal, or concerns the request's own descriptor, so no other client is sent anything; to the
-- queue of requests it adds requests of that client only, at the tail; and `select` goes on to
-- watch every other descriptor that it watched, and no new one.
pub serve-Touches :
    (sc : ServerConf) (raw : File) (r : Request) (s t : Server)
    → serve sc raw r s ≡ ok (tt, t)
    → Touches r.fd s t
serve-Touches sc raw r s t run =
    let h = serve-Ends sc raw r s (Touches-refl r.fd s) in h.touches tt t run
