-- ===== src/Server/Worker.antt =====
-- source/server.c: what a worker does with one request, from the queue to the answer.
-- One request runs to its end before the next: this is the server with one worker, or any number
-- whose requests do not overlap.
use file_storage_server.Prelude.{ℕ, none, some, ◌==◌, if◌then◌else◌, pos}
use file_storage_server.Run
use file_storage_server.Run.{ok}
use file_storage_server.Lis.{take_head, free_node, load}
use file_storage_server.File.{File}
use file_storage_server.Protcol
use file_storage_server.Protcol.{Request}
use file_storage_server.Server.State.{ServerConf, Act, ◌>>=◌, ◌>>◌, return, emit, handed_back, log}
use file_storage_server.Server.Open.{serve_open}
use file_storage_server.Server.Access.{serve_locks, serve_unlocks, serve_read, serve_close}
use file_storage_server.Server.Write.{serve_write, serve_append, serve_remove}
use file_storage_server.Server.Walk.{serve_read_n, serve_close_connection}

-- `switch (r->OP)`
unfoldable pub serve : ServerConf → File → Request → Act (Unit {0})
unfolding serve_open serve_locks serve_unlocks serve_write serve_append serve_read serve_read_n
    serve_close serve_remove serve_close_connection
serve sc raw r =
    if r.op == Protcol.open_file
    then serve_open sc raw r
    else (if r.op == Protcol.locks
        then serve_locks r
        else (if r.op == Protcol.unlocks
            then serve_unlocks r
            else (if r.op == Protcol.write_file
                then serve_write sc r
                else (if r.op == Protcol.append_file
                    then serve_append sc r
                    else (if r.op == Protcol.read_file
                        then serve_read r
                        else (if r.op == Protcol.read_n
                            then serve_read_n r
                            else (if r.op == Protcol.close_file
                                then serve_close r
                                else (if r.op == Protcol.remove_file
                                    then serve_remove r
                                    else (if r.op == Protcol.close_connection
                                        then serve_close_connection r
                                        else return tt)))))))))

-- `takeHead(queueric)`, with the request that its node holds, and the `free` of the node
unfoldable pub take_request : Act Request
unfolding take_head free_node load
take_request s = Run.◌>>=◌ (take_head s.queueric) λ r.
    Run.◌>>=◌ (load r.1 r.0)
      λ n. ok (n.cont, record s { queueric = elim r.0 [ none ↦ r.1 | some a ↦ free_node r.1 a ] })

-- One round of the worker's loop with a request in the queue (it waits while there is none). The
-- client goes back to the dispatcher unless its connection was closed.
unfoldable pub work : ServerConf → File → ℕ → Act (Unit {0})
unfolding take_request serve log
work sc raw thread = do
  r ← take_request
  log "Richiesta servita dal thread" (pos 0)
  log "TH " (pos thread)
  serve sc raw r
  (if r.op == Protcol.close_connection then return tt else emit (handed_back r.fd))
