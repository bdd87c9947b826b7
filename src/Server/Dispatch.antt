-- ===== src/Server/Dispatch.antt =====
-- source/server.c: `dispatcher`, the thread that waits in `select` and takes the requests in. What
-- `select`, `accept` and the sockets give is a parameter of each round.
pub mod Bounded
pub mod Ending
pub mod Steps
pub mod HungUp
pub mod Answered
use file_storage_server.Prelude.{
  ℕ, zero, suc, ◌+◌, Bool, true, false, ◌&&◌, List, [], ◌∷◌, ◌++◌, Option, none, some, ◌==◌, ltb,
  if◌then◌else◌, ℤ, pos, ◌+ℤ◌,
}
use file_storage_server.Run.{Run, ok, fault, spin, ◌>>=◌}
use file_storage_server.Lis.{insert_t}
use file_storage_server.Protcol.{Request}
use file_storage_server.Server.State.{Server, log_line, signal_request}
use file_storage_server.Server.Message.{Socket, read_message}

-- the listening socket, and the ends at which the dispatcher reads the two pipes
pub record Descriptors : Type 0 where
  pub fd_skt : ℕ
  pub pipefd : ℕ
  pub pipedisp : ℕ

-- the variables of the dispatcher, and the descriptors that workers have written to `pipefd`
pub record Machine : Type 0 where
  pub server : Server
  pub pipe : List ℕ
  pub fd_num : ℕ
  pub gestore : Bool

-- one round: the descriptors that are ready, the result of `accept`, none for -1, the clients'
-- sockets, and what memory from `malloc` holds
pub record Round : Type 0 where
  pub rdset : ℕ → Bool
  pub accepted : Option ℕ
  pub socket : ℕ → Socket
  pub raw : Request
  pub raw_cont : ℕ → List ℕ

-- `if (c > fd_num) fd_num = c`
abbrev pub raise : ℕ → ℕ → ℕ
raise c fd_num = if ltb fd_num c then c else fd_num

-- FD_SET and FD_CLR
abbrev pub watch : ℕ → (ℕ → Bool) → ℕ → Bool
watch c set q = if q == c then true else set q

abbrev pub unwatch : ℕ → (ℕ → Bool) → ℕ → Bool
unwatch c set q = if q == c then false else set q

-- what comes before the loop
unfoldable pub start_dispatcher : Descriptors → Server → Machine
start_dispatcher d s = record {
  server = record s { set = watch d.pipedisp (watch d.pipefd (watch d.fd_skt (λ q. false))) };
  pipe = [];
  fd_num = raise d.pipedisp (raise d.pipefd (raise d.fd_skt 0));
  gestore = true;
}

-- A new connection. FD_SET of -1 writes before the set.
unfoldable pub connect : Option ℕ → Machine → Run Machine
connect none m = fault
connect (some c) m =
    let n = m.server.activecon +ℤ pos 1 in
    ok (record m {
      server = record m.server {
        activecon = n;
        trace =
            m.server.trace
            ++ log_line "Numero di connessioni attive " (pos 0) ∷ log_line "NC " n ∷ [];
        set = watch c m.server.set;
      };
      fd_num = raise c m.fd_num;
    })

-- A worker is done with a client. A read of an empty pipe would wait for ever.
unfoldable pub watch_again : List ℕ → Machine → Run Machine
watch_again [] m = spin
watch_again (c ∷ cs) m =
    ok (record m { server = record m.server { set = watch c m.server.set }; pipe = cs })

-- The request of a client goes to the tail of the queue, and a worker is woken, also where there is
-- no request.
unfoldable pub enqueue : Option Request → Server → Run Server
unfolding insert_t
enqueue none s = ok (record s { trace = s.trace ++ signal_request ∷ [] })
enqueue (some r) s = insert_t s.queueric r r.pathname >>= λ q.
    ok (record s { queueric = q; trace = s.trace ++ signal_request ∷ [] })

unfoldable pub take_in : Round → ℕ → Machine → Run Machine
unfolding enqueue read_message
take_in w c m =
    enqueue (read_message w.raw w.raw_cont c (w.socket c))
      (record m.server { set = unwatch c m.server.set })
    >>= λ s. ok (record m { server = s })

-- a descriptor that is ready, and whether the loop over the descriptors ends with it
unfoldable pub dispatch_fd : Descriptors → Round → ℕ → Machine → Run (Bool × Machine)
unfolding connect watch_again take_in
dispatch_fd d w fd m =
    if fd == d.fd_skt && m.server.closesighup
    then (connect w.accepted m >>= λ m. ok (true, m))
    else if fd == d.pipefd
    then (watch_again m.pipe m >>= λ m. ok (true, m))
    else if fd == d.pipedisp
    then ok (false, record m { gestore = false })
    else (take_in w fd m >>= λ m. ok (true, m))

-- `for (fd = 0; fd <= fd_num; fd++)`, with as many descriptors to go as the first number says
unfoldable pub scan : Descriptors → Round → ℕ → ℕ → Machine → Run Machine
unfolding dispatch_fd
scan d w zero fd m = ok m
scan d w (suc n) fd m = elim (w.rdset fd) [
  | false ↦ scan d w n (fd + 1) m
  | true ↦
      dispatch_fd d w fd m >>= λ r. elim r.0 [ true ↦ ok r.1 | false ↦ scan d w n (fd + 1) r.1 ]
]

-- one round of `while (gestore)`
unfoldable pub dispatch : Descriptors → Round → Machine → Run Machine
unfolding scan
dispatch d w m = scan d w (m.fd_num + 1) 0 m
