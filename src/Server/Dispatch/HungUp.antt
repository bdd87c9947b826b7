-- ===== src/Server/Dispatch/HungUp.antt =====
-- The listening socket once SIGHUP has come: the dispatcher takes it for a client.
use file_storage_server.Prelude.{
  ℕ, ◌≡◌, ◌≢◌, refl, true, false, ◌&&◌, List, [], ◌∷◌, ◌++◌, none, some, ◌==◌, if◌then◌else◌,
  Bool-cases, inl, inr, arith,
}
use file_storage_server.Run.{ok}
use file_storage_server.Lis.Seg.{Cell, Holds}
use file_storage_server.Lis.Insert.{new_cell, insert_t-Holds}
use file_storage_server.Protcol.{Request}
use file_storage_server.Server.State.{signal_request}
use file_storage_server.Server.Message.{errored, read_message}
use file_storage_server.Server.Dispatch.{
  Descriptors, Machine, Round, unwatch, enqueue, take_in, dispatch_fd,
}

-- a request that only `malloc` has filled, but for the descriptor and the contents
abbrev pub unread : Round → ℕ → Request
unread w fd = record w.raw {
  fd = fd;
  contenuto = if w.raw.size == 0 then none else some (w.raw_cont w.raw.size);
}

read_message-unread :
    (w : Round) (fd : ℕ)
    → (w.socket fd).head ≡ errored
    → (w.socket fd).body w.raw.size ≡ errored
    → read_message w.raw w.raw_cont fd (w.socket fd) ≡ some (unread w fd)
unfolding read_message
read_message-unread w fd head body = elim (Bool-cases (w.raw.size == 0)) [
  | inl e ↦ rw (head, e) refl
  | inr e ↦ rw (head, e, body) refl
]

-- After SIGHUP, when the listening socket is ready and every read of it fails, the dispatcher puts
-- a request into the queue whose fields, but for the descriptor and the contents, are what the
-- memory held, and watches the socket no more; the queue is a list of known cells, and the socket
-- is neither of the dispatcher's pipes.
pub dispatch_fd-unread :
    (d : Descriptors) (w : Round) (m : Machine) (cells : List (Cell Request))
    → Holds m.server.queueric cells
    → m.server.closesighup ≡ false
    → d.fd_skt ≢ d.pipefd
    → d.fd_skt ≢ d.pipedisp
    → (w.socket d.fd_skt).head ≡ errored
    → (w.socket d.fd_skt).body w.raw.size ≡ errored
    → (m' : Machine) × (dispatch_fd d w d.fd_skt m ≡ ok (true, m'))
      × Holds m'.server.queueric
          (cells ++ new_cell m.server.queueric (unread w d.fd_skt) w.raw.pathname ∷ [])
      × (m'.server.set d.fd_skt ≡ false)
unfolding dispatch_fd take_in enqueue
dispatch_fd-unread d w m cells queued hung other other' head body =
    let read = read_message-unread w d.fd_skt head body in
    let (q, run, held) =
      insert_t-Holds m.server.queueric cells (unread w d.fd_skt) w.raw.pathname queued in
    let a : (d.fd_skt == d.pipefd) ≡ false = ground arith in
    let b : (d.fd_skt == d.pipedisp) ≡ false = ground arith in
    let c : (d.fd_skt == d.fd_skt && m.server.closesighup) ≡ false = ground arith in
    (
      record m {
        server = record m.server {
          set = unwatch d.fd_skt m.server.set;
          queueric = q;
          trace = m.server.trace ++ signal_request ∷ [];
        };
      },
      rw (c, a, b, read, run) refl,
      held,
      ground arith,
    )
