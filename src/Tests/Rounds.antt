-- ===== src/Tests/Rounds.antt =====
-- Rounds of the workers and of the dispatcher at concrete servers.
use file_storage_server.Prelude.{
  ℕ, ◌≡◌, refl, sym, ◌∙◌, ap, subst, Bool-cases, true, false, List, [], ◌∷◌, none, some, ◌==◌,
  arith, inl, inr,
}
use file_storage_server.Run.{ok}
use file_storage_server.Text.{str_eq}
use file_storage_server.Lis.{Lis, create, insert_t}
use file_storage_server.Lis.Seg.{Cell, Holds}
use file_storage_server.Lis.Insert.{create-Holds, new_cell, insert_t-Holds}
use file_storage_server.Hash.Table.{lookup}
use file_storage_server.File.{File, read_block}
use file_storage_server.Protcol
use file_storage_server.Protcol.{Request}
use file_storage_server.Server.State.{Server}
use file_storage_server.Server.Worker.{serve}
use file_storage_server.Server.Invariant.{view, at_pointer}
use file_storage_server.Server.Spec.{Handled, reply}
use file_storage_server.Server.Sent.{contents}
use file_storage_server.Server.Plain.{Kind, spec_of, IsLegible, serve-Handled}
use file_storage_server.Server.Rounds.{Plain, after_all, all_events, rounds}
use file_storage_server.Server.Drain.{Drained, rounds-Drained}
use file_storage_server.Server.Removed.{serve_remove_refused}
use file_storage_server.Server.Private.{Touches}
use file_storage_server.Server.Private.Served.{serve-Touches}
use file_storage_server.Server.Message.{Socket, errored, wire}
use file_storage_server.Server.Dispatch.{
  Descriptors, Machine, Round, start_dispatcher, dispatch, dispatch_fd, take_in,
}
use file_storage_server.Server.Dispatch.Ending.{dispatch-Settles}
use file_storage_server.Server.Dispatch.Bounded.{Bounded, IsReady, Settles, start-Bounded}
use file_storage_server.Server.Dispatch.Steps.{Reach, starts, goes_on, dispatched, Reach-Bounded}
use file_storage_server.Server.Dispatch.Answered.{with_last, take_in-Drained}
use file_storage_server.Server.Dispatch.HungUp.{unread, dispatch_fd-unread}
use file_storage_server.Tests.Session.{conf, raw, start, ask}
use file_storage_server.Tests.Lists.{key_a, one_row, one_bucket-lookup}
use file_storage_server.Tests.Removals.{
  held_file, queued, queued-IsServer, by_other, one_row-lookup,
}

held_block : read_block held_file.cont held_file.dim ≡ ok (contents held_file.cont held_file.dim)
unfolding read_block
held_block = refl

queued-IsLegible : IsLegible (view queued one_row)
queued-IsLegible q f e = elim (Bool-cases (str_eq key_a q)) [
  | inl same ↦
      let row : lookup one_row q ≡ some 10 = one_row-lookup q ∙ rw same refl in
      let at : some held_file ≡ some f = sym (ap (at_pointer queued.files) row) ∙ e in
      let it : held_file ≡ f = cc in
      subst (λ (x : File). read_block x.cont x.dim ≡ ok (contents x.cont x.dim)) it held_block
  | inr other ↦
      let row : lookup one_row q ≡ none = one_row-lookup q ∙ rw other refl in
      let bad : none ≡ some f = sym (ap (at_pointer queued.files) row) ∙ e in absurd (cc)
]

-- client 6 closes the file, and client 5 reads it
abbrev closing : Request
closing = ask Protcol.close_file 6 0 key_a [] 0

abbrev reading : Request
reading = ask Protcol.read_file 5 0 key_a [] 0

serve-Handled_example :
    Handled queued one_row closing
      (spec_of Kind.closing)
      (serve conf raw closing queued)
      (view queued one_row key_a)
serve-Handled_example =
    serve-Handled conf raw queued one_row closing queued-IsServer Kind.closing refl queued-IsLegible

abbrev first_cell : Cell Request
first_cell = new_cell create reading key_a

one_waits : (q : Lis Request) × (insert_t create reading key_a ≡ ok q) × Holds q (first_cell ∷ [])
one_waits = insert_t-Holds create [] reading key_a create-Holds

abbrev second_cell : Cell Request
second_cell = new_cell one_waits.0 closing key_a

two_wait :
    (q : Lis Request) × (insert_t one_waits.0 closing key_a ≡ ok q)
    × Holds q (first_cell ∷ second_cell ∷ [])
two_wait = insert_t-Holds one_waits.0 (first_cell ∷ []) closing key_a one_waits.2

abbrev lined_up : Server
lined_up = record queued { queueric = two_wait.0 }

abbrev both : List Plain
both = (Kind.reading, reading, refl) ∷ (Kind.closing, closing, refl) ∷ []

rounds-Drained_example :
    Drained lined_up one_row
      (after_all both (view lined_up one_row))
      []
      (all_events 1 both (view lined_up one_row))
      (rounds 2 conf raw 1 lined_up)
rounds-Drained_example =
    rounds-Drained conf raw 1 lined_up one_row (first_cell ∷ second_cell ∷ []) both
      (record {
        table = queued-IsServer.table;
        stored = queued-IsServer.stored;
        below = queued-IsServer.below;
      })
      queued-IsLegible two_wait.2 (refl, (refl, tt))

-- client 6 asks for the removal of the file that client 5 holds
abbrev refused : Server
refused = record queued { trace = reply by_other Protcol.not_permission ∷ [] }

refuses : serve conf raw by_other queued ≡ ok (tt, refused)
unfolding serve
refuses =
    serve_remove_refused queued one_row by_other Protcol.not_permission queued-IsServer
      (rw one_bucket-lookup refl)

serve-Touches_example : Touches 6 queued refused
serve-Touches_example = serve-Touches conf raw by_other queued refused refuses

-- the listening socket is 3, the pipes are read at 4 and 6, and client 8 connects
abbrev descriptors : Descriptors
descriptors = record { fd_skt = 3; pipefd = 4; pipedisp = 6 }

abbrev dead_socket : ℕ → Socket
dead_socket _ = record { head = errored; body = λ n. errored }

abbrev connection : Round
connection = record {
  rdset = λ q. q == 3;
  accepted = some 8;
  socket = dead_socket;
  raw = reading;
  raw_cont = λ n. [];
}

connection-IsReady : IsReady descriptors (start_dispatcher descriptors start) connection
unfolding start_dispatcher
connection-IsReady = record {
  among = λ q e. ground (arith, e);
  filled = λ e. absurd (ground (arith, e));
  connected = (8, refl);
}

start-fits : Bounded (start_dispatcher descriptors start)
start-fits = start-Bounded descriptors start create-Holds

connected : Settles (dispatch descriptors connection (start_dispatcher descriptors start))
connected =
    dispatch-Settles descriptors connection (start_dispatcher descriptors start) connection-IsReady
      start-fits

connected-Reach : Reach descriptors conf start connected.0
unfolding start_dispatcher
connected-Reach = goes_on starts (dispatched connection refl connection-IsReady connected.1)

Reach-Bounded_example : Bounded connected.0
Reach-Bounded_example =
    Reach-Bounded descriptors conf start connected.0 create-Holds connected-Reach

-- the same round once SIGHUP has come
abbrev hung_up : Machine
hung_up = record {
  server = record start { closesighup = false };
  pipe = [];
  fd_num = 6;
  gestore = true;
}

dispatch_fd-unread_example :
    (m' : Machine) × (dispatch_fd descriptors connection 3 hung_up ≡ ok (true, m'))
    × Holds m'.server.queueric (new_cell create (unread connection 3) key_a ∷ [])
    × (m'.server.set 3 ≡ false)
dispatch_fd-unread_example =
    dispatch_fd-unread descriptors connection hung_up [] create-Holds refl (omega arith)
      (omega arith) refl refl

-- client 8 asks for the file to be closed while the read of client 5 waits
abbrev late : Request
late = record closing { contenuto = none }

abbrev arrival : Round
arrival = record connection { socket = λ q. wire late none }

abbrev waiting : Machine
waiting = record {
  server = record queued { queueric = one_waits.0 };
  pipe = [];
  fd_num = 8;
  gestore = true;
}

abbrev then_late : List Plain
then_late =
    with_last arrival 8 waiting (first_cell ∷ []) late none one_row
      ((Kind.reading, reading, refl) ∷ []) Kind.closing refl

take_in-Drained_example :
    (m' : Machine) × (take_in arrival 8 waiting ≡ ok m')
    × Drained m'.server one_row
        (after_all then_late (view queued one_row))
        []
        (all_events 1 then_late (view queued one_row))
        (rounds 2 conf raw 1 m'.server)
take_in-Drained_example =
    take_in-Drained arrival 8 waiting (first_cell ∷ []) late none one_row conf raw 1
      ((Kind.reading, reading, refl) ∷ []) Kind.closing refl one_waits.2 (refl, tt)
      (record {
        table = queued-IsServer.table;
        stored = queued-IsServer.stored;
        below = queued-IsServer.below;
      })
      queued-IsLegible refl (inl (refl, refl))
