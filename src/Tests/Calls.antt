-- ===== src/Tests/Calls.antt =====
-- The client's calls, and the reading of requests and of the configuration, on concrete inputs.
use file_storage_server.Prelude.{
  ℕ, ◌≡◌, refl, sym, ◌∙◌, subst, true, false, List, [], ◌∷◌, none, some, ◌==◌, arith, inr, pos,
  ◌+ℤ◌, ltb_ℤ, length, drop, ◌++◌, ℤ, negsuc, if◌then◌else◌,
}
use file_storage_server.Run.{ok}
use file_storage_server.Text.{Text, str_eq_refl}
use file_storage_server.Lis.Seg.{Holds}
use file_storage_server.Lis.Insert.{create-Holds, new_cell}
use file_storage_server.Hash.{h_create}
use file_storage_server.File.{File, filecreate, open_file, read_block}
use file_storage_server.Protcol
use file_storage_server.Protcol.{Request, success, int_bytes}
use file_storage_server.Server.State.{Server, sent}
use file_storage_server.Server.Open.{open_create}
use file_storage_server.Server.Walk.{serve_read_n, files_asked}
use file_storage_server.Server.Worker.{serve}
use file_storage_server.Server.Spec.{reply}
use file_storage_server.Server.Invariant.{view, Found, found}
use file_storage_server.Server.Create.{Created, creation_events, open_create-Created}
use file_storage_server.Server.Stored.{Stored, written, write_events, serve_write_fits}
use file_storage_server.Server.Write.{serve_write}
use file_storage_server.Server.Sent.{extended, events, sent_cells, read_files-events}
use file_storage_server.Server.Message.{read_message, wire, read_message-wire}
use file_storage_server.Server.Config
use file_storage_server.Server.Config.{Config, configura, line_of, configura-lines}
use file_storage_server.Api.{returns, make_request}
use file_storage_server.Api.Backup.{Disk}
use file_storage_server.Api.Opening.{open_request}
use file_storage_server.Api.Sending.{content_request, write_file}
use file_storage_server.Api.Receiving.{read_n_request, read_n_files}
use file_storage_server.Api.Connect.{open_connection}
use file_storage_server.Api.Attempts.{Attempted, open_connection-Attempted}
use file_storage_server.Api.Creation.{arrived, delivered, serve-serve_write, write_file-serve}
use file_storage_server.Api.Surplus.{cell_bytes, Fitting, read_n_files-serve_read_n}
use file_storage_server.Tests.Session.{conf, raw, start, ask, name}
use file_storage_server.Tests.Servers.{no_rows, start-IsServer, start_empty, new_file}
use file_storage_server.Tests.Lists.{one_row}
use file_storage_server.Tests.Removals.{held_file, queued, queued-IsServer, queued-Readable}

abbrev resolve : Text → Text
resolve path = path

-- client 5 creates the file 97
abbrev creating : Request
creating = arrived (open_request name (pos Protcol.o_create)) 5

made :
    Created start no_rows name new_file
      (creation_events creating 1)
      (open_create conf raw creating start)
unfolding make_request h_create
made =
    open_create-Created conf raw start no_rows creating start-IsServer (start_empty name)
      (omega arith)

-- and writes three bytes to it
abbrev bytes : List ℕ
bytes = 1 ∷ 2 ∷ 3 ∷ []

abbrev writing : Request
writing = arrived (content_request name Protcol.write_file bytes) 5

made-view : view made.after made.rows' name ≡ some new_file
made-view = made.reads name ∙ rw (str_eq_refl name)

made-fifo : Holds made.after.fifo []
made-fifo = subst (λ q. Holds q []) (sym made.fifo) create-Holds

made_fits : ltb_ℤ (made.after.actual_size +ℤ pos 3) (pos 10) ≡ true
unfolding ◌+ℤ◌
made_fits = rw made.actual_size refl

at_made : (p : ℕ) × Found made.after made.rows' name p new_file
at_made = found made.after made.rows' name new_file made.sound made-view

payload : read_block (some bytes) 3 ≡ ok bytes
unfolding read_block
payload = refl

stored :
    Stored made.after made.rows' name
      (written new_file bytes 3)
      (made.after.actual_size +ℤ pos 3)
      (new_cell made.after.fifo at_made.0 name ∷ [])
      (write_events writing (made.after.actual_size +ℤ pos 3))
      (serve_write conf writing made.after)
unfolding open_file filecreate make_request
stored =
    serve_write_fits conf made.after made.rows' writing new_file bytes made.sound made-view refl
      payload at_made.0 [] at_made.1 refl made-fifo made_fits

serves_write : serve conf raw writing made.after ≡ ok (tt, stored.after)
unfolding make_request
serves_write = serve-serve_write conf raw writing made.after refl ∙ stored.runs

abbrev write_answer : Request → List ℕ
write_answer r = delivered 5 made.after stored.after

abbrev disk : Disk
disk = record { is_dir = λ d. none; can_write = λ f. false }

write_file-serve_example :
    (write_file resolve disk (λ path. some bytes) (pos 3) write_answer (some name) none
      ≡ ok (returns (pos 1), [], []))
    × ((g : File) × (view stored.after made.rows' name ≡ some g)
        × (g.cont ≡ some bytes)
        × (g.dim ≡ 3))
unfolding open_file filecreate make_request
write_file-serve_example =
    write_file-serve resolve 3 5 write_answer name conf raw made.after stored.after made.rows'
      made.sound disk (λ path. some bytes) none new_file bytes [] refl made-view refl refl made-fifo
      made_fits serves_write refl

-- client 6 asks for one file
abbrev asking : Request
asking = arrived (read_n_request (pos 1)) 6

abbrev greeted : Server
greeted = extended queued (reply asking success ∷ [])

abbrev served : Server
served = extended greeted (sent 6 (int_bytes 1) ∷ events 6 queued.files (sent_cells 1 one_row))

serves_read_n : serve_read_n asking queued ≡ ok (tt, served)
unfolding files_asked serve_read_n read_n_request make_request
serves_read_n =
    let (sends, enough) =
      read_files-events 6 (pos 1) greeted one_row
        (record {
          table = queued-IsServer.table;
          stored = queued-IsServer.stored;
          below = queued-IsServer.below;
        })
        queued-Readable in
    sends

held_fits : Fitting queued.files (sent_cells 1 one_row)
held_fits = ((held_file, refl, omega arith, omega arith, refl), tt)

read_n_files-serve_read_n_example :
    read_n_files disk (pos 3) (λ r. delivered 6 queued served) (pos 1) none
    ≡ ok (some (returns (pos 1), [], cell_bytes queued.files (drop 1 (sent_cells 1 one_row))))
unfolding files_asked
read_n_files-serve_read_n_example =
    read_n_files-serve_read_n disk 3 6 (λ r. delivered 6 queued served) (pos 1) queued served
      one_row queued-IsServer (omega arith) queued-Readable held_fits (omega arith) serves_read_n
      refl

-- the third attempt succeeds
open_connection-Attempted_example :
    Attempted (λ k. k == 2) (λ k. k) 5 (open_connection true (λ k. k == 2) (λ k. k) 5 6)
open_connection-Attempted_example =
    open_connection-Attempted (λ k. k == 2) (λ k. k) 5 5 6 (omega arith) (omega arith)

-- a request with three bytes behind it
abbrev three : Request
three = ask Protcol.write_file 0 0 name bytes 3

read_message-wire_example :
    read_message three (λ n. []) 5 (wire three none) ≡ some (record three { fd = 5 })
read_message-wire_example =
    read_message-wire three (λ n. []) 5 three none (inr (bytes, refl, refl, omega arith))

-- a configuration with short values, and a `strtol` that gives 3000000000 for the one of three bytes
abbrev long_of : Text → ℤ
long_of v = if length v == 3 then pos 3000000000 else pos (length v)

abbrev unset : Config
unset = record { nwork = pos 0; space = pos 0; maxf = pos 0; socketname = none; filelog = none }

configura-lines_example :
    configura long_of
      (λ v. true)
      (some (
        line_of Config.threads (52 ∷ [])
        ++ (line_of Config.size (49 ∷ 50 ∷ [])
            ++ (line_of Config.nfile (51 ∷ [])
                ++ (line_of Config.name (115 ∷ []) ++ (line_of Config.logfile (108 ∷ []) ++ []))))))
      unset
    ≡ ok (
        some (record {
          nwork = pos 2;
          space = negsuc 1294967295;
          maxf = pos 2;
          socketname = some (115 ∷ []);
          filelog = some (108 ∷ 10 ∷ []);
        }))
configura-lines_example =
    configura-lines long_of (λ v. true) unset (52 ∷ []) (49 ∷ 50 ∷ []) (51 ∷ []) (115 ∷ [])
      (108 ∷ []) (omega arith, (omega arith, (omega arith, tt)))
      (omega arith, (omega arith, (omega arith, (omega arith, (omega arith, (omega arith, tt))))))
      (omega arith, (omega arith, (omega arith, tt)))
      (omega arith, (omega arith, (omega arith, tt)))
      (omega arith, (omega arith, (omega arith, tt))) (omega arith) (omega arith) (omega arith)
      (omega arith) (omega arith) refl
