-- ===== src/Tests/Session.antt =====
-- A server with two buckets and room for 10 bytes, made by the handlers themselves: file 97 is created
-- by client 5 and written.
use file_storage_server.Prelude.{ℕ, ◌≡◌, refl, true, false, List, [], ◌∷◌, none, some, pos, ◌+ℤ◌}
use file_storage_server.Run
use file_storage_server.Run.{Run, ok, fault, spin, deref}
use file_storage_server.Text.{Text, str_eq}
use file_storage_server.Lis.{create, insert_h, search}
use file_storage_server.Hash
use file_storage_server.Hash.{h_create, h_delete}
use file_storage_server.File.{File, read_block}
use file_storage_server.Protcol
use file_storage_server.Protcol.{Request, int_bytes}
use file_storage_server.Server.State.{Server, ServerConf, Event, sent, logged, logged_int, log_line}
use file_storage_server.Server.Worker.{serve}

abbrev pub conf : ServerConf
conf = record { maxf = 2; space = 10 }

-- memory that holds zeros
abbrev pub raw : File
raw = record { isopen = 0; path_name = []; cont = none; dim = 0; fd = 0; lock = 0 }

abbrev pub start : Server
start = record {
  table = h_create 2;
  fifo = create;
  queueric = create;
  actual_size = pos 0;
  files = λ _. none;
  next_file = 0;
  activecon = pos 1;
  closesighup = true;
  set = λ _. false;
  trace = [];
}

abbrev pub ask : ℕ → ℕ → ℕ → Text → List ℕ → ℕ → Request
ask op fd flags name bytes size = record {
  pathname = name;
  size = size;
  flags = pos flags;
  fd = fd;
  op = op;
  contenuto = some bytes;
}

abbrev pub name : Text
name = 97 ∷ []

-- run the requests one after the other
serve_all : List Request → Server → Run Server
unfolding serve
serve_all [] s = ok s
serve_all (r ∷ rs) s = Run.◌>>=◌ (serve conf raw r s) λ t. serve_all rs t.1

abbrev all_traced : Run Server → Run (List Event)
all_traced m = Run.◌>>=◌ m λ s. ok s.trace

write_then_read :
    all_traced (
      serve_all
        (ask Protcol.open_file 5 Protcol.o_create name [] 0
          ∷ ask Protcol.write_file 5 0 name (1 ∷ 2 ∷ 3 ∷ []) 3
          ∷ ask Protcol.read_file 6 0 name [] 0
          ∷ [])
        start)
    ≡ ok (
        sent 5 (100 ∷ 0 ∷ 0 ∷ 0 ∷ [])
        ∷ logged "Numero file presenti:"
        ∷ logged_int "NF " (pos 1)
        ∷ sent 5 (100 ∷ 0 ∷ 0 ∷ 0 ∷ [])
        ∷ logged_int "WR" (pos 3)
        ∷ logged "byte presenti:"
        ∷ logged_int "NB " (pos 3)
        ∷ sent 6 (100 ∷ 0 ∷ 0 ∷ 0 ∷ [])
        ∷ sent 6 (3 ∷ 0 ∷ 0 ∷ 0 ∷ [])
        ∷ sent 6 (1 ∷ 2 ∷ 3 ∷ [])
        ∷ logged_int "RD" (pos 3)
        ∷ [])
unfolding serve_all h_create create str_eq read_block ◌+ℤ◌ log_line int_bytes Hash.contain
    Hash.funchash Hash.hashins Hash.getvalue insert_h search
write_then_read = refl
