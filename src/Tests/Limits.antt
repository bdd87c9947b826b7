-- ===== src/Tests/Limits.antt =====
-- The theorems about the server's bounds, and about a client's read, at servers that the handlers made.
use file_storage_server.Prelude.{
  ℕ, ◌≡◌, refl, ◌∙◌, true, false, List, [], ◌∷◌, ◌++◌, none, some, pos, ◌+ℤ◌, ◌-ℤ◌, arith, subst,
  replicate, ltb_ℤ, drop, length, ◌+◌,
}
use file_storage_server.Run.{ok, fault}
use file_storage_server.Lis.{Lis}
use file_storage_server.Text.{Text, str_eq, str_eq_refl}
use file_storage_server.Lis.Seg.{Cell, Holds}
use file_storage_server.Lis.Insert.{create-Holds, new_cell}
use file_storage_server.Hash.{h_create}
use file_storage_server.File.{File, filecreate, open_file, read_block}
use file_storage_server.Protcol
use file_storage_server.Protcol.{Request, int_bytes}
use file_storage_server.Api.Delivery.{bytes_to, received, read_file-serve_read}
use file_storage_server.Api.{make_request, read_file, returns}
use file_storage_server.Server.State.{Server, ServerConf}
use file_storage_server.Server.Open.{open_create, open_crlk}
use file_storage_server.Server.Access.{serve_read, serve_close}
use file_storage_server.Server.Capacity.{take_out}
use file_storage_server.Server.Write.{serve_write, serve_append}
use file_storage_server.Server.Invariant.{at_pointer, view}
use file_storage_server.Server.Spec.{Serves, reply, spec_close, spec_read}
use file_storage_server.Server.Refine.{serve_read-Serves}
use file_storage_server.Server.Stored.{written}
use file_storage_server.Server.Appended.{serve_append_shut}
use file_storage_server.Tests.Session.{conf, raw, start, ask, name}
use file_storage_server.Server.Limits.{serve_write_too_big, open_create_full, serve_read_unwritten}
use file_storage_server.Server.Refine.{serve_close-Serves}
use file_storage_server.Server.Evict.{take_out-Takes, leaving, staying, left_bytes, items}
use file_storage_server.Lis.{create}
use file_storage_server.Tests.Servers.{
  no_rows, start-IsServer, start_empty, creation, new_file, created, created-view, created-fifo,
  writing, reading,
}
use file_storage_server.Tests.Writes.{at_file, stored, stored-view, stored_block}

-- eleven bytes for a server that has room for ten
abbrev eleven : List ℕ
eleven = replicate 11 7

abbrev too_big : Request
too_big = ask Protcol.write_file 5 0 name eleven 11

past : ltb_ℤ (pos 10) (created.after.actual_size +ℤ pos 11) ≡ true
unfolding ◌+ℤ◌
past = rw created.actual_size refl

serve_write_too_big_example : serve_write conf too_big created.after ≡ fault
unfolding open_file filecreate read_block
serve_write_too_big_example =
    serve_write_too_big conf created.after created.rows' too_big new_file created.sound created-view
      refl eleven refl refl created-fifo past

-- a second file for a server that has room for one
abbrev small_conf : ServerConf
small_conf = record { maxf = 1; space = 10 }

abbrev second : Request
second = ask Protcol.open_file 5 Protcol.o_create (98 ∷ []) [] 0

second_absent : view created.after created.rows' (98 ∷ []) ≡ none
unfolding str_eq
second_absent = created.reads (98 ∷ []) ∙ start_empty (98 ∷ [])

open_create_full_example : open_create small_conf raw second created.after ≡ fault
unfolding h_create
open_create_full_example =
    open_create_full small_conf raw created.after created.rows' second created.sound second_absent
      (omega (arith, created.nelem)) created-fifo

-- memory that holds a size and no pointer
abbrev dirty : File
dirty = record { isopen = 0; path_name = []; cont = none; dim = 7; fd = 0; lock = 0 }

serve_read_unwritten_example :
    ((t : Server) × (open_create conf dirty creation start ≡ ok (tt, t))
      × (serve_read reading t ≡ fault))
    × ((t : Server) × (open_crlk conf dirty creation start ≡ ok (tt, t))
        × (serve_read reading t
            ≡ ok (tt, record t { trace = t.trace ++ reply reading Protcol.not_permission ∷ [] })))
unfolding h_create
serve_read_unwritten_example =
    serve_read_unwritten conf dirty start no_rows creation reading start-IsServer (start_empty name)
      (omega arith) (omega arith) refl

-- client 6 closes the file, whoever opened it, and client 5 appends to it
closed :
    Serves created.after created.rows' name
      (spec_close reading new_file)
      (serve_close reading created.after)
closed = serve_close-Serves created.after created.rows' reading new_file created.sound created-view

closed-view : view closed.after created.rows' name ≡ some (record new_file { isopen = 0 })
closed-view = closed.reads name ∙ rw (str_eq_refl name)

serve_append_shut_example :
    serve_append conf writing closed.after
    ≡ ok (
      tt,
      record closed.after {
        actual_size = closed.after.actual_size +ℤ pos 3;
        trace = closed.after.trace ++ reply writing Protcol.not_open ∷ [];
      },
    )
serve_append_shut_example =
    serve_append_shut conf closed.after created.rows' writing (record new_file { isopen = 0 })
      closed.sound closed-view (omega arith)

-- the read of a client with descriptor 6, up to the bytes that reach it
abbrev resolve : Text → Text
resolve path = path

abbrev asked : Request
asked = received name Protcol.read_file 6

answered :
    Serves stored.after created.rows' name
      (spec_read (1 ∷ 2 ∷ 3 ∷ []) asked (written new_file (1 ∷ 2 ∷ 3 ∷ []) 3))
      (serve_read asked stored.after)
unfolding make_request
answered =
    serve_read-Serves stored.after created.rows' asked (written new_file (1 ∷ 2 ∷ 3 ∷ []) 3)
      stored.sound stored-view (1 ∷ 2 ∷ 3 ∷ []) stored_block

abbrev delivery : Request → List ℕ
delivery r = bytes_to 6 (drop (length stored.after.trace) answered.after.trace)

read_file-serve_read_example :
    read_file resolve (pos 3) delivery name ≡ ok (returns (pos 1), some ((1 ∷ 2 ∷ 3 ∷ []), 3))
unfolding open_file filecreate
read_file-serve_read_example =
    read_file-serve_read resolve 3 6 delivery name stored.after answered.after created.rows'
      (written new_file (1 ∷ 2 ∷ 3 ∷ []) 3) (1 ∷ 2 ∷ 3 ∷ []) stored.sound stored-view refl refl
      stored_block (omega arith) answered.runs refl

-- the server with the three bytes, once it has room for two only
abbrev tight : ServerConf
tight = record { maxf = 2; space = 2 }

abbrev queued_cell : Cell ℕ
queued_cell = new_cell created.after.fifo at_file.0 name

stored_live : stored.after.files at_file.0 ≡ some (written new_file (1 ∷ 2 ∷ 3 ∷ []) 3)
stored_live =
    subst (λ o. at_pointer stored.after.files o ≡ some (written new_file (1 ∷ 2 ∷ 3 ∷ []) 3))
      at_file.1.looked stored-view

enough :
    ltb_ℤ (pos 2) (left_bytes stored.after.files 2 stored.after.actual_size (queued_cell ∷ []))
    ≡ false
unfolding left_bytes ◌+ℤ◌ ◌-ℤ◌
enough = rw (stored.counted, created.actual_size, stored_live) refl

take_out-Takes_example :
    (to q : Lis ℕ) × (cells : List (Cell ℕ)) × (take_out 2 tight create 0 stored.after
      ≡ ok (
        (to, 0 + length (leaving stored.after.files 2 stored.after.actual_size (queued_cell ∷ []))),
        record stored.after {
          fifo = q;
          actual_size = left_bytes stored.after.files 2 stored.after.actual_size (queued_cell ∷ []);
        },
      ))
    × Holds to cells
    × (items cells
        ≡ items (leaving stored.after.files 2 stored.after.actual_size (queued_cell ∷ [])))
    × Holds q (staying stored.after.files 2 stored.after.actual_size (queued_cell ∷ []))
take_out-Takes_example =
    take_out-Takes 2 tight create 0 stored.after [] (queued_cell ∷ []) (omega arith) create-Holds
      stored.queue ((written new_file (1 ∷ 2 ∷ 3 ∷ []) 3, stored_live), tt) enough
