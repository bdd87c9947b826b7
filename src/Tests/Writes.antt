-- ===== src/Tests/Writes.antt =====
-- The theorems about WRITE, APPEND, READ and the other requests on one file at the server of
-- `Tests.Servers` that has the file 97, and at the one that holds it locked.
use file_storage_server.Prelude.{
  ℕ, ◌≡◌, refl, ◌∙◌, false, [], ◌∷◌, ◌++◌, none, some, pos, ◌+ℤ◌, ltb_ℤ,
}
use file_storage_server.Run.{ok}
use file_storage_server.Lis.{Lis}
use file_storage_server.Text.{str_eq_refl}
use file_storage_server.Lis.Seg.{Holds}
use file_storage_server.Lis.Insert.{new_cell}
use file_storage_server.File.{filecreate, open_file, lock_file, read_block}
use file_storage_server.Protcol.{Request}
use file_storage_server.Server.State.{signal_request}
use file_storage_server.Server.Access.{serve_locks}
use file_storage_server.Server.Write.{serve_write, serve_append}
use file_storage_server.Server.Invariant.{view, Found, found}
use file_storage_server.Server.Handled.{serve_locks_waits}
use file_storage_server.Server.Stored.{Stored, written, write_events, serve_write_fits}
use file_storage_server.Server.Appended.{appended, append_events, serve_append_fits}
use file_storage_server.Tests.Session.{conf, name}
use file_storage_server.Tests.Servers.{
  new_file, created, locked, created-view, locked-view, created-fifo, locked-queueric, writing,
  reading, payload, fits,
}

-- the pointer to the file 97 in the server that has it
pub at_file : (p : ℕ) × Found created.after created.rows' name p new_file
at_file = found created.after created.rows' name new_file created.sound created-view

serve_write_fits_example :
    Stored created.after created.rows' name
      (written new_file (1 ∷ 2 ∷ 3 ∷ []) 3)
      (created.after.actual_size +ℤ pos 3)
      (new_cell created.after.fifo at_file.0 name ∷ [])
      (write_events writing (created.after.actual_size +ℤ pos 3))
      (serve_write conf writing created.after)
unfolding open_file filecreate
serve_write_fits_example =
    serve_write_fits conf created.after created.rows' writing new_file (1 ∷ 2 ∷ 3 ∷ [])
      created.sound created-view refl payload at_file.0 [] at_file.1 refl created-fifo fits

-- the server after the write
pub stored :
    Stored created.after created.rows' name
      (written new_file (1 ∷ 2 ∷ 3 ∷ []) 3)
      (created.after.actual_size +ℤ pos 3)
      (new_cell created.after.fifo at_file.0 name ∷ [])
      (write_events writing (created.after.actual_size +ℤ pos 3))
      (serve_write conf writing created.after)
unfolding open_file filecreate
stored =
    serve_write_fits conf created.after created.rows' writing new_file (1 ∷ 2 ∷ 3 ∷ [])
      created.sound created-view refl payload at_file.0 [] at_file.1 refl created-fifo fits

pub stored-view : view stored.after created.rows' name ≡ some (written new_file (1 ∷ 2 ∷ 3 ∷ []) 3)
stored-view = stored.reads name ∙ rw (str_eq_refl name)

pub stored_block : read_block (some (1 ∷ 2 ∷ 3 ∷ [])) 3 ≡ ok (1 ∷ 2 ∷ 3 ∷ [])
unfolding read_block
stored_block = refl

still_not_past : ltb_ℤ (pos 10) (stored.after.actual_size +ℤ pos 3) ≡ false
unfolding ◌+ℤ◌
still_not_past = rw (stored.counted, created.actual_size) refl

serve_append_fits_example :
    Stored stored.after created.rows' name
      (appended (written new_file (1 ∷ 2 ∷ 3 ∷ []) 3) (1 ∷ 2 ∷ 3 ∷ []) (1 ∷ 2 ∷ 3 ∷ []) 3)
      (stored.after.actual_size +ℤ pos 3)
      (new_cell created.after.fifo at_file.0 name ∷ [])
      (append_events writing (stored.after.actual_size +ℤ pos 3))
      (serve_append conf writing stored.after)
unfolding open_file filecreate
serve_append_fits_example =
    serve_append_fits conf stored.after created.rows' writing (written new_file (1 ∷ 2 ∷ 3 ∷ []) 3)
      stored.sound stored-view (1 ∷ 2 ∷ 3 ∷ []) (1 ∷ 2 ∷ 3 ∷ [])
      (new_cell created.after.fifo at_file.0 name ∷ []) refl (1 ∷ 2 ∷ 3 ∷ [], refl) stored_block
      payload stored.queue still_not_past

-- client 6 asks for the lock of client 5
serve_locks_waits_example :
    (queue : Lis Request) × (serve_locks reading locked.after
      ≡ ok (
        tt,
        record locked.after { queueric = queue; trace = locked.after.trace ++ signal_request ∷ [] },
      ))
    × Holds queue (new_cell locked.after.queueric (record reading { contenuto = none }) name ∷ [])
unfolding open_file filecreate lock_file
serve_locks_waits_example =
    serve_locks_waits locked.after locked.rows' reading locked.sound (lock_file new_file) []
      locked-view refl refl locked-queueric
