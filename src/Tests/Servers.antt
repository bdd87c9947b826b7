-- ===== src/Tests/Servers.antt =====
-- The theorems about the handlers at servers that the handlers made.
use file_storage_server.Prelude.{
  ℕ, ◌≡◌, refl, sym, ◌∙◌, true, [], ◌∷◌, ◌++◌, none, some, pos, ◌+ℤ◌, arith, subst, replicate,
  ltb_ℤ,
}
use file_storage_server.Run.{ok}
use file_storage_server.Text.{Text, str_eq_refl}
use file_storage_server.Lis.Seg.{Holds}
use file_storage_server.Lis.Insert.{create-Holds}
use file_storage_server.Hash.{h_create}
use file_storage_server.Hash.Update.{h_create-IsTable}
use file_storage_server.File.{File, filecreate, open_file, lock_file, read_block}
use file_storage_server.Protcol
use file_storage_server.Protcol.{Request, int_bytes}
use file_storage_server.Server.State.{Server, sent, log_line}
use file_storage_server.Server.Open.{open_create, open_crlk}
use file_storage_server.Server.Access.{serve_read}
use file_storage_server.Server.Write.{serve_write}
use file_storage_server.Server.Invariant.{Rows, view, IsServer}
use file_storage_server.Server.Spec.{reply}
use file_storage_server.Server.Create.{
  Created, creation_events, open_create-Created, open_crlk-Created,
}
use file_storage_server.Server.Stored.{read-write}
use file_storage_server.Tests.Session.{conf, raw, start, ask, name}

abbrev pub no_rows : Rows
no_rows = replicate 2 []

pub start-IsServer : IsServer start no_rows
start-IsServer =
    let (table, empty) = h_create-IsTable ℕ 2 (omega arith) in
    record {
      table = table;
      stored = λ k p e. absurd (let none-at = empty k in cc);
      below = λ k p e. absurd (let none-at = empty k in cc);
    }

pub start_empty : (k : Text) → view start no_rows k ≡ none
start_empty k = let none-at = (h_create-IsTable ℕ 2 (omega arith)).1 k in rw none-at

-- client 5 creates the file
abbrev pub creation : Request
creation = ask Protcol.open_file 5 Protcol.o_create name [] 0

abbrev pub new_file : File
new_file = open_file (filecreate raw name 5)

abbrev pub Creation : Type 0
Creation =
    Created start no_rows name new_file (creation_events creation 1)
      (open_create conf raw creation start)

open_create-Created_example : Creation
unfolding h_create
open_create-Created_example =
    open_create-Created conf raw start no_rows creation start-IsServer (start_empty name)
      (omega arith)

-- the server after the creation
pub created : Creation
unfolding h_create
created =
    open_create-Created conf raw start no_rows creation start-IsServer (start_empty name)
      (omega arith)

pub locked :
    Created start no_rows name
      (lock_file new_file)
      (creation_events creation 1)
      (open_crlk conf raw creation start)
unfolding h_create
locked =
    open_crlk-Created conf raw start no_rows creation start-IsServer (start_empty name)
      (omega arith)

pub created-view : view created.after created.rows' name ≡ some new_file
created-view = created.reads name ∙ rw (str_eq_refl name)

pub locked-view : view locked.after locked.rows' name ≡ some (lock_file new_file)
locked-view = locked.reads name ∙ rw (str_eq_refl name)

pub created-fifo : Holds created.after.fifo []
created-fifo = subst (λ q. Holds q []) (sym created.fifo) create-Holds

pub locked-queueric : Holds locked.after.queueric []
locked-queueric = subst (λ q. Holds q []) (sym locked.queueric) create-Holds

-- client 5 writes three bytes, and client 6 reads
abbrev pub writing : Request
writing = ask Protcol.write_file 5 0 name (1 ∷ 2 ∷ 3 ∷ []) 3

abbrev pub reading : Request
reading = ask Protcol.read_file 6 0 name [] 0

pub payload : read_block writing.contenuto 3 ≡ ok (1 ∷ 2 ∷ 3 ∷ [])
unfolding read_block
payload = refl

pub fits : ltb_ℤ (created.after.actual_size +ℤ pos 3) (pos 10) ≡ true
unfolding ◌+ℤ◌
fits = rw created.actual_size refl

read-write_example :
    (t u : Server) × (serve_write conf writing created.after ≡ ok (tt, t))
    × (serve_read reading t ≡ ok (tt, u))
    × (u.trace
        ≡ t.trace
          ++ reply reading Protcol.success
            ∷ sent 6 (int_bytes 3)
            ∷ sent 6 (1 ∷ 2 ∷ 3 ∷ [])
            ∷ log_line "RD" (pos 3)
            ∷ [])
unfolding open_file filecreate
read-write_example =
    read-write conf created.after created.rows' writing reading new_file (1 ∷ 2 ∷ 3 ∷ [])
      created.sound created-view refl payload [] refl created-fifo fits refl refl
