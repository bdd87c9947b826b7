-- ===== src/Tests/Swaps.antt =====
-- OPEN with O_CREATE of a third file, at the server of `Tests.Full` that has room for two.
use file_storage_server.Prelude.{◌≡◌, refl, [], ◌∷◌, none, arith, inl}
use file_storage_server.Text.{Text, str_eq}
use file_storage_server.Hash.{djb2}
use file_storage_server.Hash.Table.{home, lookup}
use file_storage_server.Lis.Search.{find}
use file_storage_server.Lis.Delete.{remove}
use file_storage_server.File.{filecreate, open_file, read_block}
use file_storage_server.Protcol
use file_storage_server.Protcol.{Request}
use file_storage_server.Server.Open.{open_create}
use file_storage_server.Server.Invariant.{view}
use file_storage_server.Server.Swapped.{Swapped, swap_events, open_create-Swapped}
use file_storage_server.Tests.Session.{conf, raw, ask}
use file_storage_server.Tests.Lists.{cell_a, list_a}
use file_storage_server.Tests.Removals.{held_file}
use file_storage_server.Tests.Full.{two_rows, two_files, two_files-IsServer}

abbrev key_d : Text
key_d = 100 ∷ []

abbrev third : Request
third = ask Protcol.open_file 5 Protcol.o_create key_d [] 0

third_absent : view two_files two_rows key_d ≡ none
unfolding lookup home find str_eq djb2
third_absent = refl

open_create-Swapped_example :
    Swapped two_files two_rows key_d
      (open_file (filecreate raw key_d 5))
      cell_a
      held_file
      []
      (swap_events third held_file 2)
      (open_create conf raw third two_files)
unfolding lookup home find str_eq djb2 remove read_block
open_create-Swapped_example =
    open_create-Swapped conf raw two_files two_rows third two_files-IsServer cell_a [] held_file
      third_absent (omega arith) list_a.2 refl refl (omega arith) (inl refl) refl
