-- ===== src/Tests/Appends.antt =====
-- APPEND over the bound, at the server with two files of `Tests.Full`.
use file_storage_server.Prelude.{
  ◌≡◌, refl, ◌∙◌, true, [], ◌∷◌, none, some, arith, inl, pos, negsuc, ◌+ℤ◌, ◌-ℤ◌, if◌then◌else◌,
  ltb_ℤ,
}
use file_storage_server.Run.{ok}
use file_storage_server.Text.{Text, str_eq}
use file_storage_server.Hash.{djb2}
use file_storage_server.Hash.Table.{home, lookup}
use file_storage_server.Lis.Search.{find}
use file_storage_server.Lis.Delete.{remove}
use file_storage_server.File.{read_block}
use file_storage_server.Protcol
use file_storage_server.Protcol.{Request, int_bytes, success}
use file_storage_server.Server.Worker.{serve}
use file_storage_server.Server.Write.{serve_append}
use file_storage_server.Server.Invariant.{Rows, IsServer, view}
use file_storage_server.Server.Appended.{appended}
use file_storage_server.Server.Evict.{leaving, staying, left_bytes}
use file_storage_server.Server.Expelled.{is_named}
use file_storage_server.Server.Full.{Replaced}
use file_storage_server.Server.Full.Appended.{append_full_events, serve_append_full}
use file_storage_server.Api.{returns, make_request}
use file_storage_server.Api.Sending.{append_to_file}
use file_storage_server.Api.Creation.{delivered}
use file_storage_server.Api.Returned.{IsKept}
use file_storage_server.Api.Returned.Unread.{serve-serve_append, append_to_file-serve_full}
use file_storage_server.Tests.Session.{conf, raw, ask}
use file_storage_server.Tests.Lists.{key_a, cell_a, list_a}
use file_storage_server.Tests.Removals.{held_file}
use file_storage_server.Tests.Full.{
  key_b, two_rows, fresh_file, two_files, two_files-IsServer, two_files-view, eight,
}
use file_storage_server.Tests.Backups.{backup_dir, disk, saved, stores}

-- eight bytes behind the none of the file 98
abbrev longer : Request
longer = ask Protcol.append_file 5 0 key_b eight 8

long_payload : read_block longer.contenuto 8 ≡ ok eight
unfolding read_block
long_payload = refl

none_yet : read_block fresh_file.cont 0 ≡ ok []
unfolding read_block
none_yet = refl

over : ltb_ℤ (pos 10) (two_files.actual_size +ℤ pos 8) ≡ true
unfolding ◌+ℤ◌
over = refl

full :
    Replaced two_files two_rows key_b
      (appended fresh_file [] eight 8)
      (cell_a ∷ [])
      []
      (pos 8)
      (append_full_events longer (view two_files two_rows) (cell_a ∷ []) (pos 8))
      (serve_append conf longer two_files)
unfolding leaving staying left_bytes ◌+ℤ◌ ◌-ℤ◌ is_named lookup home find str_eq djb2 remove
    read_block
full =
    serve_append_full conf two_files two_rows longer fresh_file [] eight two_files-IsServer
      two_files-view refl ([], refl) none_yet long_payload (cell_a ∷ []) over list_a.2
      ((held_file, refl), tt) refl (refl, (inl refl, tt))
      ((held_file, refl, (1 ∷ 2 ∷ 3 ∷ [], refl), refl), (refl, tt)) refl

held-IsKept :
    IsKept disk backup_dir
      (view two_files two_rows)
      (key_a, 10)
      (100 ∷ 47 ∷ 97 ∷ [], 1 ∷ 2 ∷ 3 ∷ [])
unfolding lookup home find str_eq djb2 read_block
held-IsKept = record {
  f = held_file;
  at = refl;
  small = omega arith;
  short = omega arith;
  clean = (omega arith, tt);
  written = (1 ∷ 2 ∷ 3 ∷ [], refl);
  readable = refl;
  block = refl;
  stored = stores;
}

serves_full : serve conf raw longer two_files ≡ ok (tt, full.after)
serves_full = serve-serve_append conf raw longer two_files refl ∙ full.runs

append_to_file-serve_full_example :
    (append_to_file
        (λ path. path)
        disk
        (λ path. none)
        (pos 3)
        (λ r. delivered 5 two_files full.after)
        key_b
        eight
        (some backup_dir)
      ≡ ok (returns (negsuc 0), saved, int_bytes success))
    × ((rows' : Rows) × IsServer full.after rows'
        × ((q : Text)
            → view full.after rows' q ≡ (
                if is_named q ((key_a, 10) ∷ [])
                then none
                else (if str_eq q key_b
                    then some (appended fresh_file [] eight 8)
                    else view two_files two_rows q))))
unfolding leaving left_bytes ◌+ℤ◌ ◌-ℤ◌ is_named lookup home find str_eq djb2 remove read_block
    make_request
append_to_file-serve_full_example =
    append_to_file-serve_full (λ path. path) 3 5 (λ r. delivered 5 two_files full.after) key_b conf
      raw two_files full.after two_rows two_files-IsServer fresh_file [] eight (cell_a ∷ []) disk
      (λ path. none) backup_dir saved refl two_files-view refl ([], refl) none_yet over list_a.2
      ((held_file, refl), tt) refl (refl, (inl refl, tt)) (held-IsKept, (refl, tt)) (omega arith)
      refl serves_full refl
