-- ===== src/Tests/Backups.antt =====
-- `writeFile` against the server of `Tests.Full`, with a folder for the file that comes back.
use file_storage_server.Prelude.{
  ◌≡◌, refl, ◌∙◌, true, [], ◌∷◌, none, some, arith, inl, pos, ◌+ℤ◌, ◌-ℤ◌, if◌then◌else◌,
}
use file_storage_server.Run.{ok}
use file_storage_server.Text.{Text, str_eq}
use file_storage_server.Lis.Search.{find}
use file_storage_server.Lis.Delete.{remove}
use file_storage_server.Hash.{djb2}
use file_storage_server.Hash.Table.{home, lookup}
use file_storage_server.File.{read_block}
use file_storage_server.Server.Invariant.{IsServer, view, Rows}
use file_storage_server.Server.Evict.{leaving, left_bytes}
use file_storage_server.Server.Expelled.{is_named}
use file_storage_server.Server.Stored.{written}
use file_storage_server.StringUtil.{tokens_from, parse_str, strc, last_word}
use file_storage_server.Server.Worker.{serve}
use file_storage_server.Api.{returns, make_request}
use file_storage_server.Api.Backup.{Disk, Saved, kept, store_in}
use file_storage_server.Api.Sending.{write_file}
use file_storage_server.Api.Creation.{delivered, serve-serve_write}
use file_storage_server.Api.Returned.{IsKept, write_file-serve_full}
use file_storage_server.Tests.Session.{conf, raw}
use file_storage_server.Tests.Lists.{key_a, cell_a, list_a}
use file_storage_server.Tests.Removals.{held_file}
use file_storage_server.Tests.Full.{
  key_b, two_rows, fresh_file, two_files, two_files-IsServer, two_files-view, two_files-Found,
  eight, large, room_made, full,
}

-- a client with a folder d
abbrev pub backup_dir : Text
backup_dir = 100 ∷ []

abbrev pub disk : Disk
disk = record { is_dir = λ d. some true; can_write = λ f. true }

abbrev pub saved : Saved
saved = ((100 ∷ 47 ∷ 97 ∷ []), 1 ∷ 2 ∷ 3 ∷ []) ∷ []

pub stores :
    store_in disk backup_dir key_a (1 ∷ 2 ∷ 3 ∷ [])
    ≡ ok (kept (100 ∷ 47 ∷ 97 ∷ []) (1 ∷ 2 ∷ 3 ∷ []))
unfolding store_in strc parse_str tokens_from last_word
stores = refl

held-IsKept :
    IsKept disk backup_dir
      (view room_made two_rows)
      (key_a, 10)
      (100 ∷ 47 ∷ 97 ∷ [], 1 ∷ 2 ∷ 3 ∷ [])
unfolding lookup home find str_eq djb2 read_block
held-IsKept = record {
  f = held_file;
  at = refl;
  small = omega arith;
  short = omega arith;
  clean = (omega arith, tt);
  written = (1 ∷ 2 ∷ 3 ∷ [], refl);
  readable = refl;
  block = refl;
  stored = stores;
}

serves_full : serve conf raw large two_files ≡ ok (tt, full.after)
serves_full = serve-serve_write conf raw large two_files refl ∙ full.runs

write_file-serve_full_example :
    (write_file
        (λ path. path)
        disk
        (λ path. some eight)
        (pos 3)
        (λ r. delivered 5 two_files full.after)
        (some key_b)
        (some backup_dir)
      ≡ ok (returns (pos 1), saved, []))
    × ((rows' : Rows) × IsServer full.after rows'
        × ((q : Text)
            → view full.after rows' q ≡ (
                if is_named q ((key_a, 10) ∷ [])
                then none
                else (if str_eq q key_b
                    then some (written fresh_file eight 8)
                    else view two_files two_rows q))))
unfolding leaving left_bytes ◌+ℤ◌ ◌-ℤ◌ is_named lookup home find str_eq djb2 remove read_block
    make_request
write_file-serve_full_example =
    write_file-serve_full (λ path. path) 3 5 (λ r. delivered 5 two_files full.after) key_b conf raw
      two_files full.after two_rows two_files-IsServer fresh_file eight two_files-view refl 20
      two_files-Found (cell_a ∷ []) disk (λ path. some eight) backup_dir saved refl refl refl refl
      list_a.2 ((held_file, refl), tt) refl (refl, (inl refl, tt)) (held-IsKept, (refl, tt))
      (omega arith) refl serves_full refl
