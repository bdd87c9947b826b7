-- ===== src/Tests/Clients.antt =====
-- The theorems about the command line client, at runs of it.
use file_storage_server.Prelude.{
  ℕ, suc, ◌≡◌, refl, true, List, [], ◌∷◌, ◌++◌, none, some, arith, ℤ, pos, negsuc, length, ◌+ℤ◌,
  Bool, if◌then◌else◌, ◌==◌,
}
use file_storage_server.Run.{ok, fault}
use file_storage_server.Text.{Text, str_eq}
use file_storage_server.StringUtil.{tokens_from, parse_str, strc, last_word}
use file_storage_server.Hash.{h_create}
use file_storage_server.Lis.Insert.{create-Holds}
use file_storage_server.Api.Backup.{Disk, Saved, kept, store_in, on_disk}
use file_storage_server.Client.{Do, Calls, Options, no_options, return}
use file_storage_server.Client.Args.{arg_f, arg_w, arg_backup}
use file_storage_server.Client.Allowed.{Allowed}
use file_storage_server.Client.Files.{create_write}
use file_storage_server.Client.Visit.{Entries, end, file, visita_dir}
use file_storage_server.Client.Visit.Listed.{chosen, left_over, listed}
use file_storage_server.Client.Download.{lettura_files}
use file_storage_server.Client.Download.Saves.{
  Wanted, paths_of, wanted, Reads, HasFolder, lettura_files-saved, lettura_files-stale,
}
use file_storage_server.Client.Served.{World, Setting, served}
use file_storage_server.Client.Served.Upload.{quiet}
use file_storage_server.Client.Served.Stores.{AllUploaded, HaveRoom, create_write-AllUploaded}
use file_storage_server.Client.Served.Visited.{visita_dir-AllUploaded}
use file_storage_server.Tests.Session.{conf, raw, start, name}
use file_storage_server.Tests.Servers.{no_rows, start-IsServer, start_empty}

-- the arguments -f s -w d=2 -D b
abbrev arguments : List Text
arguments = arg_f ∷ (115 ∷ []) ∷ arg_w ∷ (100 ∷ 61 ∷ 50 ∷ []) ∷ arg_backup ∷ (98 ∷ []) ∷ []

abbrev number : Text → ℤ
number s = pos 2

abbrev found : Options
found = record no_options { f = true; w = true; backup = true; backup_folder = some (98 ∷ []) }

-- calls that count themselves: files open but for `shut`, and have one byte
abbrev counted : {A : Type 0} → A → Do ℕ A
counted a n = ok (a, suc n)

abbrev shut : Text
shut = 122 ∷ 122 ∷ []

abbrev counting : Calls ℕ
counting = record {
  open_connection = λ s. counted (pos 1);
  close_connection = counted (pos 1);
  open_file = λ path flags. counted (if length path == 2 then negsuc 0 else pos 1);
  read_file = λ path. counted (pos 1, some (7 ∷ [], 1));
  read_n_files = λ n d. counted (pos 1);
  write_file = λ path d. counted (pos 1);
  append_to_file = λ path b d. counted (pos 1);
  lock_file = λ path. counted (pos 1);
  unlock_file = λ path. counted (pos 1);
  close_file = λ path. counted (pos 1);
  remove_file = λ path. counted (pos 1);
  usleep = λ n. return tt;
}

abbrev directory : Text
directory = 100 ∷ []

-- a is read into the folder d, and zz does not open behind it
abbrev fetching : Options
fetching = record no_options { download = true; download_folder = some directory }

abbrev disk : Disk
disk = record { is_dir = λ d. some true; can_write = λ f. true }

abbrev roomy : ℕ → Bool
roomy n = true

abbrev a_file : Wanted
a_file = record { path = 97 ∷ []; filename = 100 ∷ 47 ∷ 97 ∷ []; first = 7; more = [] }

stores : store_in disk directory (97 ∷ []) [] ≡ ok (kept (100 ∷ 47 ∷ 97 ∷ []) [])
unfolding store_in strc parse_str tokens_from last_word
stores = refl

stores_shut : store_in disk directory shut [] ≡ ok (kept (100 ∷ 47 ∷ shut) [])
unfolding store_in strc parse_str tokens_from last_word
stores_shut = refl

has_folder : HasFolder counting fetching disk roomy directory
has_folder = record { download = refl; download_folder = refl; is_dir = refl }

a_file-Reads : Reads counting fetching disk roomy directory a_file 0 3
a_file-Reads = record {
  at_open = 1;
  at_read = 1;
  at_write = 2;
  at_close = 2;
  closed = pos 1;
  opens = refl;
  pauses = refl;
  reads = refl;
  waits = refl;
  closes = refl;
  room = refl;
  stored = stores;
}

-- and c/a behind it, which gets the same name
abbrev b_file : Wanted
b_file = record { path = 99 ∷ 47 ∷ 97 ∷ []; filename = 100 ∷ 47 ∷ 97 ∷ []; first = 7; more = [] }

stores_b : store_in disk directory (99 ∷ 47 ∷ 97 ∷ []) [] ≡ ok (kept (100 ∷ 47 ∷ 97 ∷ []) [])
unfolding store_in strc parse_str tokens_from last_word
stores_b = refl

b_file-Reads : Reads counting fetching disk roomy directory b_file 3 6
b_file-Reads = record {
  at_open = 4;
  at_read = 4;
  at_write = 5;
  at_close = 5;
  closed = pos 1;
  opens = refl;
  pauses = refl;
  reads = refl;
  waits = refl;
  closes = refl;
  room = refl;
  stored = stores_b;
}

lettura_files-saved_example :
    (saved : Saved) × (lettura_files counting fetching disk roomy
        (paths_of (a_file ∷ b_file ∷ []))
        0
      ≡ ok ((pos 1, saved), 6))
    × ((k : Text) → on_disk saved k ≡ wanted (b_file ∷ a_file ∷ []) k)
unfolding wanted str_eq
lettura_files-saved_example =
    lettura_files-saved counting fetching disk roomy directory (a_file ∷ b_file ∷ []) 0 6 has_folder
      (3, (a_file-Reads, (6, (b_file-Reads, refl))))

lettura_files-stale_example :
    lettura_files counting fetching disk roomy (paths_of (a_file ∷ []) ++ shut ∷ []) 0 ≡ fault
lettura_files-stale_example =
    lettura_files-stale counting fetching disk roomy directory a_file [] shut (100 ∷ 47 ∷ shut) [] 0
      3 4 4 (negsuc 0) has_folder (3, (a_file-Reads, refl)) refl refl refl refl stores_shut

-- two files for a server that has none
abbrev other : Text
other = 98 ∷ []

abbrev setting : Setting
setting = record {
  realpath = λ path. path;
  readable = λ path. true;
  contents_of = λ path. some (1 ∷ 2 ∷ 3 ∷ []);
  disk = disk;
  sc = conf;
  raw = raw;
  client = 5;
  fd_skt = 3;
}

-- the calls that `CreateWrite` does not make
abbrev silent : Calls World
silent = record {
  open_connection = λ s. return (pos 1);
  close_connection = return (pos 1);
  open_file = λ path flags. return (pos 1);
  read_file = λ path. return (pos 1, none);
  read_n_files = λ n d. return (pos 1);
  write_file = λ path d. return (pos 1);
  append_to_file = λ path b d. return (pos 1);
  lock_file = λ path. return (pos 1);
  unlock_file = λ path. return (pos 1);
  close_file = λ path. return (pos 1);
  remove_file = λ path. return (pos 1);
  usleep = λ n. return tt;
}

rooms : HaveRoom setting start.table.nelem start.actual_size (name ∷ other ∷ [])
unfolding h_create ◌+ℤ◌
rooms = (
  1 ∷ 2 ∷ 3 ∷ [],
  (
    refl,
    (refl, (omega arith, (refl, (1 ∷ 2 ∷ 3 ∷ [], (refl, (refl, (omega arith, (refl, tt)))))))),
  ),
)

create_write-AllUploaded_example :
    AllUploaded setting start no_rows
      (name ∷ other ∷ [])
      (create_write (served setting silent) found (name ∷ other ∷ []) (quiet start))
unfolding str_eq
create_write-AllUploaded_example =
    create_write-AllUploaded setting silent found start no_rows start-IsServer (name ∷ other ∷ [])
      [] create-Holds rooms (start_empty name, ((refl, tt), (start_empty other, (tt, tt))))

-- a directory with one file, whose name is d/a
abbrev one_file : Entries
one_file = file (97 ∷ []) end

one_room :
    HaveRoom setting start.table.nelem start.actual_size
      (chosen (pos 1) (listed directory one_file))
unfolding h_create ◌+ℤ◌ listed
one_room = (1 ∷ 2 ∷ 3 ∷ [], (refl, (refl, (omega arith, (refl, tt)))))

visita_dir-AllUploaded_example :
    (x : AllUploaded setting start no_rows (chosen (pos 1) (listed directory one_file)) (
      create_write
        (served setting silent)
        found
        (chosen (pos 1) (listed directory one_file))
        (quiet start)))
    × (visita_dir (served setting silent) found directory (some one_file) (pos 1) (quiet start)
        ≡ ok (some (left_over (pos 1) (listed directory one_file)), quiet x.after))
unfolding listed
visita_dir-AllUploaded_example =
    visita_dir-AllUploaded setting silent found start no_rows start-IsServer directory one_file
      (pos 1) [] create-Holds (refl, tt) one_room (start_empty (100 ∷ 47 ∷ 97 ∷ []), (tt, tt))
