-- ===== src/Client/Allowed.antt =====
-- source/client.c: what `controlFirstStr` lets through.
use file_storage_server.Prelude.{◌≡◌, true, not, ◌||◌, List}
use file_storage_server.Run
use file_storage_server.Run.{Run}
use file_storage_server.Text.{Text}
use file_storage_server.Client.{Options}
use file_storage_server.Client.Args.{
  arg_f, arg_p, arg_h, arg_download, arg_backup, arg_big_w, arg_w, arg_r, arg_big_r,
}
use file_storage_server.Client.Told.{times, given, up}

-- the arguments are in order, and the options say what they are
pub record Allowed (args : List Text) (o : Options) : Type 0 where
  one_f : times arg_f args ≡ 1
  p : times arg_p args ≡ up o.p
  h : times arg_h args ≡ up o.h
  backup : given arg_backup args ≡ o.backup
  download : given arg_download args ≡ o.download
  w : given arg_w args ≡ o.w
  big_w : given arg_big_w args ≡ o.big_w
  r : given arg_r args ≡ o.r
  big_r : given arg_big_r args ≡ o.big_r
  backup_writes : (not (given arg_backup args) || (given arg_big_w args || given arg_w args)) ≡ true
  download_reads :
      (not (given arg_download args) || (given arg_r args || given arg_big_r args)) ≡ true
