-- ===== src/Client/Told/Words.antt =====
-- One argument, for each word that `controlFirstStr` knows.
use file_storage_server.Prelude.{◌≡◌, true, false, [], ◌∷◌, some, ℤ}
use file_storage_server.Text.{Text, str_eq}
use file_storage_server.Client.{Options}
use file_storage_server.Client.Args.{
  arg_f, arg_p, arg_h, arg_download, arg_backup, arg_big_w, arg_w, arg_r, arg_big_r, arg_t,
}
use file_storage_server.Client.Told.{times, given, Tells, or_false, or_true, one_up, same}

-- an argument that the loop does not know
pub steady :
    (a : Text) (o : Options)
    → str_eq a arg_f ≡ false
    → str_eq a arg_p ≡ false
    → str_eq a arg_h ≡ false
    → str_eq a arg_backup ≡ false
    → str_eq a arg_download ≡ false
    → str_eq a arg_w ≡ false
    → str_eq a arg_big_w ≡ false
    → str_eq a arg_r ≡ false
    → str_eq a arg_big_r ≡ false
    → Tells o (a ∷ []) o
unfolding times given
steady a o f p h backup download w big_w r big_r = record {
  f = rw f (same o.f);
  p = rw p (same o.p);
  h = rw h (same o.h);
  backup = rw backup (or_false o.backup);
  download = rw download (or_false o.download);
  w = rw w (or_false o.w);
  big_w = rw big_w (or_false o.big_w);
  r = rw r (or_false o.r);
  big_r = rw big_r (or_false o.big_r);
}

-- those that it knows
pub told_f : (o : Options) → o.f ≡ false → Tells o (arg_f ∷ []) (record o { f = true })
unfolding times given str_eq
told_f o e = record {
  f = one_up o.f e;
  p = same o.p;
  h = same o.h;
  backup = or_false o.backup;
  download = or_false o.download;
  w = or_false o.w;
  big_w = or_false o.big_w;
  r = or_false o.r;
  big_r = or_false o.big_r;
}

pub told_p : (o : Options) → o.p ≡ false → Tells o (arg_p ∷ []) (record o { p = true })
unfolding times given str_eq
told_p o e = record {
  f = same o.f;
  p = one_up o.p e;
  h = same o.h;
  backup = or_false o.backup;
  download = or_false o.download;
  w = or_false o.w;
  big_w = or_false o.big_w;
  r = or_false o.r;
  big_r = or_false o.big_r;
}

pub told_h : (o : Options) → o.h ≡ false → Tells o (arg_h ∷ []) (record o { h = true })
unfolding times given str_eq
told_h o e = record {
  f = same o.f;
  p = same o.p;
  h = one_up o.h e;
  backup = or_false o.backup;
  download = or_false o.download;
  w = or_false o.w;
  big_w = or_false o.big_w;
  r = or_false o.r;
  big_r = or_false o.big_r;
}

pub told_backup :
    (o : Options) (v : Text)
    → Tells o (arg_backup ∷ []) (record o { backup = true; backup_folder = some v })
unfolding times given str_eq
told_backup o v = record {
  f = same o.f;
  p = same o.p;
  h = same o.h;
  backup = or_true o.backup;
  download = or_false o.download;
  w = or_false o.w;
  big_w = or_false o.big_w;
  r = or_false o.r;
  big_r = or_false o.big_r;
}

pub told_download :
    (o : Options) (v : Text)
    → Tells o (arg_download ∷ []) (record o { download = true; download_folder = some v })
unfolding times given str_eq
told_download o v = record {
  f = same o.f;
  p = same o.p;
  h = same o.h;
  backup = or_false o.backup;
  download = or_true o.download;
  w = or_false o.w;
  big_w = or_false o.big_w;
  r = or_false o.r;
  big_r = or_false o.big_r;
}

pub told_w : (o : Options) → Tells o (arg_w ∷ []) (record o { w = true })
unfolding times given str_eq
told_w o = record {
  f = same o.f;
  p = same o.p;
  h = same o.h;
  backup = or_false o.backup;
  download = or_false o.download;
  w = or_true o.w;
  big_w = or_false o.big_w;
  r = or_false o.r;
  big_r = or_false o.big_r;
}

pub told_big_w : (o : Options) → Tells o (arg_big_w ∷ []) (record o { big_w = true })
unfolding times given str_eq
told_big_w o = record {
  f = same o.f;
  p = same o.p;
  h = same o.h;
  backup = or_false o.backup;
  download = or_false o.download;
  w = or_false o.w;
  big_w = or_true o.big_w;
  r = or_false o.r;
  big_r = or_false o.big_r;
}

pub told_r : (o : Options) → Tells o (arg_r ∷ []) (record o { r = true })
unfolding times given str_eq
told_r o = record {
  f = same o.f;
  p = same o.p;
  h = same o.h;
  backup = or_false o.backup;
  download = or_false o.download;
  w = or_false o.w;
  big_w = or_false o.big_w;
  r = or_true o.r;
  big_r = or_false o.big_r;
}

pub told_big_r : (o : Options) → Tells o (arg_big_r ∷ []) (record o { big_r = true })
unfolding times given str_eq
told_big_r o = record {
  f = same o.f;
  p = same o.p;
  h = same o.h;
  backup = or_false o.backup;
  download = or_false o.download;
  w = or_false o.w;
  big_w = or_false o.big_w;
  r = or_false o.r;
  big_r = or_true o.big_r;
}

pub told_t : (o : Options) (n : ℤ) → Tells o (arg_t ∷ []) (record o { t = true; seconds = n })
unfolding times given str_eq
told_t o n = record {
  f = same o.f;
  p = same o.p;
  h = same o.h;
  backup = or_false o.backup;
  download = or_false o.download;
  w = or_false o.w;
  big_w = or_false o.big_w;
  r = or_false o.r;
  big_r = or_false o.big_r;
}
