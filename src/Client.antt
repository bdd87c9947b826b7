-- ===== src/Client.antt =====
-- source/client.c: the command line client, over the calls of source/api.c. What it prints is left
-- out. `C` is what a call may change: the connection and what stands behind it.
pub mod Args
pub mod Allowed
pub mod Told
pub mod Checked
pub mod Files
pub mod Visit
pub mod Download
pub mod Commands
pub mod Served
use file_storage_server.Prelude.{ℕ, Bool, true, false, List, Option, none, ℤ, pos, if◌then◌else◌}
use file_storage_server.Run
use file_storage_server.Run.{Run, ok}
use file_storage_server.Text.{Text}

-- code that makes calls, and may fault
abbrev pub Do : Type 0 → Type 0 → Type 0
Do C A = C → Run (A × C)

module _ {C : Type 0} where
  infixl 5 ◌>>=◌ ◌>>◌
  abbrev pub ◌>>=◌ : {A B : Type 0} → Do C A → (A → Do C B) → Do C B
  ◌>>=◌ m f c = Run.◌>>=◌ (m c) (λ r. f r.0 r.1)

  abbrev pub ◌>>◌ : {A B : Type 0} → Do C A → Do C B → Do C B
  ◌>>◌ m k = m >>= λ _. k

  abbrev pub return : {A : Type 0} → A → Do C A
  return a c = ok (a, c)

-- The calls of source/api.c, each with what it returns; `read_file` hands out the contents too.
-- `usleep n` waits for 1000 times that many microseconds.
pub record Calls (C : Type 0) : Type 0 where
  pub open_connection : Text → Do C ℤ
  pub close_connection : Do C ℤ
  pub open_file : Text → ℤ → Do C ℤ
  pub read_file : Text → Do C (ℤ × Option (List ℕ × ℕ))
  pub read_n_files : ℤ → Option Text → Do C ℤ
  pub write_file : Text → Option Text → Do C ℤ
  pub append_to_file : Text → List ℕ → Option Text → Do C ℤ
  pub lock_file : Text → Do C ℤ
  pub unlock_file : Text → Do C ℤ
  pub close_file : Text → Do C ℤ
  pub remove_file : Text → Do C ℤ
  pub usleep : ℤ → Do C (Unit {0})

-- The flags of the arguments, in the order f, p, h, D, d, t, w, W, r, R, and what -D, -d and -t say.
pub record Options : Type 0 where
  pub f : Bool
  pub p : Bool
  pub h : Bool
  pub backup : Bool
  pub download : Bool
  pub t : Bool
  pub w : Bool
  pub big_w : Bool
  pub r : Bool
  pub big_r : Bool
  pub backup_folder : Option Text
  pub download_folder : Option Text
  pub seconds : ℤ

abbrev pub no_options : Options
no_options = record {
  f = false;
  p = false;
  h = false;
  backup = false;
  download = false;
  t = false;
  w = false;
  big_w = false;
  r = false;
  big_r = false;
  backup_folder = none;
  download_folder = none;
  seconds = pos 0;
}

-- `if (t == 1) usleep(1000 * n)`
abbrev pub pause : {C : Type 0} → Calls C → Options → ℤ → Do C (Unit {0})
pause calls o n = if o.t then calls.usleep n else return tt

-- `if (D == 1) writeFile(pathname, backupFolder); else writeFile(pathname, NULL);`
abbrev pub write_with : {C : Type 0} → Calls C → Options → Text → Do C ℤ
write_with calls o pathname = calls.write_file pathname (if o.backup then o.backup_folder else none)
