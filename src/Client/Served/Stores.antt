-- ===== src/Client/Served/Stores.antt =====
-- `CreateWrite` against the server: what the server has afterwards.
use file_storage_server.Prelude.{
  ℕ, ◌≡◌, refl, sym, subst, ◌∙◌, ap, Bool, Bool-cases, true, false, List, [], ◌∷◌, Option, none,
  some, arith, length, ℤ, pos, if◌then◌else◌, ◌+◌, ◌≤◌, ◌+ℤ◌, ltb_ℤ, inl, inr,
}
use file_storage_server.Run.{Run, ok}
use file_storage_server.Text.{Text, str_eq, str_eq_refl, str_eq_symm}
use file_storage_server.Lis.Seg.{Cell, Holds}
use file_storage_server.File.{File, filecreate, open_file}
use file_storage_server.Server.State.{Server}
use file_storage_server.Server.Spec.{may_use}
use file_storage_server.Server.Invariant.{Rows, view, IsServer}
use file_storage_server.Client.{Calls, Options}
use file_storage_server.Client.Files.{create_one, create_write}
use file_storage_server.Client.Served.{World, Setting, served}
use file_storage_server.Client.Served.Upload.{quiet, opened, stored, shut, new_file, writing}

-- what the upload of one new file leaves
record Uploads (s : Server) (rows : Rows) (k : Text) (bytes : List ℕ)
    (result : Run (Unit {0} × World)) : Type 0 where
  after : Server
  rows' : Rows
  runs : result ≡ ok (tt, quiet after)
  sound : IsServer after rows'
  file : File
  reads : (q : Text) → view after rows' q ≡ (if str_eq q k then some file else view s rows q)
  cont : file.cont ≡ some bytes
  dim : file.dim ≡ length bytes
  isopen : file.isopen ≡ 0
  nelem : after.table.nelem ≡ s.table.nelem + 1
  counted : after.actual_size ≡ s.actual_size +ℤ pos (length bytes)
  queued : List (Cell ℕ)
  queue : Holds after.fifo queued

-- The client can read the files, and the server has room for one after the other: for `n` files and
-- `total` bytes before them.
abbrev pub HaveRoom : Setting → ℕ → ℤ → List Text → Type 0
HaveRoom e n total [] = Unit {0}
HaveRoom e n total (path ∷ paths) =
    (bytes : List ℕ) × ((e.contents_of path ≡ some bytes)
      × ((e.readable path ≡ true)
          × ((n + 1 ≤ e.sc.maxf)
              × ((ltb_ℤ (total +ℤ pos (length bytes)) (pos e.sc.space) ≡ true)
                  × HaveRoom e (n + 1) (total +ℤ pos (length bytes)) paths))))

-- A name is none of those of the paths; the paths' names differ, and the server has none of them.
abbrev pub IsApart : Setting → Text → List Text → Type 0
IsApart e k [] = Unit {0}
IsApart e k (path ∷ paths) = (str_eq k (e.realpath path) ≡ false) × IsApart e k paths

abbrev pub AreNew : Setting → (Text → Option File) → List Text → Type 0
AreNew e m [] = Unit {0}
AreNew e m (path ∷ paths) =
    (m (e.realpath path) ≡ none) × (IsApart e (e.realpath path) paths × AreNew e m paths)

-- The paths' files are there, closed, with the contents of the client's.
abbrev pub AreThere : Setting → (Text → Option File) → List Text → Type 0
AreThere e m [] = Unit {0}
AreThere e m (path ∷ paths) =
    ((f : File) × ((m (e.realpath path) ≡ some f)
        × ((f.isopen ≡ 0) × (f.cont ≡ e.contents_of path))))
    × AreThere e m paths

-- what the upload of new files leaves
pub record AllUploaded (e : Setting) (s : Server) (rows : Rows) (paths : List Text)
    (result : Run (ℤ × World)) : Type 0 where
  pub after : Server
  pub rows' : Rows
  pub runs : result ≡ ok (pos 1, quiet after)
  pub sound : IsServer after rows'
  pub there : AreThere e (view after rows') paths
  pub others : (q : Text) → IsApart e q paths → view after rows' q ≡ view s rows q
  pub nelem : after.table.nelem ≡ s.table.nelem + length paths

-- New files stay so when another one comes.
still-AreNew :
    (e : Setting) (m m' : Text → Option File) (k : Text) (f : File) (paths : List Text)
    → ((q : Text) → m' q ≡ (if str_eq q k then some f else m q))
    → IsApart e k paths
    → AreNew e m paths
    → AreNew e m' paths
still-AreNew e m m' k f [] same apart new = tt
still-AreNew e m m' k f (path ∷ paths) same (far, apart) (gone, (other, new)) =
    let far' : str_eq (e.realpath path) k ≡ false = str_eq_symm (e.realpath path) k ∙ far in
    (same (e.realpath path) ∙ rw far' gone, (other, still-AreNew e m m' k f paths same apart new))

-- a later change of the same name
twice :
    {A : Type 0} (b : Bool) (x y z : A)
    → (if b then x else (if b then y else z)) ≡ (if b then x else z)
twice false x y z = refl
twice true x y z = refl

own :
    (e : Setting) (s : Server) (rows : Rows) (w : IsServer s rows) (pathname : Text)
    (bytes : List ℕ)
    → may_use (new_file e s rows w pathname) (writing e s rows w pathname bytes) ≡ true
unfolding open_file filecreate
own e s rows w pathname bytes = refl

module _ (e : Setting) (others : Calls World) (o : Options) where
  create_one-Uploads :
      (s : Server) (rows : Rows) (w : IsServer s rows) (pathname : Text) (bytes : List ℕ)
      (queued : List (Cell ℕ))
      → view s rows (e.realpath pathname) ≡ none
      → s.table.nelem + 1 ≤ e.sc.maxf
      → e.readable pathname ≡ true
      → e.contents_of pathname ≡ some bytes
      → Holds s.fifo queued
      → ltb_ℤ (s.actual_size +ℤ pos (length bytes)) (pos e.sc.space) ≡ true
      → Uploads s rows
          (e.realpath pathname)
          bytes
          (create_one (served e others) o pathname (quiet s))
  unfolding create_one open_file filecreate
  create_one-Uploads s rows w pathname bytes queued absent room opens has held fits =
      let k = e.realpath pathname in
      let (x, c₁) = opened e s rows w pathname absent room opens in
      let f = new_file e s rows w pathname in
      let at : view x.after x.rows' k ≡ some f = x.reads k ∙ rw (str_eq_refl k) refl in
      let held' : Holds x.after.fifo queued = subst (λ q. Holds q queued) (sym x.fifo) held in
      let fits' : ltb_ℤ (x.after.actual_size +ℤ pos (length bytes)) (pos e.sc.space) ≡ true =
        ap (λ n. ltb_ℤ (n +ℤ pos (length bytes)) (pos e.sc.space)) x.actual_size ∙ fits in
      let (queued', y, c₂) =
        stored e x.after x.rows' x.sound pathname (if o.backup then o.backup_folder else none) f
          bytes queued has at refl (own e s rows w pathname bytes) held' fits' in
      let f' : File = record f { dim = length bytes; cont = some bytes } in
      let at' : view y.after x.rows' k ≡ some f' = y.reads k ∙ rw (str_eq_refl k) refl in
      let (z, c₃) = shut e y.after x.rows' y.sound pathname f' at' in
      record {
        after = z.after;
        rows' = x.rows';
        runs = elim (Bool-cases o.t) [
          | inl t ↦ rw (t, c₁, c₂, c₃) refl
          | inr t ↦ rw (t, c₁, c₂, c₃) refl
        ];
        sound = z.sound;
        file = record f' { isopen = 0 };
        reads = λ q.
            z.reads q
            ∙ ap (λ v. if str_eq q k then some (record f' { isopen = 0 }) else v)
                (y.reads q
                  ∙ ap (λ v. if str_eq q k then some f' else v) (x.reads q)
                  ∙ twice (str_eq q k) (some f') (some f) (view s rows q))
            ∙ twice (str_eq q k) (some (record f' { isopen = 0 })) (some f') (view s rows q);
        cont = refl;
        dim = refl;
        isopen = refl;
        nelem = ap (λ t. t.nelem) (z.table ∙ y.table) ∙ x.nelem;
        counted = z.actual_size ∙ y.counted ∙ ap (λ n. n +ℤ pos (length bytes)) x.actual_size;
        queued = queued';
        queue = subst (λ q. Holds q queued') (sym z.fifo) y.queue;
      }

  -- `CreateWrite` against the server: where the client can read new files of different names, one
  -- after the other fits into a server in order whose FIFO queue is a list of known cells, each
  -- call's request is served, and nothing is left on the socket before, the function returns 1 with
  -- nothing left on the socket; the server is in order and has a closed file for each, with the
  -- contents of the client's, no other path name's file has changed, and the table has as many
  -- files more.
  pub create_write-AllUploaded :
      (s : Server) (rows : Rows) (w : IsServer s rows) (paths : List Text) (queued : List (Cell ℕ))
      → Holds s.fifo queued
      → HaveRoom e s.table.nelem s.actual_size paths
      → AreNew e (view s rows) paths
      → AllUploaded e s rows paths (create_write (served e others) o paths (quiet s))
  unfolding create_write
  create_write-AllUploaded s rows w [] queued held room new = record {
    after = s;
    rows' = rows;
    runs = refl;
    sound = w;
    there = tt;
    others = λ q apart. refl;
    nelem = omega arith;
  }
  create_write-AllUploaded s rows w (path ∷ paths) queued held
        (bytes, (has, (opens, (n, (fits, room))))) (gone, (apart, new)) =
      let x = create_one-Uploads s rows w path bytes queued gone n opens has held fits in
      let k = e.realpath path in
      let room' : HaveRoom e x.after.table.nelem x.after.actual_size paths =
        subst (λ i. HaveRoom e i x.after.actual_size paths) (sym x.nelem)
          (subst (λ i. HaveRoom e (s.table.nelem + 1) i paths) (sym x.counted) room) in
      let new' : AreNew e (view x.after x.rows') paths =
        still-AreNew e (view s rows) (view x.after x.rows') k x.file paths x.reads apart new in
      let y = create_write-AllUploaded x.after x.rows' x.sound paths x.queued x.queue room' new' in
      let c₁ = x.runs in
      record {
        after = y.after;
        rows' = y.rows';
        runs = rw c₁ y.runs;
        sound = y.sound;
        there = (
          (
            x.file,
            (y.others k apart ∙ x.reads k ∙ rw (str_eq_refl k) refl, (x.isopen, x.cont ∙ sym has)),
          ),
          y.there,
        );
        others = λ q (far, rest). y.others q rest ∙ x.reads q ∙ rw far refl;
        nelem = let m = y.nelem in let l = x.nelem in omega (arith, m, l);
      }
