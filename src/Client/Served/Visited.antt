-- ===== src/Client/Served/Visited.antt =====
-- `visitaDir` against the server: what the server has of the directory's files.
use file_storage_server.Prelude.{
  ℕ, ◌≡◌, refl, sym, ◌∙◌, ap, fun_ext, Bool-cases, List, [], ◌∷◌, none, some, ℤ, pos, if◌then◌else◌,
  inl, inr,
}
use file_storage_server.Run
use file_storage_server.Run.{Run, ok, bind_assoc}
use file_storage_server.Text.{Text}
use file_storage_server.Protcol
use file_storage_server.Client.{Calls, Options, pause}
use file_storage_server.Client.Files.{is_one, create_one, write_f, create_write}
use file_storage_server.Client.Visit.Written.{write_all, visita_dir-writes}
use file_storage_server.Lis.Seg.{Cell, Holds}
use file_storage_server.Server.State.{Server}
use file_storage_server.Server.Invariant.{Rows, view, IsServer}
use file_storage_server.Client.Visit.{Entries, visita_dir}
use file_storage_server.Client.Visit.Listed.{listed, AllFit, chosen, left_over}
use file_storage_server.Client.Served.Upload.{quiet}
use file_storage_server.Client.Served.Stores.{
  AllUploaded, HaveRoom, AreNew, create_write-AllUploaded,
}
use file_storage_server.Client.Served.{World, Setting, served, open_call, write_call, close_call}

same_after :
    {A B : Type 0} (m : Run A) (f g : A → Run B)
    → ((a : A) → f a ≡ g a)
    → Run.◌>>=◌ m f ≡ Run.◌>>=◌ m g
same_after m f g h = ap (Run.◌>>=◌ m) (fun_ext h)

module _ (e : Setting) (others : Calls World) (o : Options) where
  -- a pause, and the end of a file that was opened
  abbrev waits : World → Run (Unit {0} × World)
  waits = pause (served e others) o o.seconds

  abbrev sends : Text → World → Run (Unit {0} × World)
  sends path w =
      Run.◌>>=◌ (write_call e path (if o.backup then o.backup_folder else none) w) (λ r. waits r.1)

  abbrev shuts : Text → World → Run (Unit {0} × World)
  shuts path w = Run.◌>>=◌ (close_call e path w) (λ r. ok (tt, r.1))

  -- the pause behind `closeFile`, and that behind all of it
  waits_last :
      (path : Text) (m : Run (Unit {0} × World))
      → Run.◌>>=◌ m (λ r. Run.◌>>=◌ (close_call e path r.1) (λ s. waits s.1))
        ≡ Run.◌>>=◌ (Run.◌>>=◌ m (λ r. shuts path r.1)) (λ s. waits s.1)
  waits_last path m =
      same_after m _ _
        (λ r. sym (bind_assoc (close_call e path r.1) (λ s. ok (tt, s.1)) (λ s. waits s.1)))
      ∙ sym (bind_assoc m (λ r. shuts path r.1) (λ s. waits s.1))

  pauses : (n : ℤ) (w : World) → pause (served e others) o n w ≡ ok (tt, w)
  pauses n w = elim (Bool-cases o.t) [ inl t ↦ rw t refl | inr t ↦ rw t refl ]

  -- what follows the first pause in `writeF` and in `CreateWrite`
  abbrev behind_f : Text → World → Run (Unit {0} × World)
  behind_f path w =
      Run.◌>>=◌ (sends path w) (λ r. Run.◌>>=◌ (close_call e path r.1) (λ s. waits s.1))

  abbrev behind_one : Text → World → Run (Unit {0} × World)
  behind_one path w = Run.◌>>=◌ (sends path w) (λ r. shuts path r.1)

  -- Before the server, `writeF` does what `CreateWrite` does with one file.
  write_f-create_one :
      (path : Text) (w : World)
      → write_f (served e others) o path w ≡ create_one (served e others) o path w
  unfolding write_f create_one
  write_f-create_one path w = same_after (open_call e path (pos Protcol.o_create) w) _ _ (λ r.
      elim (Bool-cases (is_one r.0)) [
        | inl is ↦ rw is (
            ap (λ (m : Run (Unit {0} × World)). Run.◌>>=◌ m (λ s. behind_f path s.1))
              (pauses (pos 1) r.1)
            ∙ waits_last path (sends path r.1)
            ∙ sym (
                ap
                  (λ (m : Run (Unit {0} × World)).
                    Run.◌>>=◌ (Run.◌>>=◌ m (λ s. behind_one path s.1)) (λ s. waits s.1))
                  (pauses o.seconds r.1)))
        | inr is ↦ rw is (sym (pauses o.seconds r.1))
      ])

  create_write-write_all :
      (paths : List Text) (w : World)
      → create_write (served e others) o paths w
        ≡ Run.◌>>=◌ (write_all (served e others) o paths w) (λ r. ok (pos 1, r.1))
  unfolding create_write
  create_write-write_all [] w = refl
  create_write-write_all (path ∷ paths) w =
      ap
        (λ (m : Run (Unit {0} × World)).
          Run.◌>>=◌ m (λ r. create_write (served e others) o paths r.1))
        (sym (write_f-create_one path w))
      ∙ same_after (write_f (served e others) o path w) _ _ (λ r. create_write-write_all paths r.1)
      ∙ sym (
          bind_assoc (write_f (served e others) o path w)
            (λ r. write_all (served e others) o paths r.1) (λ r. ok (pos 1, r.1)))

  -- the same outcome, without the number
  unnumbered : Run (ℤ × World) → Run (Unit {0} × World)
  unnumbered m = Run.◌>>=◌ m (λ r. ok (tt, r.1))

  result :
      (m : Run (Unit {0} × World)) (w' : World)
      → Run.◌>>=◌ {B = ℤ × World} m (λ r. ok (pos 1, r.1)) ≡ ok (pos 1, w')
      → m ≡ ok (tt, w')
  unfolding unnumbered
  result (ok (u, w)) w' run = ap unnumbered run
  result Run.fault w' run = ap unnumbered run
  result Run.spin w' run = ap unnumbered run

  -- `visitaDir` against the server: of a directory in which all paths fit into the array, with the
  -- files that `nvisit` allows new to a server in order, different in their names, readable for the
  -- client and one after the other with room, a FIFO queue of known cells and nothing left on the
  -- socket before, it leaves the server that `CreateWrite` of these files leaves, which has a
  -- closed file for each with the contents of the client's and all others unchanged, and `nvisit`
  -- is less by their number.
  pub visita_dir-AllUploaded :
      (s : Server) (rows : Rows) (w : IsServer s rows) (nomedir : Text) (es : Entries) (n : ℤ)
      (queued : List (Cell ℕ))
      → Holds s.fifo queued
      → AllFit nomedir es
      → HaveRoom e s.table.nelem s.actual_size (chosen n (listed nomedir es))
      → AreNew e (view s rows) (chosen n (listed nomedir es))
      → (x : AllUploaded e s rows
          (chosen n (listed nomedir es))
          (create_write (served e others) o (chosen n (listed nomedir es)) (quiet s)))
        × (visita_dir (served e others) o nomedir (some es) n (quiet s)
            ≡ ok (some (left_over n (listed nomedir es)), quiet x.after))
  visita_dir-AllUploaded s rows w nomedir es n queued held fits room new =
      let paths = chosen n (listed nomedir es) in
      let x = create_write-AllUploaded e others o s rows w paths queued held room new in
      let all =
        result (write_all (served e others) o paths (quiet s)) (quiet x.after)
          (sym (create_write-write_all paths (quiet s)) ∙ x.runs) in
      (x, visita_dir-writes (served e others) o nomedir es n (quiet s) fits ∙ rw all refl)
