-- ===== src/Server/Limits.antt =====
-- Where the handlers of source/server.c run into undefined behaviour or past a check.
use file_storage_server.Prelude.{
  ℕ, ◌+◌, ◌<◌, ◌≤◌, ◌∙◌, ◌==◌, if◌then◌else◌, ◌≡◌, refl, sym, subst, true, false, List, [], ◌∷◌,
  ◌++◌, none, some, pos, arith, ◌+ℤ◌, ltb_ℤ, ltb_ℤ-asymm,
}
use file_storage_server.Run.{ok, fault}
use file_storage_server.Lis.{create}
use file_storage_server.Lis.Seg.{Cell, Holds}
use file_storage_server.Lis.Insert.{create-Holds}
use file_storage_server.Lis.Remove.{take_head-nil}
use file_storage_server.Hash.Update.{hashins-Updates}
use file_storage_server.File.{File, read_block, filecreate, open_file, lock_file}
use file_storage_server.Protcol.{Request, server_full, not_permission}
use file_storage_server.Server.State.{Server, ServerConf, log_line}
use file_storage_server.Server.Capacity.{take_fifo, handler_capacity}
use file_storage_server.Server.Open.{open_create, open_crlk}
use file_storage_server.Server.Write.{write_found, serve_write}
use file_storage_server.Server.Access.{serve_read}
use file_storage_server.Server.Invariant.{Rows, view, IsServer, found, missing, with_file}
use file_storage_server.Server.Evict.{AllLive, left_bytes, take_out-dry}
use file_storage_server.Server.Create.{open_create-Created, open_crlk-Created}
use file_storage_server.Text.{str_eq_refl}
use file_storage_server.Server.Spec.{reply, may_use}

-- `Handlercapacity` faults if the whole queue does not make room.
pub handler_capacity-dry :
    (sc : ServerConf) (fd : ℕ) (s : Server) (queued : List (Cell ℕ))
    → Holds s.fifo queued
    → AllLive s.files queued
    → ltb_ℤ (pos sc.space) (left_bytes s.files sc.space s.actual_size queued) ≡ true
    → handler_capacity sc fd s ≡ fault
unfolding handler_capacity
handler_capacity-dry sc fd s queued held live short =
    let dry =
      take_out-dry (s.fifo.length + 1) sc create 0 s [] queued (omega (arith, held.count))
        create-Holds held live short in
    ground (arith, dry)

-- a write that does not fit, up to the making of room
over_capacity :
    (sc : ServerConf) (s : Server) (r : Request) (f : File) (bytes : List ℕ) (p : ℕ)
    → read_block r.contenuto r.size ≡ ok bytes
    → ltb_ℤ (s.actual_size +ℤ pos r.size) (pos sc.space) ≡ false
    → ((t : Server)
        → t.fifo ≡ s.fifo
        → t.actual_size ≡ s.actual_size +ℤ pos r.size
        → handler_capacity sc r.fd t ≡ fault)
    → write_found sc r (some p) f s ≡ fault
unfolding write_found
over_capacity sc s r f bytes p payload full dry =
    let total = s.actual_size +ℤ pos r.size in
    let f' : File = record f { dim = r.size; cont = some bytes } in
    let t : Server = record (with_file s p f') {
      actual_size = total;
      trace = (s.trace ++ log_line "AR" (pos 0) ∷ []) ++ reply r server_full ∷ [];
    } in
    ground (arith, payload, full, dry t refl refl)

module _ (sc : ServerConf) (s : Server) (rows : Rows) (r : Request) (f : File) (w : IsServer s rows)
    (present : view s rows r.pathname ≡ some f) (opened : f.isopen ≡ 1) where
  -- WRITE that takes a server in order over its bound while no file is in the FIFO queue, to an
  -- open file that the client may use, reads through a null pointer: a file larger than the whole
  -- space is one case.
  pub serve_write_too_big :
      (bytes : List ℕ)
      → may_use f r ≡ true
      → read_block r.contenuto r.size ≡ ok bytes
      → Holds s.fifo []
      → ltb_ℤ (pos sc.space) (s.actual_size +ℤ pos r.size) ≡ true
      → serve_write sc r s ≡ fault
  unfolding serve_write left_bytes
  serve_write_too_big bytes mine payload held over =
      let (p, o) = found s rows r.pathname f w present in
      let total = s.actual_size +ℤ pos r.size in
      let full : ltb_ℤ total (pos sc.space) ≡ false = ltb_ℤ-asymm (pos sc.space) total over in
      let bad = over_capacity sc s r f bytes p payload full (λ t same bytes'.
        handler_capacity-dry sc r.fd t [] (subst (λ q. Holds q []) (sym same) held) tt
          (subst (λ x. ltb_ℤ (pos sc.space) x ≡ true) (sym bytes') over)) in
      ground (arith, o.contained, o.got, o.live, opened, mine, bad)

  -- READ of an open file whose contents pointer was never set, and whose memory has a size
  read_unset :
      f.cont ≡ none
      → 0 < f.dim
      → serve_read r s ≡ (
          if may_use f r
          then fault
          else ok (tt, record s { trace = s.trace ++ reply r not_permission ∷ [] }))
  unfolding serve_read read_block
  read_unset unset positive =
      let (p, o) = found s rows r.pathname f w present in
      ground (arith, o.contained, o.got, o.live, opened, unset, positive)

-- A READ behind a creation, with no write between: at a server in order whose table has room, where
-- the memory of the new file holds a size that is not zero and the path name has no file, a
-- creation with O_CREATE succeeds, and a READ of the file by any client reads through a pointer
-- that was never set; a creation with O_CREATE and O_LOCK succeeds, and a READ does the same for
-- the client that created the file, while any other is answered NOTPERMISSION and nothing else
-- changes.
pub serve_read_unwritten :
    (sc : ServerConf) (raw : File) (s : Server) (rows : Rows) (r r' : Request)
    → IsServer s rows
    → view s rows r.pathname ≡ none
    → s.table.nelem + 1 ≤ sc.maxf
    → 0 < raw.dim
    → r'.pathname ≡ r.pathname
    → ((t : Server) × (open_create sc raw r s ≡ ok (tt, t)) × (serve_read r' t ≡ fault))
      × ((t : Server) × (open_crlk sc raw r s ≡ ok (tt, t))
          × (serve_read r' t ≡ (
              if r.fd == r'.fd
              then fault
              else ok (tt, record t { trace = t.trace ++ reply r' not_permission ∷ [] }))))
unfolding filecreate open_file lock_file
serve_read_unwritten sc raw s rows r r' w absent room dirty same =
    let x = open_create-Created sc raw s rows r w absent room in
    let y = open_crlk-Created sc raw s rows r w absent room in
    let f = open_file (filecreate raw r.pathname r.fd) in
    let at_x : view x.after x.rows' r'.pathname ≡ some f =
      rw same (x.reads r.pathname ∙ rw (str_eq_refl r.pathname) refl) in
    let at_y : view y.after y.rows' r'.pathname ≡ some (lock_file f) =
      rw same (y.reads r.pathname ∙ rw (str_eq_refl r.pathname) refl) in
    (
      (x.after, x.runs, read_unset sc x.after x.rows' r' f x.sound at_x refl refl dirty),
      (
        y.after,
        y.runs,
        read_unset sc y.after y.rows' r' (lock_file f) y.sound at_y refl refl dirty,
      ),
    )

-- OPEN with O_CREATE of a new path name at a server in order whose table is full, while no file is
-- in the FIFO queue, reads through a null pointer.
pub open_create_full :
    (sc : ServerConf) (raw : File) (s : Server) (rows : Rows) (r : Request)
    → IsServer s rows
    → view s rows r.pathname ≡ none
    → sc.maxf < s.table.nelem + 1
    → Holds s.fifo []
    → open_create sc raw r s ≡ fault
unfolding open_create take_fifo
open_create_full sc raw s rows r w absent full held =
    let (gone, none') = missing s rows r.pathname w absent in
    let (t, rows', run, u, n) = hashins-Updates s.table rows r.pathname s.next_file w.table gone in
    let dry = take_head-nil s.fifo held.head in ground (arith, none', full, run, dry)
