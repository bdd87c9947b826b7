-- ===== src/Server/Full.antt =====
-- `Handlercapacity` from beginning to end: the oldest files leave the server and go to the client.
pub mod Written
pub mod Appended
use file_storage_server.Prelude.{
  [], ℕ, suc, ◌+◌, ◌≡◌, refl, sym, ◌∙◌, ap, subst, false, List, ◌∷◌, ◌++◌, Option, none, some,
  arith, length, append_assoc, if◌then◌else◌, ℤ, pos, ltb_ℤ,
}
use file_storage_server.Run.{Run, ok}
use file_storage_server.Text.{Text, str_eq}
use file_storage_server.Lis.{Lis, create}
use file_storage_server.Lis.Seg.{Cell, Holds}
use file_storage_server.Lis.Insert.{create-Holds}
use file_storage_server.Hash.Table.{lookup}
use file_storage_server.File.{File}
use file_storage_server.Protcol.{int_bytes}
use file_storage_server.Server.State.{Server, ServerConf, Event, sent}
use file_storage_server.Server.Capacity.{take_out, send_out, handler_capacity}
use file_storage_server.Server.Invariant.{Rows, view, IsServer}
use file_storage_server.Server.Evict.{items, leaving, staying, left_bytes, AllLive, take_out-Takes}
use file_storage_server.Server.Expelled.{
  Item, is_named, drop_all, CanLeave, AreLegible, expel_events, Expelled,
}
use file_storage_server.Server.Expelled.Rounds.{send_out-Expelled}

pub length-items : (cells : List (Cell ℕ)) → length (items cells) ≡ length cells
length-items [] = refl
length-items (c ∷ cs) = ap suc (length-items cs)

-- the announcement and the files
abbrev pub capacity_events : ℕ → (Text → Option File) → List (Cell ℕ) → List Event
capacity_events fd m gone = sent fd (int_bytes (length gone)) ∷ expel_events fd m (items gone)

-- The files of the cells `gone` have made room, and `stay` are the cells of the queue.
pub record Relieved (s : Server) (rows : Rows) (gone stay : List (Cell ℕ)) (total : ℤ)
    (events : List Event) (result : Run (Unit {0} × Server)) : Type 0 where
  pub after : Server
  pub runs : result ≡ ok (tt, after)
  pub sound : IsServer after (drop_all rows (items gone))
  pub reads :
      (q : Text)
      → view after (drop_all rows (items gone)) q
        ≡ (if is_named q (items gone) then none else view s rows q)
  pub looks :
      (q : Text)
      → lookup (drop_all rows (items gone)) q
        ≡ (if is_named q (items gone) then none else lookup rows q)
  pub nelem : after.table.nelem + length gone ≡ s.table.nelem
  pub traced : after.trace ≡ s.trace ++ events
  pub queue : Holds after.fifo stay
  pub counted : after.actual_size ≡ total
  pub queueric : after.queueric ≡ s.queueric

-- the server behind the first loop and the announcement
abbrev announced : Server → Lis ℕ → ℤ → ℕ → ℕ → Server
announced s q total fd n = record s {
  fifo = q;
  actual_size = total;
  trace = s.trace ++ sent fd (int_bytes n) ∷ [];
}

handler_capacity_then :
    (sc : ServerConf) (fd : ℕ) (s : Server) (rows : Rows) (gone stay : List (Cell ℕ)) (total : ℤ)
    (to q : Lis ℕ)
    → take_out (s.fifo.length + 1) sc create 0 s
      ≡ ok ((to, 0 + length gone), record s { fifo = q; actual_size = total })
    → Holds q stay
    → Expelled
        (announced s q total fd (0 + length gone))
        rows
        (items gone)
        (expel_events fd (view s rows) (items gone))
        (send_out (0 + length gone) fd to (announced s q total fd (0 + length gone)))
    → Relieved s rows gone stay total
        (capacity_events fd (view s rows) gone)
        (handler_capacity sc fd s)
unfolding handler_capacity
handler_capacity_then sc fd s rows gone stay total to q taken left x =
    let runs = x.runs in
    let number : 0 + length gone ≡ length gone = omega arith in
    record {
      after = x.after;
      runs = ground (arith, taken, runs);
      sound = x.sound;
      reads = x.reads;
      looks = x.looks;
      nelem = let n = x.nelem in let l = length-items gone in omega (arith, n, l);
      traced =
          x.traced
          ∙ append_assoc s.trace (sent fd (int_bytes (0 + length gone)) ∷ [])
              (expel_events fd (view s rows) (items gone))
          ∙ ap
              (λ (n : ℕ).
                s.trace ++ sent fd (int_bytes n) ∷ expel_events fd (view s rows) (items gone))
              number;
      queue = subst (λ l. Holds l stay) (sym x.fifo) left;
      counted = x.actual_size;
      queueric = x.queueric;
    }

-- `Handlercapacity` with a queue whose removal is enough
pub handler_capacity-Relieved :
    (sc : ServerConf) (fd : ℕ) (s : Server) (rows : Rows) (queued : List (Cell ℕ))
    → IsServer s rows
    → Holds s.fifo queued
    → AllLive s.files queued
    → ltb_ℤ (pos sc.space) (left_bytes s.files sc.space s.actual_size queued) ≡ false
    → CanLeave rows (items (leaving s.files sc.space s.actual_size queued))
    → AreLegible (view s rows) (items (leaving s.files sc.space s.actual_size queued))
    → Relieved s rows
        (leaving s.files sc.space s.actual_size queued)
        (staying s.files sc.space s.actual_size queued)
        (left_bytes s.files sc.space s.actual_size queued)
        (capacity_events fd (view s rows) (leaving s.files sc.space s.actual_size queued))
        (handler_capacity sc fd s)
handler_capacity-Relieved sc fd s rows queued w held live enough leave legible =
    let total = left_bytes s.files sc.space s.actual_size queued in
    let gone = leaving s.files sc.space s.actual_size queued in
    let stay = staying s.files sc.space s.actual_size queued in
    let count = held.count in
    let (to, q, cells, taken, hold, same, left) =
      take_out-Takes (s.fifo.length + 1) sc create 0 s [] queued (omega (arith, count)) create-Holds
        held live enough in
    let number : length cells ≡ 0 + length gone =
      omega (arith, ap length same, length-items cells, length-items gone) in
    let mid = announced s q total fd (0 + length gone) in
    let x =
      send_out-Expelled fd cells to mid rows hold
        (record { table = w.table; stored = w.stored; below = w.below })
        (subst (CanLeave rows) (sym same) leave)
        (subst (AreLegible (view s rows)) (sym same) legible) in
    handler_capacity_then sc fd s rows gone stay total to q taken left (
      subst
        (λ n.
          Expelled mid rows (items gone) (expel_events fd (view s rows) (items gone))
            (send_out n fd to mid))
        number
        (subst
          (λ xs.
            Expelled mid rows xs (expel_events fd (view s rows) xs)
              (send_out (length cells) fd to mid))
          same x))

-- the cells that leave a server's queue, those that stay, and the bytes that are left
abbrev pub gone : ServerConf → Server → List (Cell ℕ) → List (Cell ℕ)
gone sc s queued = leaving s.files sc.space s.actual_size queued

abbrev pub stay : ServerConf → Server → List (Cell ℕ) → List (Cell ℕ)
stay sc s queued = staying s.files sc.space s.actual_size queued

abbrev pub bytes_left : ServerConf → Server → List (Cell ℕ) → ℤ
bytes_left sc s queued = left_bytes s.files sc.space s.actual_size queued

-- A request has put `f'` under `k`, and the files of the cells `gone` have made room; `behind` are the
-- names and the pointers that are queued then.
pub record Replaced (s : Server) (rows : Rows) (k : Text) (f' : File) (gone : List (Cell ℕ))
    (behind : List Item) (total : ℤ) (events : List Event) (result : Run (Unit {0} × Server))
    : Type 0 where
  pub after : Server
  pub rows' : Rows
  pub runs : result ≡ ok (tt, after)
  pub sound : IsServer after rows'
  pub reads :
      (q : Text)
      → view after rows' q ≡ (
          if is_named q (items gone) then none else (if str_eq q k then some f' else view s rows q))
  pub nelem : after.table.nelem + length gone ≡ s.table.nelem
  pub counted : after.actual_size ≡ total
  pub queued : List (Cell ℕ)
  pub queue : Holds after.fifo queued
  pub order : items queued ≡ behind
  pub traced : after.trace ≡ s.trace ++ events
  pub queueric : after.queueric ≡ s.queueric
