-- ===== src/Server/Full/Appended.antt =====
-- APPEND that goes over the bound: the oldest files make room, and two answers are sent.
use file_storage_server.Prelude.{
  ℕ, ◌≡◌, refl, sym, ◌∙◌, ap, subst, Bool, true, false, List, [], ◌∷◌, ◌++◌, Option, none, some,
  arith, append_assoc, if◌then◌else◌, ℤ, pos, ◌+ℤ◌, ltb_ℤ,
}
use file_storage_server.Run.{ok}
use file_storage_server.Text.{Text, str_eq, str_eq_iff}
use file_storage_server.Lis.Seg.{Cell, Holds}
use file_storage_server.Hash.Table.{lookup}
use file_storage_server.File.{File, IsWritten, read_block}
use file_storage_server.Protcol
use file_storage_server.Protcol.{Request, server_full}
use file_storage_server.Server.State.{Server, ServerConf, Event, log_line}
use file_storage_server.Server.Capacity.{handler_capacity}
use file_storage_server.Server.Write.{extend_file, append_found, serve_append, log_bytes}
use file_storage_server.Server.Spec.{reply}
use file_storage_server.Server.Invariant.{
  Rows, view, IsServer, Found, found, with_file, with_file-IsServer, with_file-view,
}
use file_storage_server.Server.Evict.{items, AllLive}
use file_storage_server.Server.Appended.{appended, append_events}
use file_storage_server.Server.Expelled.{is_named, drop_all, CanLeave, AreLegible}
use file_storage_server.Server.Full.{
  capacity_events, gone, stay, bytes_left, Replaced, handler_capacity-Relieved,
}

-- what an append over the bound sends and logs, with `total` bytes left
abbrev pub append_full_events : Request → (Text → Option File) → List (Cell ℕ) → ℤ → List Event
append_full_events r m gone total =
    (reply r server_full ∷ log_line "AR" (pos 0) ∷ [])
    ++ (capacity_events r.fd m gone ++ append_events r total)

-- the server before `Handlercapacity`, with the bytes counted
abbrev pub counted : Server → Request → Server
counted s r = record s {
  actual_size = s.actual_size +ℤ pos r.size;
  trace = s.trace ++ reply r server_full ∷ log_line "AR" (pos 0) ∷ [];
}

-- A file with another one in its place: twice the same name, seen behind those that left.
named_twice :
    {A : Type 0} (a b : Bool) (x y z : A)
    → (a ≡ true → b ≡ false)
    → (if a then x else (if b then y else z)) ≡ (if b then y else (if a then x else z))
named_twice false b x y z h = refl
named_twice true b x y z h = rw (h refl) refl

module _ (sc : ServerConf) (s : Server) (rows : Rows) (r : Request) (f : File) (old more : List ℕ)
    (w : IsServer s rows) (present : view s rows r.pathname ≡ some f) (opened : f.isopen ≡ 1)
    (written : IsWritten f) (stored : read_block f.cont f.dim ≡ ok old)
    (payload : read_block r.contenuto r.size ≡ ok more) (queued : List (Cell ℕ)) where
  abbrev s₁ : Server
  s₁ = counted s r

  s₁-IsServer : IsServer s₁ rows
  s₁-IsServer = record { table = w.table; stored = w.stored; below = w.below }

  -- behind `Handlercapacity`
  append_found_over :
      (p : ℕ) (t : Server)
      → ltb_ℤ (pos sc.space) s₁.actual_size ≡ true
      → handler_capacity sc r.fd s₁ ≡ ok (tt, t)
      → t.files p ≡ some f
      → append_found sc r (some p) (record s { actual_size = s.actual_size +ℤ pos r.size })
        ≡ ok (
          tt,
          record (with_file t p (appended f old more r.size)) {
            trace = t.trace ++ append_events r t.actual_size;
          },
        )
  unfolding append_found extend_file log_bytes
  append_found_over p t over made live =
      let e = append_assoc s.trace (reply r server_full ∷ []) (log_line "AR" (pos 0) ∷ []) in
      let a = log_line "byte presenti:" (pos 0) in
      let b = log_line "NB " t.actual_size in
      let e₁ = append_assoc t.trace (a ∷ []) (b ∷ []) in
      let e₂ = append_assoc t.trace (a ∷ b ∷ []) (reply r Protcol.success ∷ []) in
      ground (arith, over, made, live, written.1, stored, payload, e, e₁, e₂)

  pub serve_append_full :
      ltb_ℤ (pos sc.space) (s.actual_size +ℤ pos r.size) ≡ true
      → Holds s.fifo queued
      → AllLive s.files queued
      → ltb_ℤ (pos sc.space) (bytes_left sc s₁ queued) ≡ false
      → CanLeave rows (items (gone sc s₁ queued))
      → AreLegible (view s rows) (items (gone sc s₁ queued))
      → is_named r.pathname (items (gone sc s₁ queued)) ≡ false
      → Replaced s rows r.pathname
          (appended f old more r.size)
          (gone sc s₁ queued)
          (items (stay sc s₁ queued))
          (bytes_left sc s₁ queued)
          (append_full_events r (view s rows) (gone sc s₁ queued) (bytes_left sc s₁ queued))
          (serve_append sc r s)
  unfolding serve_append
  serve_append_full over held live enough leave legible spared =
      let out = gone sc s₁ queued in
      let total = bytes_left sc s₁ queued in
      let rows₁ = drop_all rows (items out) in
      let k = r.pathname in
      let (p, o) = found s rows k f w present in
      let x =
        handler_capacity-Relieved sc r.fd s₁ rows queued s₁-IsServer held live enough leave
          legible in
      let seen : view x.after rows₁ k ≡ some f = x.reads k ∙ rw spared present in
      let (p', o') = found x.after rows₁ k f x.sound seen in
      let same : p' ≡ p =
        let at : lookup rows₁ k ≡ some p = x.looks k ∙ rw spared o.looked in
        ground (arith, at, o'.looked) in
      let o₁ : Found x.after rows₁ k p f = subst (λ (q : ℕ). Found x.after rows₁ k q f) same o' in
      let f' = appended f old more r.size in
      let t = with_file-IsServer x.after rows₁ k p f f' x.sound o₁ refl in
      let wrote = append_found_over p x.after over x.runs o₁.live in
      let other : (q : Text) → str_eq q k ≡ true → is_named q (items out) ≡ false = λ q e.
        subst (λ (z : Text). is_named z (items out) ≡ false) (sym ((str_eq_iff q k).0 e)) spared in
      let evicted = capacity_events r.fd (view s rows) out in
      record {
        after = record (with_file x.after p f') {
          trace = x.after.trace ++ append_events r x.after.actual_size;
        };
        rows' = rows₁;
        runs = ground (arith, o.contained, o.got, o.live, opened, wrote);
        sound = record { table = t.table; stored = t.stored; below = t.below };
        reads = λ q.
            with_file-view x.after rows₁ k q p f f' x.sound o₁
            ∙ ap (λ (v : Option File). if str_eq q k then some f' else v) (x.reads q)
            ∙ named_twice (str_eq q k) (is_named q (items out)) (some f') none (view s rows q)
                (other q);
        nelem = x.nelem;
        counted = x.counted;
        queued = stay sc s₁ queued;
        queue = x.queue;
        order = refl;
        traced =
            ap (λ (es : List Event). es ++ append_events r x.after.actual_size) x.traced
            ∙ append_assoc s₁.trace evicted (append_events r x.after.actual_size)
            ∙ append_assoc s.trace (reply r server_full ∷ log_line "AR" (pos 0) ∷ [])
                (evicted ++ append_events r x.after.actual_size)
            ∙ ap (λ (n : ℤ). s.trace ++ append_full_events r (view s rows) out n) x.counted;
        queueric = x.queueric;
      }
