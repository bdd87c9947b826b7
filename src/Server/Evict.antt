-- ===== src/Server/Evict.antt =====
-- The choice that `Handlercapacity` makes: the shortest run of files from the front of the queue that
-- brings the bytes within the bound, in their order; and what it does when the queue runs out.
use file_storage_server.Prelude.{
  ℕ, zero, suc, ◌+◌, ◌<◌, ◌≡◌, refl, sym, ap, subst, ◌∙◌, true, false, List, [], ◌∷◌, ◌++◌, Option,
  none, some, if◌then◌else◌, pos, arith, append_assoc, ℤ, ◌-ℤ◌, ltb_ℤ, length, Bool-cases, inl, inr,
  append-nil,
}
use file_storage_server.Run.{ok, fault}
use file_storage_server.Text.{Text}
use file_storage_server.Lis.{Lis, load, insert_t, free_node}
use file_storage_server.Lis.Seg.{Cell, Holds}
use file_storage_server.Lis.Insert.{new_cell, insert_t-Holds}
use file_storage_server.Lis.Remove.{take_head-Holds, free_node-Holds, take_head-nil}
use file_storage_server.File.{File}
use file_storage_server.Server.State.{Server, ServerConf}
use file_storage_server.Server.Capacity.{take_fifo, take_out}

-- how many bytes the file behind a pointer has
abbrev pub size_of : Option File → ℕ
size_of none = 0
size_of (some f) = f.dim

-- the files that have to go, and those that stay, at `total` bytes
unfoldable pub leaving : (ℕ → Option File) → ℕ → ℤ → List (Cell ℕ) → List (Cell ℕ)
leaving files space total [] = []
leaving files space total (c ∷ cs) =
    if ltb_ℤ (pos space) total
    then c ∷ leaving files space (total -ℤ pos (size_of (files c.cont))) cs
    else []

unfoldable pub staying : (ℕ → Option File) → ℕ → ℤ → List (Cell ℕ) → List (Cell ℕ)
staying files space total [] = []
staying files space total (c ∷ cs) =
    if ltb_ℤ (pos space) total
    then staying files space (total -ℤ pos (size_of (files c.cont))) cs
    else c ∷ cs

-- the bytes that are left
unfoldable pub left_bytes : (ℕ → Option File) → ℕ → ℤ → List (Cell ℕ) → ℤ
left_bytes files space total [] = total
left_bytes files space total (c ∷ cs) =
    if ltb_ℤ (pos space) total
    then left_bytes files space (total -ℤ pos (size_of (files c.cont))) cs
    else total

-- every pointer in the queue reaches a live file
abbrev pub AllLive : (ℕ → Option File) → List (Cell ℕ) → Type 0
AllLive files [] = Unit {0}
AllLive files (c ∷ cs) = ((f : File) × (files c.cont ≡ some f)) × AllLive files cs

-- the names and the files of the cells, in their order
abbrev pub items : List (Cell ℕ) → List (Text × ℕ)
items [] = []
items (c ∷ cs) = (c.key, c.cont) ∷ items cs

pub items-append : (xs ys : List (Cell ℕ)) → items (xs ++ ys) ≡ items xs ++ items ys
items-append [] ys = refl
items-append (x ∷ xs) ys = ap (◌∷◌ (x.key, x.cont)) (items-append xs ys)

-- The head of the queue is taken off, and its node can be freed.
pub take_fifo-Holds :
    (s : Server) (c : Cell ℕ) (cs : List (Cell ℕ))
    → Holds s.fifo (c ∷ cs)
    → (q : Lis ℕ) × (take_fifo s ≡ ok ((some c.addr, c.cont, c.key), record s { fifo = q }))
      × Holds (free_node q c.addr) cs
unfolding take_fifo load
take_fifo-Holds s c cs h =
    let (q, run, at, holds) = take_head-Holds s.fifo c cs h in
    (q, ground (arith, run, at), free_node-Holds q cs c.addr h.distinct.0 holds)

-- the three at a queue whose head has to go
module _ (files : ℕ → Option File) (space : ℕ) (total : ℤ) (c : Cell ℕ) (cs : List (Cell ℕ))
    (f : File) (at : files c.cont ≡ some f) (over : ltb_ℤ (pos space) total ≡ true) where
  leaving_over :
      leaving files space total (c ∷ cs) ≡ c ∷ leaving files space (total -ℤ pos f.dim) cs
  unfolding leaving
  leaving_over = rw (over, at)

  staying_over : staying files space total (c ∷ cs) ≡ staying files space (total -ℤ pos f.dim) cs
  unfolding staying
  staying_over = rw (over, at)

  left_bytes_over :
      left_bytes files space total (c ∷ cs) ≡ left_bytes files space (total -ℤ pos f.dim) cs
  unfolding left_bytes
  left_bytes_over = rw (over, at)

-- one round of the loop, with the file `f` at the head of the queue
abbrev round_state : Server → Lis ℕ → File → Server
round_state s q f = record s { fifo = q; actual_size = s.actual_size -ℤ pos f.dim }

take_out_round :
    (fuel : ℕ) (sc : ServerConf) (to : Lis ℕ) (n : ℕ) (s : Server) (c : Cell ℕ) (q to' : Lis ℕ)
    (f : File)
    → take_fifo s ≡ ok ((some c.addr, c.cont, c.key), record s { fifo = q })
    → s.files c.cont ≡ some f
    → insert_t to c.cont c.key ≡ ok to'
    → ltb_ℤ (pos sc.space) s.actual_size ≡ true
    → take_out (suc fuel) sc to n s
      ≡ take_out fuel sc to' (n + 1) (round_state s (free_node q c.addr) f)
unfolding take_out
take_out_round fuel sc to n s c q to' f taken live put over = ground (arith, taken, live, put, over)

-- The choice that `Handlercapacity` makes, with fuel above the queue's length, on a queue of live
-- files whose removal is enough: the loop ends, it has taken the shortest run of files from the
-- front that brings the bytes within the bound, in their order and counted, the other files stay in
-- the queue, and the count of bytes is what is left.
pub take_out-Takes :
    (fuel : ℕ) (sc : ServerConf) (to : Lis ℕ) (n : ℕ) (s : Server) (out queued : List (Cell ℕ))
    → length queued < fuel
    → Holds to out
    → Holds s.fifo queued
    → AllLive s.files queued
    → ltb_ℤ (pos sc.space) (left_bytes s.files sc.space s.actual_size queued) ≡ false
    → (to' q : Lis ℕ) × (cells : List (Cell ℕ)) × (take_out fuel sc to n s
        ≡ ok (
          (to', n + length (leaving s.files sc.space s.actual_size queued)),
          record s { fifo = q; actual_size = left_bytes s.files sc.space s.actual_size queued },
        ))
      × Holds to' cells
      × (items cells ≡ items out ++ items (leaving s.files sc.space s.actual_size queued))
      × Holds q (staying s.files sc.space s.actual_size queued)
unfolding take_out leaving staying left_bytes
take_out-Takes zero sc to n s out queued lt ht hq live enough = absurd (omega arith)
take_out-Takes (suc fuel) sc to n s out [] lt ht hq live enough =
    (to, s.fifo, out, ground (arith, enough), ht, sym (append-nil (items out)), hq)
take_out-Takes (suc fuel) sc to n s out (c ∷ cs) lt ht hq live enough =
    elim (Bool-cases (ltb_ℤ (pos sc.space) s.actual_size)) [
      | inl over ↦
          let (f, at) = live.0 in
          let (q, at-head, rest) = take_fifo-Holds s c cs hq in
          let (to₁, put, h₁) = insert_t-Holds to out c.cont c.key ht in
          let step = take_out_round fuel sc to n s c q to₁ f at-head at put over in
          let fewer = leaving_over s.files sc.space s.actual_size c cs f at over in
          let kept = staying_over s.files sc.space s.actual_size c cs f at over in
          let bytes = left_bytes_over s.files sc.space s.actual_size c cs f at over in
          let (to', q', cells, run, ht', same, hq') =
            take_out-Takes fuel sc to₁ (n + 1) (round_state s (free_node q c.addr) f)
              (out ++ new_cell to c.cont c.key ∷ []) cs (omega arith) h₁ rest live.1
              (ap (ltb_ℤ (pos sc.space)) (sym bytes) ∙ enough) in
          let gone = leaving s.files sc.space (s.actual_size -ℤ pos f.dim) cs in
          let number : n + 1 + length gone
              ≡ n + length (leaving s.files sc.space s.actual_size (c ∷ cs)) =
            omega (arith, ap length fewer) in
          (
            to',
            q',
            cells,
            step
                ∙ run
                ∙ (λ i. ok ((to', number i), record s { fifo = q'; actual_size = sym bytes i })),
            ht',
            same
                ∙ ap (λ (x : List (Text × ℕ)). x ++ items gone)
                    (items-append out (new_cell to c.cont c.key ∷ []))
                ∙ append_assoc (items out) ((c.key, c.cont) ∷ []) (items gone)
                ∙ ap (λ x. items out ++ items x) (sym fewer),
            subst (Holds q') (sym kept) hq',
          )
      | inr within ↦ (
        to,
        s.fifo,
        out,
        ground (arith, within),
        ht,
        rw within (sym (append-nil (items out))),
        rw within hq,
      )
    ]

-- If the whole queue is not enough, the loop reads through the null header of the empty queue.
pub take_out-dry :
    (fuel : ℕ) (sc : ServerConf) (to : Lis ℕ) (n : ℕ) (s : Server) (out queued : List (Cell ℕ))
    → length queued < fuel
    → Holds to out
    → Holds s.fifo queued
    → AllLive s.files queued
    → ltb_ℤ (pos sc.space) (left_bytes s.files sc.space s.actual_size queued) ≡ true
    → take_out fuel sc to n s ≡ fault
unfolding take_out left_bytes
take_out-dry zero sc to n s out queued lt ht hq live short = absurd (omega arith)
take_out-dry (suc fuel) sc to n s out [] lt ht hq live short =
    ground (arith, short, take_head-nil s.fifo hq.head)
take_out-dry (suc fuel) sc to n s out (c ∷ cs) lt ht hq live short =
    elim (Bool-cases (ltb_ℤ (pos sc.space) s.actual_size)) [
      | inl over ↦
          let (f, at) = live.0 in
          let (q, at-head, rest) = take_fifo-Holds s c cs hq in
          let (to₁, put, h₁) = insert_t-Holds to out c.cont c.key ht in
          let bytes = left_bytes_over s.files sc.space s.actual_size c cs f at over in
          take_out_round fuel sc to n s c q to₁ f at-head at put over
          ∙ take_out-dry fuel sc to₁ (n + 1) (round_state s (free_node q c.addr) f)
              (out ++ new_cell to c.cont c.key ∷ []) cs (omega arith) h₁ rest live.1
              (ap (ltb_ℤ (pos sc.space)) (sym bytes) ∙ short)
      | inr within ↦ absurd (cc (short, within))
    ]
