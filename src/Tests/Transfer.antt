-- ===== src/Tests/Transfer.antt =====
-- `readn` and `writen` over a connection that hands on one byte at a time, and interrupts at first.
use file_storage_server.Prelude.{
  ℕ, zero, suc, ◌<◌, ◌≡◌, refl, List, [], ◌∷◌, ◌++◌, pos, arith, take, leb, if◌then◌else◌,
}
use file_storage_server.Run.{ok}
use file_storage_server.Protcol.Buffers.{
  Got, got, got_interrupted, Put, put, put_interrupted, Reads, Writes, readn, readn_whole,
}

-- how often the connection interrupts before the next byte, and the bytes that are to come or went
abbrev Wire : Type 0
Wire = ℕ × List ℕ

abbrev to_come : Wire → List ℕ
to_come w = w.1

abbrev waits : Wire → ℕ
waits w = w.0

abbrev read : ℕ → Wire → Got × Wire
read n (suc i, bytes) = (got_interrupted, (i, bytes))
read n (zero, []) = (got [], (zero, []))
read n (zero, b ∷ bytes) = (got (b ∷ []), (zero, bytes))

read-Reads : (n : ℕ) (w : Wire) → 0 < n → Reads to_come waits n w (read n w)
read-Reads n (suc i, bytes) h = (refl, omega arith)
read-Reads n (zero, []) h = (refl, refl)
read-Reads n (zero, b ∷ bytes) h = (refl, omega arith, omega arith)

abbrev write : List ℕ → Wire → Put × Wire
write buf (suc i, bytes) = (put_interrupted, (i, bytes))
write buf (zero, bytes) = (put 1, (zero, bytes ++ take 1 buf))

write-Writes : (b : ℕ) (bs : List ℕ) (w : Wire) → Writes to_come waits (b ∷ bs) w (write (b ∷ bs) w)
write-Writes b bs (suc i, bytes) = (refl, omega arith)
write-Writes b bs (zero, bytes) = (refl, omega arith, omega arith)

abbrev wire : Wire
wire = (2, 1 ∷ 2 ∷ 3 ∷ 4 ∷ [])

readn_whole_example :
    (w' : Wire) × (readn read 6 3 wire
      ≡ ok ((if leb 3 4 then pos 3 else pos 0), 1 ∷ 2 ∷ 3 ∷ [], w'))
    × (to_come w' ≡ 4 ∷ [])
readn_whole_example = readn_whole read to_come waits read-Reads 6 3 wire (omega arith)
