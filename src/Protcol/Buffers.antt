-- ===== src/Protcol/Buffers.antt =====
-- source/Protcol.c: `readn` and `writen`, which repeat the system calls `read` and `write` until the
-- whole buffer is through. The two calls are parameters; `W` is the state of the connection.
use file_storage_server.Prelude.{
  ℕ, zero, suc, ◌+◌, ◌-◌, ◌<◌, ◌≤◌, ◌≡◌, refl, sym, ◌∙◌, ap, List, [], ◌∷◌, ◌++◌, ℤ, pos, negsuc,
  arith, length, length-append, take, drop, leb, false, if◌then◌else◌, append_assoc, append-nil,
}
use file_storage_server.Run.{Run, ok, spin}

-- what one call of `read` comes back with: so many bytes, -1 with EINTR, or -1 with another error
pub data Got : Type 0 where
  got : List ℕ → Got
  got_interrupted : Got
  got_failed : Got

-- and one of `write`
pub data Put : Type 0 where
  put : ℕ → Put
  put_interrupted : Put
  put_failed : Put

module _ {W : Type 0} (read : ℕ → W → Got × W) where
  -- the loop, with `left` bytes to come behind those in `buf`
  unfoldable readn_loop : ℕ → ℕ → ℕ → List ℕ → W → Run (ℤ × List ℕ × W)
  readn_loop zero size left buf w = spin
  readn_loop (suc fuel) size left buf w = elim left [
    | zero ↦ ok (pos size, buf, w)
    | suc l ↦
        let (o, w') = read (suc l) w in
        elim o [
          | got_interrupted ↦ readn_loop fuel size (suc l) buf w'
          | got_failed ↦ ok (negsuc 0, buf, w')
          | got b ↦ elim b [
            | [] ↦ ok (pos 0, buf, w')
            | b ∷ bs ↦ readn_loop fuel size (suc l - length (b ∷ bs)) (buf ++ b ∷ bs) w'
          ]
        ]
  ]

  -- the value that is returned, the buffer, and the connection behind it
  unfoldable pub readn : ℕ → ℕ → W → Run (ℤ × List ℕ × W)
  unfolding readn_loop
  readn fuel size w = readn_loop fuel size size [] w

module _ {W : Type 0} (write : List ℕ → W → Put × W) where
  unfoldable pub writen : ℕ → List ℕ → W → Run (ℤ × W)
  writen zero buf w = spin
  writen (suc fuel) buf w = elim buf [
    | [] ↦ ok (pos 1, w)
    | b ∷ bs ↦
        let (o, w') = write (b ∷ bs) w in
        elim o [
          | put_interrupted ↦ writen fuel (b ∷ bs) w'
          | put_failed ↦ ok (negsuc 0, w')
          | put r ↦ elim r [ zero ↦ ok (pos 0, w') | suc n ↦ writen fuel (drop n bs) w' ]
        ]
  ]

-- What `read` does on a connection that does not fail: it hands out a front of the bytes that are to
-- come, at most as many as it is asked for, none only at the end; `waits` bounds the interruptions.
module _ {W : Type 0} (stream : W → List ℕ) (waits : W → ℕ) where
  abbrev pub Reads : ℕ → W → Got × W → Type 0
  Reads n w (got [], w') = (stream w ≡ []) × (stream w' ≡ [])
  Reads n w (got (b ∷ bs), w') =
      (stream w ≡ (b ∷ bs) ++ stream w') × (length (b ∷ bs) ≤ n) × (waits w' ≤ waits w)
  Reads n w (got_interrupted, w') = (stream w' ≡ stream w) × (waits w' < waits w)
  Reads n w (got_failed, w') = zero ≡ suc zero

-- What `write` does on such a connection: it takes at least one byte of the buffer, and sends it.
module _ {W : Type 0} (sent : W → List ℕ) (waits : W → ℕ) where
  abbrev pub Writes : List ℕ → W → Put × W → Type 0
  Writes buf w (put zero, w') = zero ≡ suc zero
  Writes buf w (put (suc r), w') =
      (sent w' ≡ sent w ++ take (suc r) buf) × (suc r ≤ length buf) × (waits w' ≤ waits w)
  Writes buf w (put_interrupted, w') = (sent w' ≡ sent w) × (waits w' < waits w)
  Writes buf w (put_failed, w') = zero ≡ suc zero

take-append_le :
    (n : ℕ) (xs ys : List ℕ) → length xs ≤ n → take n (xs ++ ys) ≡ xs ++ take (n - length xs) ys
take-append_le n [] ys h = ground arith
take-append_le zero (x ∷ xs) ys h = absurd (omega arith)
take-append_le (suc n) (x ∷ xs) ys h = ground (arith, take-append_le n xs ys (omega arith))

drop-append_le :
    (n : ℕ) (xs ys : List ℕ) → length xs ≤ n → drop n (xs ++ ys) ≡ drop (n - length xs) ys
drop-append_le n [] ys h = ground arith
drop-append_le zero (x ∷ xs) ys h = absurd (omega arith)
drop-append_le (suc n) (x ∷ xs) ys h = ground (arith, drop-append_le n xs ys (omega arith))

take-drop : (n : ℕ) (xs : List ℕ) → take n xs ++ drop n xs ≡ xs
take-drop zero xs = refl
take-drop (suc n) [] = refl
take-drop (suc n) (x ∷ xs) = ap (◌∷◌ x) (take-drop n xs)

length-drop : (n : ℕ) (xs : List ℕ) → length (drop n xs) ≡ length xs - n
length-drop zero xs = omega arith
length-drop (suc n) [] = omega arith
length-drop (suc n) (x ∷ xs) = omega (arith, length-drop n xs)

module _ {W : Type 0} (read : ℕ → W → Got × W) (stream : W → List ℕ) (waits : W → ℕ)
    (reads : (n : ℕ) (w : W) → 0 < n → Reads stream waits n w (read n w)) where
  -- the loop ends with the front of the stream behind the buffer
  abbrev Ends : ℕ → ℕ → List ℕ → W → Run (ℤ × List ℕ × W) → Type 0
  Ends size left buf w result =
      (w' : W) × (result
        ≡ ok (
          (if leb left (length (stream w)) then pos size else pos 0),
          buf ++ take left (stream w),
          w',
        ))
      × (stream w' ≡ drop left (stream w))

  -- one round that brought the bytes `b`, and the rounds behind it
  Ends-got :
      (size left : ℕ) (buf b : List ℕ) (w w' : W) (result : Run (ℤ × List ℕ × W))
      → stream w ≡ b ++ stream w'
      → length b ≤ left
      → Ends size (left - length b) (buf ++ b) w' result
      → Ends size left buf w result
  Ends-got size left buf b w w' result front fits (w'', run, rest) =
      let e₁ = take-append_le left b (stream w') fits in
      let e₂ = append_assoc buf b (take (left - length b) (stream w')) in
      let e₃ = drop-append_le left b (stream w') fits in
      let e₄ = length-append b (stream w') in
      (w'', rw front (ground (arith, run, e₁, e₂, e₄)), rw front (rest ∙ sym e₃))

  readn_loop-Ends :
      (fuel size left : ℕ) (buf : List ℕ) (w : W)
      → waits w + left < fuel
      → Ends size left buf w (readn_loop read fuel size left buf w)
  unfolding readn_loop
  readn_loop-Ends zero size left buf w lt = absurd (omega arith)
  readn_loop-Ends (suc fuel) size zero buf w lt = (w, ground (arith, append-nil buf), refl)
  readn_loop-Ends (suc fuel) size (suc l) buf w lt =
      go (read (suc l) w) refl (reads (suc l) w (omega arith)) (readn_loop-Ends fuel)
    where
      go :
          (o : Got × W)
          → read (suc l) w ≡ o
          → Reads stream waits (suc l) w o
          → ((size left : ℕ) (buf : List ℕ) (w : W)
              → waits w + left < fuel
              → Ends size left buf w (readn_loop read fuel size left buf w))
          → Ends size (suc l) buf w (readn_loop read (suc fuel) size (suc l) buf w)
      go (got [], w') e h ih =
          let short : leb (suc l) 0 ≡ false = ground arith in
          rw (readn_loop, ap (λ p. p.0) e, ap (λ p. p.1) e)
            (w', rw (h.0, short) (ap (λ b. ok (pos 0, b, w')) (sym (append-nil buf))), rw h.0 h.1)
      go (got (b ∷ bs), w') e h ih =
          rw (readn_loop, ap (λ p. p.0) e, ap (λ p. p.1) e)
            (Ends-got size (suc l) buf (b ∷ bs) w w' _ h.0 h.1
              (ih size (suc l - length (b ∷ bs)) (buf ++ b ∷ bs) w' (omega (arith, h.1, h.2))))
      go (got_interrupted, w') e h ih =
          let (w'', run, rest) = ih size (suc l) buf w' (omega (arith, h.1)) in
          rw (readn_loop, ap (λ p. p.0) e, ap (λ p. p.1) e) (w'', rw (← h.0) run, rw (← h.0) rest)
      go (got_failed, w') e h ih = absurd (omega (arith, h))

  -- `readn` over a `read` that never fails, hands out a front of the bytes that are to come, at
  -- most as many as it is asked for and none only at the end, and interrupts a bounded number of
  -- times: with fuel above that number and the size together it ends; the buffer has the bytes to
  -- come up to the size, however they were cut, the connection has the rest, and the result is the
  -- size if there were enough and 0 if not.
  pub readn_whole :
      (fuel size : ℕ) (w : W)
      → waits w + size < fuel
      → (w' : W) × (readn read fuel size w
          ≡ ok (
            (if leb size (length (stream w)) then pos size else pos 0),
            take size (stream w),
            w',
          ))
        × (stream w' ≡ drop size (stream w))
  unfolding readn
  readn_whole fuel size w lt = readn_loop-Ends fuel size size [] w lt

module _ {W : Type 0} (write : List ℕ → W → Put × W) (sent : W → List ℕ) (waits : W → ℕ)
    (writes : (b : ℕ) (bs : List ℕ) (w : W) → Writes sent waits (b ∷ bs) w (write (b ∷ bs) w)) where
  -- `writen` over a `write` that never fails, takes at least one byte of the buffer and interrupts
  -- a bounded number of times: with fuel above that number and the buffer's length together it ends
  -- with 1, and the whole buffer has been sent, in order and once.
  pub writen_whole :
      (fuel : ℕ) (buf : List ℕ) (w : W)
      → waits w + length buf < fuel
      → (w' : W) × (writen write fuel buf w ≡ ok (pos 1, w')) × (sent w' ≡ sent w ++ buf)
  unfolding writen
  writen_whole zero buf w lt = absurd (omega arith)
  writen_whole (suc fuel) [] w lt = (w, refl, sym (append-nil (sent w)))
  writen_whole (suc fuel) (b ∷ bs) w lt =
      go (write (b ∷ bs) w) refl (writes b bs w) (writen_whole fuel)
    where
      go :
          (o : Put × W)
          → write (b ∷ bs) w ≡ o
          → Writes sent waits (b ∷ bs) w o
          → ((buf : List ℕ) (w : W)
              → waits w + length buf < fuel
              → (w' : W) × (writen write fuel buf w ≡ ok (pos 1, w')) × (sent w' ≡ sent w ++ buf))
          → (w' : W) × (writen write (suc fuel) (b ∷ bs) w ≡ ok (pos 1, w'))
            × (sent w' ≡ sent w ++ b ∷ bs)
      go (put zero, w') e h ih = absurd (omega (arith, h))
      go (put (suc r), w') e h ih =
          let (w'', run, all) = ih (drop r bs) w' (omega (arith, h.1, h.2, length-drop r bs)) in
          rw (writen, ap (λ p. p.0) e, ap (λ p. p.1) e)
            (
              w'',
              run,
              all
                  ∙ ap (λ x. x ++ drop r bs) h.0
                  ∙ append_assoc (sent w) (b ∷ take r bs) (drop r bs)
                  ∙ ap (λ x. sent w ++ b ∷ x) (take-drop r bs),
            )
      go (put_interrupted, w') e h ih =
          let (w'', run, all) = ih (b ∷ bs) w' (omega (arith, h.1)) in
          rw (writen, ap (λ p. p.0) e, ap (λ p. p.1) e) (w'', run, all ∙ ap (λ x. x ++ b ∷ bs) h.0)
      go (put_failed, w') e h ih = absurd (omega (arith, h))
