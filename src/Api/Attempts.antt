-- ===== src/Api/Attempts.antt =====
-- The loop of `openConnection`, under a clock that gets past the time.
use file_storage_server.Prelude.{
  ℕ, zero, suc, ◌+◌, ◌≤◌, ◌<◌, ◌≡◌, sym, subst, Bool, Bool-cases, true, false, ◌==◌, leb, pos,
  negsuc, ◌⊎◌, inl, inr, arith,
}
use file_storage_server.Run.{Run, ok}
use file_storage_server.Api.{Result, returns}
use file_storage_server.Api.Connect.{connect_loop, open_connection}

module _ (connects : ℕ → Bool) (clock : ℕ → ℕ) (abstime : ℕ) where
  -- The attempts before the `k`-th failed, in time.
  abbrev pub FailedInTime : ℕ → Type 0
  FailedInTime k = (j : ℕ) → j < k → (connects j ≡ false) × (clock j < abstime)

  -- What the loop comes to: 1 at an attempt that succeeded, or -1 at one that failed and was late.
  abbrev pub Attempted : Run Result → Type 0
  Attempted x =
      ((k : ℕ) × (x ≡ ok (returns (pos 1))) × (connects k ≡ true) × FailedInTime k)
      ⊎ ((k : ℕ) × (x ≡ ok (returns (negsuc 0)))
          × (connects k ≡ false)
          × (abstime ≤ clock k)
          × FailedInTime k)

  one_more :
      (k : ℕ) → connects k ≡ false → clock k < abstime → FailedInTime k → FailedInTime (k + 1)
  one_more k failed early before j h = elim (Bool-cases (j == k)) [
    | inl same ↦
        let at : k ≡ j = ground (arith, same) in
        subst (λ i. (connects i ≡ false) × (clock i < abstime)) at (failed, early)
    | inr other ↦ before j (ground (arith, h, other))
  ]

  connect_loop-succeeds :
      (fuel k : ℕ)
      → connects k ≡ true
      → connect_loop connects clock abstime (suc fuel) k ≡ ok (returns (pos 1))
  unfolding connect_loop
  connect_loop-succeeds fuel k e = ground (arith, e)

  connect_loop-late :
      (fuel k : ℕ)
      → connects k ≡ false
      → leb abstime (clock k) ≡ true
      → connect_loop connects clock abstime (suc fuel) k ≡ ok (returns (negsuc 0))
  unfolding connect_loop
  connect_loop-late fuel k e late = ground (arith, e, late)

  connect_loop-again :
      (fuel k : ℕ)
      → connects k ≡ false
      → leb abstime (clock k) ≡ false
      → connect_loop connects clock abstime (suc fuel) k
        ≡ connect_loop connects clock abstime fuel (k + 1)
  unfolding connect_loop
  connect_loop-again fuel k e early = ground (arith, e, early)

  connect_loop-Attempted :
      (last fuel k : ℕ)
      → abstime ≤ clock last
      → k ≤ last
      → last < k + fuel
      → FailedInTime k
      → Attempted (connect_loop connects clock abstime fuel k)
  connect_loop-Attempted last zero k past below enough before = absurd (omega arith)
  connect_loop-Attempted last (suc fuel) k past below enough before =
      elim (Bool-cases (connects k)) [
        | inl there ↦ inl (k, connect_loop-succeeds fuel k there, there, before)
        | inr failed ↦ elim (Bool-cases (leb abstime (clock k))) [
          | inl late ↦
              inr (k, connect_loop-late fuel k failed late, failed, ground (arith, late), before)
          | inr early ↦
              let in_time : clock k < abstime = ground (arith, early) in
              let before_last : k + 1 ≤ last = elim (Bool-cases (k == last)) [
                | inl same ↦
                    let at : k ≡ last = ground (arith, same) in
                    let bad : abstime ≤ clock k = subst (λ i. abstime ≤ clock i) (sym at) past in
                    absurd (omega (arith, bad, in_time))
                | inr other ↦ ground (arith, other, below)
              ] in
              subst Attempted (sym (connect_loop-again fuel k failed early)) (
                connect_loop-Attempted last fuel (k + 1) past before_last (omega (arith, enough))
                  (one_more k failed in_time before))
        ]
      ]

  -- `openConnection` with a socket, under a clock that reaches the given time, with fuel above the
  -- attempt at which it does: the call ends, with 1 at an attempt that connected, or with -1 at one
  -- that failed and was too late; all attempts before it failed in time.
  pub open_connection-Attempted :
      (last fuel : ℕ)
      → abstime ≤ clock last
      → last < fuel
      → Attempted (open_connection true connects clock abstime fuel)
  unfolding open_connection
  open_connection-Attempted last fuel past enough =
      connect_loop-Attempted last fuel 0 past (omega arith) (omega arith)
        (λ j h. absurd (omega arith))
