-- ===== src/Server/Dispatch/Ending.antt =====
-- One round of the dispatcher ends, with a machine that is bounded.
use file_storage_server.Prelude.{
  ℕ, zero, suc, ◌+◌, ◌≤◌, ◌≡◌, refl, sym, ap, subst, Bool, Bool-cases, true, false, ◌&&◌, ◌==◌, ◌⊎◌,
  inl, inr, arith,
}
use file_storage_server.Run
use file_storage_server.Run.{Run, ok}
use file_storage_server.Server.Dispatch.{Descriptors, Machine, Round, dispatch_fd, scan, dispatch}
use file_storage_server.Server.Dispatch.Bounded.{
  Bounded, IsReady, Settles, connect-Settles, watch_again-Settles, take_in-Settles,
}

abbrev ended : Bool → Run Machine → Run (Bool × Machine)
ended b x = Run.◌>>=◌ x λ m. ok (b, m)

-- one descriptor that is ready: the round ends with it, or it is the signal handler's pipe
dispatch_fd-Settles :
    (d : Descriptors) (w : Round) (fd : ℕ) (m : Machine)
    → fd ≤ m.fd_num
    → w.rdset fd ≡ true
    → IsReady d m w
    → Bounded m
    → ((m' : Machine) × (dispatch_fd d w fd m ≡ ok (true, m')) × Bounded m')
      ⊎ (dispatch_fd d w fd m ≡ ok (false, record m { gestore = false }))
unfolding dispatch_fd
dispatch_fd-Settles d w fd m below on ready h =
    elim (Bool-cases (fd == d.fd_skt && m.server.closesighup)) [
      | inl a ↦
          let (c, e) = ready.connected in
          let (m', run, k) = connect-Settles c m h in inl (m', rw (a, e) (ap (ended true) run), k)
      | inr a ↦ elim (Bool-cases (fd == d.pipefd)) [
        | inl b ↦
            let at : fd ≡ d.pipefd = ground (arith, b) in
            let (c, cs, e) = ready.filled (subst (λ x. w.rdset x ≡ true) at on) in
            let (m', run, k) = watch_again-Settles c cs m e h in
            inl (m', rw (a, b, e) (ap (ended true) run), k)
        | inr b ↦ elim (Bool-cases (fd == d.pipedisp)) [
          | inl c ↦ inr (rw (a, b, c) refl)
          | inr c ↦
              let (m', run, k) = take_in-Settles w fd m below h in
              inl (m', rw (a, b, c) (ap (ended true) run), k)
        ]
      ]
    ]

scan-done : (d : Descriptors) (w : Round) (fd : ℕ) (m : Machine) → scan d w zero fd m ≡ ok m
unfolding scan
scan-done d w fd m = refl

scan-off :
    (d : Descriptors) (w : Round) (n fd : ℕ) (m : Machine)
    → w.rdset fd ≡ false
    → scan d w (suc n) fd m ≡ scan d w n (fd + 1) m
unfolding scan
scan-off d w n fd m e = ground (arith, e)

scan-ends :
    (d : Descriptors) (w : Round) (n fd : ℕ) (m m' : Machine)
    → w.rdset fd ≡ true
    → dispatch_fd d w fd m ≡ ok (true, m')
    → scan d w (suc n) fd m ≡ ok m'
unfolding scan
scan-ends d w n fd m m' e run = ground (arith, e, run)

scan-goes_on :
    (d : Descriptors) (w : Round) (n fd : ℕ) (m m' : Machine)
    → w.rdset fd ≡ true
    → dispatch_fd d w fd m ≡ ok (false, m')
    → scan d w (suc n) fd m ≡ scan d w n (fd + 1) m'
unfolding scan
scan-goes_on d w n fd m m' e run = ground (arith, e, run)

scan-Settles :
    (d : Descriptors) (w : Round) (n fd : ℕ) (m : Machine)
    → fd + n ≡ m.fd_num + 1
    → IsReady d m w
    → Bounded m
    → Settles (scan d w n fd m)
scan-Settles d w zero fd m all ready h = (m, scan-done d w fd m, h)
scan-Settles d w (suc n) fd m all ready h =
    let later =
      λ (u : Machine). λ (e : fd + 1 + n ≡ u.fd_num + 1). scan-Settles d w n (fd + 1) u e in
    elim (Bool-cases (w.rdset fd)) [
      | inr off ↦ subst Settles (sym (scan-off d w n fd m off)) (later m (omega arith) ready h)
      | inl on ↦ elim (dispatch_fd-Settles d w fd m (omega arith) on ready h) [
        | inl (m', run, k) ↦ (m', scan-ends d w n fd m m' on run, k)
        | inr run ↦
            subst Settles (sym (scan-goes_on d w n fd m (record m { gestore = false }) on run)) (
              later (record m { gestore = false }) (omega arith)
                (record { among = ready.among; filled = ready.filled; connected = ready.connected })
                (record {
                  cells = h.cells;
                  queued = h.queued;
                  asked = h.asked;
                  given = h.given;
                  watched = h.watched;
                }))
      ]
    ]

-- A round of the dispatcher at a bounded machine, given what `IsReady` says, ends with a bounded
-- machine.
pub dispatch-Settles :
    (d : Descriptors) (w : Round) (m : Machine)
    → IsReady d m w
    → Bounded m
    → Settles (dispatch d w m)
unfolding dispatch
dispatch-Settles d w m ready h = scan-Settles d w (m.fd_num + 1) 0 m (omega arith) ready h
