-- ===== src/Api/Connect.antt =====
-- source/api.c: `openConnection` and `closeConnection`. Whether `socket`, each `connect` and `close`
-- succeed, and the clock, are parameters.
use file_storage_server.Prelude.{
  ℕ, zero, suc, ◌+◌, Bool, true, false, ◌&&◌, List, [], ◌==◌, leb, if◌then◌else◌, ℤ, pos, negsuc,
}
use file_storage_server.Run.{Run, ok, spin, ◌>>=◌}
use file_storage_server.Text.{Text}
use file_storage_server.Protcol
use file_storage_server.Protcol.{Request}
use file_storage_server.Api.{enotconn, Result, returns, fails, read_int, make_request}

-- the loop, at its `k`-th attempt; `clock k` is the time that was read before it
unfoldable pub connect_loop : (ℕ → Bool) → (ℕ → ℕ) → ℕ → ℕ → ℕ → Run Result
connect_loop connects clock abstime zero k = spin
connect_loop connects clock abstime (suc fuel) k = elim (connects k) [
  | true ↦ ok (returns (pos 1))
  | false ↦ elim (leb abstime (clock k)) [
    | true ↦ ok (returns (negsuc 0))
    | false ↦ connect_loop connects clock abstime fuel (k + 1)
  ]
]

unfoldable pub open_connection : Bool → (ℕ → Bool) → (ℕ → ℕ) → ℕ → ℕ → Run Result
unfolding connect_loop
open_connection socket connects clock abstime fuel =
    if socket then connect_loop connects clock abstime fuel 0 else ok (returns (negsuc 0))

-- the request's path name is what the memory held
unfoldable pub close_connection : Text → ℤ → (Request → List ℕ) → Bool → Run (Result × List ℕ)
unfolding read_int make_request
close_connection raw_path fd_skt answer closes = elim fd_skt [
  | negsuc n ↦ ok (fails enotconn, [])
  | pos n ↦ read_int (answer (make_request raw_path Protcol.close_connection)) >>= λ r.
      ok (returns (if r.0 == Protcol.success && closes then pos 1 else negsuc 0), r.1)
]
