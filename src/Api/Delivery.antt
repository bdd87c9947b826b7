-- ===== src/Api/Delivery.antt =====
-- The client's calls against the server's answers, over the bytes that the server sends.
use file_storage_server.Prelude.{
  ℕ, zero, suc, String, ◌<◌, ◌≡◌, refl, ap, subst, ◌∙◌, true, List, [], ◌∷◌, ◌++◌, some, ◌==◌,
  if◌then◌else◌, length, drop, length-append, take-append, drop-append, ℤ, pos, negsuc, arith, ◌^◌,
}
use file_storage_server.Run.{ok}
use file_storage_server.Text.{Text}
use file_storage_server.File.{File, read_block}
use file_storage_server.Protcol.{
  Request, int_bytes, bytes_int, bytes_int-int_bytes, success, length-int_bytes,
}
use file_storage_server.Protcol
use file_storage_server.Server.State.{
  Server, Event, sent, logged, logged_int, handed_back, closed, signal_con, signal_request,
  log_line,
}
use file_storage_server.Server.Access.{serve_read}
use file_storage_server.Server.Invariant.{Rows, view, IsServer}
use file_storage_server.Server.Refine.{serve_read-Serves}
use file_storage_server.Server.Stored.{read_block-length}
use file_storage_server.Server.Spec.{may_use, spec_read}
use file_storage_server.Api.{returns, readn, read_int, make_request, read_file}

-- the bytes that some events send to a client
unfoldable pub bytes_to : ℕ → List Event → List ℕ
bytes_to fd [] = []
bytes_to fd (sent c b ∷ es) = if c == fd then b ++ bytes_to fd es else bytes_to fd es
bytes_to fd (logged l ∷ es) = bytes_to fd es
bytes_to fd (logged_int l n ∷ es) = bytes_to fd es
bytes_to fd (handed_back c ∷ es) = bytes_to fd es
bytes_to fd (closed c ∷ es) = bytes_to fd es
bytes_to fd (signal_con ∷ es) = bytes_to fd es
bytes_to fd (signal_request ∷ es) = bytes_to fd es

pub readn-append :
    (bytes rest : List ℕ) (n : ℕ) → length bytes ≡ n → readn n (bytes ++ rest) ≡ ok (bytes, rest)
unfolding readn
readn-append bytes rest n e =
    subst (λ m. readn m (bytes ++ rest) ≡ ok (bytes, rest)) e
      (ground (arith, length-append bytes rest, take-append bytes rest, drop-append bytes rest))

-- An `int` at the front of the stream is read off.
pub read_int-int_bytes :
    (n : ℕ) (rest : List ℕ) → n < 2 ^ 32 → read_int (int_bytes n ++ rest) ≡ ok (n, rest)
unfolding read_int
read_int-int_bytes n rest h =
    let e = bytes_int-int_bytes n h in
    let got = readn-append (int_bytes n) rest 4 (length-int_bytes n) in ground (arith, e, got)

-- the request as the server has it: `readMessage` sets the client's descriptor in it
abbrev pub received : Text → ℕ → ℕ → Request
received path op client = record (make_request path op) { fd = client }

pub bytes_to-log_line :
    (fd : ℕ) (line : String) (info : ℤ) (es : List Event)
    → bytes_to fd (log_line line info ∷ es) ≡ bytes_to fd es
unfolding bytes_to log_line
bytes_to-log_line fd line (pos zero) es = refl
bytes_to-log_line fd line (pos (suc n)) es = refl
bytes_to-log_line fd line (negsuc n) es = refl

pub bytes_to-sent :
    (fd : ℕ) (b : List ℕ) (es : List Event) → bytes_to fd (sent fd b ∷ es) ≡ b ++ bytes_to fd es
unfolding bytes_to
bytes_to-sent fd b es = ground arith

pub bytes_to-nil : (fd : ℕ) → bytes_to fd [] ≡ []
unfolding bytes_to
bytes_to-nil fd = refl

-- the bytes of a read that is granted
read_bytes :
    (r : Request) (f : File) (bytes : List ℕ)
    → f.isopen ≡ 1
    → may_use f r ≡ true
    → bytes_to r.fd (spec_read bytes r f).1
      ≡ int_bytes success ++ (int_bytes f.dim ++ (bytes ++ []))
read_bytes r f bytes opened mine =
    let open' : (f.isopen == 1) ≡ true = ground arith in
    rw (open', mine) (simp (bytes_to-sent, bytes_to-log_line, bytes_to-nil))

module _ (realpath : Text → Text) (n client : ℕ) (answer : Request → List ℕ) (pathname : Text)
    (s t : Server) (rows : Rows) (f : File) (bytes : List ℕ) (w : IsServer s rows) where
  -- `readFile` against the server: if the bytes that come back to the client are those that READ
  -- sends to it at a server in order, for an open file that the client may use, with readable
  -- contents and a size below 2 ^ 32, then the call returns 1 and hands out the stored bytes and
  -- their number.
  pub read_file-serve_read :
      view s rows (realpath pathname) ≡ some f
      → f.isopen ≡ 1
      → may_use f (received (realpath pathname) Protcol.read_file client) ≡ true
      → read_block f.cont f.dim ≡ ok bytes
      → f.dim < 2 ^ 32
      → serve_read (received (realpath pathname) Protcol.read_file client) s ≡ ok (tt, t)
      → answer (make_request (realpath pathname) Protcol.read_file)
        ≡ bytes_to client (drop (length s.trace) t.trace)
      → read_file realpath (pos n) answer pathname ≡ ok (returns (pos 1), some (bytes, f.dim))
  unfolding read_file
  read_file-serve_read present opened mine readable small run delivered =
      let r = received (realpath pathname) Protcol.read_file client in
      let y = serve_read-Serves s rows r f w present bytes readable in
      let same : t ≡ y.after = ground (arith, run, y.runs) in
      let sent-events : drop (length s.trace) t.trace ≡ (spec_read bytes r f).1 =
        ap (λ (x : Server). drop (length s.trace) x.trace) same
        ∙ ap (drop (length s.trace)) y.traced
        ∙ drop-append s.trace (spec_read bytes r f).1 in
      let stream =
        delivered ∙ ap (bytes_to client) sent-events ∙ read_bytes r f bytes opened mine in
      let e₁ = read_int-int_bytes success (int_bytes f.dim ++ (bytes ++ [])) (omega arith) in
      let e₂ = read_int-int_bytes f.dim (bytes ++ []) small in
      let e₃ = readn-append bytes [] f.dim (read_block-length f.cont f.dim bytes readable) in
      ground (arith, stream, e₁, e₂, e₃)
