-- ===== src/Server/State.antt =====
-- The global variables of source/server.c, and the calls by which a worker reads and changes them.
-- The stored files live in a heap, since the table and the FIFO queue hold pointers to them.
-- What leaves the process is a trace: each `writen` to a client, each line of the log file.
-- A send counts as done: the code looks at no result of `writen` but to print it.
use file_storage_server.Prelude.{
  ℕ, zero, ◌+◌, Bool, List, [], ◌∷◌, ◌++◌, Option, none, some, String, update, ℤ, pos,
}
use file_storage_server.Run
use file_storage_server.Run.{Run, ok, fault, deref}
use file_storage_server.Text.{Text}
use file_storage_server.Lis.{Lis}
use file_storage_server.Hash
use file_storage_server.Hash.{Hash}
use file_storage_server.Protcol.{Request, int_bytes}
use file_storage_server.File.{File, read_block}

pub data Event : Type 0 where
  -- `writen` to a client
  sent : ℕ → List ℕ → Event
  -- a line of the log file, and one with a number behind it
  logged : String → Event
  logged_int : String → ℤ → Event
  -- the `writen` to the pipe by which a worker gives a client back to the dispatcher
  handed_back : ℕ → Event
  -- `close(fd)`
  closed : ℕ → Event
  -- `pthread_cond_signal` of `condcon` and of `condrequest`
  signal_con : Event
  signal_request : Event

-- `struct serverconf`: the two bounds that the handlers read
pub record ServerConf : Type 0 where
  pub maxf : ℕ
  pub space : ℕ

pub record Server : Type 0 where
  pub table : Hash ℕ
  pub fifo : Lis ℕ
  pub queueric : Lis Request
  pub actual_size : ℤ
  pub files : ℕ → Option File
  pub next_file : ℕ
  pub activecon : ℤ
  pub closesighup : Bool
  pub set : ℕ → Bool
  pub trace : List Event

-- code that reads and changes the server, and may fault
abbrev pub Act : Type 0 → Type 0
Act A = Server → Run (A × Server)

infixl 5 ◌>>=◌ ◌>>◌
abbrev pub ◌>>=◌ : {A B : Type 0} → Act A → (A → Act B) → Act B
◌>>=◌ m f s = Run.◌>>=◌ (m s) (λ r. f r.0 r.1)

abbrev pub ◌>>◌ : {B : Type 0} → Act (Unit {0}) → Act B → Act B
◌>>◌ m k = m >>= λ _. k

abbrev pub return : {A : Type 0} → A → Act A
return a s = ok (a, s)

abbrev pub get : {A : Type 0} → (Server → A) → Act A
get f s = ok (f s, s)

abbrev pub modify : (Server → Server) → Act (Unit {0})
modify f s = ok (tt, f s)

-- a computation on a part of the server, which does not change it
abbrev pub run : {A : Type 0} → (Server → Run A) → Act A
run f s = Run.◌>>=◌ (f s) (λ a. ok (a, s))

abbrev pub emit : Event → Act (Unit {0})
emit e = modify λ s. record s { trace = s.trace ++ e ∷ [] }

abbrev pub send : ℕ → List ℕ → Act (Unit {0})
send fd bytes = emit (sent fd bytes)

-- `sendMessage`
unfoldable pub send_message : ℕ → ℕ → Act (Unit {0})
send_message client message = send client (int_bytes message)

-- the line that `LOG` writes: the number is printed if it is not zero
unfoldable pub log_line : String → ℤ → Event
log_line line (pos zero) = logged line
log_line line info = logged_int line info

-- `LOG`
unfoldable pub log : String → ℤ → Act (Unit {0})
log line info = emit (log_line line info)

-- `*f`
abbrev pub load_file : Option ℕ → Act File
load_file p = run λ s. Run.◌>>=◌ (deref p) (λ a. deref (s.files a))

-- `*f = ...`, and the `free(f)` of a file
abbrev pub store_file : Option ℕ → Option File → Act (Unit {0})
store_file none f = modify λ s. s
store_file (some a) f = modify λ s. record s { files = update s.files a f }

-- `malloc` of a file, with what was in its memory
abbrev pub new_file : File → Act (Option ℕ)
new_file f s = ok (
  some s.next_file,
  record s { files = update s.files s.next_file (some f); next_file = s.next_file + 1 },
)

abbrev pub contain : Text → Act Bool
contain k = run λ s. Hash.contain s.table k

abbrev pub getvalue : Text → Act (Option ℕ)
getvalue k = run λ s. Hash.getvalue s.table k

-- `hashins` of a pointer that is not null
abbrev pub hashins : Text → Option ℕ → Act (Unit {0})
hashins k p s =
    Run.◌>>=◌ (deref p)
      λ a. Run.◌>>=◌ (Hash.hashins s.table k a) λ t. ok (tt, record s { table = t })

abbrev pub h_delete : Text → Act Bool
h_delete k s = Run.◌>>=◌ (Hash.h_delete s.table k) λ r. ok (r.0, record s { table = r.1 })

-- `sendFile`
unfoldable pub send_file : ℕ → Option (List ℕ) → ℕ → Act (Unit {0})
send_file client cont dim = do
  send client (int_bytes dim)
  bytes ← run λ s. read_block cont dim
  send client bytes
