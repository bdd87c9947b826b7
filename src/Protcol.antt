-- ===== src/Protcol.antt =====
-- header/Protcol.h: the codes of the protocol, the request, and an `int` on the wire.
-- An `int` that is sent is never negative; it is four bytes, the lowest first.
pub mod Buffers
use file_storage_server.Prelude.{
  ℕ, ◌+◌, ◌*◌, ◌/◌, ◌%◌, ◌^◌, ◌<◌, ◌≡◌, Bool, false, List, [], ◌∷◌, Option, none, some, arith, ◌==◌,
  ℤ, pos, negsuc, length, refl,
}
use file_storage_server.Text.{Text}

-- the values of `OP`, of `flags` for OPEN, and of the answers
abbrev pub open_file : ℕ
open_file = 1

abbrev pub locks : ℕ
locks = 2

abbrev pub unlocks : ℕ
unlocks = 3

abbrev pub write_file : ℕ
write_file = 4

abbrev pub read_file : ℕ
read_file = 5

abbrev pub close_file : ℕ
close_file = 6

abbrev pub remove_file : ℕ
remove_file = 7

abbrev pub append_file : ℕ
append_file = 8

abbrev pub read_n : ℕ
read_n = 9

abbrev pub close_connection : ℕ
close_connection = 10

abbrev pub o_create : ℕ
o_create = 11

abbrev pub o_lock : ℕ
o_lock = 12

abbrev pub o_crlk : ℕ
o_crlk = 13

abbrev pub o_open : ℕ
o_open = 14

abbrev pub success : ℕ
success = 100

abbrev pub not_present : ℕ
not_present = 200

abbrev pub yes_contain : ℕ
yes_contain = 201

abbrev pub not_open : ℕ
not_open = 202

abbrev pub not_locked : ℕ
not_locked = 203

abbrev pub not_permission : ℕ
not_permission = 204

abbrev pub too_much_file : ℕ
too_much_file = 205

abbrev pub server_full : ℕ
server_full = 206

abbrev pub empty : ℕ
empty = 207

abbrev pub connection_timeout : ℕ
connection_timeout = 208

-- `struct request`; `pathname` is a string of fewer than MAXS bytes
pub record Request : Type 0 where
  pub pathname : Text
  pub size : ℕ
  pub flags : ℤ
  pub fd : ℕ
  pub op : ℕ
  pub contenuto : Option (List ℕ)

-- `flags == f`
unfoldable pub has_flag : ℤ → ℕ → Bool
has_flag (pos n) f = n == f
has_flag (negsuc n) f = false

-- the four bytes of an `int`
unfoldable pub int_bytes : ℕ → List ℕ
int_bytes n = n % 256 ∷ n / 256 % 256 ∷ n / 65536 % 256 ∷ n / 16777216 % 256 ∷ []

unfoldable pub bytes_int : List ℕ → Option ℕ
bytes_int (a ∷ b ∷ c ∷ d ∷ []) = some (a + 256 * b + 65536 * c + 16777216 * d)
bytes_int _ = none

-- The four bytes in which an `int` below 2 ^ 32 travels, written by one side and read by the other,
-- give it back.
pub bytes_int-int_bytes : (n : ℕ) → n < 2 ^ 32 → bytes_int (int_bytes n) ≡ some n
unfolding bytes_int int_bytes
bytes_int-int_bytes n h = ground arith

pub length-int_bytes : (n : ℕ) → length (int_bytes n) ≡ 4
unfolding int_bytes
length-int_bytes n = refl
