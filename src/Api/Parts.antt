-- ===== src/Api/Parts.antt =====
-- One file in the bytes that a client reads, whoever asked for it.
use file_storage_server.Prelude.{
  ℕ, ◌<◌, ◌≢◌, ◌≡◌, refl, List, [], ◌∷◌, ◌++◌, some, arith, length, append_assoc, ◌==◌, ◌^◌, true,
  false,
}
use file_storage_server.Run.{ok}
use file_storage_server.Text.{Text}
use file_storage_server.Protcol.{int_bytes}
use file_storage_server.Server.State.{Event, sent}
use file_storage_server.Api.Backup.{Disk, kept, store_in, read_parts, c_string, receive}
use file_storage_server.Api.Delivery.{bytes_to, read_int-int_bytes, readn-append}

pub bytes_to-append :
    (fd : ℕ) (xs ys : List Event) → bytes_to fd (xs ++ ys) ≡ bytes_to fd xs ++ bytes_to fd ys
unfolding bytes_to
bytes_to-append fd [] ys = refl
bytes_to-append fd (sent c b ∷ xs) ys =
    ground (arith, bytes_to-append fd xs ys, append_assoc b (bytes_to fd xs) (bytes_to fd ys))
bytes_to-append fd (Event.logged l ∷ xs) ys = bytes_to-append fd xs ys
bytes_to-append fd (Event.logged_int l n ∷ xs) ys = bytes_to-append fd xs ys
bytes_to-append fd (Event.handed_back c ∷ xs) ys = bytes_to-append fd xs ys
bytes_to-append fd (Event.closed c ∷ xs) ys = bytes_to-append fd xs ys
bytes_to-append fd (Event.signal_con ∷ xs) ys = bytes_to-append fd xs ys
bytes_to-append fd (Event.signal_request ∷ xs) ys = bytes_to-append fd xs ys

-- the size, the length of the name, the name and the contents
abbrev pub part_bytes : ℕ → ℕ → List ℕ → List ℕ → List ℕ
part_bytes dim len name cont = int_bytes dim ++ (int_bytes len ++ (name ++ cont))

-- One file is read off the front of the stream.
pub read_parts-part_bytes :
    (dim len : ℕ) (name cont rest : List ℕ)
    → dim < 2 ^ 32
    → len < 2 ^ 32
    → length name ≡ len
    → length cont ≡ dim
    → read_parts (part_bytes dim len name cont ++ rest) ≡ ok ((len, name, cont), rest)
unfolding read_parts
read_parts-part_bytes dim len name cont rest small short long whole =
    let e₁ = read_int-int_bytes dim (int_bytes len ++ (name ++ (cont ++ rest))) small in
    let e₂ = read_int-int_bytes len (name ++ (cont ++ rest)) short in
    let e₃ = readn-append name (cont ++ rest) len long in
    let e₄ = readn-append cont rest dim whole in
    let split : part_bytes dim len name cont ++ rest
        ≡ int_bytes dim ++ (int_bytes len ++ (name ++ (cont ++ rest))) =
      simp append_assoc in
    rw split (ground (arith, e₁, e₂, e₃, e₄))

-- a name without a NUL
abbrev pub HasNoNul : Text → Type 0
HasNoNul [] = Unit {0}
HasNoNul (c ∷ cs) = (c ≢ 0) × HasNoNul cs

c_string-append : (name : Text) → HasNoNul name → c_string (name ++ 0 ∷ []) ≡ ok name
unfolding c_string
c_string-append [] h = refl
c_string-append (c ∷ cs) (some_byte, h) =
    let rest = c_string-append cs h in
    let other : (c == 0) ≡ false = ground arith in rw (rest, other) refl

-- A file with a short name, for which the folder has a place, is read and stored.
pub receive-part_bytes :
    (disk : Disk) (d : Text) (dim : ℕ) (name filename cont rest : List ℕ)
    → disk.is_dir d ≡ some true
    → dim < 2 ^ 32
    → length name < 130
    → HasNoNul name
    → length cont ≡ dim
    → store_in disk d name cont ≡ ok (kept filename cont)
    → receive disk (some d) (part_bytes dim (length name) name cont ++ rest)
      ≡ ok (kept filename cont, rest)
unfolding receive
receive-part_bytes disk d dim name filename cont rest folder small short clean whole stored =
    let parts =
      read_parts-part_bytes dim (length name) name cont rest small (omega arith) refl whole in
    let string = c_string-append name clean in ground (arith, parts, string, folder, stored)
