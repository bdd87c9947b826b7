-- ===== src/Server/Message.antt =====
-- source/server.c: `readMessage`, which reads one request off a client's socket. What the two calls of
-- `readn` come to is a parameter, and so is what memory from `malloc` holds.
use file_storage_server.Prelude.{
  ℕ, ◌≡◌, ◌≢◌, refl, sym, ap, ◌⊎◌, Bool, true, false, List, Option, none, some, ◌==◌, if◌then◌else◌,
  length, arith, inl, inr,
}
use file_storage_server.Protcol.{Request}

-- the three kinds of result of `readn`: all the bytes; 0, the end before they were there; and -1
pub data Reading {ℓ} (A : Type ℓ) : Type ℓ where
  whole : A → Reading A
  ended : Reading A
  errored : Reading A

-- A client's socket: the struct that comes first, and the bytes behind it.
pub record Socket : Type 0 where
  pub head : Reading Request
  pub body : ℕ → Reading (List ℕ)

-- The contents, for a size that is not zero. After an error the buffer is as `malloc` gave it.
unfoldable pub read_contents : (ℕ → List ℕ) → ℕ → Request → Reading (List ℕ) → Option Request
read_contents raw_cont client r (whole bytes) =
    some (record r { contenuto = some bytes; fd = client })
read_contents raw_cont client r ended = none
read_contents raw_cont client r errored =
    some (record r { contenuto = some (raw_cont r.size); fd = client })

unfoldable pub read_body : (ℕ → List ℕ) → ℕ → Request → (ℕ → Reading (List ℕ)) → Option Request
unfolding read_contents
read_body raw_cont client r body =
    if r.size == 0
    then some (record r { contenuto = none; fd = client })
    else read_contents raw_cont client r (body r.size)

-- After an error the request is as `malloc` gave it, and the code goes on with it.
unfoldable pub read_message : Request → (ℕ → List ℕ) → ℕ → Socket → Option Request
unfolding read_body
read_message raw raw_cont client socket = elim socket.head [
  | whole r ↦ read_body raw_cont client r socket.body
  | ended ↦ none
  | errored ↦ read_body raw_cont client raw socket.body
]

-- what a client puts on the socket: the struct, where `contenuto` is a pointer of its own, and the
-- contents if there are any
abbrev pub wire : Request → Option (List ℕ) → Socket
wire r pointer = record {
  head = whole (record r { contenuto = pointer });
  body = λ n. elim r.contenuto [
    | none ↦ ended
    | some bytes ↦ (if length bytes == n then whole bytes else ended)
  ];
}

-- a request whose size tells of its contents
abbrev pub IsSized : Request → Type 0
IsSized r =
    (r.contenuto ≡ none) × (r.size ≡ 0)
    ⊎ (bytes : List ℕ) × (r.contenuto ≡ some bytes) × (length bytes ≡ r.size) × (r.size ≢ 0)

-- `readMessage` of a request that a client wrote, the struct with any pointer in it and the
-- contents behind it where the size is not zero, gives that request with its contents and the
-- client's descriptor.
pub read_message-wire :
    (raw : Request) (raw_cont : ℕ → List ℕ) (client : ℕ) (r : Request) (pointer : Option (List ℕ))
    → IsSized r
    → read_message raw raw_cont client (wire r pointer) ≡ some (record r { fd = client })
unfolding read_message
read_message-wire raw raw_cont client r pointer (inl (empty, zero_size)) =
    rw zero_size (rw empty refl)
read_message-wire raw raw_cont client r pointer (inr (bytes, full, size, some_size)) =
    let nonzero : (r.size == 0) ≡ false = ground arith in
    let all : (length bytes == r.size) ≡ true = ground (arith, size) in rw (nonzero, full, all) refl

-- A request that comes out has the descriptor that it was read from.
pub read_message-fd :
    (raw : Request) (raw_cont : ℕ → List ℕ) (client : ℕ) (socket : Socket) (r : Request)
    → read_message raw raw_cont client socket ≡ some r
    → r.fd ≡ client
unfolding read_message read_body read_contents
read_message-fd raw raw_cont client socket r e = go socket.head e
  where
    contents-fd :
        (q : Request) (b : Reading (List ℕ))
        → read_contents raw_cont client q b ≡ some r
        → r.fd ≡ client
    contents-fd q (whole bytes) e =
        let same : record q { contenuto = some bytes; fd = client } ≡ r = cc in
        sym (ap (λ (x : Request). x.fd) same)
    contents-fd q ended e = absurd (cc)
    contents-fd q errored e =
        let same : record q { contenuto = some (raw_cont q.size); fd = client } ≡ r = cc in
        sym (ap (λ (x : Request). x.fd) same)

    body-fd : (q : Request) → read_body raw_cont client q socket.body ≡ some r → r.fd ≡ client
    body-fd q e = split (q.size == 0) e
      where
        split :
            (b : Bool)
            → (if b
                then some (record q { contenuto = none; fd = client })
                else read_contents raw_cont client q (socket.body q.size))
              ≡ some r
            → r.fd ≡ client
        split true e =
            let same : record q { contenuto = none; fd = client } ≡ r = cc in
            sym (ap (λ (x : Request). x.fd) same)
        split false e = contents-fd q (socket.body q.size) e

    go :
        (h : Reading Request)
        → (elim h [
          | whole q ↦ read_body raw_cont client q socket.body
          | ended ↦ none
          | errored ↦ read_body raw_cont client raw socket.body
        ])
          ≡ some r
        → r.fd ≡ client
    go (whole q) e = body-fd q e
    go ended e = absurd (cc)
    go errored e = body-fd raw e
