-- ===== src/Protocol/Wire/RoundTrip.antt =====
-- src/protocol.rs: frames that `write_message` writes, as `read_message` reads them.
use nylon_run.Prelude.{
  ℕ, ◌/◌, ◌%◌, ◌^◌, ◌≤◌, ◌<◌, ◌≡◌, refl, ◌∙◌, List, [], ◌∷◌, ◌++◌, append_assoc, arith, true, false,
  ltb, ap, length, length-append, take, drop, leb, ok, err, codes,
}
use nylon_run.Protocol.Wire.{
  Json, be_bytes, from_be, max_message, read_exact, write_message, read_message, read_body,
}

take-append : (xs ys : List ℕ) → take (length xs) (xs ++ ys) ≡ xs
take-append [] ys = refl
take-append (x ∷ xs) ys = rw (take-append xs ys)

drop-append : (xs ys : List ℕ) → drop (length xs) (xs ++ ys) ≡ ys
drop-append [] ys = refl
drop-append (x ∷ xs) ys = drop-append xs ys

leb_of_le : (a b : ℕ) → a ≤ b → leb a b ≡ true
leb_of_le a b h = ground arith

read_exact-append : (xs ys : List ℕ) → read_exact (length xs) (xs ++ ys) ≡ ok (xs, ys)
unfolding read_exact
read_exact-append xs ys = rw (
  leb_of_le (length xs) (length (xs ++ ys)) (omega (arith, length-append xs ys)),
  take-append,
  drop-append,
)

-- Every 32-bit number is read back from its four bytes.
from_be-be_bytes :
    (n : ℕ)
    → n < 2 ^ 32
    → from_be (n / 16777216 % 256) (n / 65536 % 256) (n / 256 % 256) (n % 256) ≡ n
unfolding from_be
from_be-be_bytes n h = omega arith

ltb_of_le : (a b : ℕ) → b ≤ a → ltb a b ≡ false
ltb_of_le a b h = ground arith

ltb_of_lt : (a b : ℕ) → a < b → ltb a b ≡ true
ltb_of_lt a b h = ground arith

-- The four length bytes come off the stream whatever follows them.
read_exact-be_bytes :
    (n : ℕ) (rest : List ℕ) → read_exact 4 (be_bytes n ++ rest) ≡ ok (be_bytes n, rest)
unfolding be_bytes
read_exact-be_bytes n rest = read_exact-append (be_bytes n) rest

uncut : (n : ℕ) → n < 2 ^ 32 → n % 2 ^ 32 ≡ n
uncut n h = omega arith

module _ {T : Type 0} (json : Json T) where
  open json use {to_vec, from_slice, from_slice-to_vec}

  read_header :
      (n : ℕ) (rest : List ℕ)
      → n < 2 ^ 32
      → read_message json (be_bytes n ++ rest) ≡ read_body json n rest
  unfolding read_message
  read_header n rest h =
      rw (read_exact-be_bytes n rest)
        (unfold be_bytes in ap (λ m. read_body json m rest) (from_be-be_bytes n h))

  read_body-append :
      (body rest : List ℕ) {msg : T}
      → from_slice body ≡ ok msg
      → length body ≤ max_message
      → read_body json (length body) (body ++ rest) ≡ ok (msg, rest)
  unfolding read_body
  read_body-append body rest h fits =
      rw (ltb_of_le max_message (length body) fits, read_exact-append body rest, h)

  read_message_frame :
      (body rest : List ℕ)
      → length body < 2 ^ 32
      → read_message json ((be_bytes (length body % 2 ^ 32) ++ body) ++ rest)
        ≡ read_body json (length body) (body ++ rest)
  read_message_frame body rest h =
      rw (uncut (length body) h, append_assoc (be_bytes (length body)) body rest)
        (read_header (length body) (body ++ rest) h)

  -- A message whose JSON has at most 10 MiB is read back from the bytes that were written for it,
  -- whatever follows on the stream, and what follows is left unread.
  pub read_message-write_message :
      (msg : T) (body rest : List ℕ)
      → to_vec msg ≡ ok body
      → length body ≤ max_message
      → (frame : List ℕ) × (write_message json msg ≡ ok frame)
        × (read_message json (frame ++ rest) ≡ ok (msg, rest))
  read_message-write_message msg body rest h fits = (
    frame,
    unfold write_message in rw h,
    read_message_frame body rest (omega arith)
        ∙ read_body-append body rest (from_slice-to_vec msg body h) fits,
  )
    where
      frame : List ℕ
      frame = be_bytes (length body % 2 ^ 32) ++ body

  too_large :
      (body rest : List ℕ)
      → max_message < length body
      → read_body json (length body) (body ++ rest) ≡ err (codes "message too large")
  unfolding read_body
  too_large body rest h = rw (ltb_of_lt max_message (length body) h)

  -- The writer has no limit: JSON of more than 10 MiB and less than 4 GiB is written, and the reader
  -- at the other end refuses the frame.
  pub write_message_too_large :
      (msg : T) (body rest : List ℕ)
      → to_vec msg ≡ ok body
      → max_message < length body
      → length body < 2 ^ 32
      → (frame : List ℕ) × (write_message json msg ≡ ok frame)
        × (read_message json (frame ++ rest) ≡ err (codes "message too large"))
  write_message_too_large msg body rest h big fits = (
    frame,
    unfold write_message in rw h,
    read_message_frame body rest fits ∙ too_large body rest big,
  )
    where
      frame : List ℕ
      frame = be_bytes (length body % 2 ^ 32) ++ body
