-- ===== src/Protocol/Wire.antt =====
-- src/protocol.rs, `write_message` and `read_message`: a frame is the length of the body in four
-- bytes, the highest first, and the body. The socket is the list of the bytes that are still to be
-- read. The encoding of a message as JSON (serde_json) is the parameter `Json`.
pub mod RoundTrip
use nylon_run.Prelude.{
  ℕ, zero, suc, ◌+◌, ◌*◌, ◌/◌, ◌%◌, ◌^◌, ◌≤◌, ◌<◌, ◌≡◌, refl, ◌≢◌, ap, Option, none, some, List, [],
  ◌∷◌, ◌++◌, append_assoc, Text, arith, length, length-append, take, drop, leb, ltb, if◌then◌else◌,
  Result, ok, err, ◌>>=◌, codes,
}

-- serde_json at a message type: a value that it writes is read back.
pub record Json (T : Type 0) : Type 0 where
  pub to_vec : T → Result (List ℕ)
  pub from_slice : List ℕ → Result T
  pub from_slice-to_vec : (m : T) (body : List ℕ) → to_vec m ≡ ok body → from_slice body ≡ ok m

-- `(data.len() as u32).to_be_bytes()`.
unfoldable pub be_bytes : ℕ → List ℕ
be_bytes n = (n / 16777216 % 256) ∷ (n / 65536 % 256) ∷ (n / 256 % 256) ∷ (n % 256) ∷ []

-- `u32::from_be_bytes`.
unfoldable pub from_be : ℕ → ℕ → ℕ → ℕ → ℕ
from_be a b c d = ((a * 256 + b) * 256 + c) * 256 + d

abbrev pub max_message : ℕ
max_message = 10 * 1024 * 1024

-- `read_exact`: the bytes that were asked for and the rest of the stream, or an early end.
unfoldable pub read_exact : ℕ → List ℕ → Result (List ℕ × List ℕ)
read_exact n stream =
    if leb n (length stream) then ok (take n stream, drop n stream) else err (codes "early eof")

module _ {T : Type 0} (json : Json T) where
  open json use {to_vec, from_slice, from_slice-to_vec}

  -- The bytes that go to the socket; `len` is cut to 32 bits by the cast.
  unfoldable pub write_message : T → Result (List ℕ)
  write_message msg = do body ← to_vec msg; ok (be_bytes (length body % 2 ^ 32) ++ body)

  -- What follows the four length bytes.
  read_body : ℕ → List ℕ → Result (T × List ℕ)
  read_body len stream =
      if ltb max_message len
      then err (codes "message too large")
      else do (body, rest) ← read_exact len stream; msg ← from_slice body; ok (msg, rest)

  read_frame : List ℕ → List ℕ → Result (T × List ℕ)
  unfolding read_body
  read_frame (a ∷ b ∷ c ∷ d ∷ []) stream = read_body (from_be a b c d) stream
  read_frame _ stream = err (codes "early eof")

  unfoldable pub read_message : List ℕ → Result (T × List ℕ)
  unfolding read_frame
  read_message stream = do (len_buf, stream') ← read_exact 4 stream; read_frame len_buf stream'
