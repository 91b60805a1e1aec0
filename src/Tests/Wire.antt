-- ===== src/Tests/Wire.antt =====
-- Frames: concrete inputs.
use nylon_run.Prelude.{
  ℕ, zero, suc, ◌+◌, ◌≡◌, refl, sym, List, [], ◌∷◌, ◌++◌, Text, ok, err, codes, arith, length,
}
use nylon_run.Protocol.Wire.{Json, write_message, read_message, max_message}
use nylon_run.Protocol.Wire.RoundTrip.{read_message-write_message, write_message_too_large}

-- A message that is its own body.
abbrev plain : Json Text
plain = record { to_vec = ok; from_slice = ok; from_slice-to_vec = λ m body h. sym h }

read_message-write_message_example :
    (frame : List ℕ) × (write_message plain (codes "ping") ≡ ok frame)
    × (read_message plain (frame ++ codes "next") ≡ ok (codes "ping", codes "next"))
read_message-write_message_example =
    read_message-write_message plain (codes "ping") (codes "ping") (codes "next") refl (omega arith)

zeros : ℕ → List ℕ
zeros zero = []
zeros (suc n) = 0 ∷ zeros n

length-zeros : (n : ℕ) → length (zeros n) ≡ n
unfolding zeros
length-zeros zero = refl
length-zeros (suc n) = ground (arith, length-zeros n)

write_message_too_large_example :
    (frame : List ℕ) × (write_message plain (zeros (max_message + 1)) ≡ ok frame)
    × (read_message plain (frame ++ []) ≡ err (codes "message too large"))
write_message_too_large_example =
    write_message_too_large plain (zeros (max_message + 1)) (zeros (max_message + 1)) [] refl
      (omega (arith, length-zeros (max_message + 1)))
      (omega (arith, length-zeros (max_message + 1)))
