-- ===== src/Wire.antt =====
-- The frame codec of src/protocol/wire.rs, on buffers of bytes. `usize` holds every length here.
pub mod Frames
mod Tests
use dekit.Prelude.{
  ℕ, zero, suc, ◌+◌, ◌-◌, ◌*◌, ◌/◌, ◌%◌, ◌^◌, Bool, true, false, ◌||◌, Option, none, some, List, [],
  ◌∷◌, ◌++◌, length, take, drop, ltb, if◌then◌else◌,
}
use dekit.Prelude.Result.{Result, ok, err}

abbrev pub max_frame : ℕ
max_frame = 16 * 1024 * 1024

pub record RawFrame : Type 0 where
  pub kind : ℕ
  pub payload : List ℕ

pub data ProtocolError : Type 0 where
  bad_frame_length frame_too_large : ℕ → ProtocolError

-- `u32::from_be_bytes` and `put_u32`.
abbrev pub from_be_bytes : ℕ → ℕ → ℕ → ℕ → ℕ
from_be_bytes a b c d = ((a * 256 + b) * 256 + c) * 256 + d

abbrev pub be_bytes : ℕ → List ℕ
be_bytes n = (n / 256 / 256 / 256) % 256 ∷ (n / 256 / 256) % 256 ∷ (n / 256) % 256 ∷ n % 256 ∷ []

-- A frame of that many bytes, the first of which is its kind, and what is left in the buffer.
unfoldable pub split_frame : ℕ → List ℕ → Option RawFrame × List ℕ
split_frame len src = elim (take len src) [
  | [] ↦ (none, src)
  | kind ∷ payload ↦ (some (record { kind = kind; payload = payload }), drop len src)
]

-- The frame, if a whole one has come, and the buffer after the call.
unfoldable pub decode : List ℕ → Result ProtocolError (Option RawFrame × List ℕ)
decode (a ∷ b ∷ c ∷ d ∷ rest) =
    let len = from_be_bytes a b c d in
    if ltb len 1 || ltb max_frame len
    then err (bad_frame_length len)
    else if ltb (4 + length rest) (4 + len)
    then ok (none, a ∷ b ∷ c ∷ d ∷ rest)
    else ok (split_frame len rest)
decode src = ok (none, src)

unfoldable pub encode : RawFrame → List ℕ → Result ProtocolError (List ℕ)
encode frame dst =
    let len = length frame.payload + 1 in
    if ltb max_frame len
    then err (frame_too_large len)
    else ok (dst ++ (be_bytes (len % 2 ^ 32) ++ frame.kind ∷ frame.payload))
