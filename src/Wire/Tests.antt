-- ===== src/Wire/Tests.antt =====
-- The codec at concrete frames, as in the tests of src/protocol/wire.rs.
use dekit.Prelude.{ℕ, ◌≡◌, ◌<◌, refl, none, some, List, [], ◌∷◌, ◌++◌, take, length, arith}
use dekit.Prelude.Text.{codes}
use dekit.Prelude.Result.{ok}
use dekit.Wire.{max_frame, RawFrame, split_frame, encode, decode}
use dekit.Wire.Frames.{framed, decode-encode, decode-take, decode_sound}

abbrev hello : RawFrame
hello = record { kind = 0; payload = codes "hello" }

abbrev hello_bytes : List ℕ
hello_bytes = 0 ∷ 0 ∷ 0 ∷ 6 ∷ 0 ∷ codes "hello"

decode-encode_example :
    (encode hello [] ≡ ok ([] ++ framed hello))
    × (decode (framed hello ++ 7 ∷ []) ≡ ok (some hello, 7 ∷ []))
decode-encode_example = decode-encode hello [] (7 ∷ []) (omega arith)

decode-take_example : decode (take 6 (framed hello)) ≡ ok (none, take 6 (framed hello))
decode-take_example = decode-take hello 6 (omega arith) (omega arith)

decode_sound_example :
    (hello_bytes ++ 7 ∷ [] ≡ framed hello ++ 7 ∷ []) × (length hello.payload < max_frame)
decode_sound_example =
    decode_sound (hello_bytes ++ 7 ∷ []) hello (7 ∷ []) (ground arith)
      (unfold decode in unfold split_frame in refl)
