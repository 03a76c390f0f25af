-- ===== src/Wire/Frames.antt =====
-- Frames that are encoded are decoded, whole and in order, however the bytes come in.
use dekit.Prelude.{
  ℕ, zero, suc, ◌+◌, ◌/◌, ◌%◌, ◌^◌, ◌≤◌, ◌<◌, ◌≡◌, refl, sym, ap, ◌∙◌, true, false, Bool-cases, inl,
  inr, ◌||◌, Option, none, some, List, [], ◌∷◌, ◌++◌, length, take, drop, length-append, ltb, arith,
  list_elim, All,
}
use dekit.Prelude.Maps.{some_injective}
use dekit.Prelude.Result.{Result, ok}
use dekit.Wire.{max_frame, RawFrame, from_be_bytes, be_bytes, split_frame, decode, encode}

-- The bytes of a frame, for one that is not too large.
abbrev pub framed : RawFrame → List ℕ
framed f = be_bytes ((length f.payload + 1) % 2 ^ 32) ++ f.kind ∷ f.payload

from_be_bytes-be_bytes :
    (n : ℕ)
    → n ≤ max_frame
    → let m = n % 2 ^ 32 in
      from_be_bytes
        ((m / 256 / 256 / 256) % 256)
        ((m / 256 / 256) % 256)
        ((m / 256) % 256)
        (m % 256)
      ≡ n
from_be_bytes-be_bytes n small = omega arith

module _ {A : Type 0} where
  take-append : (xs ys : List A) → take (length xs) (xs ++ ys) ≡ xs
  take-append [] ys = refl
  take-append (x ∷ xs) ys = ap (λ l. x ∷ l) (take-append xs ys)

  drop-append : (xs ys : List A) → drop (length xs) (xs ++ ys) ≡ ys
  drop-append [] ys = refl
  drop-append (x ∷ xs) ys = drop-append xs ys

split_frame-append :
    (f : RawFrame) (rest : List ℕ)
    → split_frame (length f.payload + 1) ((f.kind ∷ f.payload) ++ rest) ≡ (some f, rest)
unfolding split_frame
split_frame-append f rest =
    let len : length f.payload + 1 ≡ suc (length f.payload) = omega arith in
    rw len (rw (take-append f.payload rest, drop-append f.payload rest) refl)

-- A frame that is not too large is appended by `encode`, and `decode` gives it back, whatever bytes
-- follow it, which stay in the buffer.
pub decode-encode :
    (f : RawFrame) (dst rest : List ℕ)
    → length f.payload < max_frame
    → (encode f dst ≡ ok (dst ++ framed f)) × (decode (framed f ++ rest) ≡ ok (some f, rest))
unfolding encode decode
decode-encode f dst rest fits =
    let len = length f.payload + 1 in
    let num = from_be_bytes-be_bytes len (omega arith) in
    let fit : ltb max_frame len ≡ false = ground arith in
    let sized : (ltb len 1 || ltb max_frame len) ≡ false = ground arith in
    let whole : ltb (4 + length ((f.kind ∷ f.payload) ++ rest)) (4 + len) ≡ false =
      ground (arith, length-append f.payload rest) in
    (
      rw (encode, fit) refl,
      rw (decode, num) (rw (sized, whole) (ap ok (split_frame-append f rest))),
    )

length-take : {A : Type 0} (k : ℕ) (xs : List A) → k ≤ length xs → length (take k xs) ≡ k
length-take zero xs h = refl
length-take (suc k) [] h = absurd (omega arith)
length-take (suc k) (x ∷ xs) h = ap suc (length-take k xs (omega arith))

-- While a frame is not complete nothing is taken from the buffer, and no error is raised.
pub decode-take :
    (f : RawFrame) (k : ℕ)
    → length f.payload < max_frame
    → k < length (framed f)
    → decode (take k (framed f)) ≡ ok (none, take k (framed f))
unfolding decode
decode-take f zero fits short = refl
decode-take f (suc zero) fits short = refl
decode-take f (suc (suc zero)) fits short = refl
decode-take f (suc (suc (suc zero))) fits short = refl
decode-take f (suc (suc (suc (suc j)))) fits short =
    let len = length f.payload + 1 in
    let num = from_be_bytes-be_bytes len (omega arith) in
    let sized : (ltb len 1 || ltb max_frame len) ≡ false = ground arith in
    let part : length (take j (f.kind ∷ f.payload)) ≡ j =
      length-take j (f.kind ∷ f.payload) (omega arith) in
    let missing : ltb (4 + j) (4 + len) ≡ true = ground arith in
    rw (decode, num) (rw (sized, part, missing) refl)

ok_injective : {E A : Type 0} {x y : A} → ◌≡◌ {A = Result E A} (ok x) (ok y) → x ≡ y
ok_injective e = cc

be_bytes-from_be_bytes :
    (a b c d : ℕ)
    → a < 256
    → b < 256
    → c < 256
    → d < 256
    → be_bytes (from_be_bytes a b c d % 2 ^ 32) ≡ a ∷ b ∷ c ∷ d ∷ []
be_bytes-from_be_bytes a b c d ha hb hc hd =
    let n = from_be_bytes a b c d % 2 ^ 32 in
    let ea : n / 256 / 256 / 256 % 256 ≡ a = omega arith in
    let eb : n / 256 / 256 % 256 ≡ b = omega arith in
    let ec : n / 256 % 256 ≡ c = omega arith in
    let ed : n % 256 ≡ d = omega arith in cc (ea, eb, ec, ed)

take-drop : {A : Type 0} (k : ℕ) (xs : List A) → take k xs ++ drop k xs ≡ xs
take-drop zero xs = refl
take-drop (suc k) [] = refl
take-drop (suc k) (x ∷ xs) = ap (λ l. x ∷ l) (take-drop k xs)

split_frame_sound :
    (len : ℕ) (src : List ℕ) (f : RawFrame) (left : List ℕ)
    → len ≤ length src
    → split_frame len src ≡ (some f, left)
    → (length f.payload + 1 ≡ len) × (src ≡ (f.kind ∷ f.payload) ++ left)
unfolding split_frame
split_frame_sound len src f left enough is =
    list_elim
      (λ (r : Option RawFrame × List ℕ).
        r ≡ (some f, left) → (length f.payload + 1 ≡ len) × (src ≡ (f.kind ∷ f.payload) ++ left))
      (take len src) (λ e. absurd (cc (ap (λ (r : Option RawFrame × List ℕ). r.0) e)))
      (λ kind payload at e.
        let same : record { kind = kind; payload = payload } ≡ f =
          some_injective (ap (λ (r : Option RawFrame × List ℕ). r.0) e) in
        let over : drop len src ≡ left = ap (λ (r : Option RawFrame × List ℕ). r.1) e in
        let got : take len src ≡ f.kind ∷ f.payload =
          at ∙ ap (λ (g : RawFrame). g.kind ∷ g.payload) same in
        let sized : length (take len src) ≡ len = length-take len src enough in
        let count : suc (length f.payload) ≡ len = sym (ap length got) ∙ sized in
        (omega arith, sym (take-drop len src) ∙ cc (got, over)))
      is

-- What `decode` gives is what came: the bytes that it took are the frame's, and the rest is left;
-- for a buffer whose items are bytes.
pub decode_sound :
    (src : List ℕ) (f : RawFrame) (left : List ℕ)
    → All (λ b. b < 256) src
    → decode src ≡ ok (some f, left)
    → (src ≡ framed f ++ left) × (length f.payload < max_frame)
unfolding decode
decode_sound [] f left bytes is = absurd (cc)
decode_sound (a ∷ []) f left bytes is = absurd (cc)
decode_sound (a ∷ b ∷ []) f left bytes is = absurd (cc)
decode_sound (a ∷ b ∷ c ∷ []) f left bytes is = absurd (cc)
decode_sound (a ∷ b ∷ c ∷ d ∷ rest) f left bytes is =
    let len = from_be_bytes a b c d in
    elim (Bool-cases (ltb len 1 || ltb max_frame len)) [
      | inl bad ↦ absurd (let no = rw bad at is in cc)
      | inr good ↦ elim (Bool-cases (ltb (4 + length rest) (4 + len))) [
        | inl short ↦ absurd (let no = rw short at (rw good at is) in cc)
        | inr whole ↦
            (let split : split_frame len rest ≡ (some f, left) =
                ok_injective (rw whole at (rw good at is)) in
              let (count, cut) = split_frame_sound len rest f left (ground arith) split in
              let head =
                be_bytes-from_be_bytes a b c d bytes.0 bytes.1.0 bytes.1.1.0 bytes.1.1.1.0 in
              (rw count (cc (head, cut)), ground arith))
      ]
    ]
