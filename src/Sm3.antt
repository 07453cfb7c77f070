-- ===== src/Sm3.antt =====
-- crypto/sm3/sm3.go: the SM3 hash. Words are `uint32`, bytes are below 256.
-- The eight words of the digest, and the eight variables of `update`, are the record `Registers`.
pub mod Chunks
pub mod Padding
mod Tests
use sea_pkg.Base.{
  ℕ, zero, suc, ◌+◌, ◌-◌, ◌*◌, ◌/◌, ◌%◌, ◌^◌, List, [], ◌∷◌, ◌++◌, bit_and, bit_or, bit_xor,
}
use sea_pkg.Base.{◌==◌, ltb, if◌then◌else◌, length, get_or, take, drop}
use sea_pkg.Base.Outcome.{Outcome, ok, err, ◌>>=◌}

pub record Registers : Type 0 where
  pub a : ℕ
  pub b : ℕ
  pub c : ℕ
  pub d : ℕ
  pub e : ℕ
  pub f : ℕ
  pub g : ℕ
  pub h : ℕ

pub record Sm3 : Type 0 where
  pub digest : Registers
  pub length_ : ℕ
  pub unhandle_msg : List ℕ

-- `^x`
abbrev complement : ℕ → ℕ
complement x = 2 ^ 32 - 1 - x

unfoldable pub ff0 : ℕ → ℕ → ℕ → ℕ
ff0 x y z = bit_xor (bit_xor x y) z

unfoldable pub ff1 : ℕ → ℕ → ℕ → ℕ
ff1 x y z = bit_or (bit_or (bit_and x y) (bit_and x z)) (bit_and y z)

unfoldable pub gg0 : ℕ → ℕ → ℕ → ℕ
gg0 x y z = bit_xor (bit_xor x y) z

unfoldable pub gg1 : ℕ → ℕ → ℕ → ℕ
gg1 x y z = bit_or (bit_and x y) (bit_and (complement x) z)

unfoldable pub left_rotate : ℕ → ℕ → ℕ
left_rotate x i = bit_or (x * 2 ^ (i % 32) % 2 ^ 32) (x / 2 ^ (32 - i % 32))

unfoldable pub p0 : ℕ → ℕ
unfolding left_rotate
p0 x = bit_xor (bit_xor x (left_rotate x 9)) (left_rotate x 17)

unfoldable pub p1 : ℕ → ℕ
unfolding left_rotate
p1 x = bit_xor (bit_xor x (left_rotate x 15)) (left_rotate x 23)

-- `binary.BigEndian.Uint32` of each four bytes.
unfoldable pub block_words : ℕ → List ℕ → List ℕ
block_words zero msg = []
block_words (suc n) msg =
    (get_or msg 0 0 * 2 ^ 24 + get_or msg 1 0 * 2 ^ 16 + get_or msg 2 0 * 2 ^ 8 + get_or msg 3 0)
    ∷ block_words n (drop 4 msg)

-- The next word of `w`, whose first `i` words are there.
unfoldable pub next_word : List ℕ → ℕ → ℕ
unfolding p1 left_rotate
next_word w i =
    bit_xor
      (bit_xor
        (p1 (
          bit_xor (bit_xor (get_or w (i - 16) 0) (get_or w (i - 9) 0))
            (left_rotate (get_or w (i - 3) 0) 15)))
        (left_rotate (get_or w (i - 13) 0) 7))
      (get_or w (i - 6) 0)

-- `w`, with `n` words to come.
unfoldable pub expand : ℕ → ℕ → List ℕ → List ℕ
unfolding next_word
expand zero i w = w
expand (suc n) i w = expand n (i + 1) (w ++ next_word w i ∷ [])

-- The loops over `i < 16` and `16 ≤ i < 64`, which differ in their constant and their functions.
unfoldable pub round : List ℕ → ℕ → Registers → Registers
unfolding left_rotate ff0 ff1 gg0 gg1 p0
round w i r =
    let early = ltb i 16 in
    let a12 = left_rotate r.a 12 in
    let constant = if early then left_rotate 0x79cc4519 i else left_rotate 0x7a879d8a i in
    let ss1 = left_rotate ((a12 + r.e + constant) % 2 ^ 32) 7 in
    let ss2 = bit_xor ss1 a12 in
    let w1 = bit_xor (get_or w i 0) (get_or w (i + 4) 0) in
    let ff = if early then ff0 r.a r.b r.c else ff1 r.a r.b r.c in
    let gg = if early then gg0 r.e r.f r.g else gg1 r.e r.f r.g in
    let tt1 = (ff + r.d + ss2 + w1) % 2 ^ 32 in
    let tt2 = (gg + r.h + ss1 + get_or w i 0) % 2 ^ 32 in
    record {
      a = tt1;
      b = r.a;
      c = left_rotate r.b 9;
      d = r.c;
      e = p0 tt2;
      f = r.e;
      g = left_rotate r.f 19;
      h = r.g;
    }

unfoldable pub rounds : ℕ → ℕ → List ℕ → Registers → Registers
unfolding round
rounds zero i w r = r
rounds (suc n) i w r = rounds n (i + 1) w (round w i r)

unfoldable pub xor_registers : Registers → Registers → Registers
xor_registers r s = record {
  a = bit_xor r.a s.a;
  b = bit_xor r.b s.b;
  c = bit_xor r.c s.c;
  d = bit_xor r.d s.d;
  e = bit_xor r.e s.e;
  f = bit_xor r.f s.f;
  g = bit_xor r.g s.g;
  h = bit_xor r.h s.h;
}

-- What a round of the loop of `update` does with the 64 bytes in front.
unfoldable pub compress : Registers → List ℕ → Registers
unfolding block_words expand rounds xor_registers
compress r block = let w = expand 52 16 (block_words 16 block) in xor_registers r (rounds 64 0 w r)

-- The loop runs while there are 64 bytes left, so its rounds are the whole blocks of the message.
unfoldable pub update_blocks : ℕ → Registers → List ℕ → Registers
update_blocks zero r msg = r
update_blocks (suc n) r msg = update_blocks n (compress r (take 64 msg)) (drop 64 msg)

unfoldable pub update : Registers → List ℕ → Registers
unfolding update_blocks
update r msg = update_blocks (length msg / 64) r msg

unfoldable pub reset : Sm3
reset = record {
  digest = record {
    a = 0x7380166f;
    b = 0x4914b2b9;
    c = 0x172442d7;
    d = 0xda8a0600;
    e = 0xa96f30bc;
    f = 0x163138aa;
    g = 0xe38dee4d;
    h = 0xb0fb0e4e;
  };
  length_ = 0;
  unhandle_msg = [];
}

-- `Write`; it returns `len(p)` and no error.
unfoldable pub write : Sm3 → List ℕ → Sm3
write s p =
    let msg = s.unhandle_msg ++ p in
    record {
      digest = update s.digest msg;
      length_ = (s.length_ + length p * 8) % 2 ^ 64;
      unhandle_msg = drop (length msg / 64 * 64) msg;
    }

-- `pad` panics where the padded length is not a whole number of blocks. `exhausted` is no Go value:
-- the fuel of the model ran out.
pub data PadFault : Type 0 where
  bad_length exhausted : PadFault

-- The loop of `pad` that appends zeros, on fuel.
unfoldable pub pad_zeros : ℕ → List ℕ → Outcome PadFault (List ℕ)
pad_zeros zero msg = err exhausted
pad_zeros (suc fuel) msg =
    let more = pad_zeros fuel (msg ++ 0 ∷ []) in if length msg % 64 == 56 then ok msg else more

-- The length, a `uint64`, as eight bytes.
unfoldable pub length_bytes : ℕ → List ℕ
length_bytes n =
    (n / 2 ^ 56 % 256)
    ∷ (n / 2 ^ 48 % 256)
    ∷ (n / 2 ^ 40 % 256)
    ∷ (n / 2 ^ 32 % 256)
    ∷ (n / 2 ^ 24 % 256)
    ∷ (n / 2 ^ 16 % 256)
    ∷ (n / 2 ^ 8 % 256)
    ∷ (n % 256)
    ∷ []

-- There are 63 zeros at most.
unfoldable pub pad : Sm3 → Outcome PadFault (List ℕ)
pad s = do
  msg ← pad_zeros 64 (s.unhandle_msg ++ 0x80 ∷ [])
  let padded = msg ++ length_bytes s.length_
  if length padded % 64 == 0 then ok padded else err bad_length

-- `binary.BigEndian.PutUint32`
unfoldable pub word_bytes : ℕ → List ℕ
word_bytes v = (v / 2 ^ 24) ∷ (v / 2 ^ 16 % 256) ∷ (v / 2 ^ 8 % 256) ∷ (v % 256) ∷ []

unfoldable pub digest_bytes : Registers → List ℕ
unfolding word_bytes
digest_bytes r =
    word_bytes r.a
    ++ (word_bytes r.b
        ++ (word_bytes r.c
            ++ (word_bytes r.d
                ++ (word_bytes r.e ++ (word_bytes r.f ++ (word_bytes r.g ++ word_bytes r.h))))))

-- `Sum`: it writes `input` first, and leaves the hash changed. It returns the digest alone.
unfoldable pub sum : Sm3 → List ℕ → Outcome PadFault (List ℕ × Sm3)
sum s input = do
  let s' = write s input
  msg ← pad s'
  let r = update s'.digest msg
  ok (digest_bytes r, record s' { digest = r })

unfoldable pub sm3_sum : List ℕ → Outcome PadFault (List ℕ × Sm3)
sm3_sum input = sum (write reset input) []
