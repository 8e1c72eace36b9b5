-- ===== src/Cipher/Sha.antt =====
-- SHA-256 and HMAC-SHA256 of include/crypto.h.
pub mod Blocks
pub mod Streaming
pub mod Chunks
pub mod Hmac
mod Vectors
use robov.Prelude.{
  ℕ, zero, suc, ◌+◌, ◌-◌, ◌*◌, ◌/◌, ◌%◌, ◌^◌, Bool, true, false, List, [], ◌∷◌, ◌++◌, map,
  if◌then◌else◌, ltb, leb, ◌==◌, length, take, drop, replicate, get_or, bit_and, bit_or, bit_xor,
  add32, add64, u32, u64,
}
use robov.Proto.Bytes.{be_at, be_bytes}

-- `rc_rotr32`
pub rotr32 : ℕ → ℕ → ℕ
rotr32 x n = bit_or (x / 2 ^ n) (u32 (x * 2 ^ (32 - n)))

-- The table `k` of `rc_sha256_transform`.
abbrev pub round_constants : List ℕ
round_constants =
    0x428a2f98 ∷ 0x71374491 ∷ 0xb5c0fbcf ∷ 0xe9b5dba5 ∷ 0x3956c25b ∷ 0x59f111f1 ∷ 0x923f82a4
    ∷ 0xab1c5ed5 ∷ 0xd807aa98 ∷ 0x12835b01 ∷ 0x243185be ∷ 0x550c7dc3 ∷ 0x72be5d74 ∷ 0x80deb1fe
    ∷ 0x9bdc06a7 ∷ 0xc19bf174 ∷ 0xe49b69c1 ∷ 0xefbe4786 ∷ 0x0fc19dc6 ∷ 0x240ca1cc ∷ 0x2de92c6f
    ∷ 0x4a7484aa ∷ 0x5cb0a9dc ∷ 0x76f988da ∷ 0x983e5152 ∷ 0xa831c66d ∷ 0xb00327c8 ∷ 0xbf597fc7
    ∷ 0xc6e00bf3 ∷ 0xd5a79147 ∷ 0x06ca6351 ∷ 0x14292967 ∷ 0x27b70a85 ∷ 0x2e1b2138 ∷ 0x4d2c6dfc
    ∷ 0x53380d13 ∷ 0x650a7354 ∷ 0x766a0abb ∷ 0x81c2c92e ∷ 0x92722c85 ∷ 0xa2bfe8a1 ∷ 0xa81a664b
    ∷ 0xc24b8b70 ∷ 0xc76c51a3 ∷ 0xd192e819 ∷ 0xd6990624 ∷ 0xf40e3585 ∷ 0x106aa070 ∷ 0x19a4c116
    ∷ 0x1e376c08 ∷ 0x2748774c ∷ 0x34b0bcb5 ∷ 0x391c0cb3 ∷ 0x4ed8aa4a ∷ 0x5b9cca4f ∷ 0x682e6ff3
    ∷ 0x748f82ee ∷ 0x78a5636f ∷ 0x84c87814 ∷ 0x8cc70208 ∷ 0x90befffa ∷ 0xa4506ceb ∷ 0xbef9a3f7
    ∷ 0xc67178f2 ∷ []

-- The eight words of the state, and the variables `a` to `h`.
pub record Words : Type 0 where
  pub a : ℕ
  pub b : ℕ
  pub c : ℕ
  pub d : ℕ
  pub e : ℕ
  pub f : ℕ
  pub g : ℕ
  pub h : ℕ

-- `n` rounds of the loop that extends `w`.
pub extend : ℕ → List ℕ → List ℕ
unfolding rotr32
extend zero w = w
extend (suc n) w =
    let i = length w in
    let x = get_or w (i - 15) 0 in
    let y = get_or w (i - 2) 0 in
    let s0 = bit_xor (bit_xor (rotr32 x 7) (rotr32 x 18)) (x / 2 ^ 3) in
    let s1 = bit_xor (bit_xor (rotr32 y 17) (rotr32 y 19)) (y / 2 ^ 10) in
    extend n (w ++ add32 (add32 (add32 (get_or w (i - 16) 0) s0) (get_or w (i - 7) 0)) s1 ∷ [])

-- The 64 words of a block.
pub schedule : List ℕ → List ℕ
unfolding extend
schedule block = extend 48 (
    map (λ i. be_at 4 block (i * 4))
      (0 ∷ 1 ∷ 2 ∷ 3 ∷ 4 ∷ 5 ∷ 6 ∷ 7 ∷ 8 ∷ 9 ∷ 10 ∷ 11 ∷ 12 ∷ 13 ∷ 14 ∷ 15 ∷ []))

-- One round of the main loop.
pub sha_round : Words → ℕ → ℕ → Words
unfolding rotr32
sha_round v k w =
    let s1 = bit_xor (bit_xor (rotr32 v.e 6) (rotr32 v.e 11)) (rotr32 v.e 25) in
    let ch = bit_xor (bit_and v.e v.f) (bit_and (bit_xor v.e 0xFFFFFFFF) v.g) in
    let temp1 = add32 (add32 (add32 (add32 v.h s1) ch) k) w in
    let s0 = bit_xor (bit_xor (rotr32 v.a 2) (rotr32 v.a 13)) (rotr32 v.a 22) in
    let maj = bit_xor (bit_xor (bit_and v.a v.b) (bit_and v.a v.c)) (bit_and v.b v.c) in
    let temp2 = add32 s0 maj in
    record {
      a = add32 temp1 temp2;
      b = v.a;
      c = v.b;
      d = v.c;
      e = add32 v.d temp1;
      f = v.e;
      g = v.f;
      h = v.g;
    }

pub sha_rounds : Words → List ℕ → List ℕ → Words
unfolding sha_round
sha_rounds v [] ws = v
sha_rounds v (k ∷ ks) ws = sha_rounds (sha_round v k (get_or ws 0 0)) ks (drop 1 ws)

-- `rc_sha256_transform` on the state.
pub transform : Words → List ℕ → Words
unfolding schedule sha_rounds
transform s block =
    let v = sha_rounds s round_constants (schedule block) in
    record {
      a = add32 s.a v.a;
      b = add32 s.b v.b;
      c = add32 s.c v.c;
      d = add32 s.d v.d;
      e = add32 s.e v.e;
      f = add32 s.f v.f;
      g = add32 s.g v.g;
      h = add32 s.h v.h;
    }

-- `rc_sha256_ctx_t`
pub record Sha : Type 0 where
  pub state : Words
  pub count : ℕ
  pub buffer : List ℕ

abbrev pub initial_words : Words
initial_words = record {
  a = 0x6a09e667;
  b = 0xbb67ae85;
  c = 0x3c6ef372;
  d = 0xa54ff53a;
  e = 0x510e527f;
  f = 0x9b05688c;
  g = 0x1f83d9ab;
  h = 0x5be0cd19;
}

-- `rc_sha256_init`
abbrev pub sha_init : Sha
sha_init = record { state = initial_words; count = 0; buffer = replicate 64 0 }

-- `memcpy(buffer + pos, bytes, length bytes)`
unfoldable pub fill : List ℕ → ℕ → List ℕ → List ℕ
fill buffer pos bytes = take pos buffer ++ (bytes ++ drop (pos + length bytes) buffer)

-- The loop `while (len >= 64)`: `n` rounds on the blocks of `p`.
pub absorb : ℕ → Words → List ℕ → Words
absorb zero s p = s
absorb (suc n) s p = absorb n (transform s (take 64 p)) (drop 64 p)

-- The part of `rc_sha256_update` behind the partial block.
unfoldable pub update_blocks : Sha → List ℕ → Sha
update_blocks ctx p =
    let n = length p / 64 in
    let rest = drop (n * 64) p in
    let s = absorb n ctx.state p in
    record ctx {
      state = s;
      buffer = if ltb 0 (length rest) then fill ctx.buffer 0 rest else ctx.buffer;
    }

-- `rc_sha256_update`
unfoldable pub sha_update : Sha → List ℕ → Sha
unfolding update_blocks fill
sha_update ctx0 p =
    let idx = ctx0.count % 64 in
    let ctx = record ctx0 { count = add64 ctx0.count (length p) } in
    if ltb 0 idx
    then (if leb (64 - idx) (length p)
        then (let whole = fill ctx.buffer idx (take (64 - idx) p) in
            update_blocks (record ctx { state = transform ctx.state whole; buffer = whole })
              (drop (64 - idx) p))
        else record ctx { buffer = fill ctx.buffer idx p })
    else update_blocks ctx p

-- The bytes of the state.
pub words_bytes : Words → List ℕ
words_bytes s =
    be_bytes 4 s.a
    ++ (be_bytes 4 s.b
        ++ (be_bytes 4 s.c
            ++ (be_bytes 4 s.d
                ++ (be_bytes 4 s.e ++ (be_bytes 4 s.f ++ (be_bytes 4 s.g ++ be_bytes 4 s.h))))))

-- The last block of `rc_sha256_final`, from `idx` on.
unfoldable pub last_block : Words → List ℕ → ℕ → ℕ → List ℕ
unfolding fill
last_block s buffer idx bits =
    let zeroed = fill buffer idx (replicate (56 - idx) 0) in
    words_bytes (transform s (fill zeroed 56 (be_bytes 8 bits)))

-- `rc_sha256_final`
unfoldable pub sha_final : Sha → List ℕ
unfolding fill last_block
sha_final ctx =
    let bits = u64 (ctx.count * 8) in
    let idx = ctx.count % 64 in
    let marked = fill ctx.buffer idx (0x80 ∷ []) in
    if ltb 56 (idx + 1)
    then (let full = fill marked (idx + 1) (replicate (64 - (idx + 1)) 0) in
        last_block (transform ctx.state full) full 0 bits)
    else last_block ctx.state marked (idx + 1) bits

-- `rc_sha256`
unfoldable pub sha256 : List ℕ → List ℕ
unfolding sha_final sha_update
sha256 bytes = sha_final (sha_update sha_init bytes)

pub xored : ℕ → List ℕ → List ℕ
xored m key = map (λ x. bit_xor x m) key

-- `rc_hmac_sha256` of this header. A key of more than 64 bytes is hashed first.
pub hmac_key : List ℕ → List ℕ
unfolding sha256
hmac_key key0 =
    let key = if ltb 64 (length key0) then sha256 key0 else key0 in fill (replicate 64 0) 0 key

pub hmac_sha256 : List ℕ → List ℕ → List ℕ
unfolding hmac_key sha_final sha_update xored
hmac_sha256 key text =
    let k = hmac_key key in
    let inner = sha_final (sha_update (sha_update sha_init (xored 0x36 k)) text) in
    sha_final (sha_update (sha_update sha_init (xored 0x5C k)) inner)
