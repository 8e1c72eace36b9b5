-- ===== src/Cipher/Aes.antt =====
-- AES-256 in counter mode of include/crypto.h, as the code computes it.
use robov.Prelude.{
  ℕ, zero, suc, ◌+◌, ◌-◌, ◌*◌, ◌/◌, ◌%◌, ◌^◌, Bool, true, false, List, [], ◌∷◌, ◌++◌, map,
  if◌then◌else◌, ◌==◌, length, take, drop, replicate, get_or, bit_and, bit_or, bit_xor, u8,
}
use robov.Proto.Bytes.{be_at}

-- `rc_aes_sbox`
abbrev pub aes_sbox : List ℕ
aes_sbox =
    0x63 ∷ 0x7c ∷ 0x77 ∷ 0x7b ∷ 0xf2 ∷ 0x6b ∷ 0x6f ∷ 0xc5 ∷ 0x30 ∷ 0x01 ∷ 0x67 ∷ 0x2b ∷ 0xfe ∷ 0xd7
    ∷ 0xab ∷ 0x76 ∷ 0xca ∷ 0x82 ∷ 0xc9 ∷ 0x7d ∷ 0xfa ∷ 0x59 ∷ 0x47 ∷ 0xf0 ∷ 0xad ∷ 0xd4 ∷ 0xa2
    ∷ 0xaf ∷ 0x9c ∷ 0xa4 ∷ 0x72 ∷ 0xc0 ∷ 0xb7 ∷ 0xfd ∷ 0x93 ∷ 0x26 ∷ 0x36 ∷ 0x3f ∷ 0xf7 ∷ 0xcc
    ∷ 0x34 ∷ 0xa5 ∷ 0xe5 ∷ 0xf1 ∷ 0x71 ∷ 0xd8 ∷ 0x31 ∷ 0x15 ∷ 0x04 ∷ 0xc7 ∷ 0x23 ∷ 0xc3 ∷ 0x18
    ∷ 0x96 ∷ 0x05 ∷ 0x9a ∷ 0x07 ∷ 0x12 ∷ 0x80 ∷ 0xe2 ∷ 0xeb ∷ 0x27 ∷ 0xb2 ∷ 0x75 ∷ 0x09 ∷ 0x83
    ∷ 0x2c ∷ 0x1a ∷ 0x1b ∷ 0x6e ∷ 0x5a ∷ 0xa0 ∷ 0x52 ∷ 0x3b ∷ 0xd6 ∷ 0xb3 ∷ 0x29 ∷ 0xe3 ∷ 0x2f
    ∷ 0x84 ∷ 0x53 ∷ 0xd1 ∷ 0x00 ∷ 0xed ∷ 0x20 ∷ 0xfc ∷ 0xb1 ∷ 0x5b ∷ 0x6a ∷ 0xcb ∷ 0xbe ∷ 0x39
    ∷ 0x4a ∷ 0x4c ∷ 0x58 ∷ 0xcf ∷ 0xd0 ∷ 0xef ∷ 0xaa ∷ 0xfb ∷ 0x43 ∷ 0x4d ∷ 0x33 ∷ 0x85 ∷ 0x45
    ∷ 0xf9 ∷ 0x02 ∷ 0x7f ∷ 0x50 ∷ 0x3c ∷ 0x9f ∷ 0xa8 ∷ 0x51 ∷ 0xa3 ∷ 0x40 ∷ 0x8f ∷ 0x92 ∷ 0x9d
    ∷ 0x38 ∷ 0xf5 ∷ 0xbc ∷ 0xb6 ∷ 0xda ∷ 0x21 ∷ 0x10 ∷ 0xff ∷ 0xf3 ∷ 0xd2 ∷ 0xcd ∷ 0x0c ∷ 0x13
    ∷ 0xec ∷ 0x5f ∷ 0x97 ∷ 0x44 ∷ 0x17 ∷ 0xc4 ∷ 0xa7 ∷ 0x7e ∷ 0x3d ∷ 0x64 ∷ 0x5d ∷ 0x19 ∷ 0x73
    ∷ 0x60 ∷ 0x81 ∷ 0x4f ∷ 0xdc ∷ 0x22 ∷ 0x2a ∷ 0x90 ∷ 0x88 ∷ 0x46 ∷ 0xee ∷ 0xb8 ∷ 0x14 ∷ 0xde
    ∷ 0x5e ∷ 0x0b ∷ 0xdb ∷ 0xe0 ∷ 0x32 ∷ 0x3a ∷ 0x0a ∷ 0x49 ∷ 0x06 ∷ 0x24 ∷ 0x5c ∷ 0xc2 ∷ 0xd3
    ∷ 0xac ∷ 0x62 ∷ 0x91 ∷ 0x95 ∷ 0xe4 ∷ 0x79 ∷ 0xe7 ∷ 0xc8 ∷ 0x37 ∷ 0x6d ∷ 0x8d ∷ 0xd5 ∷ 0x4e
    ∷ 0xa9 ∷ 0x6c ∷ 0x56 ∷ 0xf4 ∷ 0xea ∷ 0x65 ∷ 0x7a ∷ 0xae ∷ 0x08 ∷ 0xba ∷ 0x78 ∷ 0x25 ∷ 0x2e
    ∷ 0x1c ∷ 0xa6 ∷ 0xb4 ∷ 0xc6 ∷ 0xe8 ∷ 0xdd ∷ 0x74 ∷ 0x1f ∷ 0x4b ∷ 0xbd ∷ 0x8b ∷ 0x8a ∷ 0x70
    ∷ 0x3e ∷ 0xb5 ∷ 0x66 ∷ 0x48 ∷ 0x03 ∷ 0xf6 ∷ 0x0e ∷ 0x61 ∷ 0x35 ∷ 0x57 ∷ 0xb9 ∷ 0x86 ∷ 0xc1
    ∷ 0x1d ∷ 0x9e ∷ 0xe1 ∷ 0xf8 ∷ 0x98 ∷ 0x11 ∷ 0x69 ∷ 0xd9 ∷ 0x8e ∷ 0x94 ∷ 0x9b ∷ 0x1e ∷ 0x87
    ∷ 0xe9 ∷ 0xce ∷ 0x55 ∷ 0x28 ∷ 0xdf ∷ 0x8c ∷ 0xa1 ∷ 0x89 ∷ 0x0d ∷ 0xbf ∷ 0xe6 ∷ 0x42 ∷ 0x68
    ∷ 0x41 ∷ 0x99 ∷ 0x2d ∷ 0x0f ∷ 0xb0 ∷ 0x54 ∷ 0xbb ∷ 0x16 ∷ []

-- `rc_aes_rcon`
abbrev pub aes_rcon : List ℕ
aes_rcon = 0x00 ∷ 0x01 ∷ 0x02 ∷ 0x04 ∷ 0x08 ∷ 0x10 ∷ 0x20 ∷ 0x40 ∷ 0x80 ∷ 0x1b ∷ 0x36 ∷ []

-- `rc_aes_sub_word`
pub sub_word : ℕ → ℕ
sub_word w =
    bit_or
      (bit_or
        (bit_or (get_or aes_sbox (w / 2 ^ 24 % 256) 0 * 2 ^ 24)
          (get_or aes_sbox (w / 2 ^ 16 % 256) 0 * 2 ^ 16))
        (get_or aes_sbox (w / 2 ^ 8 % 256) 0 * 2 ^ 8))
      (get_or aes_sbox (w % 256) 0)

-- `rc_aes_rot_word`
pub rot_word : ℕ → ℕ
rot_word w = bit_or (w * 2 ^ 8 % 2 ^ 32) (w / 2 ^ 24)

-- The word that round `i` of the key expansion mixes in, from the word before.
pub expand_word : ℕ → ℕ → ℕ
unfolding sub_word rot_word
expand_word i temp =
    if i % 8 == 0
    then bit_xor (sub_word (rot_word temp)) (get_or aes_rcon (i / 8) 0 * 2 ^ 24)
    else if i % 8 == 4
    then sub_word temp
    else temp

-- `n` rounds of the loop, on the words so far.
pub expand : ℕ → List ℕ → List ℕ
unfolding expand_word
expand zero rk = rk
expand (suc n) rk =
    let i = length rk in
    expand n (rk ++ bit_xor (get_or rk (i - 8) 0) (expand_word i (get_or rk (i - 1) 0)) ∷ [])

-- `rc_aes256_key_expand`: the 60 words of `round_key`.
pub key_expand : List ℕ → List ℕ
unfolding expand
key_expand key = expand 52 (
    be_at 4 key 0
    ∷ be_at 4 key 4
    ∷ be_at 4 key 8
    ∷ be_at 4 key 12
    ∷ be_at 4 key 16
    ∷ be_at 4 key 20
    ∷ be_at 4 key 24
    ∷ be_at 4 key 28
    ∷ [])

-- The places of a state.
abbrev pub places : List ℕ
places = 0 ∷ 1 ∷ 2 ∷ 3 ∷ 4 ∷ 5 ∷ 6 ∷ 7 ∷ 8 ∷ 9 ∷ 10 ∷ 11 ∷ 12 ∷ 13 ∷ 14 ∷ 15 ∷ []

-- `rc_aes_add_round_key`: place `4 * r + c` takes the byte `r` of the word `c`.
pub add_round_key : List ℕ → List ℕ → ℕ → List ℕ
add_round_key state rk round =
    map
      (λ i.
        bit_xor (get_or state i 0) (get_or rk (round * 4 + i % 4) 0 / 2 ^ (24 - 8 * (i / 4)) % 256))
      places

-- `rc_aes_sub_bytes`
pub sub_bytes : List ℕ → List ℕ
sub_bytes state = map (λ x. get_or aes_sbox x 0) state

-- `rc_aes_shift_rows`: which place each place takes its byte from.
pub shift_rows : List ℕ → List ℕ
shift_rows state =
    map (λ i. get_or state i 0)
      (0 ∷ 5 ∷ 10 ∷ 15 ∷ 4 ∷ 9 ∷ 14 ∷ 3 ∷ 8 ∷ 13 ∷ 2 ∷ 7 ∷ 12 ∷ 1 ∷ 6 ∷ 11 ∷ [])

-- `rc_aes_xtime`
pub xtime : ℕ → ℕ
xtime x = u8 (bit_xor (x * 2) (if bit_and x 0x80 == 0 then 0x00 else 0x1b))

-- The loop of `rc_aes_mix_columns`, on the columns that are left.
pub mix_columns : List ℕ → List ℕ
unfolding xtime
mix_columns (a0 ∷ a1 ∷ a2 ∷ a3 ∷ rest) =
    let e = bit_xor (bit_xor (bit_xor a0 a1) a2) a3 in
    bit_xor a0 (bit_xor e (xtime (bit_xor a0 a1)))
    ∷ bit_xor a1 (bit_xor e (xtime (bit_xor a1 a2)))
    ∷ bit_xor a2 (bit_xor e (xtime (bit_xor a2 a3)))
    ∷ bit_xor a3 (bit_xor e (xtime (bit_xor a3 a0)))
    ∷ mix_columns rest
mix_columns _ = []

-- `n` rounds of the loop of `rc_aes256_encrypt_block`, from `round` on.
pub rounds : ℕ → ℕ → List ℕ → List ℕ → List ℕ
unfolding add_round_key sub_bytes shift_rows mix_columns
rounds zero round rk state = state
rounds (suc n) round rk state =
    rounds n (round + 1) rk (add_round_key (mix_columns (shift_rows (sub_bytes state))) rk round)

-- `rc_aes256_encrypt_block`, with the 14 rounds that the key expansion sets.
pub encrypt_block : List ℕ → List ℕ → List ℕ
unfolding add_round_key sub_bytes shift_rows rounds
encrypt_block rk block =
    add_round_key (shift_rows (sub_bytes (rounds 13 1 rk (add_round_key block rk 0)))) rk 14

-- `rc_aes_ctr_inc`: the counter after the loop, and whether a byte is still to be incremented.
pub increment : List ℕ → List ℕ × Bool
increment [] = ([], true)
increment (x ∷ xs) =
    let (ys, carry) = increment xs in
    if carry then (u8 (x + 1) ∷ ys, u8 (x + 1) == 0) else (x ∷ ys, false)

pub ctr_inc : List ℕ → List ℕ
unfolding increment
ctr_inc ctr = (increment ctr).0

-- `output[off + i] = input[off + i] ^ keystream[i]`
unfoldable pub xor_bytes : List ℕ → List ℕ → List ℕ
xor_bytes [] keystream = []
xor_bytes (x ∷ xs) keystream = bit_xor x (get_or keystream 0 0) ∷ xor_bytes xs (drop 1 keystream)

-- The loop of `rc_aes256_ctr` on the bytes that are left, with a bound on its rounds.
unfoldable pub ctr_loop : ℕ → List ℕ → List ℕ → List ℕ → List ℕ
unfolding encrypt_block ctr_inc xor_bytes
ctr_loop zero rk input ctr = []
ctr_loop (suc n) rk [] ctr = []
ctr_loop (suc n) rk (x ∷ xs) ctr =
    xor_bytes (take 16 (x ∷ xs)) (encrypt_block rk ctr)
    ++ ctr_loop n rk (drop 16 (x ∷ xs)) (ctr_inc ctr)

-- `rc_aes256_ctr`: a byte of input is more than enough for a round.
unfoldable pub aes256_ctr : List ℕ → List ℕ → List ℕ → List ℕ
unfolding ctr_loop
aes256_ctr rk input nonce = ctr_loop (length input) rk input (take 12 nonce ++ replicate 4 0)
