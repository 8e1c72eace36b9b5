-- ===== src/Ring.antt =====
-- The byte ring of src/core/rc_conn.c and include/rc_conn.h (`rc_ringbuf_t`): a power-of-two buffer
-- whose `head` and `tail` count bytes as `uint32_t` and wrap. Writes and reads are partial where the
-- space or the bytes do not suffice.
pub mod Inv
pub mod Store
pub mod Round
pub mod Steps
pub mod Fifo
pub mod PowTwo
pub mod Life
mod Examples
use robov.Prelude.{
  ℕ, ◌+◌, ◌-◌, ◌/◌, ◌^◌, List, [], ◌++◌, Bool, true, false, if◌then◌else◌, ltb, leb, ◌==◌, length,
  take, drop, replicate, bit_and, bit_or, u32, add32, sub32,
}

-- `rc_ringbuf_t`. A NULL buffer is the empty list.
pub record Ring : Type 0 where
  pub buf : List ℕ
  pub size : ℕ
  pub mask : ℕ
  pub head : ℕ
  pub tail : ℕ

-- `v |= v >> s;`
pub smear : ℕ → ℕ → ℕ
smear s v = bit_or v (v / 2 ^ s)

pub next_pow2 : ℕ → ℕ
next_pow2 v = add32 (smear 16 (smear 8 (smear 4 (smear 2 (smear 1 (sub32 v 1)))))) 1

-- The result 0 or -1 of a call.
pub data Status : Type 0 where
  ok failed : Status

-- `rc_ringbuf_init` on the ring `rb`: `alloc` says whether `calloc` succeeds.
pub init : Bool → Ring → ℕ → Status × Ring
init alloc rb size0 =
    let size1 = if size0 == 0 then 4096 else size0 in
    let size = next_pow2 size1 in
    if alloc
    then (
      ok,
      record { buf = replicate size 0; size = size; mask = sub32 size 1; head = 0; tail = 0 },
    )
    else (failed, record rb { buf = [] })

-- `rc_ringbuf_destroy`
pub destroy : Ring → Ring
destroy rb = record { buf = []; size = 0; mask = 0; head = 0; tail = 0 }

-- `rc_ringbuf_available` and `rc_ringbuf_free_space`
unfoldable pub available : Ring → ℕ
available rb = sub32 rb.head rb.tail

pub free_space : Ring → ℕ
free_space rb = sub32 rb.size (sub32 rb.head rb.tail)

-- `memcpy(buf + pos, bytes, length bytes)`, where that lies inside the buffer.
unfoldable pub blit : List ℕ → ℕ → List ℕ → List ℕ
blit buf pos bytes = take pos buf ++ (bytes ++ drop (pos + length bytes) buf)

-- The `n` bytes at `buf + pos`.
pub slice : List ℕ → ℕ → ℕ → List ℕ
slice buf pos n = take n (drop pos buf)

-- The one or two `memcpy` of `rc_ringbuf_write`: the first `len` of `bytes` from `pos` on, where
-- `first_chunk` bytes lie before the end of the buffer.
unfoldable pub store : List ℕ → ℕ → ℕ → List ℕ → ℕ → List ℕ
unfolding blit
store buf pos first_chunk bytes len =
    if leb len first_chunk
    then blit buf pos (take len bytes)
    else blit (blit buf pos (take first_chunk bytes)) 0
        (take (len - first_chunk) (drop first_chunk bytes))

-- The one or two `memcpy` of `rc_ringbuf_read`.
unfoldable pub fetch : List ℕ → ℕ → ℕ → ℕ → List ℕ
unfolding slice
fetch buf pos first_chunk len =
    if leb len first_chunk
    then slice buf pos len
    else slice buf pos first_chunk ++ slice buf 0 (len - first_chunk)

-- `rc_ringbuf_write` of the bytes `bytes`: how many were written, and the ring.
unfoldable pub write : Ring → List ℕ → ℕ × Ring
write rb bytes =
    let free = sub32 rb.size (sub32 rb.head rb.tail) in
    let len = if ltb free (length bytes) then free else length bytes in
    let pos = bit_and rb.head rb.mask in
    let first_chunk = sub32 rb.size pos in
    (
      len,
      record rb { buf = store rb.buf pos first_chunk bytes len; head = add32 rb.head (u32 len) },
    )

-- `rc_ringbuf_read` of at most `len0` bytes: the bytes stored at `dst`, as many as it returns.
pub read : Ring → ℕ → List ℕ × Ring
read rb len0 =
    let avail = sub32 rb.head rb.tail in
    let len = if ltb avail len0 then avail else len0 in
    let pos = bit_and rb.tail rb.mask in
    let first_chunk = sub32 rb.size pos in
    (fetch rb.buf pos first_chunk len, record rb { tail = add32 rb.tail (u32 len) })
