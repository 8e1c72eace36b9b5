-- ===== src/Spsc.antt =====
-- The byte ring of include/ringbuf.h (`rc_ringbuf_t` of the services): `head` and `tail` count bytes in 64
-- bits, a write takes all of its bytes or none, and what it refuses is counted.
pub mod Fifo
pub mod Life
mod Examples
use robov.Prelude.{
  ℕ, zero, suc, ◌+◌, ◌-◌, ◌*◌, List, [], ◌++◌, Bool, true, false, Option, none, some, if◌then◌else◌,
  ltb, leb, ◌==◌, length, take, drop, replicate, bit_and, u64, add64, sub64,
}
use robov.Ring.{blit, slice}

-- `rc_ringbuf_t` of this header. A NULL buffer is the empty list.
pub record Spsc : Type 0 where
  pub buf : List ℕ
  pub size : ℕ
  pub mask : ℕ
  pub head : ℕ
  pub tail : ℕ
  pub bytes_written : ℕ
  pub bytes_read : ℕ
  pub drops : ℕ

-- The result of `rc_ringbuf_init`, where `endless` is a loop that does not end.
pub data Initialized : Type 0 where
  ready no_memory endless : Initialized

-- `while (s < size) s <<= 1;` in `n` rounds, the last of them the one that finds `s` large enough.
pub double_up : ℕ → ℕ → ℕ → Option ℕ
double_up zero s size = none
double_up (suc n) s size =
    let rest = double_up n (u64 (s * 2)) size in if ltb s size then rest else some s

-- What `rc_ringbuf_init` does with the size `s` that the loop found.
pub allocate : Bool → Spsc → Option ℕ → Initialized × Spsc
allocate alloc rb none = (endless, rb)
allocate alloc rb (some s) =
    if alloc
    then (
      ready,
      record {
        buf = replicate s 0;
        size = s;
        mask = s - 1;
        head = 0;
        tail = 0;
        bytes_written = 0;
        bytes_read = 0;
        drops = 0;
      },
    )
    else (no_memory, record rb { buf = [] })

-- `rc_ringbuf_init`: `alloc` says whether `calloc` succeeds.
pub initialize : Bool → Spsc → ℕ → Initialized × Spsc
unfolding double_up allocate
initialize alloc rb size = allocate alloc rb (double_up 65 1 size)

-- `rc_ringbuf_available`, which is what is free, and `rc_ringbuf_used`.
pub room : Spsc → ℕ
room rb = sub64 rb.size (sub64 rb.head rb.tail)

pub used : Spsc → ℕ
used rb = sub64 rb.head rb.tail

-- The `memcpy` calls of `rc_ringbuf_write`.
pub copy_in : List ℕ → ℕ → ℕ → List ℕ → List ℕ
copy_in buf off first bytes =
    let front = blit buf off (take first bytes) in
    if ltb first (length bytes) then blit front 0 (drop first bytes) else front

-- Those of `rc_ringbuf_read`.
pub copy_out : List ℕ → ℕ → ℕ → ℕ → List ℕ
copy_out buf off first len =
    if ltb first len then slice buf off first ++ slice buf 0 (len - first) else slice buf off first

-- `rc_ringbuf_write`
pub offer : Spsc → List ℕ → ℕ × Spsc
unfolding room copy_in
offer rb bytes =
    let len = length bytes in
    let off = bit_and rb.head rb.mask in
    let first = if ltb len (sub64 rb.size off) then len else sub64 rb.size off in
    if ltb (room rb) len then (0, record rb { drops = add64 rb.drops len }) else (
      len,
      record rb {
        buf = copy_in rb.buf off first bytes;
        head = add64 rb.head len;
        bytes_written = add64 rb.bytes_written len;
      },
    )

-- `rc_ringbuf_read` of at most `max_len` bytes: the bytes stored at `out`, as many as it returns.
pub poll : Spsc → ℕ → List ℕ × Spsc
unfolding used copy_out
poll rb max_len =
    let len = if ltb (used rb) max_len then used rb else max_len in
    let off = bit_and rb.tail rb.mask in
    let first = if ltb len (sub64 rb.size off) then len else sub64 rb.size off in
    if used rb == 0 then ([], rb) else (
      copy_out rb.buf off first len,
      record rb { tail = add64 rb.tail len; bytes_read = add64 rb.bytes_read len },
    )

-- `rc_ringbuf_reset`
pub reset : Spsc → Spsc
reset rb = record rb { head = 0; tail = 0 }
