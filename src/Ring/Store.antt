-- ===== src/Ring/Store.antt =====
-- The `memcpy` calls of the ring, index by index.
use robov.Prelude.{
  ℕ, ◌+◌, ◌-◌, ◌≤◌, ◌<◌, ◌≡◌, List, ◌++◌, arith, length, get_or, take, drop, ltb, leb,
  if◌then◌else◌, length-append, length-take, length-drop,
}
use robov.Prelude.Index.{get_or-append, get_or-take, get_or-drop}
use robov.Ring.{blit, slice, store, fetch}

length-blit :
    (buf : List ℕ) (pos : ℕ) (bytes : List ℕ)
    → pos + length bytes ≤ length buf
    → length (blit buf pos bytes) ≡ length buf
unfolding blit
length-blit buf pos bytes h = ground (
  arith,
  length-append (take pos buf) (bytes ++ drop (pos + length bytes) buf),
  length-append bytes (drop (pos + length bytes) buf),
  length-take pos buf,
  length-drop (pos + length bytes) buf,
)

get_or-blit :
    (buf : List ℕ) (pos : ℕ) (bytes : List ℕ) (j : ℕ)
    → pos + length bytes ≤ length buf
    → get_or (blit buf pos bytes) j 0 ≡ (
        if ltb j pos
        then get_or buf j 0
        else if ltb j (pos + length bytes)
        then get_or bytes (j - pos) 0
        else get_or buf j 0)
unfolding blit
get_or-blit buf pos bytes j h = ground (
  arith,
  get_or-append (take pos buf) (bytes ++ drop (pos + length bytes) buf) j 0,
  get_or-append bytes (drop (pos + length bytes) buf) (j - pos) 0,
  get_or-take pos buf j 0,
  get_or-drop (pos + length bytes) buf (j - pos - length bytes) 0,
  length-take pos buf,
)

-- How far index `j` lies after `pos`, going round at `size`.
abbrev pub distance : ℕ → ℕ → ℕ → ℕ
distance size pos j = if leb pos j then j - pos else j + size - pos

module _ (buf : List ℕ) (size pos : ℕ) (sized : length buf ≡ size) (inside : pos < size) where
  pub length-store :
      (bytes : List ℕ) (len : ℕ)
      → len ≤ size
      → len ≤ length bytes
      → length (store buf pos (size - pos) bytes len) ≡ size
  unfolding store
  length-store bytes len h k = ground (
    arith,
    length-blit buf pos (take len bytes),
    length-blit buf pos (take (size - pos) bytes),
    length-blit (blit buf pos (take (size - pos) bytes)) 0
        (take (len - (size - pos)) (drop (size - pos) bytes)),
    length-take len bytes,
    length-take (size - pos) bytes,
    length-take (len - (size - pos)) (drop (size - pos) bytes),
    length-drop (size - pos) bytes,
  )

  -- After the writes, the `len` places from `pos` on hold the bytes and the others are as before.
  pub get_or-store :
      (bytes : List ℕ) (len j : ℕ)
      → len ≤ size
      → len ≤ length bytes
      → j < size
      → get_or (store buf pos (size - pos) bytes len) j 0 ≡ (
          if ltb (distance size pos j) len
          then get_or bytes (distance size pos j) 0
          else get_or buf j 0)
  unfolding store
  get_or-store bytes len j h k below = ground (
    arith,
    get_or-blit buf pos (take len bytes) j,
    get_or-blit buf pos (take (size - pos) bytes) j,
    get_or-blit (blit buf pos (take (size - pos) bytes)) 0
        (take (len - (size - pos)) (drop (size - pos) bytes)) j,
    length-blit buf pos (take (size - pos) bytes),
    length-take len bytes,
    length-take (size - pos) bytes,
    length-take (len - (size - pos)) (drop (size - pos) bytes),
    length-drop (size - pos) bytes,
    get_or-take len bytes (j - pos) 0,
    get_or-take (size - pos) bytes (j - pos) 0,
    get_or-take (len - (size - pos)) (drop (size - pos) bytes) j 0,
    get_or-drop (size - pos) bytes j 0,
  )

  pub length-fetch : (len : ℕ) → len ≤ size → length (fetch buf pos (size - pos) len) ≡ len
  unfolding fetch slice
  length-fetch len h = ground (
    arith,
    length-take len (drop pos buf),
    length-take (size - pos) (drop pos buf),
    length-take (len - (size - pos)) buf,
    length-drop pos buf,
    length-append (take (size - pos) (drop pos buf)) (take (len - (size - pos)) buf),
  )

  pub get_or-fetch :
      (len i : ℕ)
      → len ≤ size
      → i < len
      → get_or (fetch buf pos (size - pos) len) i 0
        ≡ get_or buf (if ltb (pos + i) size then pos + i else pos + i - size) 0
  unfolding fetch slice
  get_or-fetch len i h below = ground (
    arith,
    get_or-take len (drop pos buf) i 0,
    get_or-drop pos buf i 0,
    get_or-append (take (size - pos) (drop pos buf)) (take (len - (size - pos)) buf) i 0,
    get_or-take (size - pos) (drop pos buf) i 0,
    get_or-take (len - (size - pos)) buf (i - (size - pos)) 0,
    length-take (size - pos) (drop pos buf),
    length-drop pos buf,
  )
