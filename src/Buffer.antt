-- ===== src/Buffer.antt =====
-- IOBuffer.h and ztHttp/ztHttp/IOBuffer.cpp: a byte stream kept as a list of chunks.
pub mod Stream
pub mod Cycle
pub mod Refinement
pub mod Abstraction
pub mod Overflow
pub mod Single
use zt_http.Common.{
  ℕ, ◌+◌, ◌-◌, ◌*◌, ◌%◌, ◌^◌, Bool, true, false, ◌||◌, List, [], ◌∷◌, ◌++◌, Option, none, some,
  Bytes, length, take, drop, ltb, leb, ◌==◌, if◌then◌else◌, Outcome, ok, fault, undefined, aborted,
  out_of_range, endless, ◌>>=◌,
}

-- `unsigned` arithmetic wraps here.
abbrev pub u32_mod : ℕ
u32_mod = 2 ^ 32

pub record IoBuffer : Type 0 where
  pub chunks : List Bytes
  pub size : ℕ

-- What `append(IOBufferAbstractClass*)` may be given: no object, another `IOBuffer`, the buffer
-- itself, or an object of another class.
pub data Chunk : Type 0 where
  null : Chunk
  io_buffer : IoBuffer → Chunk
  this_buffer : Chunk
  other_class : Chunk

-- `IOBuffer()`.
abbrev pub empty : IoBuffer
empty = record { chunks = []; size = 0 }

-- `append(const T* pT, unsigned num)` for a type of `size_of` bytes; `memory` is what can be read
-- from `pT` on. A negative `int len`, or one past the memory, makes the copy undefined.
unfoldable pub append_data : IoBuffer → ℕ → Bytes → ℕ → Outcome IoBuffer
append_data b size_of memory num =
    let len = size_of * num % u32_mod in
    if leb (2 ^ 31) len || ltb (length memory) len
    then fault undefined
    else ok (record { chunks = b.chunks ++ take len memory ∷ []; size = (b.size + len) % u32_mod })

-- `IOBuffer(const char* data, unsigned elem_size)`.
abbrev pub io_buffer_of : Bytes → ℕ → Outcome IoBuffer
io_buffer_of memory elem_size = append_data empty 1 memory elem_size

-- A list that is walked while it grows is walked for ever.
append_self : IoBuffer → List Bytes → Outcome IoBuffer
append_self b [] = ok (record b { size = (b.size + b.size) % u32_mod })
append_self b (_ ∷ _) = fault endless

-- `append(IOBufferAbstractClass* chunk)`; it returns true whenever it returns.
unfoldable pub append : IoBuffer → Chunk → Outcome IoBuffer
unfolding append_self
append b null = ok b
append b (io_buffer e) =
    ok (record { chunks = b.chunks ++ e.chunks; size = (b.size + e.size) % u32_mod })
append b this_buffer = append_self b b.chunks
append b other_class = fault aborted

-- The loop of `pullDown`: the second chunk goes to the end of the first until `len` reaches `num`.
-- With no second chunk the end iterator is dereferenced.
pub gather : ℕ → ℕ → Bytes → List Bytes → Outcome (List Bytes)
gather num len first [] = if ltb len num then fault undefined else ok (first ∷ [])
gather num len first (next ∷ rest) =
    let more = gather num (len + length next) (first ++ next) rest in
    if ltb len num then more else ok (first ∷ next ∷ rest)

-- `&_chunks.begin()->at(0)`: the first chunk's bytes, as what can be read from the pointer.
front : IoBuffer → List Bytes → Outcome (IoBuffer × Option Bytes)
front b [] = fault undefined
front b ([] ∷ _) = fault out_of_range
front b ((c ∷ cs) ∷ rest) = ok (record b { chunks = (c ∷ cs) ∷ rest }, some (c ∷ cs))

pull_chunks : IoBuffer → ℕ → List Bytes → Outcome (IoBuffer × Option Bytes)
unfolding front gather
pull_chunks b num [] = fault undefined
pull_chunks b num (first ∷ rest) = gather num (length first) first rest >>= front b

-- `pullDown`; `none` is the null pointer.
unfoldable pub pull_down : IoBuffer → ℕ → Outcome (IoBuffer × Option Bytes)
unfolding pull_chunks
pull_down b num = if ltb b.size num || b.size == 0 then ok (b, none) else pull_chunks b num b.chunks

consume_from : IoBuffer → ℕ → List Bytes → Outcome (IoBuffer × Bool)
consume_from b num [] = fault undefined
consume_from b num (first ∷ rest) =
    let siz = length first in
    let left = (b.size + u32_mod - num) % u32_mod in
    if ltb siz num || siz == 0
    then ok (b, false)
    else if siz == num
    then ok (record { chunks = rest; size = left }, true)
    else ok (record { chunks = drop num first ∷ rest; size = left }, true)

-- `consume`: on an empty list the end iterator is dereferenced.
unfoldable pub consume : IoBuffer → ℕ → Outcome (IoBuffer × Bool)
unfolding consume_from
consume b num = consume_from b num b.chunks
