-- ===== src/Server.antt =====
-- The socket server: assignments-3-and-later-saloni1307-master/server/aesdsocket.c, as it is built
-- for the character device (USE_AESD_CHAR_DEVICE). What the system calls give to a thread is the
-- record `Calls`. A call of memcpy or strchr on a block that is gone ends in `undefined`.
pub mod Recv
pub mod Send
pub mod Thread
pub mod Time
pub mod Main
mod Tests
use advanced_embedded_softwa.Base.{
  ℕ, zero, suc, ◌+◌, ◌-◌, Bool, true, false, Option, none, some, List, [], ◌∷◌, ◌++◌, ltb, ◌==◌,
  not, if◌then◌else◌, length, take, drop,
}

-- BUFFER_MAX
abbrev pub buffer_max : ℕ
buffer_max = 100

abbrev pub newline : ℕ
newline = 10

-- `strchr(s, '\n') != NULL`: a newline before the first NUL.
unfoldable pub finds_newline : List ℕ → Bool
finds_newline [] = false
finds_newline (c ∷ s) =
    let rest = finds_newline s in if c == newline then true else (if c == 0 then false else rest)

-- What `realloc` does: the caller drops its result, and keeps the old pointer.
pub data Realloc : Type 0 where
  in_place moved failed : Realloc

-- Whether the old pointer is good after it.
abbrev pub stays : Realloc → Bool
stays in_place = true
stays moved = false
stays failed = false

-- What a call of `recv` gives.
pub data Received : Type 0 where
  bytes : List ℕ → Received
  recv_error : Received

-- How a loop, or the thread, ends: it may also wait for a call or go on for ever.
pub data Ended {ℓ} (A : Type ℓ) : Type ℓ where
  result : A → Ended A
  waiting endless undefined : Ended A

-- The block `read_buffer` after a copy of `got` bytes, which `malloc_size` may have to grow for:
-- the new `malloc_size`, or nothing where the copy goes to a block that is gone.
unfoldable pub grow : ℕ → ℕ → ℕ → Realloc → Option ℕ
grow malloc_size rdbuff_size got realloc =
    if ltb (malloc_size - rdbuff_size) got
    then (if stays realloc then some (malloc_size + got) else none)
    else some malloc_size

-- The loop that receives one line. `buffer` is the array on the stack with what lies behind it,
-- and `read_buffer` has the bytes that came so far.
unfoldable pub recv_loop : List (Received × Realloc) → List ℕ → List ℕ → ℕ → Ended (List ℕ)
recv_loop [] buffer read_buffer malloc_size = waiting
recv_loop ((recv_error, realloc) ∷ calls) buffer read_buffer malloc_size = undefined
recv_loop ((bytes got, realloc) ∷ calls) buffer read_buffer malloc_size =
    let buffer = got ++ drop (length got) buffer in
    let break_loop = if length got == 0 then true else finds_newline buffer in
    elim (grow malloc_size (length read_buffer) (length got) realloc) [
      | none ↦ undefined
      | some size ↦
          (let again = recv_loop calls buffer (read_buffer ++ got) size in
            if break_loop then result (read_buffer ++ got) else again)
    ]

-- What the inner loop of the sending side leaves: the bytes in `write_buffer`, those of the file
-- that are not read, and `realloc_size`.
pub record Line : Type 0 where
  pub chunk : List ℕ
  pub rest : List ℕ
  pub realloc_size : ℕ

-- `realloc_size` after the inner loop has looked whether the line may need more memory.
unfoldable pub grow_line : ℕ → ℕ → Realloc → Option ℕ
grow_line realloc_size required realloc =
    if ltb realloc_size required
    then (if stays realloc then some (realloc_size + required) else none)
    else some realloc_size

-- Whether `new_line` is set after a look at `chunk`: no look is taken at a single byte. `fresh` is
-- what the new `write_buffer` holds, and what lies behind it.
unfoldable pub look : List ℕ → Bool → List ℕ → Bool
look fresh found chunk =
    if ltb 1 (length chunk) then finds_newline (chunk ++ drop (length chunk) fresh) else found

-- The inner loop, which reads the file byte by byte; at its end it reads nothing.
unfoldable pub read_line : List ℕ → Realloc → ℕ → ℕ → Bool → List ℕ → List ℕ → Ended Line
read_line fresh realloc required realloc_size found chunk [] =
    elim (grow_line realloc_size required realloc) [
      | none ↦ undefined
      | some size ↦
          if look fresh found chunk
          then result record { chunk = chunk; rest = []; realloc_size = size }
          else endless
    ]
read_line fresh realloc required realloc_size found chunk (c ∷ file) =
    let longer = chunk ++ (c ∷ []) in
    elim (grow_line realloc_size required realloc) [
      | none ↦ undefined
      | some size ↦
          (let again =
              read_line fresh realloc required size (look fresh found longer) longer file in
            if look fresh found longer
            then result record { chunk = longer; rest = file; realloc_size = size }
            else again)
    ]

-- What the system calls of one pass of the sending loop give: `sends` is what `send` returns for so
-- many bytes, nothing for -1.
pub record Pass : Type 0 where
  pub allocated : Bool
  pub fresh : List ℕ
  pub realloc : Realloc
  pub sends : ℕ → Option ℕ

-- Whether a call that returns a count returned just this one.
abbrev pub returned : Option ℕ → ℕ → Bool
returned none n = false
returned (some k) n = k == n

-- What a call of `write` took of the bytes that it was given.
abbrev pub taken_in : Option ℕ → List ℕ → List ℕ
taken_in none given = []
taken_in (some k) given = take k given

-- How the sending loop is left, and what it has sent in whole chunks.
pub record Sent : Type 0 where
  pub complete : Bool
  pub sent : List ℕ

-- The loop that sends the file, from its start, up to `end_pos` bytes, where `end_pos k` is what the
-- loop finds in that variable, which all threads share, `k` rounds from now. `cur_pos` is the size of
-- the last chunk, as in the source.
unfoldable pub send_loop : List Pass → (ℕ → ℕ) → ℕ → ℕ → Bool → List ℕ → List ℕ → Ended Sent
send_loop [] end_pos cur_pos realloc_size found sent file =
    if ltb (length sent) (end_pos 0)
    then waiting
    else result record { complete = true; sent = sent }
send_loop (pass ∷ passes) end_pos cur_pos realloc_size found sent file =
    if ltb (length sent) (end_pos 0)
    then (if pass.allocated
        then elim (read_line pass.fresh pass.realloc (end_pos 0 - cur_pos) realloc_size found []
            file) [
              | result line ↦
                  (let again =
                      send_loop passes (λ k. end_pos (suc k)) (length line.chunk) line.realloc_size
                        true (sent ++ line.chunk) line.rest in
                    if returned (pass.sends (length line.chunk)) (length line.chunk)
                    then again
                    else result record { complete = false; sent = sent })
              | waiting ↦ waiting
              | endless ↦ endless
              | undefined ↦ undefined
            ]
        else result record { complete = false; sent = sent })
    else result record { complete = true; sent = sent }

-- What the system calls give to a thread: `on_stack` is what its array and the memory behind it
-- hold at first, `writes` what `write` returns for so many bytes, and `file` the bytes that `read`
-- finds after the seek to the start. `shared n k` is `end_pos` as the sending loop finds it in round `k`,
-- if the thread has left `n` in it: other threads add to it.
pub record Calls : Type 0 where
  pub opened : Bool
  pub allocated : Bool
  pub on_stack : List ℕ
  pub recvs : List (Received × Realloc)
  pub writes : ℕ → Option ℕ
  pub file : List ℕ → List ℕ
  pub passes : List Pass
  pub shared : ℕ → ℕ → ℕ

-- What a thread leaves: `data_mutex` held or not, its two descriptors closed or not, its
-- `thread_complete`, what it wrote to the file and sent to the client, and `end_pos` as it left it.
pub record Left : Type 0 where
  pub holds_mutex : Bool
  pub closed : Bool
  pub thread_complete : Bool
  pub written : List ℕ
  pub sent : List ℕ
  pub end_pos : ℕ

-- The thread after its write: the sending loop, and the end.
unfoldable pub send_back : Calls → ℕ → List ℕ → Ended Left
send_back calls end_pos written =
    elim (send_loop calls.passes (calls.shared end_pos) 0 buffer_max false []
      (calls.file written)) [
        | result s ↦ result record {
          holds_mutex = false;
          closed = s.complete;
          thread_complete = s.complete;
          written = written;
          sent = s.sent;
          end_pos = end_pos;
        }
        | waiting ↦ waiting
        | endless ↦ endless
        | undefined ↦ undefined
      ]

-- `thread_func`, from the `end_pos` that it finds on, once it has got the mutex.
unfoldable pub thread_func : Calls → ℕ → Ended Left
thread_func calls end_pos =
    if calls.opened
    then (if calls.allocated
        then elim (recv_loop calls.recvs calls.on_stack [] buffer_max) [
          | result line ↦
              if returned (calls.writes (length line)) (length line)
              then send_back calls (end_pos + length line) line
              else result record {
                holds_mutex = true;
                closed = false;
                thread_complete = false;
                written = taken_in (calls.writes (length line)) line;
                sent = [];
                end_pos = end_pos;
              }
          | waiting ↦ waiting
          | endless ↦ endless
          | undefined ↦ undefined
        ]
        else undefined)
    else result record {
      holds_mutex = false;
      closed = false;
      thread_complete = false;
      written = [];
      sent = [];
      end_pos = end_pos;
    }

-- `struct timespec`
pub record Timespec : Type 0 where
  pub tv_sec : ℕ
  pub tv_nsec : ℕ

abbrev pub second : ℕ
second = 1000000000

-- `timespec_add`
unfoldable pub timespec_add : Timespec → Timespec → Timespec
timespec_add a b =
    let sec = a.tv_sec + b.tv_sec in
    let nsec = a.tv_nsec + b.tv_nsec in
    if ltb second nsec
    then record { tv_sec = sec + 1; tv_nsec = nsec - second }
    else record { tv_sec = sec; tv_nsec = nsec }
