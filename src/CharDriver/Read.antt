-- ===== src/CharDriver/Read.antt =====
-- `aesd_read` delivers the bytes of the log, in the order in which they were written.
use advanced_embedded_softwa.Base.{
  ℕ, zero, suc, ◌+◌, ◌-◌, ◌^◌, ◌%◌, ◌≤◌, ◌<◌, ◌≡◌, ◌≢◌, refl, sym, ap, ◌∙◌, true, false, ◌⊎◌, inl,
  inr, none, some, List, [], ◌∷◌, ◌++◌, arith, ◌==◌, ltb, if◌then◌else◌, length, take, drop, get_or,
  Bool-cases, length-append, length-drop, take-append_le, drop-append_le, drop-append_ge,
  take-drop-take,
}
use advanced_embedded_softwa.Base.Words.{sub_size, sub_size_of_le}
use advanced_embedded_softwa.Base.Window.{get_or-window, length-window}
use advanced_embedded_softwa.Kernel.{Heap, bytes_at, Kernel, IsLawful, done, fail, efault, CopiedTo}
use advanced_embedded_softwa.CircularBuffer.{BufferEntry, CircularBuffer, empty_entry, entry_at}
use advanced_embedded_softwa.CircularBuffer.Inv.{IsValid, contents, occupied}
use advanced_embedded_softwa.CircularBuffer.Find.{locate, total_size, slot, find-locate}
use advanced_embedded_softwa.CharDriver.{Device, ReadResult, read_copied, read_entry, read}
use advanced_embedded_softwa.CharDriver.Spec.{Log, Holds, Stores, Represents}

-- The lines one behind the other.
abbrev pub concat : List (List ℕ) → List ℕ
concat [] = []
concat (l ∷ ls) = l ++ concat ls

-- The entry `e`, number `i` of those that hold the lines, has the byte `off` of the lines at its
-- index `r`.
record Hit (h : Heap) (es : List BufferEntry) (ls : List (List ℕ)) (off i r : ℕ) (l rest : List ℕ)
    : Type 0 where
  found : locate es off ≡ some (i, r)
  below : i < length es
  holds : Holds h (get_or es i empty_entry) l
  inside : r < length l
  short : length l ≤ length (concat ls)
  follows : drop off (concat ls) ≡ drop r l ++ rest

total_size-Stores :
    (h : Heap) (es : List BufferEntry) (ls : List (List ℕ))
    → Stores h es ls
    → total_size es ≡ length (concat ls)
total_size-Stores h [] [] s = refl
total_size-Stores h [] (l ∷ ls) s = absurd s
total_size-Stores h (e ∷ es) [] s = absurd s
total_size-Stores h (e ∷ es) (l ∷ ls) s =
    omega (arith, total_size-Stores h es ls s.1, s.0.size, length-append l (concat ls))

locate-Hit :
    (h : Heap) (es : List BufferEntry) (ls : List (List ℕ)) (off : ℕ)
    → Stores h es ls
    → ((locate es off ≡ none) × (length (concat ls) ≤ off))
      ⊎ ((i r : ℕ) × (l rest : List ℕ) × Hit h es ls off i r l rest)
unfolding locate
locate-Hit h [] [] off s = inl (refl, omega arith)
locate-Hit h [] (l ∷ ls) off s = absurd s
locate-Hit h (e ∷ es) [] off s = absurd s
locate-Hit h (e ∷ es) (l ∷ ls) off s = elim (Bool-cases (ltb off e.size)) [
  | inl here ↦ inr (
    0,
    off,
    l,
    concat ls,
    record {
      found = rw here;
      below = omega arith;
      holds = s.0;
      inside = ground (arith, s.0.size);
      short = omega (arith, length-append l (concat ls));
      follows = drop-append_le off l (concat ls) (ground (arith, s.0.size));
    },
  )
  | inr later ↦
      let past : e.size ≤ off = ground arith in
      elim (locate-Hit h es ls (off - e.size) s.1) [
        | inl (missing, short) ↦
            inl (rw (later, missing), omega (arith, s.0.size, length-append l (concat ls)))
        | inr (i, r, m, rest, hit) ↦ inr (
          suc i,
          r,
          m,
          rest,
          record {
            found = rw (later, hit.found);
            below = omega (arith, hit.below);
            holds = hit.holds;
            inside = hit.inside;
            short = omega (arith, hit.short, length-append l (concat ls));
            follows =
                drop-append_ge off l (concat ls) (omega (arith, s.0.size))
                ∙ rw s.0.size hit.follows;
          },
        )
      ]
]

-- What a call of `aesd_read` at `f_pos`, with room for `count` bytes, may give of the bytes `all`.
pub data Reads (k : Kernel) (h : Heap) (all : List ℕ) (count f_pos : ℕ) (r : ReadResult)
    : Type 0 where
  -- behind the last byte: nothing, and the next read starts again from the first
  at_end :
      length all ≤ f_pos
      → r ≡ record { ret = done 0; f_pos = 0; delivered = [] }
      → Reads k h all count f_pos r
  -- the process has no memory there for some byte
  faulted :
      (p at n : ℕ)
      → (k.copy_to_user h p at n).0 ≢ 0
      → r.ret ≡ fail efault
      → r.f_pos ≡ f_pos
      → Reads k h all count f_pos r
  -- the next `n` bytes, at least one of them if there is room
  gave :
      (n : ℕ)
      → n ≤ count
      → f_pos + n ≤ length all
      → (count ≡ 0) ⊎ (0 < n)
      → r ≡ record { ret = done n; f_pos = f_pos + n; delivered = take n (drop f_pos all) }
      → Reads k h all count f_pos r

read_copied-Reads :
    (k : Kernel) (h : Heap) (p : ℕ) (all : List ℕ) (count f_pos n at : ℕ) (r : ℕ × List ℕ)
    → CopiedTo h p at n r
    → k.copy_to_user h p at n ≡ r
    → n ≤ count
    → f_pos + n ≤ length all
    → (count ≡ 0) ⊎ (0 < n)
    → take n (drop at (bytes_at h p)) ≡ take n (drop f_pos all)
    → Reads k h all count f_pos (read_copied n f_pos r)
unfolding read_copied
read_copied-Reads k h p all count f_pos n at _ (CopiedTo.copied sent zero total) e room in_all
      some_byte same =
    let whole : sent ≡ n = omega arith in gave n room in_all some_byte (rw (whole, same))
read_copied-Reads k h p all count f_pos n at _ (CopiedTo.copied sent (suc skipped) total) e room
      in_all some_byte same =
    let missing : (suc skipped == 0) ≡ false = ground arith in
    faulted p at n (rw e (omega arith)) (rw missing) (rw missing)

-- The slot of an entry in the array, from its place among the entries.
entry_at-slot :
    (b : CircularBuffer) (i : ℕ)
    → IsValid b
    → i < length (contents b)
    → get_or (contents b) i empty_entry ≡ entry_at b ((b.out_offs + i) % 10)
unfolding contents
entry_at-slot b i v below =
    get_or-window b.entry empty_entry 10 (occupied b) b.out_offs i v.out_range
      (omega (arith, length-window b.entry empty_entry 10 b.out_offs (occupied b)))

module _ {k : Kernel} (lawful : IsLawful k) (h : Heap) (dev : Device) (l : Log) where
  read_entry-Reads :
      (count f_pos i r : ℕ) (line rest : List ℕ)
      → Represents h dev l
      → Hit h (contents dev.temp_buffer) l.lines f_pos i r line rest
      → length (concat l.lines) < 2 ^ 31
      → Reads k h
          (concat l.lines)
          count
          f_pos
          (read_entry k h dev count f_pos (some (slot dev.temp_buffer.out_offs (i, r))))
  unfolding read_entry
  read_entry-Reads count f_pos i r line rest rep hit small =
      let entry : BufferEntry = get_or (contents dev.temp_buffer) i empty_entry in
      let bytes : List ℕ = bytes_at h entry.buffptr in
      let all : List ℕ = concat l.lines in
      let place = entry_at-slot dev.temp_buffer i rep.valid hit.below in
      let left : sub_size entry.size r ≡ length line - r =
        sub_size_of_le entry.size r (omega (arith, hit.holds.size, hit.short))
          (omega (arith, hit.holds.size, hit.inside))
        ∙ omega (arith, hit.holds.size) in
      let n : ℕ = if ltb count (sub_size entry.size r) then count else sub_size entry.size r in
      let n_le : n ≤ length line - r = ground (arith, left) in
      let remaining : length all - f_pos ≡ (length line - r) + length rest = omega (
        arith,
        ap length hit.follows,
        length-drop f_pos all,
        length-append (drop r line) rest,
        length-drop r line,
      ) in
      let same : take n (drop r bytes) ≡ take n (drop f_pos all) =
        sym (take-drop-take n r entry.size bytes (omega (arith, n_le, hit.holds.size, hit.inside)))
        ∙ ap (λ b. take n (drop r b)) hit.holds.bytes
        ∙ sym (take-append_le n (drop r line) rest (omega (arith, n_le, length-drop r line)))
        ∙ ap (take n) (sym hit.follows) in
      rw (← place) (
        read_copied-Reads k h entry.buffptr all count f_pos n r _
          (lawful.copy_to_user_law h entry.buffptr r n) refl (ground arith)
          (omega (arith, n_le, remaining, hit.inside)) (ground (arith, left, hit.inside)) same)

  -- A call of `aesd_read` that gets the lock, on a device that stands for a log of less than 2 GiB,
  -- always comes to an end. At a position behind the last byte of the commands it returns 0 and
  -- sets the position back to 0. Before it, it gives `n` bytes, `n` at most `count` and not 0
  -- unless `count` is: those that follow the position when the commands, oldest first, are put one
  -- behind the other; it returns `n` and moves the position on by `n`. Or the copy fails: EFAULT,
  -- and the position stays.
  pub read_refines :
      (count f_pos : ℕ)
      → k.locks ≡ true
      → Represents h dev l
      → length (concat l.lines) < 2 ^ 31
      → f_pos < 2 ^ 64
      → (r : ReadResult) × (read k h dev count f_pos ≡ some r)
        × Reads k h (concat l.lines) count f_pos r
  unfolding read read_entry
  read_refines count f_pos locked rep small in_range =
      let size = total_size-Stores h (contents dev.temp_buffer) l.lines rep.stores in
      let search = find-locate dev.temp_buffer f_pos rep.valid in_range (omega (arith, size)) in
      elim (locate-Hit h (contents dev.temp_buffer) l.lines f_pos rep.stores) [
        | inl (missing, past) ↦
            (read_entry k h dev count f_pos none, ground (arith, search), at_end past refl)
        | inr (i, r, line, rest, hit) ↦ (
          read_entry k h dev count f_pos (some (slot dev.temp_buffer.out_offs (i, r))),
          ground (arith, search, hit.found),
          read_entry-Reads count f_pos i r line rest rep hit small,
        )
      ]
