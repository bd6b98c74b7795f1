-- ===== src/CharDriver/Write.antt =====
-- `aesd_write` refines `append` of the specification.
use mathlib.Core.List.{append_assoc}
use advanced_embedded_softwa.Base.{
  ℕ, ◌+◌, ◌-◌, ◌^◌, ◌≤◌, ◌<◌, ◌≡◌, ◌≢◌, refl, sym, ap, ◌∙◌, true, false, ◌⊎◌, inl, inr, none, some,
  List, [], ◌∷◌, ◌++◌, arith, ◌==◌, length, take, drop, length-append, length-take,
  take-append_length,
}
use advanced_embedded_softwa.Base.Words.{Ptr, null, add_size}
use advanced_embedded_softwa.Kernel.{
  Heap, update, bytes_at, overwrite, Kernel, IsLawful, done, fail, enomem, Allocated, Reallocated,
  CopiedFrom,
}
use advanced_embedded_softwa.CircularBuffer.{BufferEntry}
use advanced_embedded_softwa.CircularBuffer.Inv.{IsValid, contents}
use advanced_embedded_softwa.CharDriver.{Device, Written, commit, finish, fill, make_space, write}
use advanced_embedded_softwa.CharDriver.Spec.{
  Log, append, Holds, Stores, Apart, Distinct, Represents, Stores-update, Apart-of_none,
  HoldsPending-Holds, size-HoldsPending, HoldsPending-cases,
}
use advanced_embedded_softwa.CharDriver.Commit.{commit-settle}

-- The bytes of a block behind a copy to its index `i`, up to the end of what was copied.
take-overwrite :
    (block old new pad : List ℕ) (i n : ℕ)
    → take i block ≡ old
    → length old + length new ≡ n
    → take n (overwrite block i (new ++ pad)) ≡ old ++ new
take-overwrite block old new pad i n front size =
    let rest : List ℕ = drop (i + length (new ++ pad)) block in
    let shape : overwrite block i (new ++ pad) ≡ (old ++ new) ++ (pad ++ rest) =
      rw front (simp append_assoc) in
    rw shape
      (take-append_length n (old ++ new) (pad ++ rest) (omega (arith, length-append old new)))

-- The block that the bytes of a call are to be copied to.
record Space (h : Heap) (dev : Device) (l : Log) (p : Ptr) : Type 0 where
  there : p ≢ null
  old : take dev.temp_entry.size (bytes_at h p) ≡ l.pending
  stores : Stores h (contents dev.temp_buffer) l.lines
  apart : Apart p (contents dev.temp_buffer)

-- What a call of `aesd_write` has done when `n` bytes of `buf` were copied.
pub record Wrote (l : Log) (buf : List ℕ) (n : ℕ) (w : Written) : Type 0 where
  pub in_range : n ≤ length buf
  pub ret : w.ret ≡ done n
  pub f_pos : w.f_pos ≡ 0
  pub log : Represents w.heap w.dev (append l (take n buf))

commit_results :
    (k : Kernel) (h : Heap) (dev : Device) (n : ℕ)
    → ((commit k h dev n).ret ≡ done n) × ((commit k h dev n).f_pos ≡ 0)
unfolding commit
commit_results k h dev n = ground arith

module _ {k : Kernel} (lawful : IsLawful k) (dev : Device) (l : Log) (buf : List ℕ) where
  finish-Wrote :
      (h : Heap) (p : Ptr) (r : ℕ × Heap)
      → CopiedFrom h p dev.temp_entry.size (length buf) buf r
      → Space h dev l p
      → IsValid dev.temp_buffer
      → Distinct (contents dev.temp_buffer)
      → dev.temp_entry.size ≡ length l.pending
      → length l.pending + length buf < 2 ^ 64
      → (n : ℕ) × Wrote l buf n (finish k dev p (length buf) r)
  unfolding finish append
  finish-Wrote h p _ (CopiedFrom.copied read skipped pad total short) space v d size small =
      let entry : BufferEntry = record {
        buffptr = p;
        size = add_size dev.temp_entry.size (length buf - skipped);
      } in
      let block : List ℕ = overwrite (bytes_at h p) dev.temp_entry.size (take read buf ++ pad) in
      let h' : Heap = update h p (some block) in
      let dev' : Device = record dev { temp_entry = entry } in
      let stored : h' p ≡ some block = ground arith in
      let taken : length (take read buf) ≡ read = omega (arith, length-take read buf) in
      let holds : Holds h' entry (l.pending ++ take read buf) = record {
        held = space.there;
        live = λ gone. cc (stored, gone);
        bytes = rw stored (
            take-overwrite (bytes_at h p) l.pending (take read buf) pad dev.temp_entry.size
              entry.size space.old (omega arith));
        size = omega (arith, length-append l.pending (take read buf));
      } in
      let results = commit_results k h' dev' (length buf - skipped) in
      (
        read,
        record {
          in_range = omega arith;
          ret = ground (arith, results);
          f_pos = results.1;
          log =
              commit-settle lawful h' dev' l.lines (l.pending ++ take read buf)
                (length buf - skipped) v
                (Stores-update h p (some block) _ l.lines space.apart space.stores) d
                (HoldsPending-Holds h' entry _ _ holds space.apart);
        },
      )

-- What `make_space` gives: NULL and the heap as it was, or a block for the bytes.
Made : Heap → Device → Log → Ptr × Heap → Type 0
Made h dev l (p, h') = ((p ≡ null) × (h' ≡ h)) ⊎ Space h' dev l p

kmalloc-Made :
    (h : Heap) (dev : Device) (l : Log) (n : ℕ) (r : Ptr × Heap)
    → Allocated h n r
    → Represents h dev l
    → dev.temp_entry.size ≡ 0
    → Made h dev l r
unfolding Made
kmalloc-Made h dev l n _ Allocated.exhausted rep none_yet = inl (refl, refl)
kmalloc-Made h dev l n _ (Allocated.fresh p block there free size) rep none_yet =
    let apart = Apart-of_none h p _ l.lines free rep.stores in
    inr (record {
      there = there;
      old = rw none_yet (
          sym (
            length_zero l.pending
              (sym (size-HoldsPending h dev.temp_entry _ l.pending rep.waits) ∙ none_yet)));
      stores = Stores-update h p (some block) _ l.lines apart rep.stores;
      apart = apart;
    })
  where
    length_zero : (xs : List ℕ) → length xs ≡ 0 → xs ≡ []
    length_zero [] e = refl
    length_zero (x ∷ xs) e = absurd (omega arith)

krealloc-Made :
    (h : Heap) (dev : Device) (l : Log) (n : ℕ) (r : Ptr × Heap)
    → Reallocated h dev.temp_entry.buffptr n r
    → Represents h dev l
    → Holds h dev.temp_entry l.pending
    → Apart dev.temp_entry.buffptr (contents dev.temp_buffer)
    → dev.temp_entry.size ≤ n
    → Made h dev l r
unfolding Made
krealloc-Made h dev l n _ Reallocated.exhausted rep held apart fits = inl (refl, refl)
krealloc-Made h dev l n _ (Reallocated.moved p block there where_to size keeps) rep held apart
      fits =
    let apart' : Apart p (contents dev.temp_buffer) = elim where_to [
      | inl free ↦ Apart-of_none h p _ l.lines free rep.stores
      | inr same ↦ rw same apart
    ] in
    let long : dev.temp_entry.size ≤ length (bytes_at h dev.temp_entry.buffptr) = omega (
      arith,
      held.size,
      ap length held.bytes,
      length-take dev.temp_entry.size (bytes_at h dev.temp_entry.buffptr),
    ) in
    let h' : Heap = update (update h dev.temp_entry.buffptr none) p (some block) in
    let stored : h' p ≡ some block = ground arith in
    inr (record {
      there = there;
      old = rw stored (keeps dev.temp_entry.size fits long ∙ held.bytes);
      stores =
          Stores-update _ p (some block) _ l.lines apart'
            (Stores-update h dev.temp_entry.buffptr none _ l.lines apart rep.stores);
      apart = apart';
    })

module _ {k : Kernel} (lawful : IsLawful k) (h : Heap) (dev : Device) where
  make_space-Made :
      (l : Log) (count : ℕ)
      → Represents h dev l
      → length l.pending + count < 2 ^ 64
      → Made h dev l (make_space k h dev.temp_entry count)
  unfolding make_space
  make_space-Made l count rep small =
      elim (HoldsPending-cases h dev.temp_entry _ l.pending rep.waits) [
        | inl none_yet ↦
            let fresh : (dev.temp_entry.size == 0) ≡ true = ground arith in
            rw fresh (kmalloc-Made h dev l count _ (lawful.kmalloc_law h count) rep none_yet)
        | inr (held, apart, some_wait) ↦
            let total : add_size dev.temp_entry.size count ≡ dev.temp_entry.size + count =
              omega (arith, held.size) in
            let waits : (dev.temp_entry.size == 0) ≡ false = ground arith in
            rw (waits, total)
              (krealloc-Made h dev l (dev.temp_entry.size + count) _
                (lawful.krealloc_law h dev.temp_entry.buffptr (dev.temp_entry.size + count)) rep
                held apart (omega arith))
      ]

-- A call of `aesd_write` that gets the lock, on a device that stands for a log, either gets no
-- memory and returns ENOMEM, or copies the first `n` of the bytes it is given, returns `n`, sets
-- the position to 0 and leaves a device that stands for the log with those bytes appended: the
-- command that they complete, if they hold a newline, behind the nine newest.
pub write_refines :
    (k : Kernel) (h : Heap) (dev : Device) (l : Log) (buf : List ℕ) (f_pos : ℕ)
    → IsLawful k
    → k.locks ≡ true
    → Represents h dev l
    → length l.pending + length buf < 2 ^ 64
    → let w = write k h dev buf (length buf) f_pos in
      (((make_space k h dev.temp_entry (length buf)).0 ≡ null) × (w.ret ≡ fail enomem))
      ⊎ ((n : ℕ) × Wrote l buf n w)
unfolding write fill Made
write_refines k h dev l buf f_pos lawful locked rep small =
    elim (make_space-Made lawful h dev l (length buf) rep small) [
      | inl (out, same) ↦
          let gone : ((make_space k h dev.temp_entry (length buf)).0 == null) ≡ true =
            ground arith in
          inl (out, simp (locked, gone))
      | inr space ↦
          let there : ((make_space k h dev.temp_entry (length buf)).0 == null) ≡ false =
            ground (arith, space.there) in
          inr (
            simp (locked, there)
              (finish-Wrote lawful dev l buf _ _ _
                (lawful.copy_from_user_law (make_space k h dev.temp_entry (length buf)).1
                  (make_space k h dev.temp_entry (length buf)).0 dev.temp_entry.size (length buf)
                  buf)
                space rep.valid rep.distinct
                (size-HoldsPending h dev.temp_entry _ l.pending rep.waits) small))
    ]

-- Without a block the heap is as it was.
pub heap_without_space :
    (k : Kernel) (h : Heap) (dev : Device) (l : Log) (count : ℕ)
    → IsLawful k
    → Represents h dev l
    → length l.pending + count < 2 ^ 64
    → (make_space k h dev.temp_entry count).0 ≡ null
    → (make_space k h dev.temp_entry count).1 ≡ h
unfolding Made
heap_without_space k h dev l count lawful rep small out =
    elim (make_space-Made lawful h dev l count rep small) [
      | inl (_, same) ↦ same
      | inr space ↦ absurd (space.there out)
    ]
