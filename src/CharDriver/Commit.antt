-- ===== src/CharDriver/Commit.antt =====
-- The end of `aesd_write`: a complete command enters the circular buffer.
use advanced_embedded_softwa.Base.{
  ℕ, ◌≡◌, refl, sym, ap, ◌∙◌, true, false, inl, inr, none, List, [], ◌∷◌, ◌++◌, arith, ◌==◌, ltb,
  if◌then◌else◌, length, take, Bool-cases,
}
use advanced_embedded_softwa.Base.Words.{Ptr, null}
use advanced_embedded_softwa.Kernel.{Heap, update, bytes_at, Kernel, IsLawful}
use advanced_embedded_softwa.CircularBuffer
use advanced_embedded_softwa.CircularBuffer.{BufferEntry, empty_entry}
use advanced_embedded_softwa.CircularBuffer.Inv.{IsValid, contents, add_entry-IsValid}
use advanced_embedded_softwa.CircularBuffer.Add.{make_room, evicted, contents-add_entry}
use advanced_embedded_softwa.CharDriver.{Device, has_newline, commit}
use advanced_embedded_softwa.CharDriver.Spec.{
  settle, Holds, Stores, Apart, Distinct, HoldsPending, Represents, Holds-update, Stores-update,
  Stores-append, Distinct-append, length-Stores, bytes-HoldsPending,
}

-- The heap once the entry that has to make room is freed.
abbrev without : Heap → Ptr → Heap
without h old = if old == null then h else update h old none

-- The entries that stay keep their lines, and so does a block apart from all.
record Spare (h : Heap) (es : List BufferEntry) (ls : List (List ℕ)) (e : BufferEntry) (l : List ℕ)
    : Type 0 where
  stores : Stores (without h (evicted es)) (make_room es) (make_room ls)
  distinct : Distinct (make_room es)
  apart : Apart e.buffptr (make_room es)
  holds : Holds (without h (evicted es)) e l

make_room-Spare :
    (h : Heap) (es : List BufferEntry) (ls : List (List ℕ)) (e : BufferEntry) (l : List ℕ)
    → Stores h es ls
    → Distinct es
    → Apart e.buffptr es
    → Holds h e l
    → Spare h es ls e l
make_room-Spare h [] [] e l s d a held = record {
  stores = tt;
  distinct = tt;
  apart = tt;
  holds = held;
}
make_room-Spare h [] (m ∷ ls) e l s d a held = absurd s
make_room-Spare h (f ∷ es) [] e l s d a held = absurd s
make_room-Spare h (f ∷ es) (m ∷ ls) e l s d a held =
    let same : length es ≡ length ls = length-Stores h es ls s.1 in
    elim (Bool-cases (ltb (length (f ∷ es)) 10)) [
      | inl few ↦
          let few' : ltb (length (m ∷ ls)) 10 ≡ true = rw same at few in
          record {
            stores = rw (few, few') s;
            distinct = rw few d;
            apart = rw few a;
            holds = rw few held;
          }
      | inr many ↦
          let many' : ltb (length (m ∷ ls)) 10 ≡ false = rw same at many in
          let there : (f.buffptr == null) ≡ false = ground (arith, s.0.held) in
          record {
            stores = rw (many, many', there) (Stores-update h f.buffptr none es ls d.0 s.1);
            distinct = rw many d.1;
            apart = rw many a.1;
            holds = rw (many, there) (Holds-update h f.buffptr none e l (λ q. a.0 (sym q)) held);
          }
    ]

module _ {k : Kernel} (lawful : IsLawful k) (h : Heap) (dev : Device) (lines : List (List ℕ)) where
  -- A pending entry with a newline is added, and the block that it replaces is given back.
  commit_newline :
      (p : List ℕ) (retval : ℕ)
      → IsValid dev.temp_buffer
      → Spare h (contents dev.temp_buffer) lines dev.temp_entry p
      → has_newline (take dev.temp_entry.size (bytes_at h dev.temp_entry.buffptr)) ≡ true
      → Represents
          (commit k h dev retval).heap
          (commit k h dev retval).dev
          (record { lines = make_room lines ++ (p ∷ []); pending = [] })
  unfolding commit
  commit_newline p retval v room found =
      let old : Ptr = (CircularBuffer.add_entry dev.temp_buffer dev.temp_entry).0 in
      let added = contents-add_entry v dev.temp_entry in
      let gone : (if old == null then h else k.kfree h old)
          ≡ without h (evicted (contents dev.temp_buffer)) =
        ground (arith, added.1, lawful.kfree_law h old) in
      rw found (record {
        valid = add_entry-IsValid v dev.temp_entry;
        stores = rw (gone, added.0) (Stores-append _ _ _ dev.temp_entry p room.stores room.holds);
        distinct = rw added.0 (Distinct-append _ dev.temp_entry room.distinct room.apart);
        waits = refl;
      })

  -- Whatever waits, `commit` leaves the device with the log that settles it.
  pub commit-settle :
      (p : List ℕ) (retval : ℕ)
      → IsValid dev.temp_buffer
      → Stores h (contents dev.temp_buffer) lines
      → Distinct (contents dev.temp_buffer)
      → HoldsPending h dev.temp_entry (contents dev.temp_buffer) p
      → Represents (commit k h dev retval).heap (commit k h dev retval).dev (settle lines p)
  unfolding commit settle has_newline
  commit-settle [] retval v s d w =
      rw (bytes-HoldsPending h dev.temp_entry (contents dev.temp_buffer) [] w)
        (record { valid = v; stores = s; distinct = d; waits = w })
  commit-settle (c ∷ cs) retval v s d w = elim (Bool-cases (has_newline (c ∷ cs))) [
    | inl found ↦ rw found (
        commit_newline (c ∷ cs) retval v
          (make_room-Spare h _ lines dev.temp_entry (c ∷ cs) s d w.1 w.0)
          (ap has_newline w.0.bytes ∙ found))
    | inr plain ↦ rw (w.0.bytes, plain) (record { valid = v; stores = s; distinct = d; waits = w })
  ]
