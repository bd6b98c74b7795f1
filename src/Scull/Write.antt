-- ===== src/Scull/Write.antt =====
-- What a write to the memory device does on each of its ways out.
use advanced_embedded_softwa.Base.{
  ℕ, ◌+◌, ◌-◌, ◌≤◌, ◌<◌, ◌≡◌, refl, ap, ◌∙◌, Bool, false, inl, inr, Option, none, some, List, arith,
  ltb, if◌then◌else◌, length, min, get_or, set, take, Bool-cases,
}
use advanced_embedded_softwa.Kernel.{Ret, efault, enomem, erestartsys, done, fail, overwrite}
use advanced_embedded_softwa.Scull.{
  Block, Qset, Dev, place, slot, with_block, Source, write_block, write, put_array, Result,
}
use advanced_embedded_softwa.Scull.Address.{q_pos_range}
use advanced_embedded_softwa.Scull.Slots.{
  follow-slot, follow-allocs, follow-get_elem?, with_array-none, with_array-allocs, with_block-none,
}
use advanced_embedded_softwa.Scull.Inv.{IsValid}
use advanced_embedded_softwa.Scull.Cells.{cell, InRange, new_cell}
use advanced_embedded_softwa.Scull.Cases.{target, followed, Reached, write_cases}
use advanced_embedded_softwa.Scull.Put.{array-slot, block-slot, reached-base, length-reached}
use advanced_embedded_softwa.Scull.Change.{cell_put}

abbrev pub max : ℕ → ℕ → ℕ
max a b = if ltb a b then b else a

-- How many bytes a write may put into the block of the position.
abbrev pub limit : Dev → ℕ → ℕ → ℕ
limit dev pos count = min count (dev.quantum - (place dev.quantum dev.qset pos).q_pos)

-- What a write says of the byte at `i`, by what it returns: it gets the lock, and needs at most three
-- calls of `kmalloc` besides those for the items before its own.
abbrev pub WriteSays : Bool → ℕ → Dev → ℕ → Source → ℕ → Ret → Result → Type 0
WriteSays locks allocs dev pos source i ret r = elim ret [
  | done n ↦
      (n ≡ limit dev pos source.count)
      × (r.pos ≡ pos + n)
      × (r.dev.size ≡ max dev.size (pos + n))
      × (cell r.dev i ≡ new_cell dev source.fresh source.buf pos n i)
  | fail efault ↦
      (source.readable < limit dev pos source.count)
      × (r.pos ≡ pos)
      × (r.dev.size ≡ dev.size)
      × (cell r.dev i ≡ new_cell dev source.fresh source.buf pos source.readable i)
  | fail enomem ↦
      (allocs < (place dev.quantum dev.qset pos).item + 3)
      × (r.pos ≡ pos)
      × (r.dev.size ≡ dev.size)
      × (cell r.dev i ≡ cell dev i)
  | fail erestartsys ↦ (locks ≡ false) × (r.pos ≡ pos) × (r.dev ≡ dev)
  | fail _ ↦ ⊥
]

abbrev pub WriteEnds : Bool → ℕ → Dev → ℕ → Source → ℕ → Result → Type 0
WriteEnds locks allocs dev pos source i r = WriteSays locks allocs dev pos source i r.ret r

module _ (locks : Bool) (dev : Dev) (v : IsValid dev) (allocs pos i : ℕ) (source : Source)
    (size : length source.fresh ≡ dev.quantum) (given : source.count ≤ length source.buf)
    (here : InRange dev pos) (there : InRange dev i) where
  -- Lists with the same blocks show the same byte.
  same_sets :
      (sets : List Qset)
      → ((t s : ℕ) → slot sets t s ≡ slot dev.sets t s)
      → cell (record dev { sets = sets }) i ≡ cell dev i
  unfolding cell
  same_sets sets slots = rw (slots) refl

  at_block :
      (q : Qset) (quanta : List (Option Block)) (left left' : ℕ) (bytes : Block)
      → Reached allocs dev pos q quanta left
      → with_block source.fresh left (get_or quanta (target allocs dev pos).s_pos none)
        ≡ (some bytes, left')
      → WriteEnds locks allocs dev pos source i (
          write_block dev
            (followed allocs dev pos).sets
            (target allocs dev pos)
            pos
            left'
            source
            quanta
            bytes)
  unfolding write_block
  at_block q quanta left left' bytes reached made =
      let p = target allocs dev pos in
      let n =
        if ltb (dev.quantum - p.q_pos) source.count then dev.quantum - p.q_pos else source.count in
      let inside : p.q_pos < dev.quantum =
        q_pos_range dev.quantum dev.qset v.some_bytes v.some_blocks pos in
      let least : n ≡ limit dev pos source.count = ground arith in
      let old = reached-base allocs dev pos v q quanta left reached source bytes left' made in
      let full =
        ap length old
        ∙ length-reached allocs dev pos v q quanta left reached source bytes left' size made in
      let put : (m : ℕ)
          → m ≤ n
          → (dev_size : ℕ)
          → cell
              (record dev {
                sets =
                    put_array (followed allocs dev pos).sets p.item
                      (set quanta p.s_pos (some (overwrite bytes p.q_pos (take m source.buf))));
                size = dev_size;
              })
              i
            ≡ new_cell dev source.fresh source.buf pos m i =
        λ m within dev_size.
          cell_put dev v pos i here there _ source.fresh source.buf m dev_size full (omega arith)
            (omega arith)
            (block-slot allocs dev pos v q quanta left reached _ (place dev.quantum dev.qset i)
              ∙ rw old refl) in
      elim (Bool-cases (ltb source.readable n)) [
        | inl short ↦ rw short (
            let less : source.readable < n = ground arith in
            (omega arith, refl, refl, put source.readable (omega arith) dev.size))
        | inr all ↦ rw all (least, refl, refl, put n (omega arith) _)
      ]

  -- A write to a valid device, with a new block of its size and a buffer of at least `count` bytes.
  -- The position of the write and that of the byte `i` that is looked at lie in items whose index is
  -- below 2^32: from there on the `int` item wraps, and a write lands on the bytes of a lower item.
  -- It ends in one of four ways. It writes `count` bytes or what is left of the block, moves the
  -- position by as many and raises the size to reach it; the byte at such a position `i` is then the
  -- one written there, or else the one that it was, where a block that had to be made shows what it
  -- held. It fails with EFAULT if fewer can be read, which are written all the same. It fails with
  -- ENOMEM, every byte as before, only if `kmalloc` succeeded fewer times than the items up to this
  -- one, an array and a block may need. It fails with ERESTARTSYS, the device as before, without the
  -- lock. After a failure position and size are as before.
  pub write-cell : WriteEnds locks allocs dev pos source i (write locks allocs dev pos source)
  write-cell =
      let p = target allocs dev pos in
      let items = follow-allocs p.item allocs dev.sets in
      write_cases allocs dev pos (WriteEnds locks allocs dev pos source i) source locks
        (λ lost. (lost, refl, refl))
        (λ e. (
          omega (arith, follow-get_elem? p.item allocs dev.sets e),
          refl,
          refl,
          same_sets _ (follow-slot p.item allocs dev.sets),
        ))
        (λ q left at_q e. (
          omega (arith, with_array-none dev.qset (followed allocs dev pos).allocs left q.quanta e),
          refl,
          refl,
          same_sets _ (follow-slot p.item allocs dev.sets),
        ))
        (λ q quanta left left' reached e. (
          omega (
            arith,
            with_block-none source.fresh left left' (get_or quanta p.s_pos none) e,
            with_array-allocs dev.qset (followed allocs dev pos).allocs left q.quanta (some quanta)
                reached.array,
          ),
          refl,
          refl,
          same_sets _ (array-slot allocs dev pos v q quanta left reached),
        ))
        at_block
