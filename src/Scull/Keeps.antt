-- ===== src/Scull/Keeps.antt =====
-- Every call keeps the invariant of the device.
use advanced_embedded_softwa.Base.{
  ℕ, ◌+◌, ◌-◌, ◌<◌, ◌≤◌, ◌≡◌, refl, ◌∙◌, Bool, true, false, inl, inr, Option, none, some, List, [],
  arith, ltb, leb, if◌then◌else◌, length, get_elem?, get_or, set, take, Bool-cases, length-set,
  length-take,
}
use advanced_embedded_softwa.Kernel.{overwrite, done}
use advanced_embedded_softwa.Scull.{
  Block, Qset, Dev, Place, place, Followed, follow, slot, put_array, with_array, with_block, Source,
  write_block, write_array, write, read, read_block, Result, no_memory, cut,
}
use advanced_embedded_softwa.Scull.Address.{q_pos_range}
use advanced_embedded_softwa.Kernel.Overwrite.{length-overwrite}
use advanced_embedded_softwa.Scull.Inv.{
  Blocks, Fits, AllFit, IsValid, IsBlock, follow-AllFit, get_elem?-Fits, put_array-AllFit,
  set-Blocks, with_array-Fits, with_block-IsBlock, get_or-IsBlock,
}

-- The copy of a read leaves the device.
pub read_block-dev :
    (dev : Dev) (pos count room allocs q_pos : ℕ) (bytes : Block)
    → (read_block dev pos count room allocs q_pos bytes).dev ≡ dev
unfolding read_block
read_block-dev dev pos count room allocs q_pos bytes =
    let n = if ltb (dev.quantum - q_pos) count then dev.quantum - q_pos else count in
    elim (Bool-cases (ltb room n)) [ inl short ↦ rw short refl | inr all ↦ rw all refl ]

module _ (dev : Dev) (v : IsValid dev) where
  -- Another list of which all fits.
  with_sets :
      (sets : List Qset) (size : ℕ)
      → AllFit dev.quantum dev.qset sets
      → IsValid (record dev { sets = sets; size = size })
  with_sets sets size f = record {
    some_bytes = v.some_bytes;
    some_blocks = v.some_blocks;
    itemsize = v.itemsize;
    fit = f;
  }

  module _ (source : Source) (size : length source.fresh ≡ dev.quantum) (sets : List Qset)
      (p : Place) (quanta : List (Option Block)) (f : AllFit dev.quantum dev.qset sets)
      (array : length quanta ≡ dev.qset) (b : Blocks dev.quantum quanta) where
    overwritten-AllFit :
        (bytes : Block) (n : ℕ)
        → length bytes ≡ dev.quantum
        → p.q_pos + n ≤ dev.quantum
        → AllFit dev.quantum dev.qset (
            put_array sets p.item
              (set quanta p.s_pos (some (overwrite bytes p.q_pos (take n source.buf)))))
    overwritten-AllFit bytes n full inside =
        put_array-AllFit dev.quantum dev.qset sets p.item _ f (length-set quanta p.s_pos _ ∙ array)
          (set-Blocks dev.quantum quanta p.s_pos _ b (
            length-overwrite bytes p.q_pos (take n source.buf)
              (omega (arith, length-take n source.buf))
            ∙ full))

    write_block-IsValid :
        (bytes : Block) (pos allocs : ℕ)
        → length bytes ≡ dev.quantum
        → p.q_pos < dev.quantum
        → IsValid (write_block dev sets p pos allocs source quanta bytes).dev
    unfolding write_block
    write_block-IsValid bytes pos allocs full inside =
        let n =
          if ltb (dev.quantum - p.q_pos) source.count
          then dev.quantum - p.q_pos
          else source.count in
        let within : p.q_pos + n ≤ dev.quantum = ground arith in
        elim (Bool-cases (ltb source.readable n)) [
          | inl short ↦
              rw short (
                with_sets _ dev.size (overwritten-AllFit bytes source.readable full (ground arith)))
          | inr all ↦ rw all (with_sets _ _ (overwritten-AllFit bytes n full within))
        ]

    write_array-IsValid :
        (pos allocs : ℕ)
        → p.q_pos < dev.quantum
        → IsValid (write_array dev sets p pos allocs source quanta).dev
    unfolding write_array
    write_array-IsValid pos allocs inside =
        go (with_block source.fresh allocs (get_or quanta p.s_pos none)).0 (
          with_block-IsBlock dev.quantum allocs source.fresh (get_or quanta p.s_pos none) size
            (get_or-IsBlock dev.quantum quanta p.s_pos b))
      where
        left : ℕ
        left = (with_block source.fresh allocs (get_or quanta p.s_pos none)).1

        go :
            (block : Option Block)
            → IsBlock dev.quantum block
            → IsValid
                (elim block as (λ x. Result) [
                  | none ↦ no_memory dev (put_array sets p.item quanta) pos left
                  | some bytes ↦ write_block dev sets p pos left source quanta bytes
                ]).dev
        go none full =
            with_sets _ dev.size
              (put_array-AllFit dev.quantum dev.qset sets p.item quanta f array b)
        go (some bytes) full = write_block-IsValid bytes pos left full inside

  -- A write with a new block of the right size.
  pub write-IsValid :
      (locks : Bool) (allocs pos : ℕ) (source : Source)
      → length source.fresh ≡ dev.quantum
      → IsValid (write locks allocs dev pos source).dev
  unfolding write
  write-IsValid false allocs pos source size = v
  write-IsValid true allocs pos source size = found (get_elem? r.sets p.item) refl
    where
      p : Place
      p = place dev.quantum dev.qset pos

      r : Followed
      r = follow p.item allocs dev.sets

      f : AllFit dev.quantum dev.qset r.sets
      f = follow-AllFit dev.quantum dev.qset p.item allocs dev.sets v.fit

      inside : p.q_pos < dev.quantum
      inside = q_pos_range dev.quantum dev.qset v.some_bytes v.some_blocks pos

      left : Qset → ℕ
      left q = (with_array dev.qset r.allocs q.quanta).1

      made :
          (q : Qset) (array : Option (List (Option Block)))
          → Fits dev.quantum dev.qset array
          → IsValid
              (elim array as (λ x. Result) [
                | none ↦ no_memory dev r.sets pos (left q)
                | some quanta ↦ write_array dev r.sets p pos (left q) source quanta
              ]).dev
      made q none fits = with_sets r.sets dev.size f
      made q (some quanta) fits =
          write_array-IsValid source size r.sets p quanta f fits.0 fits.1 pos (left q) inside

      found :
          (o : Option Qset)
          → get_elem? r.sets p.item ≡ o
          → IsValid
              (elim o as (λ x. Result) [
                | none ↦ no_memory dev r.sets pos r.allocs
                | some q ↦
                    (let (array, left) = with_array dev.qset r.allocs q.quanta in
                      elim array [
                        | none ↦ no_memory dev r.sets pos left
                        | some quanta ↦ write_array dev r.sets p pos left source quanta
                      ])
              ]).dev
      found none e = with_sets r.sets dev.size f
      found (some q) e = made q (with_array dev.qset r.allocs q.quanta).0 (
          with_array-Fits dev.quantum dev.qset r.allocs q.quanta
            (get_elem?-Fits dev.quantum dev.qset r.sets p.item q f e))

  -- A read may make items of the list; it changes nothing else.
  pub read-IsValid :
      (locks : Bool) (allocs pos count room : ℕ)
      → IsValid (read locks allocs dev pos count room).dev
  unfolding read
  read-IsValid false allocs pos count room = v
  read-IsValid true allocs pos count room = elim (Bool-cases (leb dev.size pos)) [
    | inl end ↦ rw end v
    | inr before ↦ rw before (go (slot r.sets p.item p.s_pos))
  ]
    where
      p : Place
      p = place dev.quantum dev.qset pos

      r : Followed
      r = follow p.item allocs dev.sets

      dev' : Dev
      dev' = record dev { sets = r.sets }

      valid : IsValid dev'
      valid =
          with_sets r.sets dev.size
            (follow-AllFit dev.quantum dev.qset p.item allocs dev.sets v.fit)

      go :
          (block : Option Block)
          → IsValid
              (elim block as (λ x. Result) [
                | none ↦ record {
                  ret = done 0;
                  delivered = [];
                  pos = pos;
                  dev = dev';
                  allocs = r.allocs;
                }
                | some bytes ↦
                    read_block dev' pos (cut dev.size pos count) room r.allocs p.q_pos bytes
              ]).dev
      go none = valid
      go (some bytes) =
          rw (read_block-dev dev' pos (cut dev.size pos count) room r.allocs p.q_pos bytes) valid
