-- ===== src/Scull/Cases.antt =====
-- The ways through the calls of a device, for the proofs about all of them.
use advanced_embedded_softwa.Base.{
  ℕ, ◌≡◌, refl, Bool, true, false, inl, inr, Option, none, some, List, [], get_elem?, get_or,
  Bool-cases,
}
use advanced_embedded_softwa.Kernel.{fail, erestartsys}
use advanced_embedded_softwa.Scull.{
  Block, Qset, Dev, Place, place, Followed, follow, put_array, with_array, with_block, Source,
  write_block, write_array, write, Result, no_memory,
}

module _ (allocs : ℕ) (dev : Dev) (pos : ℕ) where
  abbrev pub target : Place
  target = place dev.quantum dev.qset pos

  abbrev pub followed : Followed
  followed = follow target.item allocs dev.sets

  -- The item of the position and its array, and how often `kmalloc` may still succeed.
  pub record Reached (q : Qset) (quanta : List (Option Block)) (left : ℕ) : Type 0 where
    pub item : get_elem? followed.sets target.item ≡ some q
    pub array : with_array dev.qset followed.allocs q.quanta ≡ (some quanta, left)

  -- A write ends without the lock, without the item, without its array, without its block, or with
  -- all of them.
  module _ (P : Result → Type 0) (source : Source) (locks : Bool)
      (unlocked : locks ≡ false
        → P (record {
          ret = fail erestartsys;
          delivered = [];
          pos = pos;
          dev = dev;
          allocs = allocs;
        }))
      (no_item : get_elem? followed.sets target.item ≡ none
        → P (no_memory dev followed.sets pos followed.allocs))
      (no_array : (q : Qset) (left : ℕ)
        → get_elem? followed.sets target.item ≡ some q
        → with_array dev.qset followed.allocs q.quanta ≡ (none, left)
        → P (no_memory dev followed.sets pos left))
      (no_block : (q : Qset) (quanta : List (Option Block)) (left left' : ℕ)
        → Reached q quanta left
        → with_block source.fresh left (get_or quanta target.s_pos none) ≡ (none, left')
        → P (no_memory dev (put_array followed.sets target.item quanta) pos left'))
      (at_block : (q : Qset) (quanta : List (Option Block)) (left left' : ℕ) (bytes : Block)
        → Reached q quanta left
        → with_block source.fresh left (get_or quanta target.s_pos none) ≡ (some bytes, left')
        → P (write_block dev followed.sets target pos left' source quanta bytes)) where
    array_cases :
        (q : Qset) (quanta : List (Option Block)) (left : ℕ)
        → Reached q quanta left
        → P (write_array dev followed.sets target pos left source quanta)
    unfolding write_array
    array_cases q quanta left reached =
        go (with_block source.fresh left (get_or quanta target.s_pos none)) refl
      where
        go :
            (b : Option Block × ℕ)
            → with_block source.fresh left (get_or quanta target.s_pos none) ≡ b
            → P (elim b.0 as (λ x. Result) [
              | none ↦ no_memory dev (put_array followed.sets target.item quanta) pos b.1
              | some bytes ↦ write_block dev followed.sets target pos b.1 source quanta bytes
            ])
        go (none, left') e = no_block q quanta left left' reached e
        go (some bytes, left') e = at_block q quanta left left' bytes reached e

    locked_cases : P (write true allocs dev pos source)
    unfolding write
    locked_cases = found (get_elem? followed.sets target.item) refl
      where
        made :
            (q : Qset)
            → get_elem? followed.sets target.item ≡ some q
            → (a : Option (List (Option Block)) × ℕ)
            → with_array dev.qset followed.allocs q.quanta ≡ a
            → P (elim a.0 as (λ x. Result) [
              | none ↦ no_memory dev followed.sets pos a.1
              | some quanta ↦ write_array dev followed.sets target pos a.1 source quanta
            ])
        made q at_q (none, left) e = no_array q left at_q e
        made q at_q (some quanta, left) e =
            array_cases q quanta left (record { item = at_q; array = e })

        found :
            (o : Option Qset)
            → get_elem? followed.sets target.item ≡ o
            → P (elim o as (λ x. Result) [
              | none ↦ no_memory dev followed.sets pos followed.allocs
              | some q ↦
                  (let (array, left) = with_array dev.qset followed.allocs q.quanta in
                    elim array [
                      | none ↦ no_memory dev followed.sets pos left
                      | some quanta ↦ write_array dev followed.sets target pos left source quanta
                    ])
            ])
        found none e = no_item e
        found (some q) e = made q e (with_array dev.qset followed.allocs q.quanta) refl

    pub write_cases : P (write locks allocs dev pos source)
    unfolding write
    write_cases = elim (Bool-cases locks) [
      | inl got ↦ rw got locked_cases
      | inr lost ↦ rw lost (unlocked lost)
    ]
