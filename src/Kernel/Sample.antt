-- ===== src/Kernel/Sample.antt =====
-- A kernel that keeps its promises: it hands out address 7 while that is free, grows a block where
-- it lies, copies everything and gets every lock. Its laws hold, so no theorem that asks for them
-- is empty.
use advanced_embedded_softwa.Base.{
  ℕ, refl, true, inl, inr, none, some, List, [], ◌++◌, arith, take, drop, replicate, ◌==◌,
  if◌then◌else◌, length-append, length-take, take-take, take-append_le, ◌∙◌, length-replicate,
  Option-cases, Bool-cases,
}
use mathlib.Core.Path.{subst}
use mathlib.Core.List.{append-nil}
use advanced_embedded_softwa.Base.Words.{Ptr, null}
use advanced_embedded_softwa.Kernel.{
  Heap, update, bytes_at, overwrite, Kernel, IsLawful, Allocated, Reallocated, CopiedFrom, CopiedTo,
}

abbrev sample_address : Ptr
sample_address = 7

unfoldable pub sample_kmalloc : Heap → ℕ → Ptr × Heap
sample_kmalloc h n = elim (h sample_address) [
  | none ↦ (sample_address, update h sample_address (some (replicate n 0)))
  | some block ↦ (null, h)
]

unfoldable pub sample_krealloc : Heap → Ptr → ℕ → Ptr × Heap
sample_krealloc h old n =
    if old == null
    then (null, h)
    else (old, update (update h old none) old (some (take n (bytes_at h old ++ replicate n 0))))

abbrev pub sample : Kernel
sample = record {
  locks = true;
  kmalloc = sample_kmalloc;
  krealloc = sample_krealloc;
  kfree = λ h p. if p == null then h else update h p none;
  copy_from_user = λ h p i src n. (0, update h p (some (overwrite (bytes_at h p) i (take n src))));
  copy_to_user = λ h p i n. (0, take n (drop i (bytes_at h p)));
}

sample_kmalloc-Allocated : (h : Heap) (n : ℕ) → Allocated h n (sample_kmalloc h n)
unfolding sample_kmalloc
sample_kmalloc-Allocated h n = elim (Option-cases (h sample_address)) [
  | inl free ↦
      rw (free, sample_kmalloc)
        (Allocated.fresh sample_address (replicate n 0) (omega arith) free (length-replicate n 0))
  | inr (block, taken) ↦ rw (taken, sample_kmalloc) Allocated.exhausted
]

sample_krealloc-Reallocated :
    (h : Heap) (old : Ptr) (n : ℕ) → Reallocated h old n (sample_krealloc h old n)
unfolding sample_krealloc
sample_krealloc-Reallocated h old n = elim (Bool-cases (old == null)) [
  | inl e ↦ rw e Reallocated.exhausted
  | inr e ↦
      let zeros : List ℕ = replicate n 0 in
      rw e (
        Reallocated.moved old (take n (bytes_at h old ++ zeros)) (ground arith) (inr refl)
          (omega (
            arith,
            length-take n (bytes_at h old ++ zeros),
            length-append (bytes_at h old) zeros,
            length-replicate {A = ℕ} n 0,
          ))
          (λ m small held.
            take-take m n (bytes_at h old ++ zeros) small
            ∙ take-append_le m (bytes_at h old) zeros held))
]

pub sample-IsLawful : IsLawful sample
sample-IsLawful = record {
  kmalloc_law = sample_kmalloc-Allocated;
  krealloc_law = sample_krealloc-Reallocated;
  kfree_law = λ h p. refl;
  copy_from_user_law = λ h p i n src.
      subst (λ l. CopiedFrom h p i n src (0, update h p (some (overwrite (bytes_at h p) i l))))
        (append-nil (take n src)) (CopiedFrom.copied n 0 [] (omega arith) (omega arith));
  copy_to_user_law = λ h p i n. CopiedTo.copied n 0 (omega arith);
}

-- A kernel that is out of memory.
abbrev pub full_sample : Kernel
full_sample = record sample { kmalloc = λ h n. (null, h); krealloc = λ h old n. (null, h) }

pub full_sample-IsLawful : IsLawful full_sample
full_sample-IsLawful = record {
  kmalloc_law = λ h n. Allocated.exhausted;
  krealloc_law = λ h old n. Reallocated.exhausted;
  kfree_law = sample-IsLawful.kfree_law;
  copy_from_user_law = sample-IsLawful.copy_from_user_law;
  copy_to_user_law = sample-IsLawful.copy_to_user_law;
}
