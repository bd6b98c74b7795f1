-- ===== src/CharDriver/Spec.antt =====
-- What the character driver promises: it keeps the ten newest commands, each ended by the write
-- that brought a newline, and the bytes that wait for one.
use advanced_embedded_softwa.Base.{
  ℕ, suc, ◌≡◌, ◌≢◌, ◌⊎◌, refl, sym, ap, ◌∙◌, inl, inr, Option, none, List, [], ◌∷◌, ◌++◌, arith,
  if◌then◌else◌, length, take,
}
use advanced_embedded_softwa.Base.Words.{Ptr, null}
use advanced_embedded_softwa.Kernel.{Heap, update, bytes_of, bytes_at}
use advanced_embedded_softwa.CircularBuffer.{BufferEntry}
use advanced_embedded_softwa.CircularBuffer.Inv.{IsValid, contents}
use advanced_embedded_softwa.CircularBuffer.Add.{make_room}
use advanced_embedded_softwa.CharDriver.{Device, has_newline}

-- The commands, oldest first, and the bytes behind the last newline.
pub record Log : Type 0 where
  pub lines : List (List ℕ)
  pub pending : List ℕ

-- The bytes `p` behind the commands are one more command if there is a newline among them.
unfoldable pub settle : List (List ℕ) → List ℕ → Log
settle lines p =
    if has_newline p
    then record { lines = make_room lines ++ (p ∷ []); pending = [] }
    else record { lines = lines; pending = p }

-- What a write of `bytes` makes of a log.
unfoldable pub append : Log → List ℕ → Log
append l bytes = settle l.lines (l.pending ++ bytes)

-- The entry's block holds the bytes `l` at its start.
pub record Holds (h : Heap) (e : BufferEntry) (l : List ℕ) : Type 0 where
  pub held : e.buffptr ≢ null
  pub live : h e.buffptr ≢ none
  pub bytes : take e.size (bytes_at h e.buffptr) ≡ l
  pub size : length l ≡ e.size

-- The entries hold the lines, one each.
abbrev pub Stores : Heap → List BufferEntry → List (List ℕ) → Type 0
Stores h [] [] = Unit
Stores h [] (l ∷ ls) = ⊥
Stores h (e ∷ es) [] = ⊥
Stores h (e ∷ es) (l ∷ ls) = Holds h e l × Stores h es ls

-- No entry's block is at `p`.
abbrev pub Apart : Ptr → List BufferEntry → Type 0
Apart p [] = Unit
Apart p (e ∷ es) = (e.buffptr ≢ p) × Apart p es

-- No two entries share a block.
abbrev pub Distinct : List BufferEntry → Type 0
Distinct [] = Unit
Distinct (e ∷ es) = Apart e.buffptr es × Distinct es

-- The pending entry holds the pending bytes in a block of its own; without bytes it may have none.
abbrev pub HoldsPending : Heap → BufferEntry → List BufferEntry → List ℕ → Type 0
HoldsPending h e es [] = e.size ≡ 0
HoldsPending h e es (c ∷ cs) = Holds h e (c ∷ cs) × Apart e.buffptr es

-- The device and its blocks stand for a log.
pub record Represents (h : Heap) (dev : Device) (l : Log) : Type 0 where
  pub valid : IsValid dev.temp_buffer
  pub stores : Stores h (contents dev.temp_buffer) l.lines
  pub distinct : Distinct (contents dev.temp_buffer)
  pub waits : HoldsPending h dev.temp_entry (contents dev.temp_buffer) l.pending

pub Holds-update :
    (h : Heap) (p : Ptr) (c : Option (List ℕ)) (e : BufferEntry) (l : List ℕ)
    → e.buffptr ≢ p
    → Holds h e l
    → Holds (update h p c) e l
Holds-update h p c e l other s =
    let same : update h p c e.buffptr ≡ h e.buffptr = ground arith in
    record {
      held = s.held;
      live = λ gone. s.live (sym same ∙ gone);
      bytes = ap (λ b. take e.size (bytes_of b)) same ∙ s.bytes;
      size = s.size;
    }

pub Stores-update :
    (h : Heap) (p : Ptr) (c : Option (List ℕ)) (es : List BufferEntry) (ls : List (List ℕ))
    → Apart p es
    → Stores h es ls
    → Stores (update h p c) es ls
Stores-update h p c [] [] a s = tt
Stores-update h p c [] (l ∷ ls) a s = s
Stores-update h p c (e ∷ es) [] a s = s
Stores-update h p c (e ∷ es) (l ∷ ls) a s =
    (Holds-update h p c e l a.0 s.0, Stores-update h p c es ls a.1 s.1)

-- A new block is none of those that the entries have.
pub Apart-of_none :
    (h : Heap) (p : Ptr) (es : List BufferEntry) (ls : List (List ℕ))
    → h p ≡ none
    → Stores h es ls
    → Apart p es
Apart-of_none h p [] ls free s = tt
Apart-of_none h p (e ∷ es) [] free s = elim s [ ]
Apart-of_none h p (e ∷ es) (l ∷ ls) free s =
    (λ same. s.0.live (ap h same ∙ free), Apart-of_none h p es ls free s.1)

pub Stores-append :
    (h : Heap) (es : List BufferEntry) (ls : List (List ℕ)) (e : BufferEntry) (l : List ℕ)
    → Stores h es ls
    → Holds h e l
    → Stores h (es ++ (e ∷ [])) (ls ++ (l ∷ []))
Stores-append h [] [] e l s held = (held, tt)
Stores-append h [] (m ∷ ls) e l s held = absurd s
Stores-append h (f ∷ es) [] e l s held = absurd s
Stores-append h (f ∷ es) (m ∷ ls) e l s held = (s.0, Stores-append h es ls e l s.1 held)

pub Apart-append :
    (p : Ptr) (es : List BufferEntry) (e : BufferEntry)
    → Apart p es
    → e.buffptr ≢ p
    → Apart p (es ++ (e ∷ []))
Apart-append p [] e a other = (other, tt)
Apart-append p (f ∷ es) e a other = (a.0, Apart-append p es e a.1 other)

pub Distinct-append :
    (es : List BufferEntry) (e : BufferEntry)
    → Distinct es
    → Apart e.buffptr es
    → Distinct (es ++ (e ∷ []))
Distinct-append [] e d a = (tt, tt)
Distinct-append (f ∷ es) e d a =
    (Apart-append f.buffptr es e d.0 (λ q. a.0 (sym q)), Distinct-append es e d.1 a.1)

pub length-Stores :
    (h : Heap) (es : List BufferEntry) (ls : List (List ℕ)) → Stores h es ls → length es ≡ length ls
length-Stores h [] [] s = refl
length-Stores h [] (l ∷ ls) s = absurd s
length-Stores h (e ∷ es) [] s = absurd s
length-Stores h (e ∷ es) (l ∷ ls) s = ap suc (length-Stores h es ls s.1)

pub HoldsPending-Holds :
    (h : Heap) (e : BufferEntry) (es : List BufferEntry) (p : List ℕ)
    → Holds h e p
    → Apart e.buffptr es
    → HoldsPending h e es p
HoldsPending-Holds h e es [] held a = sym held.size
HoldsPending-Holds h e es (c ∷ cs) held a = (held, a)

pub bytes-HoldsPending :
    (h : Heap) (e : BufferEntry) (es : List BufferEntry) (p : List ℕ)
    → HoldsPending h e es p
    → take e.size (bytes_at h e.buffptr) ≡ p
bytes-HoldsPending h e es [] empty = rw empty
bytes-HoldsPending h e es (c ∷ cs) held = held.0.bytes

pub size-HoldsPending :
    (h : Heap) (e : BufferEntry) (es : List BufferEntry) (p : List ℕ)
    → HoldsPending h e es p
    → e.size ≡ length p
size-HoldsPending h e es [] empty = empty
size-HoldsPending h e es (c ∷ cs) held = sym held.0.size

pub HoldsPending-cases :
    (h : Heap) (e : BufferEntry) (es : List BufferEntry) (p : List ℕ)
    → HoldsPending h e es p
    → (e.size ≡ 0) ⊎ (Holds h e p × Apart e.buffptr es × (e.size ≢ 0))
HoldsPending-cases h e es [] empty = inl empty
HoldsPending-cases h e es (c ∷ cs) held =
    inr (held.0, held.1, λ empty. absurd (omega (arith, held.0.size)))

pub Apart-HoldsPending :
    (h : Heap) (e : BufferEntry) (es : List BufferEntry) (p : List ℕ)
    → HoldsPending h e es p
    → p ≢ []
    → Apart e.buffptr es
Apart-HoldsPending h e es [] empty waiting = absurd (waiting refl)
Apart-HoldsPending h e es (c ∷ cs) held waiting = held.1
