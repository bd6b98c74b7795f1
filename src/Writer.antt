-- ===== src/Writer.antt =====
-- The writer: assignments-3-and-later-saloni1307-master/finder-app/writer.c, of which
-- assignment-2-saloni1307-master/finder-app/writer.c is a copy. What the system calls return is the
-- record `Answers`; strings are passed on.
mod Tests
use advanced_embedded_softwa.Base.{
  ℕ, ◌<◌, Bool, true, false, List, [], ◌∷◌, if◌then◌else◌, ◌==◌, ltb, length,
}
use advanced_embedded_softwa.Base.Int.{ℤ, pos, negsuc}

-- The answer -1.
abbrev pub is_failure : ℤ → Bool
is_failure (pos n) = false
is_failure (negsuc n) = n == 0

-- What stat, system, open, write and close return; write is asked for so many bytes.
pub record Answers : Type 0 where
  pub stat : ℤ
  pub system : ℤ
  pub open_file : ℤ
  pub write : ℕ → ℤ
  pub close : ℤ

-- What the program has done when it ends: its exit status, the open of the file, and the bytes that
-- it handed to write.
pub record Ended : Type 0 where
  pub status : ℕ
  pub opened : Bool
  pub handed : List (List ℕ)

abbrev quits : Ended
quits = record { status = 1; opened = false; handed = [] }

-- From the open of the file on.
unfoldable pub write_string : Answers → List ℕ → Ended
write_string a string =
    if is_failure a.open_file
    then quits
    else (if is_failure (a.write (length string))
        then record { status = 1; opened = true; handed = string ∷ [] }
        else (if is_failure a.close
            then record { status = 1; opened = true; handed = string ∷ [] }
            else record { status = 0; opened = true; handed = string ∷ [] }))

-- `main`, of the argument count and the string to be written.
unfoldable pub write_file : ℕ → Answers → List ℕ → Ended
write_file argc a string =
    if (if ltb argc 3 then true else ltb 3 argc)
    then quits
    else (if is_failure a.stat
        then (if is_failure a.system then quits else write_string a string)
        else write_string a string)
