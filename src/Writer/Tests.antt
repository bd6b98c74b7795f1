-- ===== src/Writer/Tests.antt =====
-- The writer at concrete inputs.
use advanced_embedded_softwa.Base.{ℕ, ◌≡◌, refl, true, ◌∷◌, [], List}
use advanced_embedded_softwa.Base.Int.{pos, negsuc}
use advanced_embedded_softwa.Writer.{Answers, write_file, write_string}

-- The directory is missing and mkdir, which the shell runs, fails with 1: the open decides.
abbrev answers : Answers
answers = record {
  stat = negsuc 0;
  system = pos 256;
  open_file = pos 3;
  write = pos;
  close = pos 0;
}

abbrev string : List ℕ
string = b'h' ∷ b'i' ∷ []

mkdir_fails :
    write_file 3 answers string ≡ record { status = 0; opened = true; handed = string ∷ [] }
unfolding write_file write_string
mkdir_fails = refl

-- A write that fails ends the program with 1.
write_fails : (write_file 3 (record answers { write = λ n. negsuc 0 }) string).status ≡ 1
unfolding write_file write_string
write_fails = refl
