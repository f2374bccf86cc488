-- ===== src/Log/LogFile/Runs.antt =====
-- src/log/LogFile.cpp: the files that a sequence of lines leaves.
use hohnor.Prelude.{
  ℕ, ◌+◌, ◌≤◌, ◌≡◌, refl, sym, ap, ◌∙◌, List, [], ◌∷◌, ◌++◌, Option, some, length, subst, arith,
  append_assoc, append-nil, ◌>>=◌,
}
use hohnor.File.AppendFile.{FwriteAnswer}
use hohnor.File.AppendFile.Written.{Writes}
use hohnor.Log.LogFile.{LogFile, create, append}
use hohnor.Log.LogFile.Rolling.{
  all_bytes, contents_of, AllShort, Rises, Rises-snoc, Rises-le, IsLogFile, create-IsLogFile,
  append-Follows,
}

-- A call of `append` with what the system answers in it.
pub record Line : Type 0 where
  pub bytes : List ℕ
  pub answers : List FwriteAnswer
  pub now : ℕ
  pub later : ℕ

unfoldable pub append_all : List Line → LogFile → Option LogFile
append_all [] l = some l
append_all (e ∷ es) l = do l' ← append e.answers e.now e.later e.bytes l; append_all es l'

abbrev pub text : List Line → List ℕ
text [] = []
text (e ∷ es) = e.bytes ++ text es

abbrev pub AllWrite : ℕ → List Line → Type 0
AllWrite m [] = Unit {0}
AllWrite m (e ∷ es) = Writes e.answers e.bytes × (length e.bytes ≤ m) × AllWrite m es

module _ (m low : ℕ) where
  append_all-Follows :
      (es : List Line) (l : LogFile)
      → AllWrite m es
      → IsLogFile m low l
      → (l' : LogFile) × (append_all es l ≡ some l')
        × IsLogFile m low l'
        × (all_bytes l' ≡ all_bytes l ++ text es)
        × (l'.roll_size ≡ l.roll_size)
  unfolding append_all
  append_all-Follows [] l h v = (l, refl, v, sym (append-nil (all_bytes l)), refl)
  append_all-Follows (e ∷ es) l (w, b, h) v =
      let (l', r, v', c, s) = append-Follows m low e.answers e.now e.later e.bytes l w b v in
      let (l'', r', v'', c', s') = append_all-Follows es l' h v' in
      (
        l'',
        rw r r',
        v'',
        c' ∙ ap (λ bs. bs ++ text es) c ∙ append_assoc (all_bytes l) e.bytes (text es),
        s' ∙ s,
      )

-- A new log file, after any number of lines of at most `m` bytes that `fwrite` takes without an error,
-- whatever the times are: the files, in the order in which they were opened, hold the lines one after the
-- other, with nothing lost or doubled where a file was rolled; the current file is not above `rollSize_` and
-- the others are above it by `m` bytes at most; and the numbers in their names rise, so that no file is
-- opened twice.
pub append_all-keeps :
    (m check_every_n flush_interval roll_size roll_interval now low : ℕ) (es : List Line)
    → AllWrite m es
    → (l : LogFile) × (append_all es
          (create check_every_n flush_interval roll_size roll_interval now low)
        ≡ some l)
      × (all_bytes l ≡ text es)
      × (length l.file.content ≤ roll_size)
      × AllShort (roll_size + m) l.closed
      × Rises low (l.closed ++ (l.name, l.file) ∷ []) l.log_file_counter
unfolding create all_bytes contents_of
append_all-keeps m n f r i now low es h =
    let (l, e, v, c, s) =
      append_all-Follows m low es (create n f r i now low) h (create-IsLogFile m low n f r i now) in
    (
      l,
      e,
      c,
      omega (arith, v.counted, v.short, s),
      subst (λ k. AllShort (k + m) l.closed) s v.all_short,
      Rises-le low _ (l.name.number + 1) l.log_file_counter
          (Rises-snoc low l.closed l.name l.file v.rises) (omega (arith, v.counter)),
    )
