-- ===== src/File/ReadSmallFile/Reading.antt =====
-- src/file/FileUtils.cpp, `ReadSmallFile`: what comes of the file's bytes.
use hohnor.Prelude.{
  ℕ, zero, suc, ◌+◌, ◌≤◌, ◌≡◌, refl, sym, ap, ◌∙◌, ◌⊎◌, inl, inr, true, List, [], ◌∷◌, ◌++◌, Option,
  some, length, take, drop, arith,
}
use hohnor.File.ReadSmallFile.{
  ReadAnswer, fails, StatAnswer, ReadSmallFile, OpenAnswer, opens, open_fails, open_file, Outcome,
  stat_file, read_opened, read_to_string, read_file,
}
use hohnor.File.ReadSmallFile.Loop.{read_loop-Reads}

take-append :
    (n : ℕ) (out left : List ℕ)
    → length out ≤ n
    → (length out ≡ n) ⊎ (left ≡ [])
    → out ≡ take n (out ++ left)
take-append zero [] left b h = refl
take-append (suc n) [] left b (inl e) = absurd (omega (arith, e))
take-append (suc n) [] left b (inr e) = rw e refl
take-append zero (x ∷ xs) left b h = absurd (omega (arith, b))
take-append (suc n) (x ∷ xs) left b (inl e) =
    ap (λ l. x ∷ l) (take-append n xs left (omega (arith, b)) (inl (omega (arith, e))))
take-append (suc n) (x ∷ xs) left b (inr e) =
    ap (λ l. x ∷ l) (take-append n xs left (omega (arith, b)) (inr e))

drop-append : (out left : List ℕ) → drop (length out) (out ++ left) ≡ left
drop-append [] left = refl
drop-append (x ∷ xs) left = drop-append xs left

-- What reading a file comes to.
abbrev pub GivesFile :
    OpenAnswer
    → ℕ
    → List ℕ
    → (ℕ → ReadAnswer)
    → Option StatAnswer
    → Option (Outcome × ReadSmallFile)
    → Type 0
GivesFile (opens bytes) max_size content answers stat m =
    (o : Outcome) × (f : ReadSmallFile) × (m ≡ some (o, f))
    × (o.content ++ f.rest ≡ bytes)
    × (length o.content ≤ max_size)
    × (((o.err ≡ (stat_file stat 0).0) × (o.content ≡ take max_size bytes))
        ⊎ ((call : ℕ) × (answers call ≡ fails o.err)))
GivesFile (open_fails e) max_size content answers stat m =
    (o : Outcome) × (f : ReadSmallFile) × (m ≡ some (o, f)) × (o.err ≡ e) × (o.content ≡ content)

opened-GivesFile :
    (bytes : List ℕ) (max_size : ℕ) (content : List ℕ) (answers : ℕ → ReadAnswer)
    (stat : Option StatAnswer)
    → GivesFile
        (opens bytes)
        max_size
        content
        answers
        stat
        (read_file (opens bytes) max_size content answers stat)
unfolding read_file read_to_string open_file read_opened
opened-GivesFile bytes max_size content answers stat =
    let r =
      read_loop-Reads answers max_size (stat_file stat 0).0 (length bytes + 1) 0 bytes []
        (omega arith) (omega arith) in
    let rest = ap (drop (length r.out)) r.parts ∙ drop-append r.out r.left in
    (
      record {
        err = r.e;
        content = r.out;
        file_size = (stat_file stat 0).1;
        times = (stat_file stat 0).2;
      },
      record { is_open = true; err = 0; before = r.out; rest = drop (length r.out) bytes },
      rw r.returns refl,
      ap (λ l. r.out ++ l) rest ∙ sym r.parts,
      omega (arith, r.bound),
      by_end r.ends r.parts (omega (arith, r.bound)),
    )
  where
    by_end :
        {e : ℕ} {out left : List ℕ}
        → ((e ≡ (stat_file stat 0).0) × ((0 + length out ≡ max_size) ⊎ (left ≡ [])))
          ⊎ ((call : ℕ) × (answers call ≡ fails e))
        → bytes ≡ out ++ left
        → length out ≤ max_size
        → ((e ≡ (stat_file stat 0).0) × (out ≡ take max_size bytes))
          ⊎ ((call : ℕ) × (answers call ≡ fails e))
    by_end {out = out} {left = left} (inl (s, inl f)) p b =
        inl
          (s, take-append max_size out left b (inl (omega (arith, f))) ∙ ap (take max_size) (sym p))
    by_end {out = out} {left = left} (inl (s, inr f)) p b =
        inl (s, take-append max_size out left b (inr f) ∙ ap (take max_size) (sym p))
    by_end (inr f) p b = inr f

-- Reading a file returns, however short the reads of the kernel are. An open file: the string gets a first part
-- of its bytes, `max_size` at most, and the rest is still to be read; if no read fails, this is all that
-- `max_size` allows and the errno is what `fstat` left; and otherwise the errno is that of the read that failed.
-- A file that is not opened: the errno is that of `open`, and the string is as it was.
pub read_file-GivesFile :
    (file : OpenAnswer) (max_size : ℕ) (content : List ℕ) (answers : ℕ → ReadAnswer)
    (stat : Option StatAnswer)
    → GivesFile file max_size content answers stat (read_file file max_size content answers stat)
unfolding read_file read_to_string open_file
read_file-GivesFile (opens bytes) max_size content answers stat =
    opened-GivesFile bytes max_size content answers stat
read_file-GivesFile (open_fails e) max_size content answers stat = (_, _, refl, refl, refl)
