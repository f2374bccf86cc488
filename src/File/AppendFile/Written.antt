-- ===== src/File/AppendFile/Written.antt =====
-- `AppendFile` of src/file/FileUtils.cpp: the bytes that come into the file.
use hohnor.Prelude.{
  ℕ, zero, suc, ◌+◌, ◌≤◌, ◌≡◌, ◌⊎◌, inl, inr, refl, sym, ap, ap₂, ◌∙◌, false, not, ◌&&◌, List, [],
  ◌∷◌, ◌++◌, Option, none, some, length, take, drop, ◌==◌, arith, append_assoc, append-nil,
  take-append-drop, length-drop, if_elim, >>=-eq-some, some-inj,
}
use hohnor.File.AppendFile.{AppendFile, FwriteAnswer, append_loop, append}

-- fwrite takes no more than it is offered.
abbrev pub Fits : List FwriteAnswer → List ℕ → Type 0
Fits [] rest = Unit {0}
Fits (a ∷ more) rest = (a.taken ≤ length rest) × Fits more (drop a.taken rest)

-- The answers of a fwrite that reports no error and takes all in the end.
abbrev pub Writes : List FwriteAnswer → List ℕ → Type 0
Writes [] rest = length rest ≡ 0
Writes (a ∷ more) rest =
    (length rest ≡ 0)
    ⊎ ((a.taken ≤ length rest) × (a.error ≡ false) × Writes more (drop a.taken rest))

nil_of_length {ℓ} : {A : Type ℓ} (xs : List A) → length xs ≡ 0 → xs ≡ []
nil_of_length [] e = refl
nil_of_length (x ∷ xs) e = absurd (omega arith)

module _ (rest : List ℕ) (n : ℕ) (f : AppendFile) where
  abbrev all_of : ℕ × AppendFile
  all_of = (n + length rest, record f { content = f.content ++ rest })

  ended : length rest ≡ 0 → some (n, f) ≡ some all_of
  ended e =
      ap₂ (λ k c. some (k, record f { content = c })) (omega (arith, e))
        (sym (append-nil f.content) ∙ ap (◌++◌ f.content) (sym (nil_of_length rest e)))

  gone_on :
      (k : ℕ)
      → k ≤ length rest
      → some (
        n + k + length (drop k rest),
        record f { content = (f.content ++ take k rest) ++ drop k rest },
      )
        ≡ some all_of
  gone_on k b =
      ap₂ (λ k c. some (k, record f { content = c })) (omega (arith, length-drop k rest, b))
        (append_assoc f.content (take k rest) (drop k rest)
          ∙ ap (◌++◌ f.content) (take-append-drop k rest))

append_loop-Writes :
    (answers : List FwriteAnswer) (rest : List ℕ) (n : ℕ) (f : AppendFile)
    → Writes answers rest
    → append_loop answers rest n f ≡ some (all_of rest n f)
unfolding append_loop
append_loop-Writes [] rest n f w =
    if_elim (λ r. r ≡ some (all_of rest n f)) (length rest == 0) (λ _. ended rest n f w)
      (λ t. absurd (ground arith))
append_loop-Writes (a ∷ more) rest n f (inl e) =
    if_elim (λ r. r ≡ some (all_of rest n f)) (length rest == 0) (λ _. ended rest n f e)
      (λ t. absurd (ground arith))
append_loop-Writes (a ∷ more) rest n f (inr (b, e, w)) =
    let ih =
      append_loop-Writes more (drop a.taken rest) (n + a.taken)
        (record f { content = f.content ++ take a.taken rest }) w in
    if_elim (λ r. r ≡ some (all_of rest n f)) (length rest == 0)
      (λ t. ended rest n f (ground arith))
      (λ t.
        if_elim (λ r. r ≡ some (all_of rest n f)) (not (a.taken == length rest) && a.error)
          (λ u. absurd (ground arith)) (λ u. ih ∙ gone_on rest n f a.taken b))

-- An `append` whose `fwrite`s report no error, and take all of the line in as many calls as it needs: the line
-- is at the end of the file and is counted, and the loop ends.
pub append-Writes :
    (answers : List FwriteAnswer) (line : List ℕ) (f : AppendFile)
    → Writes answers line
    → append answers line f
      ≡ some
          (record f { content = f.content ++ line; written_bytes = f.written_bytes + length line })
unfolding append
append-Writes answers line f w = rw (append_loop-Writes answers line 0 f w) (ground arith)

take-nil {ℓ} : {A : Type ℓ} (n : ℕ) → take n (let xs : List A = [] in xs) ≡ []
take-nil zero = refl
take-nil (suc n) = refl

take-add {ℓ} :
    {A : Type ℓ} (k m : ℕ) (xs : List A) → take (k + m) xs ≡ take k xs ++ take m (drop k xs)
take-add zero m xs = let z : zero + m ≡ m = omega arith in ap (λ n. take n xs) z
take-add (suc k) m [] = take-nil (suc k + m) ∙ sym (take-nil m)
take-add (suc k) m (x ∷ xs) =
    let shift : suc k + m ≡ suc (k + m) = omega arith in
    ap (λ n. take n (x ∷ xs)) shift ∙ ap (◌∷◌ x) (take-add k m xs)

-- The first bytes of `rest` came into the file, and no more than these are counted.
abbrev Prefix : List ℕ → ℕ → AppendFile → Option (ℕ × AppendFile) → Type 0
Prefix rest n f none = Unit {0}
Prefix rest n f (some (k, g)) =
    (m : ℕ) × (m ≤ length rest)
    × (g.content ≡ f.content ++ take m rest)
    × (g.written_bytes ≡ f.written_bytes)
    × (n ≤ k)
    × (k ≤ n + m)

nothing-Prefix : (rest : List ℕ) (n : ℕ) (f : AppendFile) → Prefix rest n f (some (n, f))
nothing-Prefix rest n f =
    (0, omega arith, sym (append-nil f.content), refl, omega arith, omega arith)

further-Prefix :
    (rest : List ℕ) (n k : ℕ) (f : AppendFile) (r : Option (ℕ × AppendFile))
    → k ≤ length rest
    → Prefix (drop k rest) (n + k) (record f { content = f.content ++ take k rest }) r
    → Prefix rest n f r
further-Prefix rest n k f none b h = tt
further-Prefix rest n k f (some (j, g)) b (m, l, c, w, lo, hi) = (
  k + m,
  omega (arith, length-drop k rest, b, l),
  c
      ∙ append_assoc f.content (take k rest) (take m (drop k rest))
      ∙ ap (◌++◌ f.content) (sym (take-add k m rest)),
  w,
  omega (arith, lo),
  omega (arith, hi),
)

append_loop-Prefix :
    (answers : List FwriteAnswer) (rest : List ℕ) (n : ℕ) (f : AppendFile)
    → Fits answers rest
    → Prefix rest n f (append_loop answers rest n f)
unfolding append_loop
append_loop-Prefix [] rest n f w =
    if_elim (Prefix rest n f) (length rest == 0) (λ _. nothing-Prefix rest n f) (λ _. tt)
append_loop-Prefix (a ∷ more) rest n f (b, w) =
    let ih =
      append_loop-Prefix more (drop a.taken rest) (n + a.taken)
        (record f { content = f.content ++ take a.taken rest }) w in
    if_elim (Prefix rest n f) (length rest == 0) (λ _. nothing-Prefix rest n f)
      (λ _.
        if_elim (Prefix rest n f) (not (a.taken == length rest) && a.error)
          (λ _. (a.taken, b, refl, refl, omega arith, omega arith))
          (λ _. further-Prefix rest n a.taken f _ b ih))

-- Whatever `fwrite` answers, errors included, if `append` ends, the file has grown by the first bytes of the
-- line, some or all, and `writtenBytes` by no more than these.
append-prefix :
    (answers : List FwriteAnswer) (line : List ℕ) (f f' : AppendFile)
    → Fits answers line
    → append answers line f ≡ some f'
    → (m : ℕ) × (m ≤ length line)
      × (f'.content ≡ f.content ++ take m line)
      × (f.written_bytes ≤ f'.written_bytes)
      × (f'.written_bytes ≤ f.written_bytes + m)
unfolding append
append-prefix answers line f f' w e =
    let (r, l, g) =
      >>=-eq-some (append_loop answers line 0 f)
        (λ r. some (record r.1 { written_bytes = r.1.written_bytes + r.0 })) e in
    by_result r (some-inj _ _ g) (rw l at (append_loop-Prefix answers line 0 f w))
  where
    by_result :
        (r : ℕ × AppendFile)
        → record r.1 { written_bytes = r.1.written_bytes + r.0 } ≡ f'
        → Prefix line 0 f (some r)
        → (m : ℕ) × (m ≤ length line)
          × (f'.content ≡ f.content ++ take m line)
          × (f.written_bytes ≤ f'.written_bytes)
          × (f'.written_bytes ≤ f.written_bytes + m)
    by_result (k, g) h (m, l, c, w, lo, hi) =
        let bytes = ap AppendFile.written_bytes h in
        (
          m,
          l,
          sym (ap AppendFile.content h) ∙ c,
          omega (arith, bytes, w, lo),
          omega (arith, bytes, w, hi),
        )
