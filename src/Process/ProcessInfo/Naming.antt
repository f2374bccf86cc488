-- ===== src/Process/ProcessInfo/Naming.antt =====
-- src/process/ProcessInfo.cpp: the name of the process is found whatever it contains.
use hohnor.Prelude.{
  ℕ, zero, suc, ◌+◌, ◌-◌, ◌≤◌, ◌<◌, ◌≡◌, refl, sym, ap, ◌∙◌, ◌⊎◌, inl, inr, Bool, true, false, List,
  [], ◌∷◌, ◌++◌, append_assoc, Option, none, some, if◌then◌else◌, ltb, ◌==◌, length, take, drop,
  arith, length-append,
}
use mathlib.Core.Option
use hohnor.File.ReadSmallFile.{at_most, fails, opens, stat_file}
use hohnor.File.ReadSmallFile.Reading.{read_file-GivesFile}
use hohnor.Process.ProcessInfo.{
  left_paren, right_paren, find, rfind, between, procname_in, proc_stat, procname,
}

map-none : (m : Option ℕ) → Option.map suc m ≡ none → m ≡ none
map-none none h = refl
map-none (some i) h = cc

find-tail :
    (c x : ℕ) (xs : List ℕ) → find c (x ∷ xs) ≡ none → ((x == c) ≡ false) × (find c xs ≡ none)
unfolding find
find-tail c x xs h = by_test (x == c) h
  where
    by_test :
        (b : Bool)
        → (if b then some 0 else Option.map suc (find c xs)) ≡ none
        → (b ≡ false) × (find c xs ≡ none)
    by_test true h = cc
    by_test false h = (refl, map-none (find c xs) h)

find-append :
    (c : ℕ) (before after : List ℕ)
    → find c before ≡ none
    → find c (before ++ c ∷ after) ≡ some (length before)
unfolding find
find-append c [] after h = ground arith
find-append c (x ∷ xs) after h =
    let (n, e) = find-tail c x xs h in rw (n, find-append c xs after e) refl

rfind-none : (c : ℕ) (xs : List ℕ) → find c xs ≡ none → rfind c xs ≡ none
unfolding rfind
rfind-none c [] h = refl
rfind-none c (x ∷ xs) h = let (n, e) = find-tail c x xs h in rw (rfind-none c xs e, n) refl

rfind-append :
    (c : ℕ) (before after : List ℕ)
    → find c after ≡ none
    → rfind c (before ++ c ∷ after) ≡ some (length before)
unfolding rfind
rfind-append c [] after h = rw (rfind-none c after h) (ground arith)
rfind-append c (x ∷ xs) after h = rw (rfind-append c xs after h) refl

take-length : (xs ys : List ℕ) → take (length xs) (xs ++ ys) ≡ xs
take-length [] ys = refl
take-length (x ∷ xs) ys = ap (λ l. x ∷ l) (take-length xs ys)

drop-length : (xs : List ℕ) (y : ℕ) (ys : List ℕ) → drop (suc (length xs)) (xs ++ y ∷ ys) ≡ ys
drop-length [] y ys = refl
drop-length (x ∷ xs) y ys = drop-length xs y ys

between-places :
    (stat : List ℕ) (left right : Option ℕ) (lp rp : ℕ)
    → left ≡ some lp
    → right ≡ some rp
    → lp < rp
    → between stat left right ≡ take (rp - lp - 1) (drop (suc lp) stat)
unfolding between
between-places stat left right lp rp l r h =
    let less : ltb lp rp ≡ true = ground arith in
    let next : lp + 1 ≡ suc lp = omega arith in rw (l, r, less, next) refl

-- The text of /proc/self/stat: what stands before the name, the name in parentheses, and what follows.
abbrev pub stat_text : List ℕ → List ℕ → List ℕ → List ℕ
stat_text before name after = before ++ left_paren ∷ (name ++ right_paren ∷ after)

procname_in-name :
    (before name after : List ℕ)
    → find left_paren before ≡ none
    → find right_paren after ≡ none
    → procname_in (stat_text before name after) ≡ name
unfolding procname_in between
procname_in-name before name after b a =
    let split = append_assoc before (left_paren ∷ name) (right_paren ∷ after) in
    let right =
      sym (ap (rfind right_paren) split)
      ∙ rfind-append right_paren (before ++ left_paren ∷ name) after a in
    let size = length-append before (left_paren ∷ name) in
    let long : length (before ++ left_paren ∷ name) - length before - 1 ≡ length name =
      omega (arith, size) in
    between-places (stat_text before name after) _ _ (length before)
      (length (before ++ left_paren ∷ name))
      (find-append left_paren before (name ++ right_paren ∷ after) b) right (omega (arith, size))
    ∙ ap
        (λ n.
          take n
            (drop (suc (length before)) (before ++ left_paren ∷ (name ++ right_paren ∷ after))))
        long
    ∙ ap (take (length name)) (drop-length before left_paren (name ++ right_paren ∷ after))
    ∙ take-length name (right_paren ∷ after)

take-all : (n : ℕ) (xs : List ℕ) → length xs ≤ n → take n xs ≡ xs
take-all zero [] h = refl
take-all (suc n) [] h = refl
take-all zero (x ∷ xs) h = absurd (omega (arith, h))
take-all (suc n) (x ∷ xs) h = ap (λ l. x ∷ l) (take-all n xs (omega (arith, h)))

-- A file that fits and whose reads do not fail is read as a whole.
proc_stat-whole :
    (text : List ℕ) (most : ℕ → ℕ)
    → length text ≤ 65536
    → proc_stat (opens text) (λ call. at_most (most call)) ≡ some text
unfolding proc_stat
proc_stat-whole text most h =
    let (o, f, e, _, _, ends) =
      read_file-GivesFile (opens text) 65536 [] (λ call. at_most (most call)) none in
    rw e (ap some (by_end o.content o.err ends))
  where
    by_end :
        (content : List ℕ) (err : ℕ)
        → ((err ≡ (stat_file none 0).0) × (content ≡ take 65536 text))
          ⊎ ((call : ℕ) × (at_most (most call) ≡ fails err))
        → content ≡ text
    by_end content err (inl (_, c)) = c ∙ take-all 65536 text h
    by_end content err (inr (call, c)) = cc

-- If /proc/self/stat holds at most 65536 bytes, with no left parenthesis before that of the name and no right one
-- after, then the name is found, whatever parentheses it has itself and however short the reads of the kernel
-- are, as long as none fails.
pub procname-name :
    (before name after : List ℕ) (most : ℕ → ℕ)
    → find left_paren before ≡ none
    → find right_paren after ≡ none
    → length (stat_text before name after) ≤ 65536
    → procname (opens (stat_text before name after)) (λ call. at_most (most call)) ≡ some name
unfolding procname
procname-name before name after most b a h =
    rw (proc_stat-whole (stat_text before name after) most h)
      (ap some (procname_in-name before name after b a))
