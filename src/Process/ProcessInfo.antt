-- ===== src/Process/ProcessInfo.antt =====
-- src/process/ProcessInfo.cpp: the name of the process, out of the text of /proc/self/stat. Bytes are numbers.
pub mod Naming
mod Examples
use hohnor.Prelude.{
  ℕ, suc, ◌+◌, ◌-◌, List, [], ◌∷◌, Option, none, some, if◌then◌else◌, ltb, ◌==◌, take, drop, ◌>>=◌,
}
use mathlib.Core.Option
use hohnor.File.ReadSmallFile.{ReadAnswer, OpenAnswer, read_file}

abbrev pub left_paren : ℕ
left_paren = 40

abbrev pub right_paren : ℕ
right_paren = 41

-- `find` and `rfind` of `std::string`; none is `npos`.
unfoldable pub find : ℕ → List ℕ → Option ℕ
find c [] = none
find c (x ∷ xs) = if x == c then some 0 else Option.map suc (find c xs)

unfoldable pub rfind : ℕ → List ℕ → Option ℕ
rfind c [] = none
rfind c (x ∷ xs) = elim (rfind c xs) [
  | none ↦ if x == c then some 0 else none
  | some i ↦ some (suc i)
]

-- The bytes between two places.
unfoldable pub between : List ℕ → Option ℕ → Option ℕ → List ℕ
between stat none rp = []
between stat (some lp) none = []
between stat (some lp) (some rp) = if ltb lp rp then take (rp - lp - 1) (drop (lp + 1) stat) else []

-- `procname(stat)`.
unfoldable pub procname_in : List ℕ → List ℕ
procname_in stat = between stat (find left_paren stat) (rfind right_paren stat)

-- `procStat` reads at most 65536 bytes into an empty string.
unfoldable pub proc_stat : OpenAnswer → (ℕ → ReadAnswer) → Option (List ℕ)
proc_stat file answers = do r ← read_file file 65536 [] answers none; some r.0.content

unfoldable pub procname : OpenAnswer → (ℕ → ReadAnswer) → Option (List ℕ)
procname file answers = do stat ← proc_stat file answers; some (procname_in stat)
