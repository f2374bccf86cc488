-- ===== src/Log/LogFile/Rolling.antt =====
-- src/log/LogFile.cpp: the log goes on through the files, and no file grows far beyond `rollSize_`.
use hohnor.Prelude.{
  ℕ, ◌+◌, ◌≤◌, ◌<◌, ◌≡◌, refl, sym, ap, ◌∙◌, List, [], ◌∷◌, ◌++◌, some, length, ltb, leb, if_elim,
  arith, append_assoc, append-nil, length-append, max,
}
use hohnor.File.AppendFile.{AppendFile, FwriteAnswer}
use hohnor.File.AppendFile.Written.{Writes, append-Writes}
use hohnor.Log.LogFile.{FileName, LogFile, create, roll_file, flush, append, appended, check}

-- The bytes of all files, in the order in which they were written.
unfoldable pub contents_of : List (FileName × AppendFile) → List ℕ
contents_of [] = []
contents_of ((n, f) ∷ fs) = f.content ++ contents_of fs

unfoldable pub all_bytes : LogFile → List ℕ
all_bytes l = contents_of l.closed ++ l.file.content

contents_of-snoc :
    (fs : List (FileName × AppendFile)) (n : FileName) (f : AppendFile)
    → contents_of (fs ++ (n, f) ∷ []) ≡ contents_of fs ++ f.content
unfolding contents_of
contents_of-snoc [] n f = append-nil f.content
contents_of-snoc ((m, g) ∷ fs) n f =
    ap (◌++◌ g.content) (contents_of-snoc fs n f)
    ∙ sym (append_assoc g.content (contents_of fs) f.content)

-- No file is longer than `most`.
abbrev pub AllShort : ℕ → List (FileName × AppendFile) → Type 0
AllShort most [] = Unit {0}
AllShort most ((n, f) ∷ fs) = (length f.content ≤ most) × AllShort most fs

AllShort-snoc :
    (most : ℕ) (fs : List (FileName × AppendFile)) (n : FileName) (f : AppendFile)
    → AllShort most fs
    → length f.content ≤ most
    → AllShort most (fs ++ (n, f) ∷ [])
AllShort-snoc most [] n f h b = (b, tt)
AllShort-snoc most ((m, g) ∷ fs) n f (s, h) b = (s, AllShort-snoc most fs n f h b)

-- The numbers in the names rise from `low` and stay below `high`.
abbrev pub Rises : ℕ → List (FileName × AppendFile) → ℕ → Type 0
Rises low [] high = low ≤ high
Rises low ((n, f) ∷ fs) high = (low ≤ n.number) × Rises (n.number + 1) fs high

pub Rises-snoc :
    (low : ℕ) (fs : List (FileName × AppendFile)) (n : FileName) (f : AppendFile)
    → Rises low fs n.number
    → Rises low (fs ++ (n, f) ∷ []) (n.number + 1)
Rises-snoc low [] n f h = (h, omega arith)
Rises-snoc low ((m, g) ∷ fs) n f (b, h) = (b, Rises-snoc (m.number + 1) fs n f h)

pub Rises-le :
    (low : ℕ) (fs : List (FileName × AppendFile)) (high higher : ℕ)
    → Rises low fs high
    → high ≤ higher
    → Rises low fs higher
Rises-le low [] high higher h b = omega (arith, h)
Rises-le low ((m, g) ∷ fs) high higher (c, h) b = (c, Rises-le (m.number + 1) fs high higher h b)

-- What holds of a log file between two calls, where no line is longer than `m`; its counter started from
-- `low`.
pub record IsLogFile (m low : ℕ) (l : LogFile) : Type 0 where
  pub counted : l.file.written_bytes ≡ length l.file.content
  pub short : l.file.written_bytes ≤ l.roll_size
  pub all_short : AllShort (l.roll_size + m) l.closed
  pub rises : Rises low l.closed l.name.number
  pub counter : l.name.number < l.log_file_counter
  pub ticks : l.count < max 1 l.check_every_n

module _ (m low : ℕ) where
  pub create-IsLogFile :
      (check_every_n flush_interval roll_size roll_interval now : ℕ)
      → IsLogFile m low (create check_every_n flush_interval roll_size roll_interval now low)
  unfolding create
  create-IsLogFile n f r i now = record {
    counted = refl;
    short = omega arith;
    all_short = tt;
    rises = omega arith;
    counter = omega arith;
    ticks = omega arith;
  }

  -- A line has come into the file.
  record HasLine (l : LogFile) : Type 0 where
    counted : l.file.written_bytes ≡ length l.file.content
    long : l.file.written_bytes ≤ l.roll_size + m
    all_short : AllShort (l.roll_size + m) l.closed
    rises : Rises low l.closed l.name.number
    counter : l.name.number < l.log_file_counter
    ticks : l.count < max 1 l.check_every_n

  -- The log file `l'` follows `l` with the same bytes.
  abbrev Follows : LogFile → LogFile → Type 0
  Follows l l' = IsLogFile m low l' × (all_bytes l' ≡ all_bytes l) × (l'.roll_size ≡ l.roll_size)

  roll_file-Follows : (now : ℕ) (l : LogFile) → HasLine l → Follows l (roll_file now l)
  unfolding roll_file all_bytes
  roll_file-Follows now l v = (
    record {
      counted = refl;
      short = omega arith;
      all_short =
          AllShort-snoc (l.roll_size + m) l.closed l.name l.file v.all_short
            (omega (arith, v.counted, v.long));
      rises =
          Rises-le low _ (l.name.number + 1) l.log_file_counter
            (Rises-snoc low l.closed l.name l.file v.rises) (omega (arith, v.counter));
      counter = omega arith;
      ticks = v.ticks;
    },
    append-nil _ ∙ contents_of-snoc l.closed l.name l.file,
    refl,
  )

  kept : (l : LogFile) → HasLine l → l.file.written_bytes ≤ l.roll_size → IsLogFile m low l
  kept l v s = record {
    counted = v.counted;
    short = s;
    all_short = v.all_short;
    rises = v.rises;
    counter = v.counter;
    ticks = v.ticks;
  }

  flush-Follows : (now : ℕ) (l : LogFile) → IsLogFile m low l → Follows l (flush now l)
  unfolding flush all_bytes
  flush-Follows now l v = (
    record {
      counted = v.counted;
      short = v.short;
      all_short = v.all_short;
      rises = v.rises;
      counter = v.counter;
      ticks = v.ticks;
    },
    refl,
    refl,
  )

  with_count :
      (l : LogFile) (c : ℕ)
      → HasLine l
      → c < max 1 l.check_every_n
      → HasLine (record l { count = c })
  with_count l c v t = record {
    counted = v.counted;
    long = v.long;
    all_short = v.all_short;
    rises = v.rises;
    counter = v.counter;
    ticks = t;
  }

  check-Follows :
      (now later : ℕ) (l : LogFile)
      → HasLine l
      → l.file.written_bytes ≤ l.roll_size
      → Follows l (check now later l)
  check-Follows now later l v s =
      if_elim (Follows l) (ltb (l.last_roll + l.roll_interval) now)
        (λ _. roll_file-Follows later l v)
        (λ _.
          if_elim (Follows l) (ltb (l.last_flush + l.flush_interval) now)
            (λ _. flush-Follows later l (kept l v s)) (λ _. (kept l v s, refl, refl)))

  appended-Follows : (now later : ℕ) (l : LogFile) → HasLine l → Follows l (appended now later l)
  unfolding all_bytes
  appended-Follows now later l v =
      if_elim (Follows l) (ltb l.roll_size l.file.written_bytes) (λ _. roll_file-Follows later l v)
        (λ t.
          let s : l.file.written_bytes ≤ l.roll_size = ground arith in
          if_elim (Follows l) (leb l.check_every_n (l.count + 1))
            (λ _.
              check-Follows now later (record l { count = 0 }) (with_count l 0 v (omega arith)) s)
            (λ u. (
              kept (record l { count = l.count + 1 }) (with_count l (l.count + 1) v (ground arith))
                  s,
              refl,
              refl,
            )))

  pub append-Follows :
      (answers : List FwriteAnswer) (now later : ℕ) (line : List ℕ) (l : LogFile)
      → Writes answers line
      → length line ≤ m
      → IsLogFile m low l
      → (l' : LogFile) × (append answers now later line l ≡ some l')
        × IsLogFile m low l'
        × (all_bytes l' ≡ all_bytes l ++ line)
        × (l'.roll_size ≡ l.roll_size)
  unfolding append all_bytes
  append-Follows answers now later line l w b v =
      let file : AppendFile = record l.file {
        content = l.file.content ++ line;
        written_bytes = l.file.written_bytes + length line;
      } in
      let (v', e, r) =
        appended-Follows now later (record l { file = file })
          (record {
            counted = omega (arith, v.counted, length-append l.file.content line);
            long = omega (arith, v.short, b);
            all_short = v.all_short;
            rises = v.rises;
            counter = v.counter;
            ticks = v.ticks;
          }) in
      (
        appended now later (record l { file = file }),
        rw (append-Writes answers line l.file w) refl,
        v',
        e ∙ sym (append_assoc (contents_of l.closed) l.file.content line),
        r,
      )
