-- ===== src/File/ReadSmallFile/Loop.antt =====
-- src/file/FileUtils.cpp, `ReadSmallFile`: the loop of `readToString`.
use hohnor.Prelude.{
  ℕ, zero, suc, ◌+◌, ◌-◌, ◌<◌, ◌≤◌, ◌≡◌, refl, sym, ap, ◌∙◌, ◌⊎◌, inl, inr, Bool, true, false, List,
  [], ◌∷◌, ◌++◌, append-nil, append_assoc, Option, some, ltb, min, length, take, drop, arith,
  length-take, length-append, take-append-drop,
}
use hohnor.File.ReadSmallFile.{ReadAnswer, at_most, fails, buffer_size, taken, read_loop}

drop-length-take : (k : ℕ) (xs : List ℕ) → drop (length (take k xs)) xs ≡ drop k xs
drop-length-take zero xs = refl
drop-length-take (suc k) [] = refl
drop-length-take (suc k) (x ∷ xs) = drop-length-take k xs

-- What a read takes of the bytes: nothing only where there are none.
chunk_lem :
    (k : ℕ) (rest : List ℕ)
    → 0 < k
    → ((rest ≡ []) × (take k rest ≡ []))
      ⊎ ((b : ℕ) × (bs : List ℕ) × (take k rest ≡ b ∷ bs)
          × (rest ≡ b ∷ bs ++ drop (length (b ∷ bs)) rest)
          × (length (b ∷ bs) ≤ k))
chunk_lem zero rest p = absurd (omega (arith, p))
chunk_lem (suc k) [] p = inl (refl, refl)
chunk_lem (suc k) (x ∷ xs) p = inr (
  x,
  take k xs,
  refl,
  ap (λ l. x ∷ l)
      (sym (take-append-drop k xs) ∙ ap (λ l. take k xs ++ l) (sym (drop-length-take k xs))),
  omega (arith, length-take k xs),
)

module _ (answers : ℕ → ReadAnswer) (max_size err : ℕ) where
  -- What the loop comes to, with `out` the bytes that it adds to `content` and `left` those it leaves.
  pub record Reads (rest content : List ℕ) (m : Option (ℕ × List ℕ)) : Type 0 where
    pub e : ℕ
    pub out : List ℕ
    pub left : List ℕ
    pub returns : m ≡ some (e, content ++ out)
    pub parts : rest ≡ out ++ left
    pub bound : length content + length out ≤ max_size
    pub ends :
        ((e ≡ err) × ((length content + length out ≡ max_size) ⊎ (left ≡ [])))
        ⊎ ((call : ℕ) × (answers call ≡ fails e))

  loop-full :
      (fuel call : ℕ) (rest content : List ℕ)
      → ltb (length content) max_size ≡ false
      → read_loop (suc fuel) answers call max_size rest err content ≡ some (err, content)
  unfolding read_loop
  loop-full fuel call rest content h = rw (read_loop, h) refl

  loop-fails :
      (fuel call e : ℕ) (rest content : List ℕ)
      → ltb (length content) max_size ≡ true
      → answers call ≡ fails e
      → read_loop (suc fuel) answers call max_size rest err content ≡ some (e, content)
  unfolding read_loop
  loop-fails fuel call e rest content h a = rw (read_loop, h, a) refl

  loop-ends :
      (fuel call n : ℕ) (rest content : List ℕ)
      → ltb (length content) max_size ≡ true
      → answers call ≡ at_most n
      → taken n (min (max_size - length content) buffer_size) rest ≡ []
      → read_loop (suc fuel) answers call max_size rest err content ≡ some (err, content)
  unfolding read_loop
  loop-ends fuel call n rest content h a t = rw (read_loop, h, a, t) refl

  loop-goes :
      (fuel call n b : ℕ) (bs rest content : List ℕ)
      → ltb (length content) max_size ≡ true
      → answers call ≡ at_most n
      → taken n (min (max_size - length content) buffer_size) rest ≡ b ∷ bs
      → read_loop (suc fuel) answers call max_size rest err content
        ≡ read_loop fuel answers
            (call + 1)
            max_size
            (drop (length (b ∷ bs)) rest)
            err
            (content ++ b ∷ bs)
  unfolding read_loop
  loop-goes fuel call n b bs rest content h a t = rw (read_loop, h, a, t) refl

  -- Nothing is added.
  stops :
      (e : ℕ) (rest content : List ℕ) (m : Option (ℕ × List ℕ))
      → m ≡ some (e, content)
      → length content ≤ max_size
      → ((e ≡ err) × ((length content ≡ max_size) ⊎ (rest ≡ [])))
        ⊎ ((call : ℕ) × (answers call ≡ fails e))
      → Reads rest content m
  stops e rest content m r b ends = record {
    e = e;
    out = [];
    left = rest;
    returns = r ∙ ap (λ l. some (e, l)) (sym (append-nil content));
    parts = refl;
    bound = omega (arith, b);
    ends = by_end ends;
  }
    where
      by_end :
          ((e ≡ err) × ((length content ≡ max_size) ⊎ (rest ≡ [])))
            ⊎ ((call : ℕ) × (answers call ≡ fails e))
          → ((e ≡ err) × ((length content + 0 ≡ max_size) ⊎ (rest ≡ [])))
            ⊎ ((call : ℕ) × (answers call ≡ fails e))
      by_end (inl (s, inl f)) = inl (s, inl (omega (arith, f)))
      by_end (inl (s, inr f)) = inl (s, inr f)
      by_end (inr f) = inr f

  goes :
      (b : ℕ) (bs rest later content : List ℕ) (m k : Option (ℕ × List ℕ))
      → m ≡ k
      → rest ≡ b ∷ bs ++ later
      → Reads later (content ++ b ∷ bs) k
      → Reads rest content m
  goes b bs rest later content m k q p r =
      let size = length-append content (b ∷ bs) in
      let size' = length-append (b ∷ bs) r.out in
      record {
        e = r.e;
        out = b ∷ bs ++ r.out;
        left = r.left;
        returns = q ∙ r.returns ∙ ap (λ l. some (r.e, l)) (append_assoc content (b ∷ bs) r.out);
        parts = p ∙ ap (λ l. b ∷ bs ++ l) r.parts ∙ sym (append_assoc (b ∷ bs) r.out r.left);
        bound = omega (arith, r.bound, size, size');
        ends = by_end size size' r.ends;
      }
    where
      by_end :
          length (content ++ b ∷ bs) ≡ length content + length (b ∷ bs)
          → length (b ∷ bs ++ r.out) ≡ length (b ∷ bs) + length r.out
          → ((r.e ≡ err) × ((length (content ++ b ∷ bs) + length r.out ≡ max_size) ⊎ (r.left ≡ [])))
            ⊎ ((call : ℕ) × (answers call ≡ fails r.e))
          → ((r.e ≡ err) × ((length content + length (b ∷ bs ++ r.out) ≡ max_size) ⊎ (r.left ≡ [])))
            ⊎ ((call : ℕ) × (answers call ≡ fails r.e))
      by_end size size' (inl (s, inl f)) = inl (s, inl (omega (arith, f, size, size')))
      by_end size size' (inl (s, inr f)) = inl (s, inr f)
      by_end size size' (inr f) = inr f

  -- With more fuel than bytes the loop ends.
  pub read_loop-Reads :
      (fuel call : ℕ) (rest content : List ℕ)
      → length rest < fuel
      → length content ≤ max_size
      → Reads rest content (read_loop fuel answers call max_size rest err content)
  read_loop-Reads zero call rest content p c = absurd (omega (arith, p))
  read_loop-Reads (suc fuel) call rest content p c =
      by_room (ltb (length content) max_size) refl
        (λ b bs later. read_loop-Reads fuel (call + 1) later (content ++ b ∷ bs))
    where
      Next : Type 0
      Next =
          (b : ℕ) (bs later : List ℕ)
          → length later < fuel
          → length (content ++ b ∷ bs) ≤ max_size
          → Reads later (content ++ b ∷ bs)
              (read_loop fuel answers (call + 1) max_size later err (content ++ b ∷ bs))

      by_answer :
          (a : ReadAnswer)
          → answers call ≡ a
          → ltb (length content) max_size ≡ true
          → Next
          → Reads rest content (read_loop (suc fuel) answers call max_size rest err content)
      by_answer (fails e) g h next =
          stops e rest content _ (loop-fails fuel call e rest content h g) c (inr (call, g))
      by_answer (at_most n) g h next =
          let k = min (n + 1) (min (max_size - length content) buffer_size) in
          let room : length content < max_size = ground arith in
          elim (chunk_lem k rest (omega (arith, room))) [
            | inl (z, t) ↦
                stops err rest content _ (loop-ends fuel call n rest content h g t) c
                  (inl (refl, inr z))
            | inr (b, bs, t, s, l) ↦
                let later = drop (length (b ∷ bs)) rest in
                let size = ap length s ∙ length-append (b ∷ bs) later in
                goes b bs rest later content _ _ (loop-goes fuel call n b bs rest content h g t) s (
                  next b bs later (omega (arith, size, p))
                    (omega (arith, l, length-append content (b ∷ bs), room)))
          ]

      by_room :
          (r : Bool)
          → ltb (length content) max_size ≡ r
          → Next
          → Reads rest content (read_loop (suc fuel) answers call max_size rest err content)
      by_room true h next = by_answer (answers call) refl h next
      by_room false h next =
          stops err rest content _ (loop-full fuel call rest content h) c
            (inl (refl, inl (ground arith)))
