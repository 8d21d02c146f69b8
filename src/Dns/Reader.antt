-- ===== src/Dns/Reader.antt =====
-- `std::io::Cursor<&[u8]>` and what `src/dns.rs` does with it. A reader that fails with `?` ends
-- the whole parse, so the position after an error is not kept.
use dns_ligase.Io.{Result, ok, err, fault, failed_to_fill_buffer, Returns}
use dns_ligase.Prelude.{
  ℕ, ◌+◌, zero, suc, ◌≡◌, refl, ap, sym, ◌∙◌, List, [], ◌∷◌, ◌++◌, arith, ltb, if◌then◌else◌, Bytes,
  length, take, drop, length-append, take-append_length, drop-append_length, drop-drop,
  append_assoc, All, le→ltb_false,
}

pub record Cursor : Type 0 where
  pub bytes : Bytes
  pub pos : ℕ

abbrev pub Reader : Type 0 → Type 0
Reader A = Cursor → Result (A × Cursor)

abbrev pub pure : {A : Type 0} → A → Reader A
pure a c = ok (a, c)

infixl 5 ◌>>=◌
abbrev pub ◌>>=◌ : {A B : Type 0} → Reader A → (A → Reader B) → Reader B
◌>>=◌ m f c = elim (m c) [ ok (a, c') ↦ f a c' | err e ↦ err e | fault x ↦ fault x ]

abbrev pub advance : ℕ → Cursor → Cursor
advance n c = record c { pos = c.pos + n }

-- `Read::read_exact` into a buffer of `n` bytes.
unfoldable pub read_exact : ℕ → Reader Bytes
read_exact n c =
    let rest = drop c.pos c.bytes in
    if ltb (length rest) n then err failed_to_fill_buffer else ok (take n rest, advance n c)

-- `for _ in 0..n { out.push(read(reader)?) }`
unfoldable pub repeat : {A : Type 0} → ℕ → Reader A → Reader (List A)
repeat zero read = pure []
repeat (suc n) read = read >>= λ a. repeat n read >>= λ rest. pure (a ∷ rest)

-- Wherever the bytes `bs` stand next, the reader takes exactly them and gives `a`.
pub record Reads {A : Type 0} (read : Reader A) (bs : Bytes) (a : A) : Type 0 where
  pub run :
      (c : Cursor) (rest : Bytes)
      → drop c.pos c.bytes ≡ bs ++ rest
      → read c ≡ ok (a, advance (length bs) c)

pub drop_after :
    (c : Cursor) (bs rest : Bytes)
    → drop c.pos c.bytes ≡ bs ++ rest
    → drop (c.pos + length bs) c.bytes ≡ rest
drop_after c bs rest h =
    sym (drop-drop c.pos (length bs) c.bytes) ∙ ap (drop (length bs)) h ∙ drop-append_length bs rest

pub advance-advance : (m n : ℕ) (c : Cursor) → advance n (advance m c) ≡ advance (m + n) c
advance-advance m n c = ap (λ k. record c { pos = k }) assoc
  where
    assoc : c.pos + m + n ≡ c.pos + (m + n)
    assoc = omega arith

pub advance-zero : (c : Cursor) → advance 0 c ≡ c
advance-zero c = ap (λ k. record c { pos = k }) none_added
  where
    none_added : c.pos + 0 ≡ c.pos
    none_added = omega arith

pub pure-Reads : {A : Type 0} (a : A) → Reads (pure a) [] a
pure-Reads a = record { run = λ c rest h. ap (λ d. ok (a, d)) (sym (advance-zero c)) }

pub bind-Reads :
    {A B : Type 0} {m : Reader A} {bs cs : Bytes} {a : A} {b : B} (f : A → Reader B)
    → Reads m bs a
    → Reads (f a) cs b
    → Reads (m >>= f) (bs ++ cs) b
bind-Reads {m} {bs} {cs} {b} f r s = record {
  run = λ c rest h.
      let h' : drop c.pos c.bytes ≡ bs ++ (cs ++ rest) = h ∙ append_assoc bs cs rest in
      rw (r.run c (cs ++ rest) h', ◌>>=◌)
        (s.run (advance (length bs) c) rest (drop_after c bs (cs ++ rest) h')
          ∙ ap (λ d. ok (b, d))
              (advance-advance (length bs) (length cs) c
                ∙ ap (λ n. advance n c) (sym (length-append bs cs))));
}

-- A last step that only builds the value.
pub map-Reads :
    {A B : Type 0} {m : Reader A} {bs : Bytes} {a : A} (g : A → B)
    → Reads m bs a
    → Reads (m >>= λ x. pure (g x)) bs (g a)
map-Reads g r = record { run = λ c rest h. rw (r.run c rest h, ◌>>=◌) }

pub read_exact-Reads : (bs : Bytes) → Reads (read_exact (length bs)) bs bs
unfolding read_exact
read_exact-Reads bs = record {
  run = λ c rest h.
      rw (h, length-append bs rest, take-append_length bs rest)
        (rw (le→ltb_false (length bs + length rest) (length bs) (omega arith)) refl);
}

unfoldable pub concat_with : {A : Type 0} → (A → Bytes) → List A → Bytes
concat_with f [] = []
concat_with f (x ∷ xs) = f x ++ concat_with f xs

pub repeat-Reads :
    {A : Type 0} (read : Reader A) (write : A → Bytes) (xs : List A)
    → All (λ x. Reads read (write x) x) xs
    → Reads (repeat (length xs) read) (concat_with write xs) xs
unfolding repeat concat_with
repeat-Reads read write [] h = pure-Reads []
repeat-Reads read write (x ∷ xs) h =
    bind-Reads _ h.0 (map-Reads (◌∷◌ x) (repeat-Reads read write xs h.1))

-- A reader that never panics and never runs out of fuel.
abbrev pub Safe : {A : Type 0} → Reader A → Type 0
Safe read = (c : Cursor) → Returns (read c)

pub bind-Safe :
    {A B : Type 0} (m : Reader A) (f : A → Reader B)
    → Safe m
    → ((a : A) → Safe (f a))
    → Safe (m >>= f)
bind-Safe {A} m f h k c = after (m c) (h c)
  where
    after :
        (r : Result (A × Cursor))
        → Returns r
        → Returns (elim r [ ok (a, c') ↦ f a c' | err e ↦ err e | fault x ↦ fault x ])
    after (ok (a, c')) g = k a c'
    after (err e) g = tt
    after (fault x) g = g

pub pure-Safe : {A : Type 0} (a : A) → Safe (pure a)
pure-Safe a c = tt

pub read_exact-Safe : (n : ℕ) → Safe (read_exact n)
unfolding read_exact
read_exact-Safe n c = ground arith

pub repeat-Safe : {A : Type 0} (n : ℕ) (read : Reader A) → Safe read → Safe (repeat n read)
unfolding repeat
repeat-Safe zero read h c = tt
repeat-Safe (suc n) read h c =
    bind-Safe read _ h (λ a. bind-Safe (repeat n read) _ (repeat-Safe n read h) (λ rest c'. tt)) c
