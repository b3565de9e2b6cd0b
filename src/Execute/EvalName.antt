-- ===== src/Execute/EvalName.antt =====
-- The name of a file behind the one that PHP gives to code in `eval`.
use snuffleupagus.Base.{
  ℕ, ◌≡◌, ◌≢◌, refl, ◌∙◌, arith, [], ◌∷◌, ◌++◌, some, Bytes, codes, All, All-append,
}
use mathlib.Core.List.{reverse, reverse-append, reverse-cons, append_assoc, reverse-reverse}
use snuffleupagus.Execute.{cut_from_end, get_eval_filename}

-- No opening parenthesis.
abbrev pub IsPlain : Bytes → Type 0
IsPlain s = All (λ c. c ≢ b'(') s

-- Text without an opening parenthesis is passed over.
cut_from_end-IsPlain :
    (count : ℕ) (s before : Bytes)
    → IsPlain s
    → cut_from_end count (s ++ before) ≡ cut_from_end count before
unfolding cut_from_end
cut_from_end-IsPlain count [] before h = refl
cut_from_end-IsPlain count (c ∷ s) before (h, hs) =
    ground (arith, cut_from_end-IsPlain count s before hs)

reverse-IsPlain : (s : Bytes) → IsPlain s → IsPlain (reverse s)
reverse-IsPlain [] h = tt
reverse-IsPlain (c ∷ s) (h, hs) =
    rw (reverse-cons c s)
      (All-append (λ d. d ≢ b'(') (reverse s) (c ∷ []) (reverse-IsPlain s hs) (h, tt))

reverse-parts :
    (f m t : Bytes) (p : ℕ)
    → reverse (f ++ (p ∷ (m ++ (p ∷ t)))) ≡ reverse t ++ (p ∷ (reverse m ++ (p ∷ reverse f)))
reverse-parts f m t p =
    reverse-append f (p ∷ (m ++ (p ∷ t))) ∙ simp (reverse-cons, reverse-append, append_assoc)

cut_from_end-parts :
    (f m t : Bytes)
    → IsPlain m
    → IsPlain t
    → cut_from_end 0 (t ++ (b'(' ∷ (m ++ (b'(' ∷ f)))) ≡ some f
unfolding cut_from_end
cut_from_end-parts f m t hm ht =
    cut_from_end-IsPlain 0 t (b'(' ∷ (m ++ (b'(' ∷ f))) ht ∙ cut_from_end-IsPlain 1 m (b'(' ∷ f) hm

-- What PHP calls the code of an `eval` at a line of a file.
abbrev pub eval_name : Bytes → Bytes → Bytes
eval_name filename line =
    filename ++ (b'(' ∷ ((line ++ codes ") : eval") ++ (b'(' ∷ codes ")'d code")))

-- The name that PHP gives to the code of an `eval` at a line, which has no opening parenthesis, leads
-- back to the name of the file, whatever stands in this name.
pub get_eval_filename-eval_name :
    (filename line : Bytes) → IsPlain line → get_eval_filename (eval_name filename line) ≡ filename
unfolding get_eval_filename
get_eval_filename-eval_name filename line h =
    let middle = line ++ codes ") : eval" in
    let plain = All-append (λ c. c ≢ b'(') line (codes ") : eval") h (omega arith) in
    let last = codes ")'d code" in
    rw
      (
        reverse-parts filename middle last b'(',
        cut_from_end-parts (reverse filename) (reverse middle) (reverse last)
            (reverse-IsPlain middle plain) (reverse-IsPlain last (omega arith)),
      )
      (reverse-reverse filename)
