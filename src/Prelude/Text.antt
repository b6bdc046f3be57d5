-- ===== src/Prelude/Text.antt =====
-- The methods of `str`, and `int`, that the program calls on texts that it reads. Digits are those of
-- ASCII.
use vanth.Prelude.{
  ℕ, zero, suc, ◌+◌, ◌-◌, ◌*◌, Bool, true, false, ◌&&◌, ◌||◌, Option, none, some, List, [], ◌∷◌,
  leb, ◌==◌, if◌then◌else◌,
}

-- The integers, over the native numbers.
pub data ℤ : Type 0 where
  pos : ℕ → ℤ
  negsuc : ℕ → ℤ

abbrev between : ℕ → ℕ → ℕ → Bool
between a b c = leb a c && leb c b

-- str.isspace
unfoldable pub is_space : ℕ → Bool
is_space c =
    between 9 13 c
    || (between 28 32 c
        || (c == 133
            || (c == 160
                || (c == 5760
                    || (between 8192 8202 c
                        || (between 8232 8233 c || (c == 8239 || (c == 8287 || c == 12288))))))))

unfoldable pub skip_space : List ℕ → List ℕ
unfolding is_space
skip_space [] = []
skip_space (c ∷ cs) = if is_space c then skip_space cs else c ∷ cs

unfoldable pub reverse_onto : List ℕ → List ℕ → List ℕ
reverse_onto [] acc = acc
reverse_onto (c ∷ cs) acc = reverse_onto cs (c ∷ acc)

-- str.strip()
unfoldable pub strip : List ℕ → List ℕ
unfolding skip_space reverse_onto
strip cs = reverse_onto (skip_space (reverse_onto (skip_space cs) [])) []

abbrev cons_first : ℕ → List (List ℕ) → List (List ℕ)
cons_first c [] = (c ∷ []) ∷ []
cons_first c (part ∷ parts) = (c ∷ part) ∷ parts

-- str.split(c): at least one part
unfoldable pub split_at : ℕ → List ℕ → List (List ℕ)
split_at sep [] = [] ∷ []
split_at sep (c ∷ cs) =
    let rest = split_at sep cs in if c == sep then [] ∷ rest else cons_first c rest

-- str.split(): the runs without white space
abbrev close : List ℕ → List (List ℕ) → List (List ℕ)
close [] parts = parts
close (c ∷ cs) parts = reverse_onto (c ∷ cs) [] ∷ parts

words_from : List ℕ → List ℕ → List (List ℕ)
words_from run [] = close run []
words_from run (c ∷ cs) =
    if is_space c then close run (words_from [] cs) else words_from (c ∷ run) cs

unfoldable pub words : List ℕ → List (List ℕ)
unfolding words_from is_space reverse_onto
words cs = words_from [] cs

-- str.partition(c): the text before the first `c` and the text after it, where there is one
unfoldable pub partition : ℕ → List ℕ → Option (List ℕ × List ℕ)
partition sep [] = none
partition sep (c ∷ cs) =
    let rest = partition sep cs in
    if c == sep then some ([], cs) else elim rest [ none ↦ none | some p ↦ some (c ∷ p.0, p.1) ]

abbrev is_digit : ℕ → Bool
is_digit c = between 48 57 c

-- The digits after a digit: a single underscore may stand between two.
digits_from : ℕ → List ℕ → Option ℕ
digits_from n [] = some n
digits_from n (c ∷ []) = if is_digit c then some (n * 10 + (c - 48)) else none
digits_from n (c ∷ d ∷ cs) =
    let plain = digits_from (n * 10 + (c - 48)) (d ∷ cs) in
    let jump = digits_from (n * 10 + (d - 48)) cs in
    if is_digit c then plain else if (c == 95) && is_digit d then jump else none

digits : List ℕ → Option ℕ
digits [] = none
digits (c ∷ cs) = if is_digit c then digits_from (c - 48) cs else none

abbrev negate : ℕ → ℤ
negate zero = pos 0
negate (suc n) = negsuc n

signed : List ℕ → Option ℤ
signed [] = none
signed (c ∷ cs) =
    if c == 45
    then (elim (digits cs) [ none ↦ none | some n ↦ some (negate n) ])
    else (elim (if c == 43 then digits cs else digits (c ∷ cs)) [
      | none ↦ none
      | some n ↦ some (pos n)
    ])

-- int(text)
unfoldable pub int : List ℕ → Option ℤ
unfolding signed digits digits_from strip
int cs = signed (strip cs)

-- str.lower(), as far as its result is compared with ASCII: U+212A is the sign of the kelvin
unfoldable pub lower : List ℕ → List ℕ
lower [] = []
lower (c ∷ cs) = (if between 65 90 c then c + 32 else if c == 8490 then 107 else c) ∷ lower cs

unfoldable pub same_text : List ℕ → List ℕ → Bool
same_text [] [] = true
same_text (a ∷ xs) (b ∷ ys) = (a == b) && same_text xs ys
same_text _ _ = false
