-- ===== src/Protocol/Framed.antt =====
-- How a receiver splits the text of a response: the head up to the first empty line, and the body
-- of the length that the head announces (RFC 2326, section 4).
use is_rtsp_server.Base.{
  append_assoc, append_nil, ℕ, ◌≡◌, ◌≢◌, refl, ap, ◌∙◌, arith, ◌&&◌, Option, none, some, List, [],
  ◌∷◌, ◌++◌, ◌==◌, if◌then◌else◌, if-cases, All,
}
use is_rtsp_server.Protocol.Sent.{line_end, join_lines}

-- What follows an empty line that starts here, after the end of the line before it.
abbrev strip : List ℕ → Option (List ℕ)
strip (a ∷ b ∷ c ∷ d ∷ rest) = if a == 13 && b == 10 && c == 13 && d == 10 then some rest else none
strip _ = none

abbrev put_before : List ℕ → Option (List ℕ × List ℕ) → Option (List ℕ × List ℕ)
put_before xs none = none
put_before xs (some r) = some (xs ++ r.0, r.1)

-- The text before the first empty line, and the text after it.
pub split_blank : List ℕ → Option (List ℕ × List ℕ)
split_blank [] = none
split_blank (x ∷ xs) =
    let rest = split_blank xs in
    elim (strip (x ∷ xs)) [ some after ↦ some ([], after) | none ↦ put_before (x ∷ []) rest ]

-- A text with no carriage return.
abbrev pub Plain : List ℕ → Type 0
Plain xs = All (λ c. c ≢ 13) xs

strip_other : (x : ℕ) (zs : List ℕ) → x ≢ 13 → strip (x ∷ zs) ≡ none
strip_other x [] h = refl
strip_other x (b ∷ []) h = refl
strip_other x (b ∷ c ∷ []) h = refl
strip_other x (b ∷ c ∷ d ∷ zs) h =
    if-cases (λ o. o ≡ none) (x == 13 && b == 10 && c == 13 && d == 10) _ _
      (λ e. absurd (ground (arith, e, h))) (λ e. refl)

strip_within : (c : ℕ) (zs : List ℕ) → c ≢ 13 → strip (13 ∷ 10 ∷ c ∷ zs) ≡ none
strip_within c [] h = refl
strip_within c (d ∷ zs) h =
    if-cases (λ o. o ≡ none) (c == 13 && d == 10) _ _ (λ e. absurd (ground (arith, e, h)))
      (λ e. refl)

put_before_twice :
    (x : ℕ) (xs : List ℕ) (o : Option (List ℕ × List ℕ))
    → put_before (x ∷ []) (put_before xs o) ≡ put_before (x ∷ xs) o
put_before_twice x xs none = refl
put_before_twice x xs (some r) = refl

after-Plain : (xs ys : List ℕ) → Plain xs → split_blank (xs ++ ys) ≡ put_before xs (split_blank ys)
unfolding split_blank
after-Plain [] ys h = of (split_blank ys)
  where
    of : (o : Option (List ℕ × List ℕ)) → o ≡ put_before [] o
    of none = refl
    of (some r) = refl
after-Plain (x ∷ xs) ys h =
    ap
      (λ o. elim o [
        | some after ↦ some ([], after)
        | none ↦ put_before (x ∷ []) (split_blank (xs ++ ys))
      ])
      (strip_other x (xs ++ ys) h.0)
    ∙ ap (put_before (x ∷ [])) (after-Plain xs ys h.1)
    ∙ put_before_twice x xs (split_blank ys)

after_line_end :
    (c : ℕ) (zs : List ℕ)
    → c ≢ 13
    → split_blank (13 ∷ 10 ∷ c ∷ zs) ≡ put_before line_end (split_blank (c ∷ zs))
unfolding split_blank
after_line_end c zs h =
    ap
      (λ o. elim o [
        | some after ↦ some ([], after)
        | none ↦ put_before (13 ∷ []) (split_blank (10 ∷ c ∷ zs))
      ])
      (strip_within c zs h)
    ∙ ap (put_before (13 ∷ [])) (after-Plain (10 ∷ []) (c ∷ zs) (omega arith, tt))
    ∙ put_before_twice 13 (10 ∷ []) (split_blank (c ∷ zs))

-- A line that can stand in a head.
abbrev pub IsLine : List ℕ → Type 0
IsLine [] = ⊥
IsLine (c ∷ cs) = Plain (c ∷ cs)

-- Lines with a line end between each two.
abbrev pub joined : List ℕ → List (List ℕ) → List ℕ
joined l [] = l
joined l (k ∷ ks) = l ++ (line_end ++ joined k ks)

at_blank : (e : List ℕ) → split_blank (line_end ++ (line_end ++ e)) ≡ some ([], e)
unfolding split_blank
at_blank e = refl

pub lines_split :
    (l : List ℕ) (ls : List (List ℕ)) (e : List ℕ)
    → IsLine l
    → All IsLine ls
    → split_blank (join_lines (l ∷ ls) ++ (line_end ++ e)) ≡ some (joined l ls, e)
lines_split [] ls e h hs = absurd h
lines_split (c ∷ cs) [] e h hs =
    ap split_blank (append_assoc (c ∷ cs) line_end (line_end ++ e))
    ∙ after-Plain (c ∷ cs) (line_end ++ (line_end ++ e)) h
    ∙ ap (put_before (c ∷ cs)) (at_blank e)
    ∙ ap (λ xs. some (xs, e)) (append_nil (c ∷ cs))
lines_split (c ∷ cs) ([] ∷ ls) e h hs = absurd (hs.0)
lines_split (c ∷ cs) ((d ∷ ds) ∷ ls) e h hs =
    let rest = join_lines ((d ∷ ds) ∷ ls) in
    ap split_blank (append_assoc (c ∷ cs) (line_end ++ rest) (line_end ++ e))
    ∙ after-Plain (c ∷ cs) (line_end ++ (rest ++ (line_end ++ e))) h
    ∙ ap (put_before (c ∷ cs)) (
        after_line_end d _ (hs.0.0)
        ∙ ap (put_before line_end) (lines_split (d ∷ ds) ls e (hs.0) (hs.1)))
