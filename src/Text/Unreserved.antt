-- ===== src/Text/Unreserved.antt =====
-- The test of utilities.c against RFC 3986, section 2.3: letters, digits, and four marks.
use is_rtsp_server.Base.{
  ℕ, ◌+◌, if-cases, zero, suc, ◌<◌, ◌≡◌, ◌↔◌, refl, subst, sym, arith, Bool, true, false, not, ◌&&◌,
  ◌||◌, Bool-cases, inl, inr, some, List, [], ◌∷◌, All, ltb, leb, ◌==◌, if◌then◌else◌,
}
use is_rtsp_server.Text.{unreserved_chars, unreserved_char, all_unreserved, str_is_unreserved}

-- The rule of RFC 3986, by ranges.
abbrev pub rule : ℕ → Bool
rule c =
    (leb 48 c && leb c 57)
    || (leb 65 c && leb c 90)
    || (leb 97 c && leb c 122)
    || c == 45
    || c == 46
    || c == 95
    || c == 126

-- The entry of the table for a code is as the rule says.
abbrev as_ruled : ℕ → Bool
as_ruled c =
    if rule c then unreserved_char c unreserved_chars else not (unreserved_char c unreserved_chars)

-- So are the entries from `c` on, as many as `todo` counts.
compare_from : ℕ → ℕ → Bool
compare_from c zero = true
compare_from c (suc todo) = if as_ruled c then compare_from (suc c) todo else false

table_compared : compare_from 0 128 ≡ true
unfolding compare_from unreserved_char
table_compared = refl

moved : (a b : ℕ) → a ≡ b → as_ruled a ≡ true → as_ruled b ≡ true
moved a b e h = subst (λ n. as_ruled n ≡ true) e h

entry_ruled : (c todo d : ℕ) → compare_from c todo ≡ true → d < todo → as_ruled (c + d) ≡ true
unfolding compare_from
entry_ruled c zero d e h = absurd (omega (arith, h))
entry_ruled c (suc todo) zero e h =
    if-cases (λ b. b ≡ true → as_ruled (c + 0) ≡ true) (as_ruled c) _ _
      (λ f g. moved c (c + 0) (omega arith) f) (λ f g. absurd cc) e
entry_ruled c (suc todo) (suc d) e h =
    if-cases (λ b. b ≡ true → as_ruled (c + suc d) ≡ true) (as_ruled c) _ _
      (λ f g.
        moved (suc c + d) (c + suc d) (omega arith)
          (entry_ruled (suc c) todo d g (omega (arith, h))))
      (λ f g. absurd cc) e

ruled : (r u : Bool) → (if r then u else not u) ≡ true → u ≡ r
ruled true u e = e
ruled false true e = absurd cc
ruled false false e = refl

table_rule : (c : ℕ) → c < 128 → unreserved_char c unreserved_chars ≡ rule c
table_rule c h =
    ruled (rule c) (unreserved_char c unreserved_chars)
      (moved (0 + c) c (omega arith) (entry_ruled 0 128 c table_compared h))

rule_small : (c : ℕ) → 127 < c → rule c ≡ false
rule_small c h = ground (arith, h)

test_rule : (c : ℕ) → (ltb 127 c || not (unreserved_char c unreserved_chars)) ≡ not (rule c)
test_rule c = elim (Bool-cases (ltb 127 c)) [
  | inl e ↦
      rule_out (ltb 127 c) (not (unreserved_char c unreserved_chars)) (rule c) e
        (rule_small c (ground (arith, e)))
  | inr e ↦
      keep (ltb 127 c) (unreserved_char c unreserved_chars) (rule c) e
        (table_rule c (ground (arith, e)))
]
  where
    rule_out : (a b r : Bool) → a ≡ true → r ≡ false → (a || b) ≡ not r
    rule_out a b r e f = rw (e, f) refl

    keep : (a b r : Bool) → a ≡ false → b ≡ r → (a || not b) ≡ not r
    keep a b r e f = rw (e, f) refl

step :
    (b : Bool) (x : Bool) (P : Type 0)
    → ((x ≡ true) ↔ P)
    → ((if not b then false else x) ≡ true) ↔ ((b ≡ true) × P)
step true x P h = (λ e. (refl, h.0 e), λ e. h.1 e.1)
step false x P h = (λ e. absurd cc, λ e. absurd (let f = e.0 in cc))

-- A text passes the test exactly if each of its characters is unreserved by the rule of RFC 3986.
pub str_is_unreserved_lem :
    (s : List ℕ) → (str_is_unreserved (some s) ≡ true) ↔ All (λ c. rule c ≡ true) s
unfolding str_is_unreserved
str_is_unreserved_lem [] = (λ e. tt, λ e. refl)
str_is_unreserved_lem (c ∷ cs) =
    subst
      (λ b.
        ((if b then false else all_unreserved cs) ≡ true)
        ↔ ((rule c ≡ true) × All (λ d. rule d ≡ true) cs))
      (sym (test_rule c))
      (step (rule c) (all_unreserved cs) (All (λ d. rule d ≡ true) cs) (str_is_unreserved_lem cs))
