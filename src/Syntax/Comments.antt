-- ===== src/Syntax/Comments.antt =====
-- scanner.l: what stands in comments is no part of the program.
use filtergen.Base.{
  Bool, true, false, ◌&&◌, not, Text, [], ◌∷◌, ◌++◌, ◌==◌, ◌≡◌, refl, codes, both_true, Bool-cases,
  inl, inr,
}
use filtergen.Syntax.Scanner.{start, comment, comment_star, scan_byte, scan}

abbrev starts_slash : Text → Bool
starts_slash [] = false
starts_slash (c ∷ s) = c == b'/'

-- No star with a slash behind it.
abbrev pub is_unclosed : Text → Bool
is_unclosed [] = true
is_unclosed (c ∷ s) = not (c == b'*' && starts_slash s) && is_unclosed s

-- A slash behind a star would close the comment.
no_slash : (b r : Bool) → not (b && r) ≡ true → b ≡ true → r ≡ false
no_slash b true free star = cc
no_slash b false free star = refl

mutual
  unfolding scan scan_byte

  skips_comment :
      (s k : Text) → is_unclosed s ≡ true → scan comment (s ++ (b'*' ∷ b'/' ∷ k)) ≡ scan start k
  skips_comment [] k free = refl
  skips_comment (c ∷ s) k free =
      let (e, es) = both_true (not (c == b'*' && starts_slash s)) (is_unclosed s) free in
      elim (Bool-cases (c == b'*')) [
        | inl star ↦ rw star (skips_stars s k es (no_slash (c == b'*') (starts_slash s) e star))
        | inr other ↦ rw other (skips_comment s k es)
      ]

  skips_stars :
      (s k : Text)
      → is_unclosed s ≡ true
      → starts_slash s ≡ false
      → scan comment_star (s ++ (b'*' ∷ b'/' ∷ k)) ≡ scan start k
  skips_stars [] k free slash = refl
  skips_stars (c ∷ s) k free slash =
      let (e, es) = both_true (not (c == b'*' && starts_slash s)) (is_unclosed s) free in
      elim (Bool-cases (c == b'*')) [
        | inl star ↦
            rw (slash, star) (skips_stars s k es (no_slash (c == b'*') (starts_slash s) e star))
        | inr other ↦ rw (slash, other) (skips_comment s k es)
      ]

-- A comment between two tokens, in slashes and stars, that holds no star with a slash behind it is
-- skipped, whatever else it holds: keywords, strings, single stars and ends of lines.
pub scan-comment :
    (s k : Text)
    → is_unclosed s ≡ true
    → scan start (codes "/*" ++ (s ++ (codes "*/" ++ k))) ≡ scan start k
unfolding scan scan_byte
scan-comment s k free = skips_comment s k free
