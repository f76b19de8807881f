-- ===== src/Common/Texts.antt =====
-- Text as the list of its code units, and what the code uses of JavaScript's strings: white space,
-- `trim`, and `x.trim() || null`.
use ai_tgs.Common.Tests.{
  ℕ, Bool, true, false, ◌&&◌, ◌||◌, Option, none, some, List, [], ◌∷◌, leb, ◌==◌, if◌then◌else◌,
}
use mathlib.Core.List.{reverse}

abbrev pub Text : Type 0
Text = List ℕ

-- WhiteSpace and LineTerminator of ECMAScript, which `trim` and `\s` share.
abbrev pub is_space : ℕ → Bool
is_space c =
    leb 9 c && leb c 13
    || (c == 32
        || (c == 160
            || (c == 5760
                || (leb 8192 c && leb c 8202
                    || (c == 8232
                        || (c == 8233
                            || (c == 8239 || (c == 8287 || (c == 12288 || c == 65279)))))))))

unfoldable pub trim_start : Text → Text
trim_start [] = []
trim_start (c ∷ s) = let rest = trim_start s in if is_space c then rest else c ∷ s

unfoldable pub trim : Text → Text
unfolding trim_start
trim s = reverse (trim_start (reverse (trim_start s)))

-- `s || null`: the empty text is falsy.
abbrev pub or_null : Text → Option Text
or_null [] = none
or_null (c ∷ s) = some (c ∷ s)

-- `s?.trim() || null`
abbrev pub trimmed_or_null : Option Text → Option Text
trimmed_or_null none = none
trimmed_or_null (some s) = or_null (trim s)

abbrev pub same_text : Text → Text → Bool
same_text [] [] = true
same_text (a ∷ s) (b ∷ t) = a == b && same_text s t
same_text _ _ = false

-- `s.replace(/\s+/g, ' ')`: a run of white space becomes one space; the flag is set inside a run.
abbrev pub collapse_from : Bool → Text → Text
collapse_from inside [] = []
collapse_from inside (c ∷ s) =
    let after_space = collapse_from true s in
    let after_other = collapse_from false s in
    if is_space c then (if inside then after_space else 32 ∷ after_space) else c ∷ after_other

abbrev pub collapse : Text → Text
collapse s = collapse_from false s

abbrev pub is_blank : Text → Bool
is_blank [] = true
is_blank (c ∷ s) = false

-- `texts.includes(t)`, and whether `new Set(texts)` is smaller than the list.
abbrev pub includes : List Text → Text → Bool
includes [] t = false
includes (x ∷ xs) t = same_text x t || includes xs t

abbrev pub has_equal_texts : List Text → Bool
has_equal_texts [] = false
has_equal_texts (x ∷ xs) = includes xs x || has_equal_texts xs
