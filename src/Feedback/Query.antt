-- ===== src/Feedback/Query.antt =====
-- The DELETE query and what is reported for its result.
use Prim.Native.Nat.{max}
use pusher.Base.{
  ℕ, suc, ◌+◌, ◌<◌, false, List, [], ◌∷◌, ◌++◌, ◌≡◌, refl, sym, ◌∙◌, ap, Text, codes, length, ◌==◌,
  ◌≟◌, if◌then◌else◌, arith,
}
use mathlib.Core.List.{append_assoc}
use pusher.Value.Decode.{pos, format_uint}
use pusher.Effects.{Report, report, report_metric_count}
use pusher.Feedback.Tokens.{
  ExecResult, rows, no_rows, failed, deletion_reports, write_placeholders, delete_query,
}

-- One placeholder for each token, numbered from `j`.
abbrev pub placeholders : ℕ → List Text → List Text
placeholders j [] = []
placeholders j (t ∷ ts) = (codes "?" ++ format_uint j) ∷ placeholders (suc j) ts

-- `strings.Join(parts, ", ")`
abbrev pub join : List Text → Text
join [] = []
join (p ∷ []) = p
join (p ∷ q ∷ ps) = p ++ (codes ", " ++ join (q ∷ ps))

suc-ne-zero : (n : ℕ) → (suc n == 0) ≡ false
suc-ne-zero n = ground arith

write_placeholders-cons :
    (j : ℕ) (t u : Text) (us : List Text)
    → write_placeholders j (t ∷ u ∷ us)
      ≡ codes "?" ++ (format_uint j ++ (codes ", " ++ write_placeholders (suc j) (u ∷ us)))
unfolding write_placeholders
write_placeholders-cons j t u us = rw (suc-ne-zero (length us))

write_placeholders-join :
    (j : ℕ) (t : Text) (ts : List Text)
    → write_placeholders j (t ∷ ts) ≡ join (placeholders j (t ∷ ts)) ++ codes ")"
write_placeholders-join j t [] = unfold write_placeholders in refl
write_placeholders-join j t (u ∷ us) =
    write_placeholders-cons j t u us
    ∙ ap (λ x. codes "?" ++ (format_uint j ++ (codes ", " ++ x)))
        (write_placeholders-join (suc j) u us)
    ∙ ap (λ x. codes "?" ++ x)
        (sym (
          append_assoc (format_uint j) (codes ", " ++ join (placeholders (suc j) (u ∷ us)))
            (codes ")")))

-- For a group with a token, the query deletes from the table of the game and the platform, with
-- the placeholders ?0, ?1, … up to the number of tokens, commas between them and one closing
-- bracket.
pub delete_query_lem :
    (tokens : List Text) (game platform : Text)
    → 0 < length tokens
    → delete_query tokens game platform
      ≡ codes "DELETE FROM "
        ++ (game
            ++ (codes "_"
                ++ (platform
                    ++ (codes " WHERE token IN ("
                        ++ ((join (placeholders 0 tokens) ++ codes ")") ++ codes ";")))))
unfolding delete_query
delete_query_lem [] game platform h = absurd (omega arith)
delete_query_lem (t ∷ ts) game platform h = rw (write_placeholders-join 0 t ts)

-- The value that the reports of one reporter give for a metric, added up.
abbrev pub counted : Text → List Report → ℕ
counted metric [] = 0
counted metric ((r, report_metric_count k (pos n) game platform) ∷ rs) =
    let rest = counted metric rs in if k ≟ metric then n + rest else rest
counted metric (_ ∷ rs) = counted metric rs

abbrev affected : ExecResult → ℕ
affected (rows k) = k
affected _ = 0

-- The numbers that one reporter is given for a deletion, as errors, as tokens that are not there
-- and as deleted ones, add up to the number of tokens, or to the rows affected where these are
-- more.
deletion_reports_account :
    (n : ℕ) (game platform : Text) (result : ExecResult)
    → let reports = deletion_reports (0 ∷ []) n game platform result in
      counted (codes "tokens_delete_error") reports
        + counted (codes "tokens_delete_nonexistent") reports
        + counted (codes "tokens_delete_success") reports
      ≡ max n (affected result)
unfolding deletion_reports report
deletion_reports_account n game platform failed = omega arith
deletion_reports_account n game platform no_rows = omega arith
deletion_reports_account n game platform (rows k) = ground arith
