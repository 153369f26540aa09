-- ===== src/Wal/Reads.antt =====
-- internal/wal/wal.go: reads of a file.
use lsmdb.Base.{
  ℕ, ◌<◌, ◌≡◌, ap, ◌∙◌, List, ◌++◌, arith, length, length-append, drop, leb, is_empty,
  if◌then◌else◌, if_yes, if_no, le→leb, take-append, drop-append,
}
use lsmdb.Wal.{full, eof, unexpected_eof, read_full}

-- A read of a part at the front gives that part.
pub read_full-append :
    (n : ℕ) (xs ys : List ℕ) → length xs ≡ n → read_full n (xs ++ ys) ≡ full xs ys
unfolding read_full
read_full-append n xs ys e =
    if_yes (leb n (length (xs ++ ys))) _ _
      (le→leb n (length (xs ++ ys)) (omega (arith, e, length-append xs ys)))
    ∙ ap (λ a. full a (drop n (xs ++ ys))) (take-append n xs ys e)
    ∙ ap (λ b. full xs b) (drop-append n xs ys e)

-- A read of more than is left meets the end of the file.
pub read_full_short :
    (n : ℕ) (bytes : List ℕ)
    → length bytes < n
    → read_full n bytes ≡ (if is_empty bytes then eof else unexpected_eof)
unfolding read_full
read_full_short n bytes short = if_no (leb n (length bytes)) _ _ (ground (arith, short))
