-- ===== src/Node/Lines.antt =====
-- Scanning the lines that were printed into the addresses file.
use ssle_project.Prelude.{
  ◌<◌, ◌≡◌, refl, false, some, List, [], ◌∷◌, ◌++◌, length, Bytes, ◌==◌, All, arith,
}
use ssle_project.Node.{
  print_lines, lines_of, drop_cr, checked_lines, scan_lines, max_scan_token_size,
}

abbrev pub NoNewline : Bytes → Type 0
NoNewline = All (λ c. (c == b'\n') ≡ false)

-- A line that the scanner reads back: no newline, no carriage return at its end, and not too long.
pub record IsLine (line : Bytes) : Type 0 where
  pub no_newline : NoNewline line
  pub no_return : drop_cr line ≡ line
  pub is_short : length line < max_scan_token_size

lines_of-line :
    (line text : Bytes) → NoNewline line → lines_of (line ++ (b'\n' ∷ text)) ≡ line ∷ lines_of text
unfolding lines_of
lines_of-line [] text h = refl
lines_of-line (c ∷ line) text h = rw (h.0, lines_of-line line text h.1)

pub lines_of-print_lines :
    (lines : List Bytes) → All NoNewline lines → lines_of (print_lines lines) ≡ lines
unfolding print_lines lines_of
lines_of-print_lines [] h = refl
lines_of-print_lines (line ∷ lines) h =
    rw (lines_of-line line (print_lines lines) h.0, lines_of-print_lines lines h.1)

All-NoNewline : (lines : List Bytes) → All IsLine lines → All NoNewline lines
All-NoNewline [] h = tt
All-NoNewline (line ∷ lines) h = (h.0.no_newline, All-NoNewline lines h.1)

checked_lines-IsLine : (lines : List Bytes) → All IsLine lines → checked_lines lines ≡ some lines
unfolding checked_lines
checked_lines-IsLine [] h = refl
checked_lines-IsLine (line ∷ lines) h =
    let short = h.0.is_short in
    let kept = h.0.no_return in ground (arith, checked_lines-IsLine lines h.1)

pub scan_lines-print_lines :
    (lines : List Bytes) → All IsLine lines → scan_lines (print_lines lines) ≡ some lines
unfolding scan_lines
scan_lines-print_lines lines h =
    rw (lines_of-print_lines lines (All-NoNewline lines h), checked_lines-IsLine lines h)
