-- ===== src/Vga/Cells.antt =====
-- A character is drawn in its cell of the screen and nowhere else (kernel/src/vga.c).
use moonlight_os.Prelude.{
  ℕ, zero, suc, ◌+◌, ◌*◌, ◌≤◌, ◌<◌, ◌≡◌, ◌≢◌, inl, inr, refl, ◌∙◌, arith, false, ◌||◌, set,
  lt_or_eq,
}
use moonlight_os.Vga.Font.{glyph}
use moonlight_os.Vga.{
  Memory, int, ge_int, plot, color_at, draw_cols, draw_rows, draw_char, printable,
}

-- The word of memory of a pixel: in the cell at column `x` and row `y`, at the column `col` and the row
-- `row` of the font, on the upper or the lower of the two lines that show this row.
abbrev pub pixel : ℕ → ℕ → ℕ → ℕ → ℕ → ℕ
pixel x y row col half = (y * 16 + row * 2 + half) * 800 + x * 8 + col

-- A cell of the screen, and a pixel of a cell.
abbrev pub OnScreen : ℕ → ℕ → Type 0
OnScreen x y = (x < 100) × (y < 37)

abbrev pub InCell : ℕ → ℕ → ℕ → Type 0
InCell row col half = (row < 8) × (col < 8) × (half < 2)

-- On the screen the arithmetic of a plot does not overflow.
module _ (fb : Memory) (x y row col colr : ℕ) (on : OnScreen x y) (lower : row < 8)
    (left : col < 8) where
  plot_on :
      plot fb x y row col colr ≡ set (set fb (pixel x y row col 0) colr) (pixel x y row col 1) colr
  plot_on =
      let px : int (x * 8 + col) ≡ x * 8 + col = omega (arith, on) in
      let py : int (y * 16 + row * 2) ≡ y * 16 + row * 2 = omega (arith, on) in
      let first_line : int ((y * 16 + row * 2) * 800 + (x * 8 + col)) ≡ pixel x y row col 0 =
        omega (arith, on) in
      let next_line : int (y * 16 + row * 2 + 1) ≡ y * 16 + row * 2 + 1 = omega (arith, on) in
      let second_line : int ((y * 16 + row * 2 + 1) * 800 + (x * 8 + col)) ≡ pixel x y row col 1 =
        omega (arith, on) in
      let here : (ge_int (x * 8 + col) 800 || ge_int (y * 16 + row * 2) 600) ≡ false =
        ground (arith, on) in
      let below : ge_int (y * 16 + row * 2 + 1) 600 ≡ false = ground (arith, on) in
      rw (px, py, here) (rw (next_line, below) (rw (first_line, second_line) refl))

  -- A word that one plot does not set.
  plot-other :
      (i : ℕ)
      → i ≢ pixel x y row col 0
      → i ≢ pixel x y row col 1
      → plot fb x y row col colr i ≡ fb i
  plot-other i up down = rw plot_on (ground arith)

  plot-here : (half : ℕ) → half < 2 → plot fb x y row col colr (pixel x y row col half) ≡ colr
  plot-here zero h = rw plot_on (ground arith)
  plot-here (suc zero) h = rw plot_on (ground arith)
  plot-here (suc (suc half)) h = absurd (omega arith)

lines-inj : (a b p q : ℕ) → p < 800 → q < 800 → a * 800 + p ≡ b * 800 + q → (a ≡ b) × (p ≡ q)
lines-inj a b p q hp hq e = (omega arith, omega arith)

columns-inj : (x x' c c' : ℕ) → c < 8 → c' < 8 → x * 8 + c ≡ x' * 8 + c' → (x ≡ x') × (c ≡ c')
columns-inj x x' c c' h h' e = (omega arith, omega arith)

rows-inj :
    (y y' r r' h h' : ℕ)
    → r < 8
    → r' < 8
    → h < 2
    → h' < 2
    → y * 16 + r * 2 + h ≡ y' * 16 + r' * 2 + h'
    → (y ≡ y') × (r ≡ r') × (h ≡ h')
rows-inj y y' r r' h h' hr hr' hh hh' e = (omega arith, omega arith, omega arith)

-- Different pixels are different words.
pub pixel-inj :
    (x y r c h x' y' r' c' h' : ℕ)
    → OnScreen x y
    → InCell r c h
    → OnScreen x' y'
    → InCell r' c' h'
    → pixel x y r c h ≡ pixel x' y' r' c' h'
    → (x ≡ x') × (y ≡ y') × (r ≡ r') × (c ≡ c') × (h ≡ h')
pixel-inj x y r c h x' y' r' c' h' (ox, oy) (ir, ic, ih) (ox', oy') (ir', ic', ih') e =
    let (line, column) =
      lines-inj (y * 16 + r * 2 + h) (y' * 16 + r' * 2 + h') (x * 8 + c) (x' * 8 + c') (omega arith)
        (omega arith) (omega arith) in
    let (ex, ec) = columns-inj x x' c c' ic ic' column in
    let (ey, er, eh) = rows-inj y y' r r' h h' ir ir' ih ih' line in (ex, ey, er, ec, eh)

module _ (fb : Memory) (x y c fg bg : ℕ) (on : OnScreen x y) where
  -- A word that is no pixel of the first `n` columns of a row.
  draw_cols-other :
      (row n i : ℕ)
      → row < 8
      → n ≤ 8
      → ((col half : ℕ) → col < n → half < 2 → i ≢ pixel x y row col half)
      → draw_cols fb x y c fg bg row n i ≡ fb i
  unfolding draw_cols
  draw_cols-other row zero i low few away = refl
  draw_cols-other row (suc n) i low few away =
      plot-other (draw_cols fb x y c fg bg row n) x y row n _ on low (omega arith) i
        (away n 0 (omega arith) (omega arith)) (away n 1 (omega arith) (omega arith))
      ∙ draw_cols-other row n i low (omega arith) (λ col half h. away col half (omega arith))

  draw_cols-here :
      (row n col half : ℕ)
      → InCell row col half
      → col < n
      → n ≤ 8
      → draw_cols fb x y c fg bg row n (pixel x y row col half) ≡ color_at (glyph c row) col fg bg
  unfolding draw_cols
  draw_cols-here row zero col half inside h small = absurd (omega arith)
  draw_cols-here row (suc n) col half inside h small = elim (lt_or_eq col n h) [
    | inl here ↦ rw here (
        plot-here (draw_cols fb x y c fg bg row n) x y row n _ on inside.0 (omega arith) half
          inside.2)
    | inr less ↦
        let away : (k : ℕ) → k < 2 → pixel x y row col half ≢ pixel x y row n k = λ k hk e. absurd (
          omega (
            arith,
            (pixel-inj x y row col half x y row n k on inside on (inside.0, omega arith, hk) e).3,
          )) in
        plot-other (draw_cols fb x y c fg bg row n) x y row n _ on inside.0 (omega arith)
          (pixel x y row col half) (away 0 (omega arith)) (away 1 (omega arith))
        ∙ draw_cols-here row n col half inside less (omega arith)
  ]

module _ (fb : Memory) (x y c fg bg : ℕ) (on : OnScreen x y) where
  -- The same for the first `n` rows.
  draw_rows-other :
      (n i : ℕ)
      → n ≤ 8
      → ((row col half : ℕ) → row < n → col < 8 → half < 2 → i ≢ pixel x y row col half)
      → draw_rows fb x y c fg bg n i ≡ fb i
  unfolding draw_rows
  draw_rows-other zero i few away = refl
  draw_rows-other (suc n) i few away =
      draw_cols-other (draw_rows fb x y c fg bg n) x y c fg bg on n 8 i (omega arith) (omega arith)
        (λ col half hc hh. away n col half (omega arith) hc hh)
      ∙ draw_rows-other n i (omega arith) (λ row col half hr. away row col half (omega arith))

  draw_rows-here :
      (n row col half : ℕ)
      → InCell row col half
      → row < n
      → n ≤ 8
      → draw_rows fb x y c fg bg n (pixel x y row col half) ≡ color_at (glyph c row) col fg bg
  unfolding draw_rows
  draw_rows-here zero row col half inside h small = absurd (omega arith)
  draw_rows-here (suc n) row col half inside h small = elim (lt_or_eq row n h) [
    | inl here ↦ rw here (
        draw_cols-here (draw_rows fb x y c fg bg n) x y c fg bg on n 8 col half (rw (← here) inside)
          inside.1 (omega arith))
    | inr less ↦
        draw_cols-other (draw_rows fb x y c fg bg n) x y c fg bg on n 8 (pixel x y row col half)
          (omega arith) (omega arith)
          (λ k j hk hj e. absurd (
            omega (
              arith,
              (pixel-inj x y row col half x y n k j on inside on (omega arith, hk, hj) e).2,
            )))
        ∙ draw_rows-here n row col half inside less (omega arith)
  ]

-- A character on the screen: each pixel of its cell has the colour of its bit of the font.
pub draw_char-here :
    (fb : Memory) (x y c fg bg row col half : ℕ)
    → OnScreen x y
    → InCell row col half
    → draw_char fb x y c fg bg (pixel x y row col half)
      ≡ color_at (glyph (printable c) row) col fg bg
unfolding draw_char
draw_char-here fb x y c fg bg row col half on inside =
    draw_rows-here fb x y (printable c) fg bg on 8 row col half inside inside.0 (omega arith)

-- Every other word is as before.
pub draw_char-other :
    (fb : Memory) (x y c fg bg i : ℕ)
    → OnScreen x y
    → ((row col half : ℕ) → InCell row col half → i ≢ pixel x y row col half)
    → draw_char fb x y c fg bg i ≡ fb i
unfolding draw_char
draw_char-other fb x y c fg bg i on away =
    draw_rows-other fb x y (printable c) fg bg on 8 i (omega arith)
      (λ row col half hr hc hh. away row col half (hr, hc, hh))
