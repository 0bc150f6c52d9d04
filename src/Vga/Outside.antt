-- ===== src/Vga/Outside.antt =====
-- Text changes no word outside the screen (kernel/src/vga.c).
use moonlight_os.Prelude.{
  ℕ, zero, suc, ◌+◌, ◌*◌, ◌≤◌, ◌<◌, ◌≡◌, inl, inr, refl, ◌∙◌, arith, Bool, true, false, ◌||◌, ◌&&◌,
  ◌^◌, set, if◌then◌else◌, ◌==◌, List, [], ◌∷◌, length, Bool-cases,
}
use moonlight_os.Vga.{
  Memory, int, ge_int, plot, draw_cols, draw_rows, draw_char, printable, vga_width, vga_height,
  console_cols, Vga, puts_from, render_text, puts_at,
}

-- Near the screen, on it or not, the arithmetic does not overflow, and no word outside it changes.
module _ (fb : Memory) (x y row col colr i : ℕ) (near : (x < 2 ^ 27) × (y < 2 ^ 27)) (low : row < 8)
    (left : col < 8) (out : vga_width * vga_height ≤ i) where
  plotted-outside :
      x * 8 + col < 800
      → y * 16 + row * 2 < 600
      → (if ge_int (int (y * 16 + row * 2 + 1)) vga_height
            then set fb (int ((y * 16 + row * 2) * vga_width + (x * 8 + col))) colr
            else set
                (set fb (int ((y * 16 + row * 2) * vga_width + (x * 8 + col))) colr)
                (int (int (y * 16 + row * 2 + 1) * vga_width + (x * 8 + col)))
                colr)
          i
        ≡ fb i
  plotted-outside column line =
      let first_line : int ((y * 16 + row * 2) * 800 + (x * 8 + col)) < 480_000 = omega arith in
      let below : int (y * 16 + row * 2 + 1) ≡ y * 16 + row * 2 + 1 = omega arith in
      let even : ge_int (y * 16 + row * 2 + 1) 600 ≡ false = ground arith in
      let second_line : int ((y * 16 + row * 2 + 1) * 800 + (x * 8 + col)) < 480_000 =
        omega arith in
      rw (below, even) (ground arith)

  plot-outside : plot fb x y row col colr i ≡ fb i
  plot-outside =
      let px : int (x * 8 + col) ≡ x * 8 + col = omega (arith, near) in
      let py : int (y * 16 + row * 2) ≡ y * 16 + row * 2 = omega (arith, near) in
      elim (Bool-cases (ge_int (x * 8 + col) 800 || ge_int (y * 16 + row * 2) 600)) [
        | inl off ↦ rw (px, py, off) refl
        | inr on ↦ rw (px, py, on) (plotted-outside (ground (arith, near)) (ground (arith, near)))
      ]

module _ (x y c fg bg i : ℕ) (near : (x < 2 ^ 27) × (y < 2 ^ 27))
    (out : vga_width * vga_height ≤ i) where
  draw_cols-outside :
      (fb : Memory) (row n : ℕ) → row < 8 → n ≤ 8 → draw_cols fb x y c fg bg row n i ≡ fb i
  unfolding draw_cols
  draw_cols-outside fb row zero low few = refl
  draw_cols-outside fb row (suc n) low few =
      plot-outside (draw_cols fb x y c fg bg row n) x y row n _ i near low (omega arith) out
      ∙ draw_cols-outside fb row n low (omega arith)

  draw_rows-outside : (fb : Memory) (n : ℕ) → n ≤ 8 → draw_rows fb x y c fg bg n i ≡ fb i
  unfolding draw_rows
  draw_rows-outside fb zero few = refl
  draw_rows-outside fb (suc n) few =
      draw_cols-outside (draw_rows fb x y c fg bg n) n 8 (omega arith) (omega arith)
      ∙ draw_rows-outside fb n (omega arith)

draw_char-outside :
    (fb : Memory) (x y c fg bg i : ℕ)
    → (x < 2 ^ 27) × (y < 2 ^ 27)
    → vga_width * vga_height ≤ i
    → draw_char fb x y c fg bg i ≡ fb i
unfolding draw_char
draw_char-outside fb x y c fg bg i near h =
    draw_rows-outside x y (printable c) fg bg i near h fb 8 (omega arith)

puts_from-outside :
    (fb : Memory) (s : List ℕ) (x₀ : ℕ) (wraps : Bool) (x y fg bg i : ℕ)
    → x₀ + length s ≤ 2 ^ 27
    → x + length s ≤ 2 ^ 27
    → y + length s ≤ 2 ^ 27
    → vga_width * vga_height ≤ i
    → puts_from fb s x₀ wraps x y fg bg i ≡ fb i
unfolding puts_from
puts_from-outside fb [] x₀ wraps x y fg bg i h0 hx hy h = refl
puts_from-outside fb (c ∷ s) x₀ wraps x y fg bg i h0 hx hy h =
    let right : int (x + 1) ≡ x + 1 = omega arith in
    let down : int (y + 1) ≡ y + 1 = omega arith in
    elim (Bool-cases (c == 10)) [
      | inl line ↦
          rw (line, down)
            (puts_from-outside fb s x₀ wraps x₀ (y + 1) fg bg i (omega arith) (omega arith)
              (omega arith) h)
      | inr char ↦ elim (Bool-cases (wraps && ge_int (x + 1) console_cols)) [
        | inl last ↦
            rw (char, right, down, last)
              (puts_from-outside (draw_char fb x y c fg bg) s x₀ wraps x₀ (y + 1) fg bg i
                  (omega arith) (omega arith) (omega arith) h
                ∙ draw_char-outside fb x y c fg bg i (omega arith, omega arith) h)
        | inr more ↦
            rw (char, right, down, more)
              (puts_from-outside (draw_char fb x y c fg bg) s x₀ wraps (x + 1) y fg bg i
                  (omega arith) (omega arith) (omega arith) h
                ∙ draw_char-outside fb x y c fg bg i (omega arith, omega arith) h)
      ]
    ]

-- Text at coordinates that are not negative, on the screen or not, changes no word before or behind the screen,
-- if each coordinate and the length of the text together are at most 2^27.
pub render_text-outside :
    (v : Vga) (s : List ℕ) (x y fg bg i : ℕ)
    → x + length s ≤ 2 ^ 27
    → y + length s ≤ 2 ^ 27
    → vga_width * vga_height ≤ i
    → ((render_text v s x y fg bg).fb i ≡ v.fb i) × ((puts_at v s x y fg bg).fb i ≡ v.fb i)
unfolding render_text puts_at
render_text-outside v s x y fg bg i hx hy h = elim (Bool-cases v.fb_init_done) [
  | inl ready ↦ rw ready (
    puts_from-outside v.fb s x true x y fg bg i hx hx hy h,
    puts_from-outside v.fb s x false x y fg bg i hx hx hy h,
  )
  | inr off ↦ rw off (refl, refl)
]
