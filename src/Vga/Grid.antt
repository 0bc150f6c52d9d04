-- ===== src/Vga/Grid.antt =====
-- The console of kernel/src/vga.c shows a grid of characters with a cursor.
use native.Mathlib.Nat.{zero-div}
use moonlight_os.Prelude.{
  ℕ, ◌+◌, ◌^◌, ◌<◌, ◌≡◌, inl, inr, refl, ap, ◌∙◌, arith, true, false, ◌&&◌, ◌==◌, leb,
  if◌then◌else◌, List, [], ◌∷◌, Bool-cases,
}
use moonlight_os.Vga.Font.{glyph, glyph-space}
use moonlight_os.Vga.{
  Memory, int, ge_int, Vga, color_at, draw_char, printable, clear_all, next_line, put_glyph,
  console_putc, console_puts,
}
use moonlight_os.Vga.Cells.{pixel, OnScreen, InCell, pixel-inj, draw_char-here, draw_char-other}

-- A grid of characters with a cursor.
pub record Console : Type 0 where
  pub text : ℕ → ℕ → ℕ
  pub cx : ℕ
  pub cy : ℕ

abbrev pub blank : ℕ → ℕ → ℕ
blank x y = 0x20

abbrev pub write_at : Console → ℕ → ℕ → ℕ → ℕ
write_at t c x y = if (t.cx == x) && (t.cy == y) then printable c else t.text x y

-- The cursor goes to the next line; below the last line the text is lost, and the cursor stays on it.
abbrev pub line_feed : Console → Console
line_feed t =
    if leb 37 (t.cy + 1)
    then record { text = blank; cx = 0; cy = 36 }
    else record t { cx = 0; cy = t.cy + 1 }

-- What a byte does to the grid: 13 goes to the start of the line and 10 to the next line; any other is
-- written, as a question mark if it is not printable, and the line ends after 100 characters.
abbrev pub type_char : Console → ℕ → Console
type_char t c =
    if c == 13
    then record t { cx = 0 }
    else if c == 10
    then line_feed t
    else if leb 100 (t.cx + 1)
    then line_feed (record t { text = write_at t c; cx = t.cx + 1 })
    else record t { text = write_at t c; cx = t.cx + 1 }

unfoldable pub type_text : Console → List ℕ → Console
type_text t [] = t
type_text t (c ∷ s) = type_text (type_char t c) s

-- Every pixel of the screen has the colour of its character.
abbrev pub Draws : Memory → (ℕ → ℕ → ℕ) → Type 0
Draws fb text =
    (x y row col half : ℕ)
    → OnScreen x y
    → InCell row col half
    → fb (pixel x y row col half) ≡ color_at (glyph (text x y) row) col 0xFF_FFFF 0

-- The console shows the grid, its cursor is that of the grid, and it is on the screen.
pub record Shows (v : Vga) (t : Console) : Type 0 where
  pub ready : v.fb_init_done ≡ true
  pub column : (v.console_cx ≡ t.cx) × (t.cx < 100)
  pub line : (v.console_cy ≡ t.cy) × (t.cy < 37)
  pub draws : Draws v.fb t.text

pub color_at-blank : (row col fg bg : ℕ) → color_at (glyph 0x20 row) col fg bg ≡ bg
color_at-blank row col fg bg = rw (glyph-space row, zero-div (2 ^ col)) refl

clear_all-Draws : (fb : Memory) → Draws (clear_all fb 0) blank
clear_all-Draws fb x y row col half on inside =
    let black : clear_all fb 0 (pixel x y row col half) ≡ 0 = ground arith in
    rw (color_at-blank row col 0xFF_FFFF 0) black

write_at-here :
    (t : Console) (c x y : ℕ) → ((t.cx == x) && (t.cy == y)) ≡ true → write_at t c x y ≡ printable c
write_at-here t c x y e = rw e refl

write_at-away :
    (t : Console) (c x y : ℕ) → ((t.cx == x) && (t.cy == y)) ≡ false → write_at t c x y ≡ t.text x y
write_at-away t c x y e = rw e refl

module _ (fb : Memory) (t : Console) (c : ℕ) (on : OnScreen t.cx t.cy)
    (draws : Draws fb t.text) where
  draw_char-Draws : Draws (draw_char fb t.cx t.cy c 0xFF_FFFF 0) (write_at t c)
  draw_char-Draws x y row col half on' inside = elim (Bool-cases ((t.cx == x) && (t.cy == y))) [
    | inl here ↦
        let (ex, ey) : (x ≡ t.cx) × (y ≡ t.cy) = ground arith in
        rw (write_at-here t c x y here, ex, ey)
          (draw_char-here fb t.cx t.cy c 0xFF_FFFF 0 row col half on inside)
    | inr away ↦ rw (write_at-away t c x y away) (
        draw_char-other fb t.cx t.cy c 0xFF_FFFF 0 (pixel x y row col half) on (λ r k h i e.
          let (ex, ey, _, _, _) = pixel-inj x y row col half t.cx t.cy r k h on' inside on i e in
          absurd (ground arith))
        ∙ draws x y row col half on' inside)
  ]

-- A step of the cursor does not overflow.
step : (n bound : ℕ) → n < 100 → ge_int (int (n + 1)) bound ≡ leb bound (n + 1)
step n bound small = let same : int (n + 1) ≡ n + 1 = omega arith in rw same (ground arith)

-- A line feed of the console is one of the grid.
next_line-Shows :
    (v : Vga) (t : Console)
    → v.fb_init_done ≡ true
    → (v.console_cy ≡ t.cy) × (t.cy < 37)
    → Draws v.fb t.text
    → Shows (next_line v) (line_feed t)
unfolding next_line
next_line-Shows v t ready (same, low) draws =
    let down : int (t.cy + 1) ≡ t.cy + 1 = omega arith in
    let test = step t.cy 37 (omega arith) in
    elim (Bool-cases (leb 37 (t.cy + 1))) [
      | inl last ↦
          rw (same, test, last, ready)
            (record {
              ready = refl;
              column = (refl, omega arith);
              line = (refl, omega arith);
              draws = clear_all-Draws v.fb;
            })
      | inr room ↦
          rw (same, test, room)
            (record {
              ready = ready;
              column = (refl, omega arith);
              line = (down, ground arith);
              draws = draws;
            })
    ]

put_glyph-Shows :
    (v : Vga) (t : Console) (c : ℕ)
    → Shows v t
    → t.cx + 1 < 100
    → Shows (put_glyph v c) (record t { text = write_at t c; cx = t.cx + 1 })
put_glyph-Shows v t c s room =
    let (ex, hx) = s.column in
    let (ey, hy) = s.line in
    record {
      ready = s.ready;
      column = (ap (λ (n : ℕ). int (n + 1)) ex ∙ omega arith, room);
      line = s.line;
      draws = rw (ex, ey) (draw_char-Draws v.fb t c (hx, hy) s.draws);
    }

module _ (v : Vga) (c : ℕ) (ready : v.fb_init_done ≡ true) where
  putc-return : (c == 13) ≡ true → console_putc v c ≡ record v { console_cx = 0 }
  unfolding console_putc
  putc-return e = ground arith

  module _ (more : (c == 13) ≡ false) where
    putc-line : (c == 10) ≡ true → console_putc v c ≡ next_line v
    unfolding console_putc
    putc-line e = ground arith

    putc-last :
        (c == 10) ≡ false
        → ge_int (int (v.console_cx + 1)) 100 ≡ true
        → console_putc v c ≡ next_line (put_glyph v c)
    unfolding console_putc
    putc-last char e = ground arith

    putc-room :
        (c == 10) ≡ false
        → ge_int (int (v.console_cx + 1)) 100 ≡ false
        → console_putc v c ≡ put_glyph v c
    unfolding console_putc
    putc-room char e = ground arith

-- A byte to the console is a byte to the grid.
console_putc-Shows :
    (v : Vga) (t : Console) (c : ℕ) → Shows v t → Shows (console_putc v c) (type_char t c)
console_putc-Shows v t c s =
    let (ex, hx) = s.column in
    let (ey, hy) = s.line in
    elim (Bool-cases (c == 13)) [
      | inl return ↦
          rw (putc-return v c s.ready return, return)
            (record {
              ready = s.ready;
              column = (refl, omega arith);
              line = s.line;
              draws = s.draws;
            })
      | inr more ↦ elim (Bool-cases (c == 10)) [
        | inl line ↦
            rw (putc-line v c s.ready more line, more, line)
              (next_line-Shows v t s.ready s.line s.draws)
        | inr char ↦ elim (Bool-cases (leb 100 (t.cx + 1))) [
          | inl last ↦
              rw
                (
                  putc-last v c s.ready more char
                      (ap (λ (n : ℕ). ge_int (int (n + 1)) 100) ex ∙ step t.cx 100 hx ∙ last),
                  more,
                  char,
                  last,
                )
                (next_line-Shows (put_glyph v c) (record t { text = write_at t c; cx = t.cx + 1 })
                  s.ready s.line (rw (ex, ey) (draw_char-Draws v.fb t c (hx, hy) s.draws)))
          | inr room ↦
              rw
                (
                  putc-room v c s.ready more char
                      (ap (λ (n : ℕ). ge_int (int (n + 1)) 100) ex ∙ step t.cx 100 hx ∙ room),
                  more,
                  char,
                  room,
                )
                (put_glyph-Shows v t c s (ground arith))
        ]
      ]
    ]

-- The console shows after a text what the grid shows after it, if it showed the grid before: every character of
-- the text stands in its cell, in the font of the source, and no other cell changed; after the last line all
-- cells are blank; and the cursor is on the screen.
pub console_puts-Shows :
    (v : Vga) (t : Console) (s : List ℕ) → Shows v t → Shows (console_puts v s) (type_text t s)
unfolding console_puts type_text
console_puts-Shows v t [] h = h
console_puts-Shows v t (c ∷ s) h =
    console_puts-Shows (console_putc v c) (type_char t c) s (console_putc-Shows v t c h)
