-- ===== src/Vga.antt =====
-- kernel/include/vga.h and kernel/src/vga.c: characters on a screen of 800 by 600 pixels of 32 bits. The search
-- for the display on the bus is not modelled.
pub mod Font
pub mod Cells
pub mod Outside
pub mod Grid
use moonlight_os.Prelude.{
  ℕ, zero, suc, ◌+◌, ◌*◌, ◌/◌, ◌%◌, ◌^◌, ◌||◌, ◌&&◌, Bool, true, false, not, Array, set, ◌==◌, ◌!=◌,
  ltb, leb, if◌then◌else◌, List, [], ◌∷◌,
}
use moonlight_os.Vga.Font.{glyph}

abbrev pub vga_width : ℕ
vga_width = 800

abbrev pub vga_height : ℕ
vga_height = 600

abbrev pub console_cols : ℕ
console_cols = 100

abbrev pub console_rows : ℕ
console_rows = 37

-- An `int` is a word of 32 bits in two's complement, also where it overflows.
abbrev pub int : ℕ → ℕ
int n = n % 2 ^ 32

-- `a >= b`, for a bound that is not negative.
abbrev pub ge_int : ℕ → ℕ → Bool
ge_int a b = leb b a && ltb a (2 ^ 31)

-- The words of memory by their `int` index from the frame buffer: from 2^31 on they lie before it.
abbrev pub Memory : Type 0
Memory = Array ℕ

-- The body of the inner loop of `draw_char` and `vga_console_putc`.
abbrev pub plot : Memory → ℕ → ℕ → ℕ → ℕ → ℕ → Memory
plot fb x y row col colr =
    let px = int (x * 8 + col) in
    let py = int (y * 16 + row * 2) in
    if ge_int px vga_width || ge_int py vga_height
    then fb
    else if ge_int (int (py + 1)) vga_height
    then set fb (int (py * vga_width + px)) colr
    else set (set fb (int (py * vga_width + px)) colr) (int (int (py + 1) * vga_width + px)) colr

-- `(bits & (1 << col)) ? fg : bg`
abbrev pub color_at : ℕ → ℕ → ℕ → ℕ → ℕ
color_at bits col fg bg = if bits / 2 ^ col % 2 != 0 then fg else bg

-- The first `n` rounds of the inner loop.
unfoldable pub draw_cols : Memory → ℕ → ℕ → ℕ → ℕ → ℕ → ℕ → ℕ → Memory
draw_cols fb x y c fg bg row zero = fb
draw_cols fb x y c fg bg row (suc col) =
    plot (draw_cols fb x y c fg bg row col) x y row col (color_at (glyph c row) col fg bg)

-- The first `n` rounds of the outer loop.
unfoldable pub draw_rows : Memory → ℕ → ℕ → ℕ → ℕ → ℕ → ℕ → Memory
draw_rows fb x y c fg bg zero = fb
draw_rows fb x y c fg bg (suc row) = draw_cols (draw_rows fb x y c fg bg row) x y c fg bg row 8

-- `if((unsigned char)c<0x20 || (unsigned char)c>0x7E) c='?';`
abbrev pub printable : ℕ → ℕ
printable c = if ltb c 0x20 || ltb 0x7E c then 0x3F else c

-- `draw_char`
unfoldable pub draw_char : Memory → ℕ → ℕ → ℕ → ℕ → ℕ → Memory
draw_char fb x y c fg bg = draw_rows fb x y (printable c) fg bg 8

-- The variables of the file: `fb`, as the memory it points to, and the position of the console.
pub record Vga : Type 0 where
  pub fb : Memory
  pub fb_init_done : Bool
  pub console_cx : ℕ
  pub console_cy : ℕ

-- `for(i=0;i<VGA_WIDTH*VGA_HEIGHT;i++) fb[i]=color;`
abbrev pub clear_all : Memory → ℕ → Memory
clear_all fb color i = if ltb i (vga_width * vga_height) then color else fb i

-- `vga_clear`
unfoldable pub clear : Vga → ℕ → Vga
clear v color = if not v.fb_init_done then v else record v { fb = clear_all v.fb color }

-- `vga_console_clear`
unfoldable pub console_clear : Vga → Vga
console_clear v = if not v.fb_init_done then v else record v { console_cx = 0; console_cy = 0 }

-- `vga_console_scroll`
unfoldable pub console_scroll : Vga → Vga
console_scroll v =
    if not v.fb_init_done
    then v
    else record v { fb = clear_all v.fb 0; console_cy = 0; console_cx = 0 }

-- `console_cx=0; console_cy++; if(console_cy >= CONSOLE_ROWS){ scroll; console_cy = CONSOLE_ROWS-1; }`
unfoldable pub next_line : Vga → Vga
unfolding console_scroll
next_line v =
    if ge_int (int (v.console_cy + 1)) console_rows
    then record (console_scroll
        (record v { console_cx = 0; console_cy = int (v.console_cy + 1) })) { console_cy = 36 }
    else record v { console_cx = 0; console_cy = int (v.console_cy + 1) }

-- The character at the position of the console, and one column to the right.
abbrev pub put_glyph : Vga → ℕ → Vga
put_glyph v c = record v {
  fb = draw_char v.fb v.console_cx v.console_cy c 0xFF_FFFF 0;
  console_cx = int (v.console_cx + 1);
}

-- `vga_console_putc`
unfoldable pub console_putc : Vga → ℕ → Vga
console_putc v c =
    if not v.fb_init_done
    then v
    else if c == 13
    then record v { console_cx = 0 }
    else if c == 10
    then next_line v
    else if ge_int (int (v.console_cx + 1)) console_cols
    then next_line (put_glyph v c)
    else put_glyph v c

-- `vga_console_puts` of a string that is not NULL.
unfoldable pub console_puts : Vga → List ℕ → Vga
console_puts v [] = v
console_puts v (c ∷ s) = console_puts (console_putc v c) s

-- The loops of `vga_puts`, `vga_puts_at` and `vga_render_text` from a position: lines start in the column
-- `x₀`, and `wraps` says whether a line ends after the last column.
unfoldable pub puts_from : Memory → List ℕ → ℕ → Bool → ℕ → ℕ → ℕ → ℕ → Memory
puts_from fb [] x₀ wraps x y fg bg = fb
puts_from fb (c ∷ s) x₀ wraps x y fg bg =
    puts_from (if c == 10 then fb else draw_char fb x y c fg bg) s x₀ wraps
      (if c == 10 || (wraps && ge_int (int (x + 1)) console_cols) then x₀ else int (x + 1))
      (if c == 10 || (wraps && ge_int (int (x + 1)) console_cols) then int (y + 1) else y) fg bg

-- `vga_puts`
unfoldable pub puts : Vga → List ℕ → Vga
puts v s =
    if not v.fb_init_done then v else record v { fb = puts_from v.fb s 0 true 0 0 0xFF_FFFF 0 }

-- `vga_puts_at`
unfoldable pub puts_at : Vga → List ℕ → ℕ → ℕ → ℕ → ℕ → Vga
puts_at v s x y fg bg =
    if not v.fb_init_done then v else record v { fb = puts_from v.fb s x false x y fg bg }

-- `vga_render_text`
unfoldable pub render_text : Vga → List ℕ → ℕ → ℕ → ℕ → ℕ → Vga
render_text v s x y fg bg =
    if not v.fb_init_done then v else record v { fb = puts_from v.fb s x true x y fg bg }

-- `vga_draw_hello`
unfoldable pub draw_hello : Vga → Vga
draw_hello v =
    if not v.fb_init_done
    then v
    else console_puts (console_clear v)
        (72 ∷ 101 ∷ 108 ∷ 108 ∷ 111 ∷ 32 ∷ 119 ∷ 111 ∷ 114 ∷ 108 ∷ 100 ∷ 10 ∷ [])
