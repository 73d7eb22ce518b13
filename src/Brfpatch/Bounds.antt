-- ===== src/Brfpatch/Bounds.antt =====
-- The arguments of a line of brfpatch/brfpatch.c stay within the arrays.
use platform_system_bluetoot.Prelude.{
  ℕ, zero, suc, ◌+◌, ◌-◌, ◌*◌, ◌≤◌, ◌<◌, ◌≡◌, inl, inr, refl, ap, sym, subst, ◌∙◌, false, some, [],
  ◌∷◌, arith, Bytes, length, drop, ltb, ◌==◌, ◌||◌, length-drop, length-splice, Bool-cases,
  Option-cases,
}
use platform_system_bluetoot.Libc.Scan.{scan_hex}
use platform_system_bluetoot.Patchram.Globals.{le32}
use platform_system_bluetoot.Brfpatch.Memory.{ok, ◌>>=◌, ◌>>◌, fail_if, scan}
use platform_system_bluetoot.Brfpatch.Line.{Cursor, store, take_hex, skip_colon, quoted}
use platform_system_bluetoot.Brfpatch.Safety.{
  InLine, Safe, Safe-bind, Safe-mono, Safe-if, InLine-tail, terminated-InLine, InLine-two,
}

-- Each byte stored has taken two characters at least, so that the array is never full.
pub record Fits (c : Cursor) : Type 0 where
  pub in_line : InLine c.buf
  pub room : 2 * c.dp + length c.buf ≤ 1024
  pub size : length c.data_bytes ≡ 1024

-- From `c` to `c'` the pointer moved by `n` at least.
abbrev pub Went : ℕ → Cursor → Cursor → Type 0
Went n c c' = Fits c' × (length c'.buf + n ≤ length c.buf)

abbrev pub Took : ℕ → ℕ → ℕ → Cursor → Cursor → Type 0
Took w by_buf by_dp c c' =
    (c'.buf ≡ drop by_buf c.buf)
    × (c'.dp ≡ c.dp + by_dp)
    × (length c'.data_bytes ≡ 1024)
    × (v : ℕ × Bytes) × (scan_hex w c.buf ≡ some v)

pub some_byte : (buf : Bytes) → InLine buf → 0 < length buf
some_byte [] h = absurd h
some_byte (c ∷ buf) h = omega arith

pub take_hex-Took :
    (w by_buf by_dp : ℕ) (c : Cursor)
    → InLine c.buf
    → c.dp + 4 ≤ 1024
    → length c.data_bytes ≡ 1024
    → Safe (Took w by_buf by_dp c) (take_hex w by_buf by_dp c)
unfolding take_hex scan store
take_hex-Took w by_buf by_dp c h room size = elim (Option-cases (scan_hex w c.buf)) [
  | inl e ↦ rw (terminated-InLine c.buf h, e) tt
  | inr (v, e) ↦
      let fits : ltb (length c.data_bytes) (c.dp + 4) ≡ false = ground arith in
      rw (terminated-InLine c.buf h, e, fits)
        (refl, refl, length-splice c.data_bytes c.dp (le32 v.0) ∙ size, v, e)
]

-- Two digits within quotes.
two_digits-Went :
    (c : Cursor) (d : ℕ) (buf : Bytes)
    → c.buf ≡ suc d ∷ buf
    → Fits c
    → Safe (Went 2 c) (take_hex 2 2 1 c)
two_digits-Went c d buf e f =
    Safe-mono (Took 2 2 1 c) (Went 2 c) (take_hex 2 2 1 c)
      (take_hex-Took 2 2 1 c f.in_line (omega (arith, f.room, some_byte c.buf f.in_line)) f.size)
      λ c' (at, dp, size, v, read).
        let two = InLine-two d buf v (subst InLine e f.in_line) (ap (scan_hex 2) (sym e) ∙ read) in
        let at2 : c'.buf ≡ drop 2 (suc d ∷ buf) = at ∙ ap (drop 2) e in
        let l : length c'.buf ≡ length (drop 2 (suc d ∷ buf)) = ap length at2 in
        let l0 : length c.buf ≡ length (suc d ∷ buf) = ap length e in
        (
          record {
            in_line = subst InLine (sym at2) two.0;
            room = omega (arith, f.room, two.1);
            size = size;
          },
          omega (arith, two.1),
        )

skip_colon-Went : (c : Cursor) → Fits c → Safe (Went 0 c) (skip_colon c)
unfolding skip_colon
skip_colon-Went c f = go c.buf f
  where
    go :
        (buf : Bytes)
        → Fits (record c { buf = buf })
        → Safe (Went 0 (record c { buf = buf })) (skip_colon (record c { buf = buf }))
    go [] f = absurd f.in_line
    go (zero ∷ buf) f = (f, omega arith)
    go (suc d ∷ buf) f = elim (Bool-cases (suc d == b':')) [
      | inr other ↦ rw other (f, omega arith)
      | inl colon ↦ rw colon (
        record {
          in_line = InLine-tail d buf f.in_line;
          room = omega (arith, f.room);
          size = f.size;
        },
        omega arith,
      )
    ]

-- The loop within quotes, with more rounds than bytes.
pub quoted-Went :
    (rounds : ℕ) (buf : Bytes) (c : Cursor)
    → length buf < rounds
    → Fits (record c { buf = buf })
    → Safe (Went 0 (record c { buf = buf })) (quoted rounds (record c { buf = buf }))
unfolding quoted
quoted-Went zero buf c enough f = absurd (omega arith)
quoted-Went (suc rounds) [] c enough f = absurd f.in_line
quoted-Went (suc rounds) (zero ∷ buf) c enough f = (f, omega arith)
quoted-Went (suc rounds) (suc d ∷ buf) c enough f =
    let c0 : Cursor = record c { buf = suc d ∷ buf } in
    let room : ltb 1024 c.dp ≡ false = ground (arith, f.room) in
    Safe-if (Went 0 c0) (suc d == b'"' || suc d == 0) (ok c0)
      (fail_if (ltb 1024 c.dp) >> take_hex 2 2 1 c0 >>= skip_colon >>= quoted rounds)
      (λ _. (f, omega arith))
      λ _. rw room (
        Safe-bind (Went 2 c0) (Went 0 c0) (take_hex 2 2 1 c0 >>= skip_colon) (quoted rounds)
          (Safe-bind (Went 2 c0) (Went 2 c0) (take_hex 2 2 1 c0) skip_colon
            (two_digits-Went c0 d buf refl f)
            (λ c1 w.
              Safe-mono (Went 0 c1) (Went 2 c0) (skip_colon c1) (skip_colon-Went c1 w.0)
                (λ c2 w2. (w2.0, omega (arith, w.1, w2.1)))))
          λ c1 w.
            Safe-mono (Went 0 c1) (Went 0 c0) (quoted rounds c1)
              (quoted-Went rounds c1.buf c1 (omega (arith, w.1)) w.0)
              (λ c2 w2. (w2.0, omega (arith, w.1, w2.1))))

-- A number whose digits lie within the line.
pub digits-Went :
    (w by_buf by_dp : ℕ) (c : Cursor)
    → Fits c
    → InLine (drop by_buf c.buf)
    → by_buf ≤ length c.buf
    → 2 * by_dp ≤ by_buf
    → Safe (Went 0 c) (take_hex w by_buf by_dp c)
digits-Went w by_buf by_dp c f h long half =
    Safe-mono (Took w by_buf by_dp c) (Went 0 c) (take_hex w by_buf by_dp c)
      (take_hex-Took w by_buf by_dp c f.in_line (omega (arith, f.room, some_byte c.buf f.in_line))
        f.size)
      λ c' (at, dp, size, _, _).
        let l : length c'.buf ≡ length c.buf - by_buf = ap length at ∙ length-drop by_buf c.buf in
        (
          record { in_line = subst InLine (sym at) h; room = omega (arith, f.room); size = size },
          omega arith,
        )
