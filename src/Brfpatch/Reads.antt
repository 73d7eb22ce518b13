-- ===== src/Brfpatch/Reads.antt =====
-- What the readers of process_line of brfpatch/brfpatch.c make of an argument that was printed.
use platform_system_bluetoot.Prelude.{
  ℕ, zero, suc, ◌+◌, ◌/◌, ◌≤◌, ◌<◌, ◌≡◌, refl, ap, sym, ◌∙◌, true, false, [], ◌∷◌, ◌++◌, arith, ltb,
  Bytes, length, drop, splice, splice-nil, append_assoc, append-nil, length-append,
}
use platform_system_bluetoot.Libc.Hex.{
  print_byte, print_bytes, digits, be_value, AreBytes, scan_hex-print_bytes, print_byte-plain,
  print_colon, print_text,
}
use platform_system_bluetoot.Patchram.Globals.{le32}
use platform_system_bluetoot.Brfpatch.Memory.{Result, ok, terminated, scan}
use platform_system_bluetoot.Brfpatch.Line.{Cursor, store, take_hex, skip_colon, quoted}

-- The text that is left, the bytes that were read, and the rest of the array.
abbrev pub cursor : Bytes → Bytes → Bytes → Cursor
cursor t p r = record { buf = t; dp = length p; data_bytes = p ++ r }

pub terminated-cons : (c : ℕ) (t : Bytes) → terminated t ≡ true → terminated (c ∷ t) ≡ true
unfolding terminated
terminated-cons zero t e = refl
terminated-cons (suc c) t e = e

pub terminated-append : (s t : Bytes) → terminated t ≡ true → terminated (s ++ t) ≡ true
terminated-append [] t e = e
terminated-append (c ∷ s) t e = terminated-cons c (s ++ t) (terminated-append s t e)

drop-print_bytes : (bs t : Bytes) → drop (digits bs) (print_bytes bs ++ t) ≡ t
unfolding print_bytes print_byte
drop-print_bytes [] t = refl
drop-print_bytes (b ∷ bs) t = drop-print_bytes bs t

pub scan-print_bytes :
    (b : ℕ) (bs t : Bytes)
    → AreBytes (b ∷ bs)
    → terminated t ≡ true
    → scan (digits (b ∷ bs)) (print_bytes (b ∷ bs) ++ t) ≡ ok (be_value 0 (b ∷ bs))
unfolding scan
scan-print_bytes b bs t all e =
    rw (terminated-append (print_bytes (b ∷ bs)) t e, scan_hex-print_bytes b bs t all) refl

splice-append :
    (p r bs : Bytes) (n m : ℕ) → m ≡ length p + n → splice (p ++ r) m bs ≡ p ++ splice r n bs
splice-append [] r bs n m e = ap (λ k. splice r k bs) (omega arith)
splice-append (x ∷ p) r bs n zero e = absurd (omega arith)
splice-append (x ∷ p) r bs n (suc m) e = ap (◌∷◌ x) (splice-append p r bs n m (omega arith))

store-append :
    (p r : Bytes) (n v m : ℕ)
    → m ≡ length p + n
    → n + 4 ≤ length r
    → store m v (p ++ r) ≡ ok (p ++ splice r n (le32 v))
unfolding store
store-append p r n v m e room =
    let long : ltb (length (p ++ r)) (m + 4) ≡ false = ground (arith, length-append p r) in
    rw long (ap ok (splice-append p r (le32 v) n m e))

-- A read of so many digits, whose number is stored `n` bytes behind those that were read before.
pub take_hex-append :
    (b : ℕ) (bs t p r : Bytes) (by_dp n m : ℕ)
    → AreBytes (b ∷ bs)
    → terminated t ≡ true
    → m ≡ length p + n
    → n + 4 ≤ length r
    → take_hex
        (digits (b ∷ bs))
        (digits (b ∷ bs))
        by_dp
        (record { buf = print_bytes (b ∷ bs) ++ t; dp = m; data_bytes = p ++ r })
      ≡ ok (record {
        buf = t;
        dp = m + by_dp;
        data_bytes = p ++ splice r n (le32 (be_value 0 (b ∷ bs)));
      })
unfolding take_hex
take_hex-append b bs t p r by_dp n m all e at room =
    rw
      (
        scan-print_bytes b bs t all e,
        store-append p r n (be_value 0 (b ∷ bs)) m at room,
        drop-print_bytes (b ∷ bs) t,
      )
      refl

-- The bytes that were read behind `p`, with what the text ends with.
abbrev pub Reads : Bytes → Bytes → Bytes → Bytes → Result Cursor → Type 0
Reads t p out r result =
    (r' : Bytes) × (length out + length r' ≡ length r) × (result ≡ ok (cursor t (p ++ out) r'))

pub ok-cursor :
    (t : Bytes) (n : ℕ) (p out r' data_bytes : Bytes)
    → n ≡ length (p ++ out)
    → data_bytes ≡ out ++ r'
    → ok (record { buf = t; dp = n; data_bytes = p ++ data_bytes }) ≡ ok (cursor t (p ++ out) r')
ok-cursor t n p out r' data_bytes e d =
    ap (λ k. ok (record { buf = t; dp = k; data_bytes = p ++ data_bytes })) e
    ∙ ap (λ x. ok (record { buf = t; dp = length (p ++ out); data_bytes = x }))
        (ap (λ x. p ++ x) d ∙ sym (append_assoc p out r'))

-- A number of at most four bytes, which are `out` in the array with `pad` behind them.
pub digits-Reads :
    (b : ℕ) (bs t p r out pad : Bytes) (by_dp : ℕ)
    → AreBytes (b ∷ bs)
    → terminated t ≡ true
    → 4 ≤ length r
    → le32 (be_value 0 (b ∷ bs)) ≡ out ++ pad
    → length out ≡ by_dp
    → length out + length pad ≡ 4
    → Reads t p out r (
        take_hex (digits (b ∷ bs)) (digits (b ∷ bs)) by_dp (cursor (print_bytes (b ∷ bs) ++ t) p r))
digits-Reads b bs t p [] out pad by_dp all e room le long four = absurd (omega arith)
digits-Reads b bs t p (_ ∷ []) out pad by_dp all e room le long four = absurd (omega arith)
digits-Reads b bs t p (_ ∷ _ ∷ []) out pad by_dp all e room le long four = absurd (omega arith)
digits-Reads b bs t p (_ ∷ _ ∷ _ ∷ []) out pad by_dp all e room le long four = absurd (omega arith)
digits-Reads b bs t p (r0 ∷ r1 ∷ r2 ∷ r3 ∷ r) out pad by_dp all e room le long four =
    let v = be_value 0 (b ∷ bs) in
    (
      pad ++ r,
      omega (arith, length-append pad r),
      take_hex-append b bs t p (r0 ∷ r1 ∷ r2 ∷ r3 ∷ r) by_dp 0 (length p) all e (omega arith) room
          ∙ ok-cursor t (length p + by_dp) p out (pad ++ r) _ (omega (arith, length-append p out)) (
              ap (λ x. le32 v ++ x) (splice-nil r 0)
              ∙ ap (λ x. x ++ r) le
              ∙ append_assoc out pad r),
    )

terminated-print_colon : (bs t : Bytes) → terminated t ≡ true → terminated (print_colon bs t) ≡ true
terminated-print_colon [] t e = e
terminated-print_colon (b ∷ bs) t e = terminated-cons b':' t e

pub terminated-print_text :
    (bs t : Bytes) → terminated t ≡ true → terminated (print_text bs t) ≡ true
terminated-print_text [] t e = e
terminated-print_text (b ∷ bs) t e =
    terminated-append (print_bytes (b ∷ [])) (print_colon bs (print_text bs t))
      (terminated-print_colon bs (print_text bs t) (terminated-print_text bs t e))

skip_colon-print_colon :
    (bs t p r : Bytes)
    → skip_colon (cursor (print_colon bs (print_text bs (b'"' ∷ t))) p r)
      ≡ ok (cursor (print_text bs (b'"' ∷ t)) p r)
unfolding skip_colon
skip_colon-print_colon [] t p r = refl
skip_colon-print_colon (b ∷ bs) t p r = refl

pub le32-1 : (a : ℕ) → a < 256 → le32 (be_value 0 (a ∷ [])) ≡ a ∷ 0 ∷ 0 ∷ 0 ∷ []
le32-1 a ha = ground arith

pub le32-2 : (a b : ℕ) → a < 256 → b < 256 → le32 (be_value 0 (b ∷ a ∷ [])) ≡ a ∷ b ∷ 0 ∷ 0 ∷ []
le32-2 a b ha hb = ground arith

pub le32-3 :
    (a b c : ℕ)
    → a < 256
    → b < 256
    → c < 256
    → le32 (be_value 0 (c ∷ b ∷ a ∷ [])) ≡ a ∷ b ∷ c ∷ 0 ∷ []
le32-3 a b c ha hb hc = ground arith

pub le32-4 :
    (a b c d : ℕ)
    → a < 256
    → b < 256
    → c < 256
    → d < 256
    → le32 (be_value 0 (d ∷ c ∷ b ∷ a ∷ [])) ≡ a ∷ b ∷ c ∷ d ∷ []
le32-4 a b c d ha hb hc hd = ground arith

-- The loop within quotes stops at the second one.
pub quoted-Reads :
    (rounds : ℕ) (bs t p r : Bytes)
    → length bs < rounds
    → AreBytes bs
    → terminated t ≡ true
    → length p + length r ≡ 1024
    → length bs + 4 ≤ length r
    → Reads (b'"' ∷ t) p bs r (quoted rounds (cursor (print_text bs (b'"' ∷ t)) p r))
unfolding quoted print_bytes print_byte
quoted-Reads zero bs t p r enough all e size room = absurd (omega arith)
quoted-Reads (suc rounds) [] t p r enough all e size room =
    (r, omega arith, ap (λ q. ok (cursor (b'"' ∷ t) q r)) (sym (append-nil p)))
quoted-Reads (suc rounds) (b ∷ bs) t p r enough (small, all) e size room =
    let left = print_text bs (b'"' ∷ t) in
    let ended = terminated-print_text bs (b'"' ∷ t) (terminated-cons b'"' t e) in
    let (_, no_nul, no_quote, _) = print_byte-plain (b / 16) (omega arith) in
    let (r1, l1, e1) =
      digits-Reads b [] (print_colon bs left) p r (b ∷ []) (0 ∷ 0 ∷ 0 ∷ []) 1 (small, tt)
        (terminated-print_colon bs left ended) (omega arith) (le32-1 b small) refl refl in
    let (r2, l2, e2) =
      quoted-Reads rounds bs t (p ++ b ∷ []) r1 (omega arith) all e
        (omega (arith, length-append p (b ∷ []))) (omega arith) in
    let fits : ltb 1024 (length p) ≡ false = ground arith in
    (
      r2,
      omega arith,
      rw (no_quote, no_nul, fits, e1, skip_colon-print_colon bs t (p ++ b ∷ []) r1, e2)
          (ap (λ q. ok (cursor (b'"' ∷ t) q r2)) (append_assoc p (b ∷ []) bs)),
    )
