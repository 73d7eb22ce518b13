-- ===== src/Patchram/Parameters.antt =====
-- `parse_scopcm` and `parse_i2s` of brcm_patchram_plus/brcm_patchram_plus.c.
use platform_system_bluetoot.Prelude.{
  ℕ, zero, suc, ◌≤◌, ◌≡◌, refl, ap, sym, ◌∙◌, true, [], ◌∷◌, arith, ◌==◌, if◌then◌else◌, Bytes,
  length, take, drop, splice, map, pos, to_uchar, append-nil,
}
use platform_system_bluetoot.Libc.Hex.{AreBytes}
use platform_system_bluetoot.Libc.Scan.{scan_dec, take_sign, skip_spaces, scan_row}
use platform_system_bluetoot.Libc.Rows.{
  scan_row-none, scan_row-last, scan_row-more, scan_dec-print_decimal, print_decimal,
  print_decimals,
}
use platform_system_bluetoot.Patchram.Globals.{Globals}
use platform_system_bluetoot.Patchram.Options.{returned, parse_scopcm, parse_i2s}

-- `sscanf` assigns each of the values.
scan_row-print_decimals :
    (n : ℕ) (vs : Bytes)
    → length vs ≤ n
    → AreBytes vs
    → scan_row scan_dec b',' n (print_decimals vs) ≡ map pos vs
scan_row-print_decimals zero [] h all = unfold scan_row in refl
scan_row-print_decimals zero (v ∷ vs) h all = absurd (omega arith)
scan_row-print_decimals (suc n) [] h all =
    scan_row-none scan_dec b',' n [] (unfold scan_dec take_sign skip_spaces in refl)
scan_row-print_decimals (suc n) (v ∷ []) h (small, all) =
    scan_row-last scan_dec b',' n (print_decimal v) (pos v)
      (ap scan_dec (sym (append-nil (print_decimal v))) ∙ scan_dec-print_decimal v [] small tt)
scan_row-print_decimals (suc n) (v ∷ v' ∷ vs) h (small, all) =
    let left = print_decimals (v' ∷ vs) in
    scan_row-more scan_dec b',' n (print_decimals (v ∷ v' ∷ vs)) (pos v) left refl
      (scan_dec-print_decimal v (b',' ∷ left) small refl)
    ∙ ap (◌∷◌ (pos v)) (scan_row-print_decimals n (v' ∷ vs) (omega arith) all)

length-map_pos : (vs : Bytes) → length (map pos vs) ≡ length vs
length-map_pos [] = refl
length-map_pos (v ∷ vs) = ap suc (length-map_pos vs)

map-to_uchar : (vs : Bytes) → AreBytes vs → map to_uchar (map pos vs) ≡ vs
map-to_uchar [] all = refl
map-to_uchar (v ∷ vs) (small, all) =
    ap (λ w. w ∷ map to_uchar (map pos vs)) (omega arith) ∙ ap (◌∷◌ v) (map-to_uchar vs all)

map-take : (n : ℕ) (vs : Bytes) → AreBytes vs → map to_uchar (take n (map pos vs)) ≡ take n vs
map-take zero [] all = refl
map-take zero (v ∷ vs) all = refl
map-take (suc n) [] all = refl
map-take (suc n) (v ∷ vs) (small, all) =
    ap (λ w. w ∷ map to_uchar (take n (map pos vs))) (omega arith) ∙ ap (◌∷◌ v) (map-take n vs all)

map-drop : (n : ℕ) (vs : Bytes) → AreBytes vs → map to_uchar (drop n (map pos vs)) ≡ drop n vs
map-drop zero vs all = map-to_uchar vs all
map-drop (suc n) [] all = refl
map-drop (suc n) (v ∷ vs) (small, all) = map-drop n vs all

-- For at most four bytes in decimal with commas between them, parse_i2s stores them in the command
-- if there are four, and fails and changes nothing otherwise.
pub parse_i2s-print_decimals :
    (g : Globals) (vs : Bytes)
    → length vs ≤ 4
    → AreBytes vs
    → parse_i2s (print_decimals vs) g ≡ (
        if length vs == 4
        then returned 0 (record g {
          i2s = true;
          hci_write_i2spcm_interface_param = splice g.hci_write_i2spcm_interface_param 4 vs;
        })
        else returned 1 g)
unfolding parse_i2s
parse_i2s-print_decimals g vs h all =
    rw (scan_row-print_decimals 4 vs h all, length-map_pos vs, map-to_uchar vs all) refl

-- For at most ten bytes in decimal with commas between them, parse_scopcm stores the first five of
-- them in one command and the others in the second one if there are ten, and fails and changes
-- nothing otherwise.
pub parse_scopcm-print_decimals :
    (g : Globals) (vs : Bytes)
    → length vs ≤ 10
    → AreBytes vs
    → parse_scopcm (print_decimals vs) g ≡ (
        if length vs == 10
        then returned 0 (record g {
          scopcm = true;
          hci_write_sco_pcm_int = splice g.hci_write_sco_pcm_int 4 (take 5 vs);
          hci_write_pcm_data_format = splice g.hci_write_pcm_data_format 4 (drop 5 vs);
        })
        else returned 1 g)
unfolding parse_scopcm
parse_scopcm-print_decimals g vs h all =
    rw
      (scan_row-print_decimals 10 vs h all, length-map_pos vs, map-take 5 vs all, map-drop 5 vs all)
      refl
